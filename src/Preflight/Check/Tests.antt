-- ===== src/Preflight/Check/Tests.antt =====
-- Preflights of a retry with a hold on its candidate, and the theorem there.
use win_validator.Base.{
  ◌≡◌, refl, true, false, [], ◌∷◌, none, some, Text, codes, text_eq, pos, map, ◌++◌, ok, raised,
  arith,
}
use win_validator.Egress.{Blastbox}
use win_validator.Chain.{chain_length}
use win_validator.Chain.Markers.{pruned_records}
use win_validator.Prune.{prune_backups, held_backups, prune_all, rebake_src_live, build_hold}
use win_validator.Preflight.{enough_space}
use win_validator.Preflight.Host.{Host, State, beside_mirror, not_root, first_checks}
use win_validator.Preflight.Check.{
  under_lock, prune_and_seed, seed_where, seeded, lock_with, last_checks, begun_with,
  rotation_preflight,
}
use win_validator.Preflight.Check.Ends.{Ends, rotation_preflight-Ends}

abbrev candidate_name : Text
candidate_name = codes "golden-base.candidate-7.qcow2"

abbrev suffix : Text
suffix = codes ".keep.build-42.9"

abbrev blastbox : Blastbox
blastbox = record {
  parse_ports = λ raw. ok none;
  parse_bool = λ raw. ok true;
  is_routing_driver = λ d. false;
  is_supported_exit = λ d. true;
  parse_ip_pool = λ p. ok tt;
  has_names = true;
}

-- The process 42 runs; the disk image's filesystem takes no sidecar.
abbrev host : Host
host = record {
  setting = record {
    keep_n = 1;
    keep_days = 7;
    now = 2000000;
    backup_dir = codes "/b";
    mirror_dir = codes "/m";
    resolve = λ p. p;
    is_builder = text_eq (codes "42");
    proc_start = λ p. some (codes "9");
    removes = λ p. true;
  };
  keep = some (codes "/b/golden-base.candidate-7.qcow2");
  hold_suffix = some suffix;
  candidate_built = true;
  source_copy = false;
  gate_samples = false;
  estimate = some 5;
  is_root = true;
  legacy = [];
  golden_base = codes "/dev/shm/golden-base.qcow2";
  graveyard = [];
  warm_dir = [];
  env = (codes "AUTHENTICODE_EXIT", codes "none") ∷ [];
  bridge = (true, true);
  is_file = λ p. false;
  is_dir = λ p. false;
  lock_opens = true;
  grants = false ∷ true ∷ [];
  marks_backup = false;
  marks_mirror = true;
  probe_written = true;
  chain_written = true;
  mirror_written = true;
  max_chain = pos 7;
  disk_exists = true;
  odd_base = false;
  stranded_hours = 24;
  benign = [];
  revoked = [];
  gate_spec = false;
  sizes = [];
  places = record { backups = (1, 50); disk_base = (1, 50); ram_base = (2, 10) };
}

-- An old candidate that is the run's own, and a stale record beside the golden.
abbrev before : State
before = record {
  backups = record { name = candidate_name; mtime = some 6 } ∷ [];
  mirror = [];
  records = record {
    chain = some (record { mtime = 5; depth = some (pos 1) });
    mirror = some (record { mtime = 6; depth = some (pos 3) });
    markers = [];
    sidecar = none;
  };
}

-- The hold goes beside the mirror, the candidate stays, and the record is brought to the depth 3.
held_and_seeded :
    let (v, hold, end) = under_lock host before in
    (hold ≡ some (beside_mirror, candidate_name ++ suffix))
    × (map (λ f. f.name) end.backups ≡ candidate_name ∷ [])
    × (map (λ f. f.name) end.mirror ≡ (candidate_name ++ suffix) ∷ [])
    × (end.records.chain ≡ some (record { mtime = 2000000; depth = some (pos 3) }))
unfolding pruned_records under_lock lock_with prune_and_seed seed_where seeded chain_length
    prune_backups held_backups prune_all rebake_src_live build_hold
held_and_seeded = (refl, refl, refl, refl)

last_checks_pass : last_checks host ≡ ok tt
unfolding last_checks enough_space
last_checks_pass = refl

without_root :
    rotation_preflight blastbox (record host { is_root = false }) before ≡ (raised not_root, before)
unfolding rotation_preflight begun_with first_checks
without_root = refl

rotation_preflight-Ends_example :
    Ends blastbox host before (rotation_preflight blastbox host before)
rotation_preflight-Ends_example =
    rotation_preflight-Ends blastbox host before (refl, refl, refl, refl)
      (omega arith, omega arith, tt)
