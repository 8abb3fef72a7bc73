-- ===== src/Locked/Tests.antt =====
-- Rotations under the lock with KEEP_N = 0, and the theorem at a split state.
use win_validator.Base.{◌≡◌, refl, true, false, [], ◌∷◌, none, some, Text, codes, pos, map}
use win_validator.Promotion.{
  Copy, Answers, is_whole, roll_from, roll_back, rename_ram, rename_disk, copy_ram_twin,
  copy_disk_twin, promote,
}
use win_validator.Chain.{record_chain, candidate_depth}
use win_validator.Prune.{
  path_in, prune_backups, held_backups, prune_all, rebake_src_live, build_hold,
}
use win_validator.Locked.{
  Store, Request, rotate_locked, after_promote, finished, backups_after, mirror_after,
}
use win_validator.Locked.Ends.{Named, Ends, rotate_locked-Ends}

abbrev whole : Copy
whole = record { made = true; returns_0 = true; bytes = 9; has_mode = true }

-- The RAM rename fails, and the copy of the rollback is cut short.
abbrev answers : Answers
answers = record {
  odd_base = false;
  free_disk = 9;
  free_ram = 9;
  copy_disk = whole;
  copy_ram = whole;
  free_backup = 9;
  backup_returns_0 = true;
  backup_bytes = 9;
  backup_renames = true;
  disk_renames = true;
  ram_renames = false;
  backup_exists = true;
  rollback = record whole { bytes = 2 };
  rollback_renames = true;
  removes = true;
  marks = false;
}

abbrev candidate_name : Text
candidate_name = codes "golden-base.candidate-7.qcow2"

abbrev request : Request
request = record {
  setting = record {
    keep_n = 0;
    keep_days = 7;
    now = 2000000;
    backup_dir = codes "/b";
    mirror_dir = codes "/m";
    resolve = λ p. p;
    is_builder = λ p. false;
    proc_start = λ p. none;
    removes = λ p. true;
  };
  answers = answers;
  writes = record {
    mirror = true;
    chain = true;
    removes = true;
    renames = true;
    touches = true;
    marker_name = codes "golden-base.candidate-7.qcow2.chain.unrecorded";
    built = 6;
  };
  max_chain = pos 7;
  candidate = path_in (codes "/b") candidate_name;
  content = codes "new!";
  backup_name = codes "golden-base.20240101-000000.qcow2";
  marks_beside = true;
}

abbrev store : Store
store = record {
  disk = some (codes "old");
  ram = some (codes "old");
  records = record { chain = none; mirror = none; markers = []; sidecar = some (some (codes "3")) };
  backups =
      record { name = codes "golden-base.20230101-000000.qcow2"; mtime = some 5 }
      ∷ record { name = candidate_name; mtime = some 6 }
      ∷ [];
  mirror = [];
  taken = none;
}

rotate_locked_runs :
    map (λ f. f.name) (rotate_locked request store).1.backups
    ≡ codes "golden-base.20240101-000000.qcow2" ∷ candidate_name ∷ []
unfolding rotate_locked after_promote finished backups_after mirror_after promote copy_disk_twin
    copy_ram_twin is_whole rename_disk rename_ram roll_back roll_from prune_backups held_backups
    prune_all rebake_src_live build_hold record_chain candidate_depth
rotate_locked_runs = refl

names : Named request candidate_name
names = record {
  image = refl;
  there = refl;
  filled = refl;
  backup = refl;
  apart = refl;
  no_sidecar = refl;
}

rotate_locked-Ends_example : Ends request candidate_name store (rotate_locked request store)
rotate_locked-Ends_example = rotate_locked-Ends request candidate_name names store
