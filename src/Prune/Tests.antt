-- ===== src/Prune/Tests.antt =====
-- Runs of the prune, and its theorems at a folder of four backups and a candidate.
use win_validator.Base.{
  ℕ, String, ◌≡◌, refl, true, List, [], ◌∷◌, none, some, Text, codes, map, text_eq, if◌then◌else◌,
}
use win_validator.Prune.{
  File, Setting, find_file, build_hold, prune_backups, held_by, rebake_src_live, held_backups,
  prune_all, path_in,
}
use win_validator.Prune.Ranks.{prune_backups-Ranks, prune_backups-spares}

abbrev setting : Setting
setting = record {
  keep_n = 2;
  keep_days = 7;
  now = 1000000;
  backup_dir = codes "/b";
  mirror_dir = codes "/m";
  resolve = λ p. p;
  is_builder = text_eq (codes "41");
  proc_start = λ pid. if text_eq pid (codes "41") then some (codes "900") else none;
  removes = λ _. true;
}

abbrev file : String → ℕ → File
file n t = record { name = codes n; mtime = some t }

abbrev old_name : Text
old_name = codes "golden-base.20240101-000000.qcow2"

abbrev old_file : File
old_file = record { name = old_name; mtime = some 5 }

abbrev candidate_name : Text
candidate_name = codes "golden-base.candidate-20230101-7.qcow2"

abbrev candidate_file : File
candidate_file = record { name = candidate_name; mtime = some 3 }

-- Two old backups of which the oldest is held by a running build, two new ones, a candidate that is
-- a year old, one that nothing keeps, a hold and a stale hold.
abbrev folder : List File
folder =
    file "golden-base.20240103-000000.qcow2" 9
    ∷ old_file
    ∷ file "golden-base.20240102-000000.qcow2" 9
    ∷ file "golden-base.20230102-000000.qcow2" 2
    ∷ candidate_file
    ∷ file "golden-base.built-20230101-8.qcow2" 3
    ∷ file "golden-base.20230102-000000.qcow2.keep.build-41.900" 4
    ∷ file "golden-base.20240101-000000.qcow2.keep.build-41.7" 4
    ∷ []

abbrev pruned : List File
pruned = (prune_backups setting none (some (path_in (codes "/b") candidate_name)) none folder []).0

build_hold_runs :
    build_hold (codes "golden-base.x.qcow2.keep.build-41.900")
    ≡ some (codes "golden-base.x.qcow2", codes "41", some (codes "900"))
unfolding build_hold
build_hold_runs = refl

build_hold_foreign : build_hold (codes "golden-base.x.qcow2.keep.build-41.9a") ≡ none
unfolding build_hold
build_hold_foreign = refl

prune_backups_runs :
    map (λ f. f.name) pruned
    ≡ codes "golden-base.20240103-000000.qcow2"
      ∷ codes "golden-base.20240102-000000.qcow2"
      ∷ codes "golden-base.20230102-000000.qcow2"
      ∷ candidate_name
      ∷ codes "golden-base.20230102-000000.qcow2.keep.build-41.900"
      ∷ []
unfolding prune_backups held_backups prune_all rebake_src_live build_hold
prune_backups_runs = refl

prune_backups-Ranks_example : find_file old_name pruned ≡ none
unfolding held_by
prune_backups-Ranks_example =
    prune_backups-Ranks setting none (some (path_in (codes "/b") candidate_name)) none folder []
      (refl, (refl, (refl, (refl, (refl, (refl, (refl, (refl, tt)))))))) old_name old_file refl refl

prune_backups-spares_example : find_file candidate_name pruned ≡ some candidate_file
prune_backups-spares_example =
    prune_backups-spares setting none (some (path_in (codes "/b") candidate_name)) none folder []
      candidate_name refl refl
