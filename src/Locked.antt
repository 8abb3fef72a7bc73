-- ===== src/Locked.antt =====
-- golden_rotate.py: `_rotate_locked`, the composition of `_promote` (Promotion), `_record_chain` (Chain)
-- and `_prune_backups` (Prune) on one store: the twins, the records of the chain, the backup folder and
-- the folder of the mirror. The markers of the backup folder stand with the records. An exception of
-- another kind than those two is left to Rotation.
pub mod Ends
mod Tests
use win_validator.Base.{
  ℕ, ◌≡◌, Bool, true, false, List, ◌∷◌, ◌++◌, Option, none, some, Text, codes, ℤ, Outcome, ok,
  raised, if◌then◌else◌,
}
use win_validator.Promotion.{
  Answers, Files, Result, promoted, nothing_published, split_state, promote,
}
use win_validator.Chain.{Depth, Records, Writes, record_chain}
use win_validator.Chain.Markers.{pruned_records}
use win_validator.Prune.{File, Setting, path_in, drop_name, prune_backups}

pub record Store : Type 0 where
  pub disk : Option Text
  pub ram : Option Text
  pub records : Records
  pub backups : List File
  pub mirror : List File
  pub taken : Option Text  -- what the backup of this rotation holds

-- What a rotation is given: the prune's setting, what the commands answer, MAX_CHAIN, the candidate's
-- path and content, the name of the backup that it may take, and where a keep sidecar lands.
pub record Request : Type 0 where
  pub setting : Setting
  pub answers : Answers
  pub writes : Writes
  pub max_chain : ℤ
  pub candidate : Text
  pub content : Text
  pub backup_name : Text
  pub marks_beside : Bool

-- NothingPublished, or SplitState with or without an intact backup
pub data Raise : Type 0 where
  not_published : Raise
  split : (intact : Bool) → Raise

-- A name that is written: a rename replaces what stood there.
abbrev pub written : Text → ℕ → List File → List File
written n now fs = record { name = n; mtime = some now } ∷ drop_name n fs

module _ (q : Request) where
  abbrev pub now : ℕ
  now = q.setting.now

  abbrev pub keep_name : Text
  keep_name = q.backup_name ++ codes ".keep"

  abbrev pub with_backup : Option Text → List File → List File
  with_backup none fs = fs
  with_backup (some _) fs = written q.backup_name now fs

  -- The folders behind the promotion: its backup, and the sidecar that marks it kept.
  unfoldable pub backups_after : Files → List File → List File
  backups_after f fs =
      let with_it = with_backup f.backup fs in
      if f.is_kept
      then (if q.marks_beside then written keep_name now with_it else with_it)
      else with_it

  unfoldable pub mirror_after : Files → List File → List File
  mirror_after f fs =
      if f.is_kept then (if q.marks_beside then fs else written keep_name now fs) else fs

  abbrev record_time : Records → Option ℕ
  record_time r = elim r.chain [ none ↦ none | some d ↦ some d.mtime ]

  abbrev pub recorded : Store → Records
  recorded st = record_chain q.max_chain q.writes now st.records

  -- The prune, with the candidate and the backup that a split state names.
  unfoldable pub finished : Files → Records → Option Text → Store → Store
  unfolding backups_after mirror_after pruned_records
  finished f records also_keep st =
      let (backups, mirror) =
        prune_backups q.setting (record_time records) (some q.candidate) also_keep
          (backups_after f st.backups) (mirror_after f st.mirror) in
      record {
        disk = f.disk;
        ram = f.ram;
        records = pruned_records q.setting records;
        backups = backups;
        mirror = mirror;
        taken = f.backup;
      }

  abbrev pub backup_path : Text
  backup_path = path_in q.setting.backup_dir q.backup_name

  abbrev pub after_promote : Result × Files → Store → Outcome Raise (Unit {0}) × Store
  unfolding finished
  after_promote (promoted, f) st = (ok tt, finished f (recorded st) none st)
  after_promote (nothing_published, f) st = (raised not_published, finished f st.records none st)
  after_promote (split_state intact, f) st = (
    raised (split intact),
    finished f (recorded st) (if intact then some backup_path else none) st,
  )

  -- What the promotion starts from: no backup of its own and no temporaries.
  abbrev pub files_of : Store → Files
  files_of st = record {
    disk = st.disk;
    ram = st.ram;
    backup = none;
    is_kept = false;
    disk_tmp = none;
    ram_tmp = none;
    rollback_tmp = none;
  }

  unfoldable pub rotate_locked : Store → Outcome Raise (Unit {0}) × Store
  unfolding after_promote
  rotate_locked st = after_promote (promote q.answers q.content (files_of st)) st
