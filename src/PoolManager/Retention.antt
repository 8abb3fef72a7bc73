-- ===== src/PoolManager/Retention.antt =====
-- `_sweep_one` and `_sweep_job_root`: the retention of job directories and of scratch trees. Times
-- are seconds; what `lstat`, the store and the removal answer for an entry is a record.
pub mod Kept
mod Tests
use win_validator.Base.{
  ℕ, ◌-◌, ◌*◌, Bool, true, false, not, ◌&&◌, ◌||◌, List, [], ◌∷◌, ◌++◌, Option, none, some, or_else,
  Text, codes, text_eq, ltb, ◌==◌, Outcome, ok, raised, if◌then◌else◌,
}
use win_validator.PoolManager.Store.{Status, queued, running, done, failed}

pub record Row : Type 0 where
  pub status : Status
  pub finished_at : Option ℕ

pub record Entry : Type 0 where
  pub name : Text
  pub is_link : Bool
  pub is_dir : Bool
  pub mtime : ℕ
  pub row : Outcome (Unit {0}) (Option Row)
  pub removes : Bool

abbrev pub is_live : Status → Bool
is_live queued = true
is_live running = true
is_live done = false
is_live failed = false

abbrev pub keeps : ℕ → Option Row → Bool
keeps cutoff none = false
keeps cutoff (some row) = is_live row.status || ltb cutoff (or_else row.finished_at 0)

-- Whether the entry is removed. A store that raises keeps it.
unfoldable pub sweep_one : (in_job_root : Bool) → ℕ → Entry → Bool
sweep_one in_job_root cutoff d =
    if d.is_link || not d.is_dir || ltb cutoff d.mtime
    then false
    else if text_eq d.name (codes "lost+found")
    then false
    else elim (if in_job_root then d.row else ok none) [
      | raised _ ↦ false
      | ok row ↦ not (keeps cutoff row) && d.removes
    ]

-- A root's entries, `none` where it cannot be listed; what is left of them.
unfoldable pub sweep_root : (in_job_root : Bool) → ℕ → List Entry → List Entry
unfolding sweep_one
sweep_root in_job_root cutoff [] = []
sweep_root in_job_root cutoff (d ∷ ds) =
    let rest = sweep_root in_job_root cutoff ds in
    if sweep_one in_job_root cutoff d then rest else d ∷ rest

abbrev sweep_listed : (in_job_root : Bool) → ℕ → Option (List Entry) → Option (List Entry)
sweep_listed in_job_root cutoff none = none
sweep_listed in_job_root cutoff (some ds) = some (sweep_root in_job_root cutoff ds)

-- `_sweep_job_root`, with the retention in seconds: none switches it off, and one that is longer than
-- the clock keeps everything.
unfoldable pub sweep :
    (retention now : ℕ)
    → Option (List Entry) × Option (List Entry)
    → Option (List Entry) × Option (List Entry)
unfolding sweep_root
sweep retention now (jobs, scratch) =
    if retention == 0 || ltb now retention
    then (jobs, scratch)
    else (sweep_listed true (now - retention) jobs, sweep_listed false (now - retention) scratch)
