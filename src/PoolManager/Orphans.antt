-- ===== src/PoolManager/Orphans.antt =====
-- `_recover_orphans`: the RUNNING rows of a previous life of the manager are failed at start.
pub mod Recovery
mod Tests
use win_validator.Base.{
  ℕ, Bool, true, false, not, ◌&&◌, ◌||◌, List, [], ◌∷◌, Option, none, some, Text, codes, is_empty,
  Outcome, ok, raised, if◌then◌else◌,
}
use win_validator.PoolManager.Paths.{path_name, is_dot, is_dotdot}
use win_validator.PoolManager.Store.{Status, running, failed, Update, JobStore}
use win_validator.PoolManager.Process.{Failure}

-- A RUNNING row of this tier's engine, as it was listed, and whether the walk to its spooled input
-- and the unlink go through.
pub record Orphan : Type 0 where
  pub job_id : ℕ
  pub filename : Text
  pub unlinks : Bool

abbrev pub orphaned : ℕ → Update
orphaned now = record {
  status = failed;
  finished_at = now;
  result = none;
  error = some (codes "orphaned by a pool-manager restart");
}

-- Whether the spooled input goes, once the row has been updated.
unfoldable pub consumes : Orphan → Bool
consumes job =
    let name = path_name job.filename in
    not (is_empty name) && not (is_dot name || is_dotdot name) && job.unlinks

module _ (store : JobStore Failure) (now : ℕ) where
  open store use {S, update_if_status}

  -- What one row adds to the rest of the loop.
  abbrev pub add_consumed : Outcome Failure Bool → Orphan → S × List ℕ → S × List ℕ
  add_consumed (ok true) job (end, gone) = (end, if consumes job then job.job_id ∷ gone else gone)
  add_consumed (ok false) job rest = rest
  add_consumed (raised e) job rest = rest

  -- The loop: the store, and the jobs whose input is gone.
  unfoldable pub recover : List Orphan → S → S × List ℕ
  unfolding consumes
  recover [] st = (st, [])
  recover (job ∷ jobs) st =
      let (r, st') = update_if_status job.job_id running none (orphaned now) st in
      let rest = recover jobs st' in add_consumed r job rest

  -- A store that cannot list its rows recovers nothing.
  unfoldable pub recover_orphans : Outcome Failure (List Orphan) → S → S × List ℕ
  unfolding recover
  recover_orphans (raised e) st = (st, [])
  recover_orphans (ok jobs) st = recover jobs st
