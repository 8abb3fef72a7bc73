-- ===== src/PoolManager/Orphans/Tests.antt =====
-- A recovery with a store in memory, and its theorems at it.
use win_validator.Base.{
  ℕ, zero, suc, ◌≡◌, refl, true, List, [], ◌∷◌, Option, none, some, codes, All, ok,
}
use win_validator.PoolManager.Paths.{path_name}
use win_validator.PoolManager.Store.{running, done, Row, JobStore}
use win_validator.PoolManager.Store.Memory.{memory}
use win_validator.PoolManager.Store.Fence.{Recorded, Once}
use win_validator.PoolManager.Process.{Failure}
use win_validator.PoolManager.Orphans.{Orphan, consumes, recover, recover_orphans}
use win_validator.PoolManager.Orphans.Recovery.{recover_orphans-Once, recover_orphans-consumed}

abbrev abandoned : Row
abandoned = record {
  status = running;
  claim = some 7;
  finished_at = none;
  result = none;
  error = none;
}

abbrev finished : Row
finished = record abandoned { status = done }

abbrev rows : ℕ → Option Row
rows zero = some finished
rows (suc _) = some abandoned

abbrev store : JobStore Failure
store = memory

-- The first row has been finished since it was listed.
abbrev orphans : List Orphan
orphans =
    record { job_id = 0; filename = codes "a"; unlinks = true }
    ∷ record { job_id = 1; filename = codes "b"; unlinks = true }
    ∷ record { job_id = 2; filename = codes ".."; unlinks = true }
    ∷ []

removed : (recover_orphans store 5 (ok orphans) rows).1 ≡ 1 ∷ []
unfolding recover_orphans recover consumes path_name
removed = refl

recover_orphans-Once_example : Once store 2 none rows (recover_orphans store 5 (ok orphans) rows).0
recover_orphans-Once_example = recover_orphans-Once store 5 (ok orphans) rows 2

recover_orphans-consumed_example :
    All
      (λ id. Recorded store id none (recover_orphans store 5 (ok orphans) rows).0)
      (recover_orphans store 5 (ok orphans) rows).1
recover_orphans-consumed_example = recover_orphans-consumed store 5 (ok orphans) rows
