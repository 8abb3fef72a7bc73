-- ===== src/PoolManager/Orphans/Recovery.antt =====
-- What the recovery of orphans does to the store and to their inputs.
use win_validator.Base.{
  ℕ, ◌≡◌, inl, inr, refl, Bool, true, false, List, [], ◌∷◌, none, Outcome, ok, raised, All,
  Bool-cases,
}
use win_validator.PoolManager.Store.{running, JobStore}
use win_validator.PoolManager.Store.Fence.{
  Recorded, Once, Once-update, Recorded-update, swapped-Recorded,
}
use win_validator.PoolManager.Process.{Failure}
use win_validator.PoolManager.Orphans.{
  Orphan, orphaned, consumes, add_consumed, recover, recover_orphans,
}

module _ (store : JobStore Failure) (now : ℕ) where
  open store use {S, update_if_status}

  -- A property of the store that no swap of a RUNNING row to a failed one takes away outlives the loop.
  recover_keeps :
      (P : S → Type 0)
      → ((job : Orphan) (st : S)
          → P st
          → P (update_if_status job.job_id running none (orphaned now) st).1)
      → (jobs : List Orphan) (st : S) → P st
      → P (recover store now jobs st).0
  unfolding recover
  recover_keeps P h [] st p = p
  recover_keeps P h (job ∷ jobs) st p =
      by_result (update_if_status job.job_id running none (orphaned now) st).0
        (recover store now jobs (update_if_status job.job_id running none (orphaned now) st).1)
        (recover_keeps P h jobs (update_if_status job.job_id running none (orphaned now) st).1
          (h job st p))
    where
      by_result :
          (r : Outcome Failure Bool) (rest : S × List ℕ)
          → P rest.0
          → P (add_consumed store now r job rest).0
      by_result (ok true) (end, gone) p = p
      by_result (ok false) (end, gone) p = p
      by_result (raised e) (end, gone) p = p

  -- Whatever the store lists and answers: each row of it stands as before, or was RUNNING and was
  -- updated once, to a terminal status.
  pub recover_orphans-Once :
      (listed : Outcome Failure (List Orphan)) (before : S) (id : ℕ)
      → Once store id none before (recover_orphans store now listed before).0
  unfolding recover_orphans
  recover_orphans-Once (raised e) before id = inl refl
  recover_orphans-Once (ok jobs) before id =
      recover_keeps (Once store id none before)
        (λ job st. Once-update store id none before st job.job_id (orphaned now) tt) jobs before
        (inl refl)

  recover-consumed :
      (jobs : List Orphan) (st : S)
      → All
          (λ id. Recorded store id none (recover store now jobs st).0)
          (recover store now jobs st).1
  unfolding recover
  recover-consumed [] st = tt
  recover-consumed (job ∷ jobs) st =
      by_result (update_if_status job.job_id running none (orphaned now) st).0
        (recover store now jobs (update_if_status job.job_id running none (orphaned now) st).1)
        (recover-consumed jobs (update_if_status job.job_id running none (orphaned now) st).1)
        (λ e.
          recover_keeps (Recorded store job.job_id none)
            (λ other st. Recorded-update store job.job_id none st other.job_id (orphaned now) tt)
            jobs (update_if_status job.job_id running none (orphaned now) st).1
            (swapped-Recorded store job.job_id none st (orphaned now) tt e))
    where
      by_result :
          (r : Outcome Failure Bool) (rest : S × List ℕ)
          → All (λ id. Recorded store id none rest.0) rest.1
          → (r ≡ ok true → Recorded store job.job_id none rest.0)
          → All
              (λ id. Recorded store id none (add_consumed store now r job rest).0)
              (add_consumed store now r job rest).1
      by_result (ok true) (end, gone) h k = elim (Bool-cases (consumes job)) [
        | inl goes ↦ rw goes (k refl, h)
        | inr stays ↦ rw stays h
      ]
      by_result (ok false) (end, gone) h k = h
      by_result (raised e) (end, gone) h k = h

  -- Every input that the recovery removes is that of a job whose row has a terminal status.
  pub recover_orphans-consumed :
      (listed : Outcome Failure (List Orphan)) (before : S)
      → All
          (λ id. Recorded store id none (recover_orphans store now listed before).0)
          (recover_orphans store now listed before).1
  unfolding recover_orphans
  recover_orphans-consumed (raised e) before = tt
  recover_orphans-consumed (ok jobs) before = recover-consumed jobs before
