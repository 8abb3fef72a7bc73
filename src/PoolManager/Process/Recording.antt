-- ===== src/PoolManager/Process/Recording.antt =====
-- What `_process` leaves in the store, and when it consumes the spooled input.
use win_validator.Base.{
  ℕ, ◌≡◌, ◌≢◌, refl, sym, ap, subst, Bool, true, false, some, Outcome, ok, raised, arith,
}
use win_validator.PoolManager.Store.{running, Row, Update, JobStore, Claims}
use win_validator.PoolManager.Store.Fence.{
  IsTerminal, Recorded, Fenced, Settles, swap-Settles, accepts-running,
}
use win_validator.PoolManager.Process.{
  Failure, Job, Answers, Locals, Step, swap, publish_output, body, failed_update, handle, clean_up,
  begin, process,
}
use win_validator.PoolManager.Process.Invariant.{Runs, After, Inv, begin-Unrun}
use win_validator.PoolManager.Process.Always.{
  Inv-swapped, body-Runs, before_clean_up, before_clean_up-Inv,
}

-- A step that never raises.
After-total :
    {S A : Type 0} (Q : A → Locals S → Type 0) (E : Locals S → Type 0)
    (r : Outcome Failure A × Locals S)
    → After Q (λ _. ⊥) r
    → After Q E r
After-total Q E (ok x, s) h = h
After-total Q E (raised e, s) h = absurd h

After-state :
    {S A : Type 0} (Q : Locals S → Type 0) (r : Outcome Failure A × Locals S)
    → After (λ _. Q) (λ _. ⊥) r
    → Q r.1
After-state Q (ok x, s) h = h
After-state Q (raised e, s) h = absurd h

module _ (store : JobStore Failure) (max_input : ℕ) (job : Job) (a : Answers)
    (before : store.S) where
  open store use {S, get, update_if_status}

  -- Whatever happens, the row of the job stands as before or was running under the claim and was
  -- updated once, to a terminal status; no other row changes.
  pub process-Fenced :
      Fenced store job.job_id job.claim_id before (process store max_input job a before).store
  unfolding process clean_up
  process-Fenced = (before_clean_up-Inv store max_input job a before).fenced

  clean_up-consumed :
      (s : Locals S)
      → s.spooled ≡ true
      → (clean_up store max_input job a s).spooled ≡ false
      → (s.recorded ≡ true) × (s.keep_input ≡ false)
  unfolding clean_up
  clean_up-consumed s p h = ground arith

  -- The spooled input loses its name only when the row has a terminal status and the input is not
  -- kept as evidence.
  pub process-consumed :
      (process store max_input job a before).spooled ≡ false
      → Recorded store job.job_id job.claim_id (process store max_input job a before).store
        × ((process store max_input job a before).keep_input ≡ false)
  unfolding process clean_up
  process-consumed h =
      let inv = before_clean_up-Inv store max_input job a before in
      let (recorded, not_kept) =
        clean_up-consumed (before_clean_up store max_input job a before) inv.in_place h in
      (inv.recorded_row recorded, not_kept)

  -- Output is published only when the row has a terminal status.
  pub process-published :
      (process store max_input job a before).published ≡ true
      → Recorded store job.job_id job.claim_id (process store max_input job a before).store
  unfolding process clean_up
  process-published = (before_clean_up-Inv store max_input job a before).published_row

  module _ (row : Row) (there : get job.job_id before ≡ some row)
      (is_running : row.status ≡ running) (held : Claims job.claim_id row)
      (answers : (u : Update) (st : S) (e : Failure)
        → (update_if_status job.job_id running job.claim_id u st).0 ≢ raised e) where
    abbrev InStore : Locals S → Type 0
    InStore s = Inv store max_input job a before s × Recorded store job.job_id job.claim_id s.store

    swap-InStore :
        (u : Update)
        → IsTerminal u.status
        → Runs
            (Inv store max_input job a before)
            (swap store max_input job a u)
            (λ _. InStore)
            (λ _. ⊥)
    swap-InStore u t s p =
        settled (update_if_status job.job_id running job.claim_id u s.store) refl
          (swap-Settles store job.job_id job.claim_id before s.store u p.fenced t)
      where
        settled :
            (r : Outcome Failure Bool × S)
            → update_if_status job.job_id running job.claim_id u s.store ≡ r
            → Settles store job.job_id job.claim_id before s.store r
            → After {S = S} {A = Unit {0}}
                (λ _. InStore)
                (λ _. ⊥)
                (elim (r.0) [
                  | ok b ↦ (ok tt, record s { store = r.1; recorded = b })
                  | raised e ↦ (raised e, record s { store = r.1 })
                ])
        settled (ok true, st) same e =
            (Inv-swapped store max_input job a before s st true p e.0 (λ _. e.1) (λ _. e.1), e.1)
        settled (ok false, st) same e =
            let recorded = subst (Recorded store job.job_id job.claim_id) (sym e.1) (
              accepts-running store job.job_id job.claim_id before s.store u row p.fenced there
                is_running held (ap (λ r. r.0) same)) in
            (
              Inv-swapped store max_input job a before s st false p e.0 (λ _. recorded)
                  (λ _. recorded),
              recorded,
            )
        settled (raised x, st) same e = answers u s.store x (ap (λ r. r.0) same)

    publish_output-InStore :
        Runs InStore
          (publish_output store max_input job a)
          (λ _. InStore)
          (Inv store max_input job a before)
    unfolding publish_output
    publish_output-InStore s p = ground arith

    handle-InStore :
        (r : Step × Locals S)
        → After (λ _. InStore) (Inv store max_input job a before) r
        → Recorded store job.job_id job.claim_id (handle store max_input job a r).store
    unfolding handle
    handle-InStore (ok _, s) p = p.1
    handle-InStore (raised e, s) p =
        (After-state InStore (swap store max_input job a (failed_update store max_input job a e) s)
          (swap-InStore (failed_update store max_input job a e) tt s p)).1

    -- A job that is claimed does not stay running, whatever fails, as long as the store answers.
    pub process-records :
        Recorded store job.job_id job.claim_id (process store max_input job a before).store
    unfolding process clean_up
    process-records =
        handle-InStore (body store max_input job a (begin store max_input job a before)) (
          body-Runs store max_input job a before InStore
            (λ u t s p.
              After-total (λ _. InStore) (Inv store max_input job a before)
                (swap store max_input job a u s) (swap-InStore u t s p))
            publish_output-InStore (begin store max_input job a before)
            (begin-Unrun store max_input job a before))
