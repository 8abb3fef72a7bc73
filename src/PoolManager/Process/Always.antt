-- ===== src/PoolManager/Process/Always.antt =====
-- What every step of `_process` keeps, raise or not.
use win_validator.Base.{
  ℕ, ◌≡◌, inl, inr, sym, subst, Bool, true, false, List, [], ◌∷◌, ◌++◌, Text, length, Outcome, ok,
  raised, ltb, is_empty, arith, Bool-cases,
}
use win_validator.PoolManager.Store.Fence.{IsTerminal, Fenced, Settles, swap-Settles}
use win_validator.PoolManager.Store.{running, Update, JobStore}
use win_validator.Envelope.{Summary, extract_verdict}
use win_validator.PoolManager.Process.{
  summary_of, Failure, Job, Step, Answers, Locals, doing, swap, checked_name, open_spool,
  check_stat, make_scratch, copy_loop, check_digest, validate_copy, final_update, publish_output,
  body, failed_update, handle, begin,
}
use win_validator.PoolManager.Process.Invariant.{
  After, Runs, Runs->>=, doing-Runs, InStore, Matches, Inv, Unrun, Stated, Copied, Digested,
  begin-Unrun,
}

module _ (store : JobStore Failure) (max_input : ℕ) (job : Job) (a : Answers)
    (before : store.S) where
  open store use {S, get, update_if_status, swaps}

  checked_name-Runs :
      Runs
        (Unrun store max_input job a before)
        (checked_name store max_input job a)
        (λ _. (Unrun store max_input job a before))
        (Inv store max_input job a before)
  unfolding checked_name
  checked_name-Runs s p = ground arith

  doing-Unrun :
      {A : Type 0} (r : Outcome Failure A) (change : Locals S → Locals S)
      → ((s : Locals S)
          → (Unrun store max_input job a before) s
          → (Unrun store max_input job a before) (change s))
      → Runs
          (Unrun store max_input job a before)
          (doing r change)
          (λ _. (Unrun store max_input job a before))
          (Inv store max_input job a before)
  doing-Unrun r change h =
      doing-Runs (Unrun store max_input job a before) (Unrun store max_input job a before)
        (Inv store max_input job a before) r change h (λ s p. p.0)

  open_spool-Runs :
      (name : Text)
      → Runs
          (Unrun store max_input job a before)
          (open_spool store max_input job a name)
          (λ _. (Unrun store max_input job a before))
          (Inv store max_input job a before)
  unfolding open_spool
  open_spool-Runs name =
      Runs->>= (Unrun store max_input job a before) _ (λ _. (Unrun store max_input job a before)) _
        (λ _. (Unrun store max_input job a before)) (Inv store max_input job a before)
        (doing-Unrun (a.open_job job.result_dir) _ (λ s p. ground arith))
        (λ _.
          Runs->>= (Unrun store max_input job a before) _
            (λ _. (Unrun store max_input job a before)) _
            (λ _. (Unrun store max_input job a before)) (Inv store max_input job a before)
            (doing-Unrun a.open_input_dir _ (λ s p. ground arith))
            (λ _. doing-Unrun (a.open_input name) _ (λ s p. ground arith)))

  check_stat-Runs :
      Runs
        (Unrun store max_input job a before)
        (check_stat store max_input job a)
        (λ _. (Stated store max_input job a before))
        (Inv store max_input job a before)
  unfolding check_stat
  check_stat-Runs s p = ground arith

  make_scratch-Runs :
      Runs
        (Stated store max_input job a before)
        (make_scratch store max_input job a)
        (λ _. (Stated store max_input job a before))
        (Inv store max_input job a before)
  unfolding make_scratch
  make_scratch-Runs s p = ground arith

  copy_loop-Runs :
      (sample : Text) (reads : List (Outcome Failure Text))
      → Runs
          ((Copied store max_input job a before) sample)
          (copy_loop store max_input job a sample reads)
          (Copied store max_input job a before)
          (Inv store max_input job a before)
  unfolding copy_loop
  copy_loop-Runs sample [] s p = p
  copy_loop-Runs sample (raised e ∷ reads) s p = p.0
  copy_loop-Runs sample (ok chunk ∷ reads) s p = elim (Bool-cases (is_empty chunk)) [
    | inl over ↦ rw (copy_loop, over) p
    | inr more ↦ elim (Bool-cases (ltb max_input (length (sample ++ chunk)))) [
      | inl big ↦ rw (copy_loop, more, big) p.0
      | inr small ↦
          rw (copy_loop, more, small)
            (copy_loop-Runs (sample ++ chunk) reads (record s { copied = sample ++ chunk })
              (ground arith))
    ]
  ]

  copy-Runs :
      Runs
        (Stated store max_input job a before)
        (copy_loop store max_input job a [] a.reads)
        (Copied store max_input job a before)
        (Inv store max_input job a before)
  copy-Runs s p = copy_loop-Runs [] a.reads s (ground arith)

  check_digest-Runs :
      (sample : Text)
      → Runs
          ((Copied store max_input job a before) sample)
          (check_digest store max_input job a sample)
          (λ _. (Digested store max_input job a before) sample)
          (Inv store max_input job a before)
  unfolding check_digest
  check_digest-Runs sample s p = ground arith

  validate_copy-Runs :
      (sample : Text)
      → Runs
          ((Digested store max_input job a before) sample)
          (validate_copy store max_input job a sample)
          (λ _. (Inv store max_input job a before))
          (Inv store max_input job a before)
  unfolding validate_copy
  validate_copy-Runs sample =
      Runs->>= ((Digested store max_input job a before) sample)
        (doing (ok tt) (λ s. record s { validated = true }))
        (λ _. (Inv store max_input job a before)) _ (λ _. (Inv store max_input job a before))
        (Inv store max_input job a before)
        (doing-Runs ((Digested store max_input job a before) sample)
          (Inv store max_input job a before) (Inv store max_input job a before) (ok tt)
          (λ s. record s { validated = true })
          (λ s p. record {
            recorded_row = p.0.0.recorded_row;
            published_row = p.0.0.published_row;
            fenced = p.0.0.fenced;
            bounded = p.0.0.bounded;
            checked =
                λ _. (p.0.3, p.0.0.bounded, subst (Matches store max_input job a before) p.0.4 p.1);
            kept = λ k. cc;
            in_place = p.0.0.in_place;
          })
          (λ s p. p.0.0))
        (λ _.
          Runs->>= (Inv store max_input job a before) _ (λ _. (Inv store max_input job a before)) _
            (λ _. (Inv store max_input job a before)) (Inv store max_input job a before)
            (doing-Runs (Inv store max_input job a before) (Inv store max_input job a before)
              (Inv store max_input job a before) (a.run sample) _ (λ s p. p) (λ s p. p))
            (λ env.
              doing-Runs (Inv store max_input job a before) (Inv store max_input job a before)
                (Inv store max_input job a before)
                (summary_of store max_input job a (extract_verdict a.loads env)) _ (λ s p. p)
                (λ s p. p)))

  pub Inv-swapped :
      (s : Locals S) (st : S) (b : Bool)
      → (Inv store max_input job a before) s
      → Fenced store job.job_id job.claim_id before st
      → (b ≡ true → (InStore store max_input job a before) st)
      → (s.published ≡ true → (InStore store max_input job a before) st)
      → (Inv store max_input job a before) (record s { store = st; recorded = b })
  Inv-swapped s st b p f h k = record {
    recorded_row = h;
    published_row = k;
    fenced = f;
    bounded = p.bounded;
    checked = p.checked;
    kept = p.kept;
    in_place = p.in_place;
  }

  pub swap-Runs :
      (u : Update)
      → IsTerminal u.status
      → Runs
          (Inv store max_input job a before)
          (swap store max_input job a u)
          (λ _. (Inv store max_input job a before))
          (Inv store max_input job a before)
  swap-Runs u h s p =
      settled (update_if_status job.job_id running job.claim_id u s.store)
        (swap-Settles store job.job_id job.claim_id before s.store u p.fenced h)
    where
      settled :
          (r : Outcome Failure Bool × S)
          → Settles store job.job_id job.claim_id before s.store r
          → After {S = S} {A = Unit {0}}
              (λ _. (Inv store max_input job a before))
              (Inv store max_input job a before)
              (elim (r.0) [
                | ok b ↦ (ok tt, record s { store = r.1; recorded = b })
                | raised e ↦ (raised e, record s { store = r.1 })
              ])
      settled (ok true, st) e = Inv-swapped s st true p e.0 (λ _. e.1) (λ _. e.1)
      settled (ok false, st) e =
          Inv-swapped s st false p e.0 (λ impossible. cc)
            (λ b. subst (InStore store max_input job a before) (sym e.1) (p.published_row b))
      settled (raised x, st) e =
          Inv-swapped s st s.recorded p e.0 (λ b. e.1 (p.recorded_row b))
            (λ b. e.1 (p.published_row b))

  publish_output-Runs :
      Runs
        (Inv store max_input job a before)
        (publish_output store max_input job a)
        (λ _. (Inv store max_input job a before))
        (Inv store max_input job a before)
  unfolding publish_output
  publish_output-Runs s p = ground arith

  final_update-IsTerminal :
      (summary : Summary) → IsTerminal (final_update store max_input job a summary).status
  final_update-IsTerminal summary = ground arith

  -- The body, up to what a swap leaves and the publication keeps.
  pub body-Runs :
      (R : Locals S → Type 0)
      → ((u : Update)
          → IsTerminal u.status
          → Runs
              (Inv store max_input job a before)
              (swap store max_input job a u)
              (λ _. R)
              (Inv store max_input job a before))
      → Runs R (publish_output store max_input job a) (λ _. R) (Inv store max_input job a before)
      → Runs
          (Unrun store max_input job a before)
          (body store max_input job a)
          (λ _. R)
          (Inv store max_input job a before)
  unfolding body
  body-Runs R h k =
      Runs->>= (Unrun store max_input job a before) _ (λ _. (Unrun store max_input job a before)) _
        (λ _. R) (Inv store max_input job a before) checked_name-Runs
        (λ name.
          Runs->>= (Unrun store max_input job a before) _
            (λ _. (Unrun store max_input job a before)) _ (λ _. R)
            (Inv store max_input job a before) (open_spool-Runs name)
            (λ _.
              Runs->>= (Unrun store max_input job a before) _
                (λ _. (Stated store max_input job a before)) _ (λ _. R)
                (Inv store max_input job a before) check_stat-Runs
                (λ _.
                  Runs->>= (Stated store max_input job a before) _
                    (λ _. (Stated store max_input job a before)) _ (λ _. R)
                    (Inv store max_input job a before) make_scratch-Runs
                    (λ _.
                      Runs->>= (Stated store max_input job a before) _
                        (Copied store max_input job a before) _ (λ _. R)
                        (Inv store max_input job a before) copy-Runs
                        (λ sample.
                          Runs->>= ((Copied store max_input job a before) sample) _
                            (λ _. (Digested store max_input job a before) sample) _ (λ _. R)
                            (Inv store max_input job a before) (check_digest-Runs sample)
                            (λ _.
                              Runs->>= ((Digested store max_input job a before) sample) _
                                (λ _. (Inv store max_input job a before)) _ (λ _. R)
                                (Inv store max_input job a before) (validate_copy-Runs sample)
                                (λ summary.
                                  Runs->>= (Inv store max_input job a before) _ (λ _. R) _ (λ _. R)
                                    (Inv store max_input job a before)
                                    (h (final_update store max_input job a summary)
                                      (final_update-IsTerminal summary))
                                    (λ _. k))))))))

  After-state :
      {A : Type 0} (r : Outcome Failure A × Locals S)
      → After (λ _. (Inv store max_input job a before)) (Inv store max_input job a before) r
      → (Inv store max_input job a before) r.1
  After-state (ok x, s) p = p
  After-state (raised e, s) p = p

  handle-Inv :
      (r : Step × Locals S)
      → After (λ _. (Inv store max_input job a before)) (Inv store max_input job a before) r
      → (Inv store max_input job a before) (handle store max_input job a r)
  unfolding handle
  handle-Inv (ok _, s) p = p
  handle-Inv (raised e, s) p =
      After-state (swap store max_input job a (failed_update store max_input job a e) s)
        (swap-Runs (failed_update store max_input job a e) tt s p)

  -- The state in which the `finally` runs.
  abbrev pub before_clean_up : Locals S
  before_clean_up =
      handle store max_input job a (body store max_input job a (begin store max_input job a before))

  pub before_clean_up-Inv : (Inv store max_input job a before) before_clean_up
  before_clean_up-Inv =
      handle-Inv (body store max_input job a (begin store max_input job a before)) (
        body-Runs (Inv store max_input job a before) swap-Runs publish_output-Runs
          (begin store max_input job a before) (begin-Unrun store max_input job a before))
