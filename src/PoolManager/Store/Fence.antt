-- ===== src/PoolManager/Store/Fence.antt =====
-- What a sequence of swaps that expect RUNNING under one claim does to the store.
use win_validator.Base.{
  ℕ, ◌==◌, ==_iff, Bool-cases, arith, ◌≡◌, ◌≢◌, ◌⊎◌, inl, inr, refl, sym, ap, subst, ◌∙◌, Bool,
  true, false, Option, some, Outcome, ok, raised,
}
use win_validator.PoolManager.Store.{
  Status, running, done, failed, queued, Row, Update, updated, JobStore, Effect, Swapped, Claims,
}

abbrev pub IsTerminal : Status → Type 0
IsTerminal queued = ⊥
IsTerminal running = ⊥
IsTerminal done = Unit
IsTerminal failed = Unit

terminal-not_running : (s : Status) → IsTerminal s → s ≢ running
terminal-not_running queued h = λ e. h
terminal-not_running running h = λ e. h
terminal-not_running done h = λ e. cc
terminal-not_running failed h = λ e. cc

module _ {E : Type 0} (store : JobStore E) (id : ℕ) (claim : Option ℕ) where
  open store use {S, get, update_if_status, swaps, accepts, others}

  -- The row has a terminal status.
  abbrev pub Recorded : S → Type 0
  Recorded st = (row : Row) × (get id st ≡ some row) × IsTerminal row.status

  -- The row stands as before, or it was running under the claim and was updated once, to a
  -- terminal status.
  abbrev pub Once : S → S → Type 0
  Once before st =
      (get id st ≡ get id before)
      ⊎ ((u : Update) × IsTerminal u.status × Swapped get id running claim u before st)

  -- Nothing else happened to the store.
  pub record Fenced (before st : S) : Type 0 where
    pub once : Once before st
    pub others_stay : (j : ℕ) → j ≢ id → get j st ≡ get j before

  pub Fenced-refl : (st : S) → Fenced st st
  Fenced-refl st = record { once = inl refl; others_stay = λ j h. refl }

  Once-running :
      (before st : S) (row : Row)
      → Once before st
      → get id st ≡ some row
      → row.status ≡ running
      → get id st ≡ get id before
  Once-running before st row (inl same) g h = same
  Once-running before st row (inr (u, t, (old, o, old_status, held, new))) g h =
      absurd (terminal-not_running u.status t (same_status (sym new ∙ g) ∙ h))
    where
      same_status : some (updated u old) ≡ some row → u.status ≡ row.status
      same_status e = let same : updated u old ≡ row = cc in ap (λ r. r.status) same

  Once-swap :
      (before st st' : S) (u : Update)
      → Once before st
      → IsTerminal u.status
      → Swapped get id running claim u st st'
      → Once before st'
  Once-swap before st st' u once t (row, g, is_running, held, new) =
      inr
        (u, t, (row, sym (Once-running before st row once g is_running) ∙ g, is_running, held, new))

  -- A swap that went through records the row; none takes a recorded one back.
  abbrev pub Settles : S → S → Outcome E Bool × S → Type 0
  Settles before st (ok true, st') = Fenced before st' × Recorded st'
  Settles before st (ok false, st') = Fenced before st' × (st' ≡ st)
  Settles before st (raised _, st') = Fenced before st' × (Recorded st → Recorded st')

  Swapped-Recorded :
      (st st' : S) (u : Update)
      → IsTerminal u.status
      → Swapped get id running claim u st st'
      → Recorded st'
  Swapped-Recorded st st' u t (row, g, is_running, held, new) = (updated u row, new, t)

  Effect-Settles :
      (before st : S) (u : Update) (r : Outcome E Bool × S)
      → Fenced before st
      → IsTerminal u.status
      → Effect get id running claim u st r
      → ((j : ℕ) → j ≢ id → get j r.1 ≡ get j st)
      → Settles before st r
  Effect-Settles before st u (ok true, st') f t e o = (
    record {
      once = Once-swap before st st' u f.once t e;
      others_stay = λ j h. o j h ∙ f.others_stay j h;
    },
    Swapped-Recorded st st' u t e,
  )
  Effect-Settles before st u (ok false, st') f t e o = (subst (Fenced before) (sym e) f, e)
  Effect-Settles before st u (raised x, st') f t (inl e) o =
      (subst (Fenced before) (sym e) f, subst Recorded (sym e))
  Effect-Settles before st u (raised x, st') f t (inr e) o = (
    record {
      once = Once-swap before st st' u f.once t e;
      others_stay = λ j h. o j h ∙ f.others_stay j h;
    },
    λ _. Swapped-Recorded st st' u t e,
  )

  pub swap-Settles :
      (before st : S) (u : Update)
      → Fenced before st
      → IsTerminal u.status
      → Settles before st (update_if_status id running claim u st)
  swap-Settles before st u f t =
      Effect-Settles before st u (update_if_status id running claim u st) f t
        (swaps id running claim u st) (λ j. others id j running claim u st)

  -- The claimed row, still as it was, is accepted.
  pub accepts-running :
      (before st : S) (u : Update) (row : Row)
      → Fenced before st
      → get id before ≡ some row
      → row.status ≡ running
      → Claims claim row
      → (update_if_status id running claim u st).0 ≡ ok false
      → Recorded st
  accepts-running before st u row f g h held refused = elim (f.once) [
    | inl same ↦ absurd (accepts id running claim u st row (same ∙ g) h held refused)
    | inr (u', t, swapped) ↦ Swapped-Recorded before st u' t swapped
  ]

  -- A swap of any row, under the claim where it is this one, does at most one terminal update here.
  Effect-Once :
      (before st : S) (u : Update) (r : Outcome E Bool × S)
      → Once before st
      → IsTerminal u.status
      → Effect get id running claim u st r
      → Once before r.1
  Effect-Once before st u (ok true, st') o t e = Once-swap before st st' u o t e
  Effect-Once before st u (ok false, st') o t e = subst (Once before) (sym e) o
  Effect-Once before st u (raised x, st') o t (inl e) = subst (Once before) (sym e) o
  Effect-Once before st u (raised x, st') o t (inr e) = Once-swap before st st' u o t e

  Once-same : (before st st' : S) → get id st' ≡ get id st → Once before st → Once before st'
  Once-same before st st' e (inl same) = inl (e ∙ same)
  Once-same before st st' e (inr (u, t, (row, g, is_running, held, new))) =
      inr (u, t, (row, g, is_running, held, e ∙ new))

  pub Once-update :
      (before st : S) (j : ℕ) (u : Update)
      → IsTerminal u.status
      → Once before st
      → Once before (update_if_status j running claim u st).1
  Once-update before st j u t o = elim (Bool-cases (id == j)) [
    | inl same ↦
        let here : id ≡ j = (==_iff id j).0 same in
        subst (λ k. Once before (update_if_status k running claim u st).1) here
          (Effect-Once before st u (update_if_status id running claim u st) o t
            (swaps id running claim u st))
    | inr other ↦
        Once-same before st (update_if_status j running claim u st).1
          (others j id running claim u st (ground arith)) o
  ]

  Effect-Recorded :
      (st : S) (u : Update) (r : Outcome E Bool × S)
      → Recorded st
      → IsTerminal u.status
      → Effect get id running claim u st r
      → Recorded r.1
  Effect-Recorded st u (ok true, st') o t e = Swapped-Recorded st st' u t e
  Effect-Recorded st u (ok false, st') o t e = subst Recorded (sym e) o
  Effect-Recorded st u (raised x, st') o t (inl e) = subst Recorded (sym e) o
  Effect-Recorded st u (raised x, st') o t (inr e) = Swapped-Recorded st st' u t e

  -- A recorded row stays recorded.
  pub Recorded-update :
      (st : S) (j : ℕ) (u : Update)
      → IsTerminal u.status
      → Recorded st
      → Recorded (update_if_status j running claim u st).1
  Recorded-update st j u t o = elim (Bool-cases (id == j)) [
    | inl same ↦
        let here : id ≡ j = (==_iff id j).0 same in
        subst (λ k. Recorded (update_if_status k running claim u st).1) here
          (Effect-Recorded st u (update_if_status id running claim u st) o t
            (swaps id running claim u st))
    | inr other ↦
        let (row, g, terminal) = o in
        (row, others j id running claim u st (ground arith) ∙ g, terminal)
  ]

  -- The row of a swap that went through is recorded.
  pub swapped-Recorded :
      (st : S) (u : Update)
      → IsTerminal u.status
      → (update_if_status id running claim u st).0 ≡ ok true
      → Recorded (update_if_status id running claim u st).1
  swapped-Recorded st u t e =
      by_result (update_if_status id running claim u st) (swaps id running claim u st) e
    where
      by_result :
          (r : Outcome E Bool × S)
          → Effect get id running claim u st r
          → r.0 ≡ ok true
          → Recorded r.1
      by_result (ok true, st') swapped e = Swapped-Recorded st st' u t swapped
      by_result (ok false, st') swapped e = cc
      by_result (raised x, st') swapped e = cc
