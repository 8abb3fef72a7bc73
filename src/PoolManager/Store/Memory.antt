-- ===== src/PoolManager/Store/Memory.antt =====
-- A job store in memory, which shows that the interface's laws can hold.
use win_validator.Base.{
  ℕ, ◌≡◌, ◌≢◌, inl, inr, refl, sym, Bool, true, false, ◌&&◌, Option, none, some, Outcome, ok, ◌==◌,
  ==_refl, if◌then◌else◌, arith, Bool-cases,
}
use win_validator.PoolManager.Store.{
  Status, queued, running, done, failed, Row, Update, updated, Claims, Effect, JobStore,
}

abbrev same_status : Status → Status → Bool
same_status queued queued = true
same_status running running = true
same_status done done = true
same_status failed failed = true
same_status _ _ = false

abbrev same_claim : Option ℕ → Option ℕ → Bool
same_claim none held = true
same_claim (some c) none = false
same_claim (some c) (some d) = c == d

abbrev Rows : Type 0
Rows = ℕ → Option Row

abbrev fits : Status → Option ℕ → Row → Bool
fits expect claim row = same_status row.status expect && same_claim claim row.claim

abbrev put : ℕ → Row → Rows → Rows
put id row rows j = if j == id then some row else rows j

abbrev swap_row : ℕ → Status → Option ℕ → Update → Rows → Option Row → Bool × Rows
swap_row id expect claim u rows none = (false, rows)
swap_row id expect claim u rows (some row) =
    if fits expect claim row then (true, put id (updated u row) rows) else (false, rows)

abbrev swap_rows : {E : Type 0} → ℕ → Status → Option ℕ → Update → Rows → Outcome E Bool × Rows
swap_rows id expect claim u rows =
    let (b, rows') = swap_row id expect claim u rows (rows id) in (ok b, rows')

same_status-eq : (s t : Status) → same_status s t ≡ true → s ≡ t
same_status-eq s t h = ground arith

fits-true :
    (expect : Status) (claim : Option ℕ) (row : Row)
    → fits expect claim row ≡ true
    → (row.status ≡ expect) × Claims claim row
fits-true expect none row h = ground arith
fits-true expect (some c) row h = ground arith

fits_complete : (claim : Option ℕ) (row : Row) → Claims claim row → fits row.status claim row ≡ true
fits_complete none row h = ground arith
fits_complete (some c) row h = ground arith

pub swap_rows-swaps :
    (E : Type 0) (id : ℕ) (expect : Status) (claim : Option ℕ) (u : Update) (rows : Rows)
    → Effect {S = Rows} {E = E}
        (λ id rows. rows id)
        id
        expect
        claim
        u
        rows
        (swap_rows id expect claim u rows)
swap_rows-swaps E id expect claim u rows = by_row (rows id) refl
  where
    by_row :
        (o : Option Row)
        → rows id ≡ o
        → Effect {S = Rows} {E = E}
            (λ id rows. rows id)
            id
            expect
            claim
            u
            rows
            (ok (swap_row id expect claim u rows o).0, (swap_row id expect claim u rows o).1)
    by_row none e = refl
    by_row (some row) e = elim (Bool-cases (fits expect claim row)) [
      | inl yes_fits ↦
          let (same, held) = fits-true expect claim row yes_fits in
          let put_there : put id (updated u row) rows id ≡ some (updated u row) =
            rw (==_refl id) refl in
          rw yes_fits (row, e, same, held, put_there)
      | inr no_fit ↦ rw no_fit refl
    ]

pub swap_rows-others :
    (E : Type 0) (id j : ℕ) (expect : Status) (claim : Option ℕ) (u : Update) (rows : Rows)
    → j ≢ id
    → (swap_rows {E = E} id expect claim u rows).1 j ≡ rows j
swap_rows-others E id j expect claim u rows h = by_row (rows id)
  where
    by_row : (o : Option Row) → (swap_row id expect claim u rows o).1 j ≡ rows j
    by_row none = refl
    by_row (some row) = ground arith

pub swap_rows-accepts :
    (E : Type 0) (id : ℕ) (expect : Status) (claim : Option ℕ) (u : Update) (rows : Rows)
    (row : Row)
    → rows id ≡ some row
    → row.status ≡ expect
    → Claims claim row
    → (swap_rows {E = E} id expect claim u rows).0 ≢ ok false
swap_rows-accepts E id expect claim u rows row g h held refused =
    let fitting : fits expect claim row ≡ true = rw (sym h) (fits_complete claim row held) in
    cc (rw (g, fitting) at refused)

abbrev pub memory : {E : Type 0} → JobStore E
memory {E} = record {
  S = Rows;
  get = λ id rows. rows id;
  update_if_status = swap_rows;
  swaps = swap_rows-swaps E;
  accepts = swap_rows-accepts E;
  others = swap_rows-others E;
}
