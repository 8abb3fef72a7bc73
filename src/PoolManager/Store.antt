-- ===== src/PoolManager/Store.antt =====
-- blastbox's JobStore, as far as the pool-manager relies on it: rows by id, and a compare-and-swap
-- on the status and the claim. Ids and claims are numbers.
pub mod Fence
pub mod Memory
use win_validator.Base.{
  ℕ, Bool, true, false, Option, none, some, Text, Outcome, ok, raised, ◌≡◌, ◌≢◌, ◌⊎◌, inl, inr,
}
use win_validator.Envelope.{Summary}

pub data Status : Type 0 where
  queued running done failed : Status

pub record Row : Type 0 where
  pub status : Status
  pub claim : Option ℕ
  pub finished_at : Option ℕ
  pub result : Option Summary
  pub error : Option Text

-- What an update sets; the fields that it does not name stay.
pub record Update : Type 0 where
  pub status : Status
  pub finished_at : ℕ
  pub result : Option Summary
  pub error : Option Text

abbrev or_keep {ℓ} : {A : Type ℓ} → Option A → Option A → Option A
or_keep none old = old
or_keep (some new) old = some new

abbrev pub updated : Update → Row → Row
updated u row = record row {
  status = u.status;
  finished_at = some u.finished_at;
  result = or_keep u.result row.result;
  error = or_keep u.error row.error;
}

-- `expect_claim_id`, when it is given, must be the row's.
abbrev pub Claims : Option ℕ → Row → Type 0
Claims none row = Unit
Claims (some c) row = row.claim ≡ some c

module _ {S : Type 0} (get : ℕ → S → Option Row) where
  -- The swap happened: the row stood as expected, and is updated.
  abbrev pub Swapped : ℕ → Status → Option ℕ → Update → S → S → Type 0
  Swapped id expect claim u s s' =
      (row : Row) × (get id s ≡ some row)
      × (row.status ≡ expect)
      × Claims claim row
      × (get id s' ≡ some (updated u row))

module _ {S E : Type 0} (get : ℕ → S → Option Row) where
  -- A refused swap changes nothing; one that raised may have been committed.
  abbrev pub Effect : ℕ → Status → Option ℕ → Update → S → Outcome E Bool × S → Type 0
  Effect id expect claim u s (ok true, s') = Swapped get id expect claim u s s'
  Effect id expect claim u s (ok false, s') = s' ≡ s
  Effect id expect claim u s (raised e, s') = (s' ≡ s) ⊎ Swapped get id expect claim u s s'

pub record JobStore (E : Type 0) : Type 1 where
  pub S : Type 0
  pub get : ℕ → S → Option Row
  pub update_if_status : ℕ → Status → Option ℕ → Update → S → Outcome E Bool × S
  pub swaps :
      (id : ℕ) (expect : Status) (claim : Option ℕ) (u : Update) (s : S)
      → Effect get id expect claim u s (update_if_status id expect claim u s)
  pub accepts :
      (id : ℕ) (expect : Status) (claim : Option ℕ) (u : Update) (s : S) (row : Row)
      → get id s ≡ some row
      → row.status ≡ expect
      → Claims claim row
      → (update_if_status id expect claim u s).0 ≢ ok false
  pub others :
      (id j : ℕ) (expect : Status) (claim : Option ℕ) (u : Update) (s : S)
      → j ≢ id
      → get j (update_if_status id expect claim u s).1 ≡ get j s
