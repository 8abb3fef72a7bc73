-- ===== src/PoolManager/Process/Invariant.antt =====
-- What holds between the steps of `_process`, and how a step is shown to keep it.
use win_validator.Base.{
  text_eq, ◌||◌, ℕ, ◌≤◌, ◌≡◌, true, false, [], Text, length, Outcome, ok, raised, is_empty, arith,
}
use win_validator.PoolManager.Store.Fence.{Recorded, Fenced, Fenced-refl}
use win_validator.PoolManager.Store.{JobStore}
use win_validator.PoolManager.Process.{Failure, Job, Answers, Locals, M, doing, ◌>>=◌, begin}

-- From a state with `P`, a step that returns `x` gives a state with `Q x`, and one that raises a
-- state with `E`.
abbrev pub After :
    {S A : Type 0}
    → (A → Locals S → Type 0)
    → (Locals S → Type 0)
    → Outcome Failure A × Locals S
    → Type 0
After Q E (ok x, s) = Q x s
After Q E (raised e, s) = E s

abbrev pub Runs :
    {S A : Type 0}
    → (Locals S → Type 0)
    → M S A
    → (A → Locals S → Type 0)
    → (Locals S → Type 0)
    → Type 0
Runs {S} P m Q E = (s : Locals S) → P s → After Q E (m s)

pub Runs->>= :
    {S A B : Type 0} (P : Locals S → Type 0) (m : M S A) (Q : A → Locals S → Type 0) (f : A → M S B)
    (R : B → Locals S → Type 0) (E : Locals S → Type 0)
    → Runs P m Q E
    → ((x : A) → Runs (Q x) (f x) R E)
    → Runs P (m >>= f) R E
Runs->>= P m Q f R E h k s p = bound (m s) (h s p)
  where
    bound :
        (r : Outcome Failure _ × Locals _)
        → After Q E r
        → After R E (elim (r.0) [ ok x ↦ f x r.1 | raised e ↦ (raised e, r.1) ])
    bound (ok x, s') q = k x s' q
    bound (raised e, s') q = q

pub doing-Runs :
    {S A : Type 0} (P Q E : Locals S → Type 0) (r : Outcome Failure A)
    (change : Locals S → Locals S)
    → ((s : Locals S) → P s → Q (change s))
    → ((s : Locals S) → P s → E s)
    → Runs P (doing r change) (λ _. Q) E
doing-Runs P Q E (ok x) change h k s p = h s p
doing-Runs P Q E (raised e) change h k s p = k s p

module _ (store : JobStore Failure) (max_input : ℕ) (job : Job) (a : Answers)
    (before : store.S) where
  open store use {S, get, update_if_status, swaps}

  abbrev pub InStore : S → Type 0
  InStore = Recorded store job.job_id job.claim_id

  -- What `fstat` said of the spooled input passes.
  abbrev pub IsPlain : Type 0
  IsPlain = (a.size ≤ max_input) × (a.is_regular ≡ true) × (a.links ≡ 1)

  -- The digest of a sample is the one that the ingress recorded, if it recorded one.
  abbrev pub Matches : Text → Type 0
  Matches sample = (is_empty job.input_sha256 || text_eq (a.sha256 sample) job.input_sha256) ≡ true

  -- A copy that may be validated.
  abbrev pub Validatable : Text → Type 0
  Validatable sample = IsPlain × (length sample ≤ max_input) × Matches sample

  -- What holds between the steps of the `try`.
  pub record Inv (s : Locals S) : Type 0 where
    pub recorded_row : s.recorded ≡ true → InStore s.store
    pub published_row : s.published ≡ true → InStore s.store
    pub fenced : Fenced store job.job_id job.claim_id before s.store
    pub bounded : length s.copied ≤ max_input
    pub checked : s.validated ≡ true → Validatable s.copied
    pub kept : s.keep_input ≡ true → s.validated ≡ false
    pub in_place : s.spooled ≡ true

  abbrev pub Unrun : Locals S → Type 0
  Unrun s = Inv s × (s.validated ≡ false) × (s.keep_input ≡ false) × (s.copied ≡ [])

  abbrev pub Stated : Locals S → Type 0
  Stated s = Unrun s × IsPlain

  abbrev pub Copied : Text → Locals S → Type 0
  Copied sample s =
      Inv s × (s.validated ≡ false) × (s.keep_input ≡ false) × IsPlain × (sample ≡ s.copied)

  abbrev pub Digested : Text → Locals S → Type 0
  Digested sample s = Copied sample s × Matches sample

  pub begin-Unrun : Unrun (begin store max_input job a before)
  begin-Unrun = let fenced = Fenced-refl store job.job_id job.claim_id before in ground arith
