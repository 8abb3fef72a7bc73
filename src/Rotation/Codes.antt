-- ===== src/Rotation/Codes.antt =====
-- What the exit code and the candidate's fate say of the golden.
use win_validator.Base.{
  ◌⊎◌, ◌≡◌, refl, Bool, true, false, not, ◌||◌, Option, none, some, Text, Outcome, ok, raised,
  Bool-cases, inl, inr,
}
use win_validator.Promotion.{
  Answers, Files, Result, promoted, nothing_published, split_state, promote,
}
use win_validator.Promotion.AllOrNothing.{Says, promote-Says}
use win_validator.Rotation.{
  Raise, not_published, split, runtime, unexpected, Lock, Stop, Moment, before_renames,
  between_renames, behind_promotion, stopped, unless_stopped, as_raise, rotate, kept, discarded,
  Ended, Night, after_rotate, after_gate, refresh_and_rotate,
}

-- The twins after an exception of another kind: both as before, or the disk twin is the candidate and
-- the RAM twin either.
abbrev pub Torn : Text → Files → Files → Type 0
Torn candidate before f =
    (f.disk ≡ before.disk) × (f.ram ≡ before.ram)
    ⊎ (f.disk ≡ some candidate) × ((f.ram ≡ before.ram) ⊎ (f.ram ≡ some candidate))

-- What `rotate` says of the twins, from those that stood before.
abbrev pub Tells : Text → Files → Outcome Raise (Unit {0}) × Files → Type 0
Tells candidate before (ok _, f) = (f.disk ≡ some candidate) × (f.ram ≡ some candidate)
Tells candidate before (raised not_published, f) = (f.disk ≡ before.disk) × (f.ram ≡ before.ram)
Tells candidate before (raised split, f) = (f.disk ≡ some candidate) × (f.ram ≡ before.ram)
Tells candidate before (raised runtime, f) = ⊥
Tells candidate before (raised unexpected, f) = Torn candidate before f

as_raise-Tells :
    (candidate : Text) (before : Files) (r : Result) (f : Files)
    → Says candidate before (r, f)
    → Tells candidate before (as_raise r, f)
as_raise-Tells candidate before promoted f h = h
as_raise-Tells candidate before nothing_published f h = h
as_raise-Tells candidate before (split_state true) f h = (h.0, h.1)
as_raise-Tells candidate before (split_state false) f h = h

Torn-Says :
    (candidate : Text) (before : Files) (r : Result) (f : Files)
    → Says candidate before (r, f)
    → Torn candidate before f
Torn-Says candidate before promoted f (d, r) = inr (d, inr r)
Torn-Says candidate before nothing_published f (d, r) = inl (d, r)
Torn-Says candidate before (split_state true) f h = inr (h.0, inl h.1)
Torn-Says candidate before (split_state false) f (d, r) = inr (d, inl r)

Torn-stopped :
    (m : Moment) (left : Files) (candidate : Text) (before f : Files)
    → Torn candidate before f
    → Torn candidate before (stopped m left candidate before f)
Torn-stopped before_renames left candidate before f h = inl (refl, refl)
Torn-stopped between_renames left candidate before f h = inr (refl, inl refl)
Torn-stopped behind_promotion left candidate before f h = h

unless_stopped-Tells :
    (stop : Option Stop) (candidate : Text) (before : Files) (r : Result) (f : Files)
    → Says candidate before (r, f)
    → Tells candidate before (unless_stopped stop candidate before (r, f))
unless_stopped-Tells none candidate before r f h = as_raise-Tells candidate before r f h
unless_stopped-Tells (some s) candidate before r f h =
    Torn-stopped s.moment s.left candidate before f (Torn-Says candidate before r f h)

rotate-Tells :
    (is_regular : Bool) (lock : Lock) (a : Answers) (stop : Option Stop) (candidate : Text)
    (before : Files)
    → Tells candidate before (rotate is_regular lock a stop candidate before)
unfolding rotate
rotate-Tells is_regular lock a stop candidate before =
    elim (Bool-cases (not is_regular || not lock.opens || not lock.is_ours || not lock.is_free)) [
      | inl bad ↦ rw (rotate, bad) (refl, refl)
      | inr good ↦
          rw (rotate, good)
            (unless_stopped-Tells stop candidate before (promote a candidate before).0
              (promote a candidate before).1 (promote-Says a candidate before))
    ]

-- What a night says: with code 0 both twins are the candidate; where it is kept, nothing changed,
-- and the code is 1; where one that passed the gate is discarded, the disk twin is it, or an exception of
-- another kind ends the run.
abbrev pub Reports : Text → Bool → Files → Ended → Type 0
Reports candidate gated before (code, fate, f) =
    (code ≡ ok 0 → (f.disk ≡ some candidate) × (f.ram ≡ some candidate))
    × (fate ≡ kept → (f.disk ≡ before.disk) × (f.ram ≡ before.ram) × (code ≡ ok 1))
    × (fate ≡ discarded
        → gated ≡ true
        → (f.disk ≡ some candidate) ⊎ (code ≡ raised unexpected) × Torn candidate before f)

after_rotate-Reports :
    (n : Night) (candidate : Text) (gated : Bool) (before : Files)
    (r : Outcome Raise (Unit {0}) × Files)
    → Tells candidate before r
    → Reports candidate gated before (after_rotate n r)
after_rotate-Reports n candidate gated before (ok _, f) h = (λ _. h, λ e. cc, λ _ _. inl h.0)
after_rotate-Reports n candidate gated before (raised not_published, f) h =
    (λ e. cc, λ _. (h.0, h.1, refl), λ e. cc)
after_rotate-Reports n candidate gated before (raised split, f) h =
    (λ e. cc, λ e. cc, λ _ _. inl h.0)
after_rotate-Reports n candidate gated before (raised runtime, f) h = absurd h
after_rotate-Reports n candidate gated before (raised unexpected, f) h =
    (λ e. cc, λ e. cc, λ _ _. inr (refl, h))

abbrev pub is_gated : Outcome Raise Bool → Bool
is_gated (ok b) = b
is_gated (raised e) = false

after_gate-Reports :
    (n : Night) (candidate : Text) (before : Files) (gate : Outcome Raise Bool)
    → Reports candidate (is_gated gate) before (after_gate n candidate gate before)
after_gate-Reports n candidate before (raised e) = (λ e. cc, λ e. cc, λ e. cc)
after_gate-Reports n candidate before (ok false) = (λ e. cc, λ e. cc, λ _ e. cc)
after_gate-Reports n candidate before (ok true) =
    after_rotate-Reports n candidate true before
      (rotate n.is_regular n.lock n.answers n.stop candidate before)
      (rotate-Tells n.is_regular n.lock n.answers n.stop candidate before)

-- A night that rebakes the golden and builds a candidate: with code 0 both twins are the candidate;
-- where it is kept for a retry, both are as before and the code is 1; and one that passed the gate is
-- discarded only when the disk twin is it, or with an exception that the run names nowhere, after which
-- both twins are as before or the disk twin is the candidate and the RAM twin either.
pub refresh_and_rotate-Reports :
    (n : Night) (candidate : Text) (before : Files)
    → n.preflight ≡ ok tt
    → n.from_master ≡ ok false
    → n.build ≡ ok candidate
    → Reports candidate (is_gated n.gate) before (refresh_and_rotate n before)
unfolding refresh_and_rotate
refresh_and_rotate-Reports n candidate before p m b =
    rw (refresh_and_rotate, p, m, b) (after_gate-Reports n candidate before n.gate)
