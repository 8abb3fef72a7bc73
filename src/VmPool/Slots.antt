-- ===== src/VmPool/Slots.antt =====
-- Every claimed slot comes back once, and an answer is bounded.
use win_validator.Base.{
  ℕ, zero, suc, ◌↔◌, true, ◌≢◌, ap, Outcome-cases, ◌≤◌, ◌≡◌, refl, List, [], ◌∷◌, Option, none,
  some, Text, Outcome, ok, raised, length, take, ltb, arith, Bool-cases, inl, inr,
}
use win_validator.Json.{Json}
use win_validator.VmPool.{
  Exc, is_stop, worker, unknown, Params, query, read_verdict, agent_validate, Release, clean, dirty,
}
use win_validator.VmPool.Faults.{NeverReached, NoAnswer}

-- How a slot may be given back, by how the call on it ended: after an exception dirty, at the worker's
-- charge exactly if the agent was never reached, at nobody's exactly if it was reached and gave no
-- answer, and without evidence exactly if the process was told to stop.
abbrev pub Owes : Outcome Exc Json → Release → Type 0
Owes (ok _) how = how ≡ clean
Owes (raised e) how =
    ((how ≡ dirty (some worker)) ↔ NeverReached e)
    × ((how ≡ dirty (some unknown)) ↔ NoAnswer e)
    × ((how ≡ dirty none) ↔ (is_stop e ≡ true))
    × (how ≢ clean)

take_whole : (n : ℕ) (s : Text) → length (take (suc n) s) ≤ n → take (suc n) s ≡ s
take_whole n [] h = refl
take_whole zero (c ∷ s) h = absurd (omega (arith, h))
take_whole (suc n) (c ∷ s) h = ap (λ t. c ∷ t) (take_whole n s (omega (arith, h)))

read_verdict-eq-ok :
    (response_max : ℕ) (loads : Text → Outcome Exc Json) (sent : Text) {v : Json}
    → read_verdict response_max loads sent ≡ ok v
    → (length sent ≤ response_max) × (loads sent ≡ ok v)
unfolding read_verdict
read_verdict-eq-ok response_max loads sent h =
    elim (Bool-cases (ltb response_max (length (take (suc response_max) sent)))) [
      | inl long ↦ cc (rw long at h)
      | inr short ↦
          let bound : length (take (suc response_max) sent) ≤ response_max = ground arith in
          let same = take_whole response_max sent bound in (rw same at bound, rw (short, same) at h)
    ]

-- A verdict is always the agent's whole answer, of at most the bound, to the one request that was
-- made: with the sample's base name and the two overrides only, and the size that was read.
pub agent_validate-eq-ok :
    (response_max : ℕ) (loads : Text → Outcome Exc Json) (size : Outcome Exc ℕ)
    (post : List (Text × Text) → ℕ → Outcome Exc Text) (path : Text) (params : Option Params)
    {v : Json}
    → agent_validate response_max loads size post path params ≡ ok v
    → (n : ℕ) × (answer : Text) × (size ≡ ok n)
      × (post (query path params) n ≡ ok answer)
      × (length answer ≤ response_max)
      × (loads answer ≡ ok v)
unfolding agent_validate
agent_validate-eq-ok response_max loads (ok n) post path params h =
    elim (Outcome-cases (post (query path params) n)) [
      | inl (answer, e) ↦
          let (fits, reads) =
            read_verdict-eq-ok response_max loads answer (rw (agent_validate, e) at h) in
          (n, answer, refl, e, fits, reads)
      | inr (x, e) ↦ cc (rw (agent_validate, e) at h)
    ]
agent_validate-eq-ok response_max loads (raised e) post path params h = cc
