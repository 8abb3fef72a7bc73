-- ===== src/HostRunner/Fresh.antt =====
-- What an answer of the host runner rests on, and what it leaves behind.
use win_validator.Base.{
  ℕ, zero, suc, ◌≤◌, ◌≡◌, ◌⊎◌, Bool, true, false, Option, none, some, Text, codes, Outcome, ok,
  raised,
}
use win_validator.Json.{Json}
use win_validator.Envelope.{get_of, is_engine_error}
use win_validator.HostRunner.{Raise, file_exists, no_envelope, Calls, Ended}

-- An answer is the JSON of what this run's `run_detonation` left, with code 0.
abbrev pub IsFresh : Calls → Json → Type 0
IsFresh c env =
    (text : Text) × (c.leaves ≡ some text) × (c.run_detonation ≡ ok 0) × (c.reads text ≡ ok env)

-- Each way that `validate_to_dir` can end, with the directory before and after it.
pub data Leaves (c : Calls) : Option Text → Outcome Raise Json → Option Text → Type 0 where
  refused : (text : Text) → Leaves c (some text) (raised file_exists) (some text)
  answered :
      {env : Json} {text : Text}
      → c.leaves ≡ some text
      → IsFresh c env
      → Leaves c none (ok env) (some text)
  harness_failed :
      {e : Raise} {left : Option Text}
      → c.leaves ≡ left
      → c.run_detonation ≡ raised e
      → Leaves c none (raised e) left
  nothing_left : Leaves c none (raised no_envelope) none
  not_unlinked : (text : Text) → c.unlinks ≡ false → Leaves c none (raised no_envelope) (some text)
  unread :
      {e : Raise} (text : Text)
      → c.leaves ≡ some text
      → c.reads text ≡ raised e
      → Leaves c none (raised e) (some text)

-- How `main` ends, by its code: 0 and 1 are for an envelope of this run, printed; 2 for a run that has
-- not begun; 143 for one that SIGTERM has ended. A run that has begun has shut the pool down.
abbrev Judged : Calls → Ended → Bool → Type 0
Judged c e failed =
    (env : Json) × (status : Json) × (e.printed ≡ some env)
    × IsFresh c env
    × (get_of (codes "status") env ≡ ok status)
    × (is_engine_error status ≡ failed)
    × (e.shutdowns ≡ 1)

abbrev EndsBy : Calls → Ended → Outcome Raise ℕ → Type 0
EndsBy c e (ok zero) = Judged c e false
EndsBy c e (ok (suc zero)) = Judged c e true
EndsBy c e (ok (suc (suc n))) =
    (e.printed ≡ none)
    × (((suc (suc n) ≡ 2) × (e.shutdowns ≡ 0)) ⊎ ((suc (suc n) ≡ 143) × (1 ≤ e.shutdowns)))
EndsBy c e (raised x) = e.shutdowns ≡ 1

abbrev pub Ends : Calls → Ended → Type 0
Ends c e = EndsBy c e e.code
