-- ===== src/Orchestrator/Tests.antt =====
-- Runs of the job store, and its theorems at them.
use win_validator.Base.{
  ℕ, zero, suc, if◌then◌else◌, ◌≡◌, ◌≤◌, ◌⊎◌, inl, inr, refl, Bool, true, Text, codes, Option, none,
  some, [], ◌∷◌, List, Outcome, ok, raised, lookup, length, text_instance, text_eq,
}
use win_validator.Json.{null, str}
use win_validator.Envelope.{Summary}
use win_validator.Orchestrator.{
  Job, Jobs, unavailable, reported, failed, Engines, Raised, evicted, by_engine, create, update,
  update_engine, run_engines, run_job,
}
use win_validator.Orchestrator.Bound.{create-le-max}
use win_validator.Orchestrator.Settles.{Finished, run_job-Finished}

abbrev summary : Summary
summary = record { verdict = null; warnings = []; envelope_status = str (codes "engine_error") }

abbrev registered : Engines
registered e =
    if text_eq e (codes "authenticode")
    then some (ok (summary, null))
    else if text_eq e (codes "ember")
    then some (raised (by_engine (codes "OSError")))
    else none

abbrev names : List Text
names = codes "authenticode" ∷ codes "ember" ∷ codes "other" ∷ []

abbrev jobs : Jobs
jobs =
    (
      codes "1",
      record { status = codes "queued"; filename = codes "a"; error = none; engines = [] },
    )
    ∷ []

abbrev alone : ℕ → Jobs → Jobs
alone n js = js

-- Another thread's create evicts the job before the third operation.
abbrev evicting : ℕ → Jobs → Jobs
evicting zero js = js
evicting (suc zero) js = js
evicting (suc (suc _)) js = []

abbrev seen : Outcome Raised (Unit {0}) × Jobs × Bool → Option Job
seen (_, js, _) = lookup (codes "1") js

settled_run :
    seen (run_job alone (codes "1") registered true names jobs)
    ≡ some (record {
      status = codes "done";
      filename = codes "a";
      error = none;
      engines =
          (codes "authenticode", reported (codes "error") (summary, null))
          ∷ (codes "ember", failed (codes "OSError"))
          ∷ (codes "other", unavailable)
          ∷ [];
    })
unfolding run_job run_engines update update_engine
settled_run = refl

evicted_run : (run_job evicting (codes "1") registered true names jobs).0 ≡ raised evicted
unfolding run_job run_engines update update_engine
evicted_run = refl

evicting-spares :
    (n : ℕ) (js : Jobs)
    → (lookup (codes "1") (evicting n js) ≡ lookup (codes "1") js)
      ⊎ (lookup (codes "1") (evicting n js) ≡ none)
evicting-spares zero js = inl refl
evicting-spares (suc zero) js = inl refl
evicting-spares (suc (suc n)) js = inr refl

run_job-Finished_example :
    Finished evicting
      (codes "1")
      registered
      evicting-spares
      names
      (run_job evicting (codes "1") registered true names jobs)
run_job-Finished_example =
    run_job-Finished evicting (codes "1") registered evicting-spares true names jobs

create-le-max_example : length (create 1 (codes "2") (codes "b") names jobs) ≤ 1
create-le-max_example = create-le-max 1 (codes "2") (codes "b") names jobs
