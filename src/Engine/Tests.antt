-- ===== src/Engine/Tests.antt =====
-- Runs of the engine, and its theorems at a verdict with a graveyard hit.
use win_validator.Base.{
  ◌≡◌, refl, true, List, [], ◌∷◌, ◌++◌, Option, some, Text, codes, Outcome, ok, raised, map,
  text_instance,
}
use win_validator.Json.{Json, bool, str, arr, obj, Items, nil, cons, end, field}
use win_validator.Envelope.{extract_verdict, codes_of, items_of}
use win_validator.Envelope.Verdict.{is_ok}
use win_validator.Knobs.{Environ, raw_knob}
use win_validator.VmPool.{Exc, Params}
use win_validator.Engine.{
  Warning, Detonation, Failure, Printers, detect, unknown_knob_values, knob_warnings,
  request_params, detonate, report, result_of, summary, fields_of, chain_fields, of_verdict,
  of_signer, of_rest,
}
use win_validator.Engine.Sealed.{Harness, to_fields, extract_verdict-detonate}
use win_validator.Engine.Summary.{detonate-is_ok}

-- A typo in AUTHENTICODE_SCRIPTS, and a knob that nothing forwards.
abbrev env : Environ
env = (codes "AUTHENTICODE_SCRIPTS", codes " pS ") ∷ (codes "AUTHENTICODE_TIER", codes "1") ∷ []

abbrev verdict : Json
verdict = obj (
    field (codes "status") (str (codes "Revoked"))
      (field (codes "graveyard") (obj (field (codes "hit") (bool true) end)) end))

abbrev printers : Printers
printers = record {
  dumps = λ _. codes "text of the verdict";
  repr = λ t. codes "'" ++ t ++ codes "'";
  show = λ _. codes "None";
}

abbrev pool : Option Params → Outcome Exc Json
pool _ = ok verdict

-- blastbox's envelope, as far as the reader looks at it.
abbrev warning_items : List Warning → Items
warning_items [] = nil
warning_items (w ∷ ws) = cons (obj (field (codes "code") (str w.code) end)) (warning_items ws)

codes_are :
    (ws : List Warning) → codes_of (items_of (warning_items ws)) ≡ ok (map (λ w. str w.code) ws)
codes_are [] = refl
codes_are (w ∷ ws) = rw (codes_are ws) refl

harness : Harness
harness = record {
  seal = λ r. obj (
      field (codes "payload") (obj (field (codes "fields") (obj (to_fields r.payload)) end)) (
        field (codes "warnings") (arr (warning_items r.warnings))
          (field (codes "status") (str (codes "ok")) end)));
  payload = λ r. obj (field (codes "fields") (obj (to_fields r.payload)) end);
  warnings = λ r. warning_items r.warnings;
  has_payload = λ r. refl;
  has_fields = λ r. refl;
  has_warnings = λ r. refl;
  has_codes = λ r. codes_are r.warnings;
  has_status = λ r. refl;
}

detect_runs :
    detect (codes ".EXE") ≡ (codes "pe", codes "application/vnd.microsoft.portable-executable")
unfolding detect
detect_runs = refl

abbrev loads : Text → Option Json
loads t = some verdict

abbrev no_result : Detonation
no_result = record { payload = []; artifact = []; detected = ([], []); warnings = [] }

abbrev result_or : Outcome Failure Detonation → Detonation
result_or (ok r) = r
result_or (raised e) = no_result

abbrev result : Detonation
result = result_or (detonate printers env (codes ".exe") pool true)

detonate_runs :
    map (λ w. w.code) result.warnings
    ≡ codes "param_unknown_value" ∷ codes "param_not_forwarded" ∷ codes "graveyard_hit" ∷ []
unfolding detonate report result_of summary fields_of chain_fields of_verdict of_signer of_rest
    knob_warnings unknown_knob_values raw_knob request_params
detonate_runs = refl

made : detonate printers env (codes ".exe") pool true ≡ ok result
unfolding detonate report result_of summary fields_of chain_fields of_verdict of_signer of_rest
made = refl

extract_verdict-detonate_example :
    extract_verdict loads (harness.seal result)
    ≡ ok (record {
      verdict = verdict;
      warnings = map (λ w. str w.code) result.warnings;
      envelope_status = str (codes "ok");
    })
extract_verdict-detonate_example =
    extract_verdict-detonate harness loads printers env (codes ".exe") pool true verdict result refl
      made refl

detonate-is_ok_example : is_ok (detonate printers env (codes ".exe") pool true) ≡ true
unfolding request_params
detonate-is_ok_example = detonate-is_ok printers env (codes ".exe") pool true
