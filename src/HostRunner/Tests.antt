-- ===== src/HostRunner/Tests.antt =====
-- Runs of the host runner, and its theorems at concrete answers.
use win_validator.Base.{ℕ, ◌≡◌, refl, true, false, none, some, codes, ok, raised}
use win_validator.Json.{Json, str, obj, end, field}
use win_validator.HostRunner.{no_envelope, Calls, validate_to_dir, validate, serve, main}

abbrev envelope : Json
envelope = obj (field (codes "status") (str (codes "ok")) end)

abbrev calls : ℕ → Calls
calls rc = record {
  run_detonation = ok rc;
  leaves = some (codes "{...}");
  unlinks = true;
  reads = λ _. ok envelope;
  makes_directory = true;
  removes_directory = true;
  prints = true;
  gets_sigterm = false;
}

-- The disk is full: the harness answers 1, and its partial envelope goes.
validate_to_dir_runs : validate_to_dir (calls 1) none ≡ (raised no_envelope, none)
unfolding validate_to_dir
validate_to_dir_runs = refl

main_runs : (main (calls 0) 1 true true).code ≡ ok 0
unfolding main serve validate validate_to_dir
main_runs = refl
