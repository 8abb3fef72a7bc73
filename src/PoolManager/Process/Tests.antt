-- ===== src/PoolManager/Process/Tests.antt =====
-- Runs of `_process` with a store in memory, and its theorems at them.
use win_validator.Base.{
  length, ℕ, zero, suc, ◌≡◌, ◌≢◌, refl, Bool, true, false, codes, Option, none, some, [], ◌∷◌, ok,
  raised,
}
use win_validator.Json.{str, obj, field, end}
use win_validator.Envelope.{extract_verdict, payload_fields}
use win_validator.PoolManager.Paths.{path_name}
use win_validator.PoolManager.Store.{running, done, failed, Row, Update, JobStore}
use win_validator.PoolManager.Store.Memory.{memory}
use win_validator.PoolManager.Store.Fence.{Recorded, Fenced}
use win_validator.PoolManager.Process.{
  Failure, Job, Answers, Locals, value_error, process, body, handle, clean_up, checked_name,
  open_spool, check_stat, make_scratch, copy_loop, check_digest, validate_copy, publish_output,
}
use win_validator.PoolManager.Process.Invariant.{Validatable}
use win_validator.PoolManager.Process.Recording.{process-Fenced, process-consumed, process-records}
use win_validator.PoolManager.Process.Verdict.{process-validated}

abbrev claimed : Row
claimed = record {
  status = running;
  claim = some 7;
  finished_at = none;
  result = none;
  error = none;
}

-- Job 1 runs under claim 7; there is no other.
abbrev rows : ℕ → Option Row
rows zero = none
rows (suc zero) = some claimed
rows (suc (suc _)) = none

abbrev store : JobStore Failure
store = memory

abbrev job : Job
job = record {
  job_id = 1;
  filename = codes "in/a.exe";
  result_dir = codes "/jobs/1";
  input_sha256 = codes "ab";
  claim_id = some 7;
}

-- The digest of the test's host is the text itself.
abbrev host : Answers
host = record {
  open_job = λ _. ok tt;
  open_input_dir = ok tt;
  open_input = λ _. ok tt;
  size = 2;
  is_regular = true;
  links = 1;
  make_work = ok tt;
  fill_work = ok tt;
  reads = ok (codes "a") ∷ ok (codes "b") ∷ ok [] ∷ [];
  sha256 = λ t. t;
  run = λ _. ok (obj (field (codes "status") (str (codes "ok")) end));
  loads = λ _. none;
  publish = raised value_error;
  unlinks = true;
  removes_work = true;
  now = 5;
  later = 6;
}

abbrev swapped_host : Answers
swapped_host = record host { reads = ok (codes "a") ∷ ok (codes "c") ∷ ok [] ∷ [] }

abbrev finish : Answers → Locals (ℕ → Option Row)
finish a = process store 2 job a rows

abbrev status_of : Option Row → Option Bool
status_of none = none
status_of (some row) = elim (row.status) [ done ↦ some true | failed ↦ some false | _ ↦ none ]

-- The job's outcome, whether the spool and the evidence stay, and the bytes copied.
abbrev seen : Locals (ℕ → Option Row) → Option Bool × Bool × Bool × ℕ
seen s = (status_of (s.store 1), s.spooled, s.keep_input, length s.copied)

abbrev good : Option Bool × Bool × Bool × ℕ
good = (some true, false, false, 2)

abbrev mismatched : Option Bool × Bool × Bool × ℕ
mismatched = (some false, true, true, 2)

good_run : seen (finish host) ≡ good
unfolding process body handle clean_up checked_name open_spool check_stat make_scratch copy_loop
    check_digest validate_copy publish_output path_name extract_verdict payload_fields
good_run = refl

swapped_run : seen (finish swapped_host) ≡ mismatched
unfolding process body handle clean_up checked_name open_spool check_stat make_scratch copy_loop
    check_digest validate_copy publish_output path_name extract_verdict payload_fields
swapped_run = refl

consumed : (finish host).spooled ≡ false
unfolding process body handle clean_up checked_name open_spool check_stat make_scratch copy_loop
    check_digest validate_copy publish_output path_name extract_verdict payload_fields
consumed = refl

ran : (finish host).validated ≡ true
unfolding process body handle clean_up checked_name open_spool check_stat make_scratch copy_loop
    check_digest validate_copy publish_output path_name extract_verdict payload_fields
ran = refl

kept : (finish swapped_host).keep_input ≡ true
unfolding process body handle clean_up checked_name open_spool check_stat make_scratch copy_loop
    check_digest validate_copy publish_output path_name extract_verdict payload_fields
kept = refl

abbrev published_host : Answers
published_host = record host { publish = ok tt }

published : (finish published_host).published ≡ true
unfolding process body handle clean_up checked_name open_spool check_stat make_scratch copy_loop
    check_digest validate_copy publish_output path_name extract_verdict payload_fields
published = refl

never_raises :
    (u : Update) (st : ℕ → Option Row) (e : Failure)
    → (store.update_if_status 1 running (some 7) u st).0 ≢ raised e
never_raises u st e h = cc

process-Fenced_example : Fenced store 1 (some 7) rows (finish swapped_host).store
process-Fenced_example = process-Fenced store 2 job swapped_host rows

process-consumed_example :
    Recorded store 1 (some 7) (finish host).store × ((finish host).keep_input ≡ false)
process-consumed_example = process-consumed store 2 job host rows consumed

process-records_example : Recorded store 1 (some 7) (finish swapped_host).store
process-records_example =
    process-records store 2 job swapped_host rows claimed refl refl refl never_raises

process-validated_example : Validatable store 2 job host rows (finish host).copied
process-validated_example = process-validated store 2 job host rows ran
