-- ===== src/HostRunner.antt =====
-- winval_blastbox/host_runner.py: `validate_to_dir`, `validate` and `main`. The output directory is
-- what its metadata.json holds, `none` where there is none. `run_detonation` (blastbox), reading the
-- envelope and the file system's answers are parameters.
pub mod Fresh
mod Tests
use win_validator.Base.{
  ℕ, zero, suc, Bool, true, false, not, ◌&&◌, ◌||◌, List, [], ◌∷◌, Option, none, some, is_some,
  Text, codes, Outcome, ok, raised, ◌>>=◌, ◌==◌, if◌then◌else◌,
}
use win_validator.Json.{Json, Fault}
use win_validator.Envelope.{get_of, is_engine_error}

-- What the calls raise: FileExistsError and RuntimeError of `validate_to_dir`, an exception of
-- `run_detonation`, an envelope that cannot be read, a temporary directory that cannot be made or
-- removed, a value of the wrong type, and a standard output that is gone.
pub data Raise : Type 0 where
  file_exists no_envelope harness_raised unreadable no_directory broken_output : Raise
  wrong_type : Fault → Raise

pub record Calls : Type 0 where
  pub run_detonation : Outcome Raise ℕ
  pub leaves : Option Text
  pub unlinks : Bool
  pub reads : Text → Outcome Raise Json
  pub makes_directory : Bool
  pub removes_directory : Bool
  pub prints : Bool
  pub gets_sigterm : Bool

-- How `main` ends, how often it has shut the pool down, and what it has printed.
pub record Ended : Type 0 where
  pub code : Outcome Raise ℕ
  pub shutdowns : ℕ
  pub printed : Option Json

-- The code of an envelope that was printed: an engine_error is a failure.
abbrev pub code_of : Json → Outcome Raise ℕ
code_of env = elim (get_of (codes "status") env) [
  | raised e ↦ raised (wrong_type e)
  | ok status ↦ ok (if is_engine_error status then 1 else 0)
]

module _ (c : Calls) where
  -- What follows the run, with the envelope that it left: without one there is no verdict to read, and
  -- a partial one is removed.
  abbrev pub after_code : Bool → Text → Outcome Raise Json × Option Text
  after_code false text = (raised no_envelope, if c.unlinks then none else some text)
  after_code true text = (c.reads text, some text)

  abbrev pub after_run : Outcome Raise ℕ → Option Text → Outcome Raise Json × Option Text
  after_run (raised e) left = (raised e, left)
  after_run (ok rc) none = (raised no_envelope, none)
  after_run (ok rc) (some text) = after_code (rc == 0) text

  -- `validate_to_dir`, and the directory behind it.
  unfoldable pub validate_to_dir : Option Text → Outcome Raise Json × Option Text
  validate_to_dir (some text) = (raised file_exists, some text)
  validate_to_dir none = after_run c.run_detonation c.leaves

  -- `validate`: a directory of its own, removed on every path.
  unfoldable pub validate : Outcome Raise Json
  unfolding validate_to_dir
  validate =
      if not c.makes_directory
      then raised no_directory
      else if not c.removes_directory
      then raised no_directory
      else (validate_to_dir none).0

  -- The body of `main`'s try: the envelope is printed, then judged.
  abbrev pub print_and_judge : Outcome Raise Json → Outcome Raise ℕ × Option Json
  print_and_judge (raised e) = (raised e, none)
  print_and_judge (ok env) =
      if c.prints then (code_of env, some env) else (raised broken_output, none)

  -- SIGTERM in front of the verdict: its handler shuts the pool down and exits with 143; the finally
  -- shuts it down on every way out.
  unfoldable pub serve : Ended
  unfolding validate
  serve =
      if c.gets_sigterm
      then record { code = ok 143; shutdowns = 2; printed = none }
      else (let (code, printed) = print_and_judge validate in
          record { code = code; shutdowns = 1; printed = printed })

  -- `main`: the count of its arguments, whether the sample is a file, and whether the limits of the
  -- environment are valid.
  unfoldable pub main : (arguments : ℕ) (is_file limits_valid : Bool) → Ended
  unfolding serve
  main arguments is_file limits_valid =
      if not (arguments == 1) || not is_file || not limits_valid
      then record { code = ok 2; shutdowns = 0; printed = none }
      else serve
