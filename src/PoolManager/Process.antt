-- ===== src/PoolManager/Process.antt =====
-- `PoolManager._process`: one claimed job. The job store is an interface with its laws; what the
-- file system, the copy and the engine answer is a record. The locals of the method that outlive
-- an exception stand in its state, with what the method has done to the job's files.
pub mod Invariant
pub mod Always
pub mod Recording
pub mod Verdict
mod Tests
use win_validator.Base.{
  ℕ, zero, suc, ◌+◌, Bool, true, false, not, ◌&&◌, ◌||◌, List, [], ◌∷◌, ◌++◌, Option, none, some,
  Text, codes, decimal, length, take, Outcome, ok, raised, ltb, is_empty, text_eq, ◌==◌,
  if◌then◌else◌,
}
use win_validator.Json.{Json, Fault}
use win_validator.Envelope.{Summary, extract_verdict, is_engine_error}
use win_validator.PoolManager.Paths.{path_name, is_dot, is_dotdot}
use win_validator.PoolManager.Store.{Status, running, done, failed, Update, JobStore}

-- An exception: a PublicError with its text, or another by its class name, and whether that class
-- is an OSError or a ValueError.
pub data Failure : Type 0 where
  public_error : Text → Failure
  named : Text → Bool → Failure

pub record Job : Type 0 where
  pub job_id : ℕ
  pub filename : Text
  pub result_dir : Text
  pub input_sha256 : Text
  pub claim_id : Option ℕ

abbrev pub Step : Type 0
Step = Outcome Failure (Unit {0})

-- What the file system, the engine and the clock answer to this run. A read of a chunk stands with
-- the write of it into the scratch copy.
pub record Answers : Type 0 where
  pub open_job : Text → Step
  pub open_input_dir : Step
  pub open_input : Text → Step
  pub size : ℕ
  pub is_regular : Bool
  pub links : ℕ
  pub make_work : Step
  pub fill_work : Step
  pub reads : List (Outcome Failure Text)
  pub sha256 : Text → Text
  pub run : Text → Outcome Failure Json
  pub loads : Text → Option Json
  pub publish : Step
  pub unlinks : Bool
  pub removes_work : Bool
  pub now : ℕ
  pub later : ℕ

-- The state of the method: the store; which descriptors are open; whether the scratch tree is
-- there, and what its copy holds; `recorded` and `keep_input`; whether the engine ran, whether
-- the output was published, and whether the spooled input still has its name.
pub record Locals (S : Type 0) : Type 0 where
  pub store : S
  pub job_fd : Bool
  pub in_dirfd : Bool
  pub in_fd : Bool
  pub work : Bool
  pub copied : Text
  pub recorded : Bool
  pub keep_input : Bool
  pub validated : Bool
  pub published : Bool
  pub spooled : Bool

abbrev pub M : Type 0 → Type 0 → Type 0
M S A = Locals S → Outcome Failure A × Locals S

module _ {S : Type 0} where
  abbrev pub pure : {A : Type 0} → A → M S A
  pure a s = (ok a, s)

  abbrev pub raise : {A : Type 0} → Failure → M S A
  raise e s = (raised e, s)

  abbrev pub raise_if : Bool → Failure → M S (Unit {0})
  raise_if b e s = (if b then raised e else ok tt, s)

  -- A call whose answer is given, and what it leaves behind if it goes through.
  abbrev pub doing : {A : Type 0} → Outcome Failure A → (Locals S → Locals S) → M S A
  doing (ok a) change s = (ok a, change s)
  doing (raised e) change s = (raised e, s)

infixl 5 ◌>>=◌ ◌>>◌
abbrev pub ◌>>=◌ : {S A B : Type 0} → M S A → (A → M S B) → M S B
◌>>=◌ m f s = let (r, s') = m s in elim r [ ok a ↦ f a s' | raised e ↦ (raised e, s') ]

abbrev pub ◌>>◌ : {S A B : Type 0} → M S A → M S B → M S B
m >> k = m >>= λ _. k

abbrev pub value_error : Failure
value_error = named (codes "ValueError") true

-- The texts of the three PublicErrors.
pub too_big_text : ℕ → ℕ → Text
too_big_text size bound =
    codes "input is "
    ++ decimal size
    ++ codes " bytes, over the pool-manager's "
    ++ decimal bound
    ++ codes "-byte bound (AUTHENTICODE_MAX_UPLOAD_MB, set alike on the ingress and the host)"

pub grew_text : ℕ → Text
grew_text bound =
    codes "input grew past the pool-manager's "
    ++ decimal bound
    ++ codes "-byte bound while being copied (AUTHENTICODE_MAX_UPLOAD_MB)"

pub mismatch_text : Text
mismatch_text =
    codes "the spooled input does not match the sha256 the ingress recorded for it "
    ++ codes "(changed after it was spooled?); the spool is kept for inspection"

module _ (store : JobStore Failure) (max_input : ℕ) (job : Job) (a : Answers) where
  open store use {S, update_if_status}

  -- `Path(job.filename or "").name`, refused where it names no file.
  pub checked_name : M S Text
  checked_name s =
      let name = path_name job.filename in
      (if is_empty name || is_dot name || is_dotdot name then raised value_error else ok name, s)

  pub open_spool : Text → M S (Unit {0})
  open_spool name = do
    doing (a.open_job job.result_dir) (λ s. record s { job_fd = true })
    doing a.open_input_dir (λ s. record s { in_dirfd = true })
    doing (a.open_input name) (λ s. record s { in_fd = true })

  pub check_stat : M S (Unit {0})
  check_stat = do
    raise_if (ltb max_input a.size) (public_error (too_big_text a.size max_input))
    raise_if (not a.is_regular || not (a.links == 1)) value_error

  pub make_scratch : M S (Unit {0})
  make_scratch = do doing a.make_work (λ s. record s { work = true }); doing a.fill_work (λ s. s)

  -- The copy loop: what was read so far, and the reads to come.
  pub copy_loop : Text → List (Outcome Failure Text) → M S Text
  copy_loop sample [] s = (ok sample, s)
  copy_loop sample (raised e ∷ reads) s = (raised e, s)
  copy_loop sample (ok chunk ∷ reads) s =
      let total = length (sample ++ chunk) in
      let rest = copy_loop (sample ++ chunk) reads (record s { copied = sample ++ chunk }) in
      if is_empty chunk
      then (ok sample, s)
      else if ltb max_input total
      then (raised (public_error (grew_text max_input)), s)
      else rest

  pub check_digest : Text → M S (Unit {0})
  check_digest sample s =
      if not (is_empty job.input_sha256) && not (text_eq (a.sha256 sample) job.input_sha256)
      then (raised (public_error mismatch_text), record s { keep_input = true })
      else (ok tt, s)

  abbrev pub summary_of : Outcome Fault Summary → Outcome Failure Summary
  summary_of (ok summary) = ok summary
  summary_of (raised _) = raised (named (codes "AttributeError") false)

  pub validate_copy : Text → M S Summary
  validate_copy sample = do
    doing (ok tt) (λ s. record s { validated = true })
    env ← doing (a.run sample) (λ s. s)
    doing (summary_of (extract_verdict a.loads env)) (λ s. s)

  abbrev pub final_update : Summary → Update
  final_update summary = record {
    status = if is_engine_error summary.envelope_status then failed else done;
    finished_at = a.now;
    result = some summary;
    error = none;
  }

  -- `recorded = bool(self._store.update_if_status(...))`
  abbrev pub swap : Update → M S (Unit {0})
  swap u s =
      let (r, st) = update_if_status job.job_id running job.claim_id u s.store in
      elim r [
        | ok b ↦ (ok tt, record s { store = st; recorded = b })
        | raised e ↦ (raised e, record s { store = st })
      ]

  abbrev is_handled : Failure → Bool
  is_handled (public_error _) = true
  is_handled (named _ b) = b

  -- `except (OSError, ValueError)` around the publication.
  abbrev publish_step : Step → M S (Unit {0})
  publish_step (ok _) s = (ok tt, record s { published = true })
  publish_step (raised e) s = (if is_handled e then ok tt else raised e, s)

  pub publish_output : M S (Unit {0})
  publish_output s = if s.recorded then publish_step a.publish s else (ok tt, s)

  -- The body of the `try`.
  pub body : M S (Unit {0})
  unfolding checked_name open_spool check_stat make_scratch copy_loop check_digest validate_copy
      publish_output
  body = do
    name ← checked_name
    open_spool name
    check_stat
    make_scratch
    sample ← copy_loop [] a.reads
    check_digest sample
    summary ← validate_copy sample
    swap (final_update summary)
    publish_output

  -- `str(exc)[:300] if isinstance(exc, PublicError) else type(exc).__name__`
  abbrev pub error_text : Failure → Text
  error_text (public_error t) = take 300 t
  error_text (named name _) = name

  abbrev pub failed_update : Failure → Update
  failed_update e = record {
    status = failed;
    finished_at = a.later;
    result = none;
    error = some (error_text e);
  }

  -- The `except`: the failure is recorded; a store that raises again changes no local.
  pub handle : Step × Locals S → Locals S
  handle (ok _, s) = s
  handle (raised e, s) = (swap (failed_update e) s).1

  -- The `finally`.
  pub clean_up : Locals S → Locals S
  clean_up s = record s {
    spooled =
        s.spooled && not (s.in_dirfd && s.in_fd && s.recorded && not s.keep_input && a.unlinks);
    in_fd = false;
    in_dirfd = false;
    job_fd = false;
    work = s.work && not a.removes_work;
  }

  abbrev pub begin : S → Locals S
  begin st = record {
    store = st;
    job_fd = false;
    in_dirfd = false;
    in_fd = false;
    work = false;
    copied = [];
    recorded = false;
    keep_input = false;
    validated = false;
    published = false;
    spooled = true;
  }

  pub process : S → Locals S
  unfolding body handle clean_up
  process st = clean_up (handle (body (begin st)))
