-- ===== src/Orchestrator/Scan.antt =====
-- The `scan` route: the checks of the name, the bounded copy of the upload, the job's row and its
-- submission. The request's file gives chunks; a read may raise.
pub mod Uploads
mod Tests
use win_validator.Base.{
  ℕ, ◌+◌, Bool, true, false, not, ◌&&◌, ◌||◌, List, [], ◌∷◌, ◌++◌, Option, none, some, Text, codes,
  length, ltb, leb, is_empty, strip, mem_code, ◌==◌, Outcome, ok, raised, lookup, text_instance,
  if◌then◌else◌,
}
use win_validator.PoolManager.Paths.{path_name, is_dot, is_dotdot}
use win_validator.Orchestrator.{
  Job, Jobs, At, Engines, Entry, failed, Raised, create, change, update_engine, locked,
}

-- What the executor did: the job is queued, whether or not it raised then, or was refused before.
pub data Submitted : Type 0 where
  queued queued_late : Submitted
  not_queued : Text → Submitted

pub record Request : Type 0 where
  pub is_ready : Bool
  pub filename : Option Text
  pub engines : Text
  pub makes_temp : Bool
  pub chunks : List (Outcome (Unit {0}) Text)
  pub unlinks : Bool
  pub submitted : Submitted

-- A response, or an exception that becomes a 500.
pub data Reply : Type 0 where
  accepted : Text → List Text → Reply
  http : ℕ → Reply
  escapes : Reply

-- Why a request ends before its job is created: an HTTPException, or another exception.
pub data Stop : Type 0 where
  status : ℕ → Stop
  broken : Stop

abbrev pub reply_of : Stop → Reply
reply_of (status code) = http code
reply_of broken = escapes

-- `engines.split(",")`, stripped, without the empty ones.
abbrev pub add_name : Text → List Text → List Text
add_name word rest = if is_empty (strip word) then rest else strip word ∷ rest

abbrev names_from : Text → Text → List Text
names_from word [] = add_name word []
names_from word (c ∷ s) =
    let rest = names_from (if c == b',' then [] else word ++ c ∷ []) s in
    if c == b',' then add_name word rest else rest

abbrev or_default : List Text → List Text
or_default [] = codes "authenticode" ∷ []
or_default (e ∷ es) = e ∷ es

unfoldable pub selected : Text → List Text
selected engines = or_default (names_from [] engines)

-- `len(name.encode("utf-8", "surrogateescape"))`; `none` is its UnicodeEncodeError.
abbrev code_bytes : ℕ → Option ℕ
code_bytes c =
    if ltb c 0x80
    then some 1
    else if ltb c 0x800
    then some 2
    else if leb 0xDC80 c && leb c 0xDCFF
    then some 1
    else if leb 0xD800 c && leb c 0xDFFF
    then none
    else if ltb c 0x10000
    then some 3
    else some 4

abbrev add_bytes : Option ℕ → Option ℕ → Option ℕ
add_bytes none n = none
add_bytes (some m) none = none
add_bytes (some m) (some n) = some (m + n)

abbrev pub byte_length : Text → Option ℕ
byte_length [] = some 0
byte_length (c ∷ s) = add_bytes (code_bytes c) (byte_length s)

abbrev or_input : Option Text → Text
or_input none = codes "input"
or_input (some []) = codes "input"
or_input (some (c ∷ s)) = c ∷ s

-- The name of the upload, or the refusal.
unfoldable pub checked_name : Option Text → Outcome Stop Text
checked_name filename =
    let name = path_name (or_input filename) in
    if is_empty name || is_dot name || is_dotdot name || mem_code 0 name
    then raised (status 400)
    else elim (byte_length name) [
      | none ↦ raised broken
      | some n ↦ if ltb 255 n then raised (status 400) else ok name
    ]

-- The copy into the temporary file: how many bytes are written, or why it stopped.
unfoldable pub copy_upload : ℕ → ℕ → List (Outcome (Unit {0}) Text) → Outcome Stop ℕ
copy_upload max written [] = ok written
copy_upload max written (raised _ ∷ chunks) = raised broken
copy_upload max written (ok chunk ∷ chunks) =
    let rest = copy_upload max (written + length chunk) chunks in
    if is_empty chunk
    then ok written
    else if ltb max (written + length chunk)
    then raised (status 413)
    else rest

-- The reply, whether the temporary file is still there, and the jobs.
abbrev pub Served : Type 0
Served = Reply × Bool × Jobs

abbrev pub left_by : Request → Bool
left_by q = not q.unlinks

module _ (others : ℕ → Jobs → Jobs) (id : Text) (registered : Engines) where
  -- `_update(jid, status="error", error=...)`
  unfoldable pub refuse : Text → Jobs → Outcome Raised Jobs
  refuse why jobs =
      change
        (λ job. record job {
          status = codes "error";
          error = some (codes "could not queue the job: " ++ why);
        })
        id jobs (lookup id jobs)

  -- The loop over the engines' panes.
  unfoldable pub refuse_engines : Text → List Text → At → Outcome Raised (Unit {0}) × At
  unfolding update_engine
  refuse_engines why [] s = (ok tt, s)
  refuse_engines why (e ∷ es) s =
      let (r, s') =
        locked others id registered (update_engine id e (failed (codes "not queued: " ++ why))) s in
      let rest = refuse_engines why es s' in elim r [ ok _ ↦ rest | raised x ↦ (raised x, s') ]

  -- The NotQueued handler: the row says so, then the upload goes, then the 503.
  unfoldable pub refused_before : Request → Text → List Text → Jobs → Served
  unfolding refuse refuse_engines
  refused_before q why es jobs =
      let (r, s) = locked others id registered (refuse why) (0, jobs) in
      let (r', s') = refuse_engines why es s in
      elim r [
        | raised x ↦ (escapes, true, s.1)
        | ok _ ↦ elim r' [ raised x ↦ (escapes, true, s'.1) | ok _ ↦ (http 503, left_by q, s'.1) ]
      ]

  unfoldable pub submit_job : Request → Submitted → List Text → Jobs → Served
  unfolding refused_before
  submit_job q queued es jobs = (accepted id es, true, jobs)
  submit_job q queued_late es jobs = (accepted id es, true, jobs)
  submit_job q (not_queued why) es jobs = refused_before q why es jobs

  -- After the checks: the temporary file, the copy, the row, the submission.
  unfoldable pub spool : ℕ → ℕ → Request → Text → Jobs → Served
  unfolding copy_upload submit_job create
  spool max_bytes max_jobs q name jobs =
      if not q.makes_temp then (escapes, false, jobs) else elim (copy_upload max_bytes 0 q.chunks) [
        | raised stop ↦ (reply_of stop, left_by q, jobs)
        | ok _ ↦
            submit_job q q.submitted (selected q.engines)
              (create max_jobs id name (selected q.engines) jobs)
      ]

  unfoldable pub scan : ℕ → ℕ → Request → Jobs → Served
  unfolding checked_name spool
  scan max_bytes max_jobs q jobs =
      if not q.is_ready then (http 503, false, jobs) else elim (checked_name q.filename) [
        | raised stop ↦ (reply_of stop, false, jobs)
        | ok name ↦ spool max_bytes max_jobs q name jobs
      ]
