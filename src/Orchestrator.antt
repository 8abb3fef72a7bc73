-- ===== src/Orchestrator.antt =====
-- winval_blastbox/orchestrator.py: the job store in memory, and the run of a job's engines. Other
-- threads take the lock between two operations of a run: `others n` is what they have done to the
-- jobs before its n-th.
pub mod Bound
pub mod Settles
pub mod Scan
mod Tests
use win_validator.Base.{
  ℕ, suc, Bool, true, false, List, [], ◌∷◌, Option, none, some, Text, codes, length, ltb, Outcome,
  ok, raised, Dict, lookup, insert, text_instance, if◌then◌else◌,
}
use win_validator.Json.{Json}
use win_validator.Envelope.{Summary, is_engine_error}

-- What a job says of an engine. A verdict stands with its artifact, an error by its class name.
pub data Entry : Type 0 where
  waiting busy unavailable : Entry
  reported : Text → Summary × Json → Entry
  failed : Text → Entry

pub record Job : Type 0 where
  pub status : Text
  pub filename : Text
  pub error : Option Text
  pub engines : Dict Text Entry

-- The dict of jobs, oldest first.
abbrev pub Jobs : Type 0
Jobs = Dict Text Job

-- `{e: {"status": "queued"} for e in engines}`
abbrev pub all_waiting : Dict Text Entry → List Text → Dict Text Entry
all_waiting made [] = made
all_waiting made (e ∷ es) = all_waiting (insert e waiting made) es

-- `while len(self._jobs) > self._max_jobs: pop the oldest`
unfoldable pub evict : ℕ → Jobs → Jobs
evict max [] = []
evict max (j ∷ js) = let rest = evict max js in if ltb max (length (j ∷ js)) then rest else j ∷ js

-- `create`, with the id that uuid4 gave.
unfoldable pub create : ℕ → Text → Text → List Text → Jobs → Jobs
unfolding evict
create max id filename engines jobs = evict max (
    insert id
      (record {
        status = codes "queued";
        filename = filename;
        error = none;
        engines = all_waiting [] engines;
      })
      jobs)

pub data Raised : Type 0 where
  evicted : Raised
  by_engine : Text → Raised

-- `type(exc).__name__`
abbrev pub class_name : Raised → Text
class_name evicted = codes "KeyError"
class_name (by_engine name) = name

abbrev pub change : (Job → Job) → Text → Jobs → Option Job → Outcome Raised Jobs
change f id jobs none = raised evicted
change f id jobs (some job) = ok (insert id (f job) jobs)

-- `_update(jid, status=...)`
unfoldable pub update : Text → Text → Jobs → Outcome Raised Jobs
update id status jobs = change (λ job. record job { status = status }) id jobs (lookup id jobs)

-- `_update_engine`
unfoldable pub update_engine : Text → Text → Entry → Jobs → Outcome Raised Jobs
update_engine id engine entry jobs =
    change (λ job. record job { engines = insert engine entry job.engines }) id jobs
      (lookup id jobs)

-- The registered engines; a run of one gives its verdict with the artifact, or raises.
abbrev pub Engines : Type 0
Engines = Text → Option (Outcome Raised (Summary × Json))

-- The state of a run: how many operations it has done, and the jobs.
abbrev pub At : Type 0
At = ℕ × Jobs

abbrev pub status_of : Summary → Text
status_of summary = if is_engine_error summary.envelope_status then codes "error" else codes "done"

module _ (others : ℕ → Jobs → Jobs) (id : Text) (registered : Engines) where
  -- One locked operation, after what the others did.
  abbrev pub locked : (Jobs → Outcome Raised Jobs) → At → Outcome Raised (Unit {0}) × At
  locked op (n, jobs) = elim (op (others n jobs)) [
    | ok jobs' ↦ (ok tt, (suc n, jobs'))
    | raised e ↦ (raised e, (suc n, others n jobs))
  ]

  -- What follows the entry "running": the engine, and its entry.
  abbrev pub run_engine :
      Text → Outcome Raised (Summary × Json) → At → Outcome Raised (Unit {0}) × At
  run_engine e (raised x) s = (raised x, s)
  run_engine e (ok result) s = locked (update_engine id e (reported (status_of result.0) result)) s

  -- The body of the `try`.
  abbrev pub try_engine :
      Text → Outcome Raised (Summary × Json) → At → Outcome Raised (Unit {0}) × At
  try_engine e result s =
      let (r, s') = locked (update_engine id e busy) s in
      let rest = run_engine e result s' in elim r [ ok _ ↦ rest | raised x ↦ (raised x, s') ]

  -- `except Exception`: the error's class name is the entry.
  abbrev pub guard_engine : Text → Outcome Raised (Unit {0}) × At → Outcome Raised (Unit {0}) × At
  guard_engine e (ok _, s) = (ok tt, s)
  guard_engine e (raised x, s) = locked (update_engine id e (failed (class_name x))) s

  abbrev pub step_engine :
      Text → Option (Outcome Raised (Summary × Json)) → At → Outcome Raised (Unit {0}) × At
  step_engine e none s = locked (update_engine id e unavailable) s
  step_engine e (some result) s = guard_engine e (try_engine e result s)

  -- The `for` loop, then the job's own status.
  unfoldable pub run_engines : List Text → At → Outcome Raised (Unit {0}) × At
  unfolding update update_engine
  run_engines [] s = locked (update id (codes "done")) s
  run_engines (e ∷ es) s =
      let (r, s') = step_engine e (registered e) s in
      let rest = run_engines es s' in elim r [ ok _ ↦ rest | raised x ↦ (raised x, s') ]

  -- `_run`: whether the job went through, the jobs at the end, and whether the upload is still
  -- there. An eviction is logged; the upload goes whatever happened, unless unlink refuses.
  unfoldable pub run_job :
      (unlinks : Bool) → List Text → Jobs → Outcome Raised (Unit {0}) × Jobs × Bool
  unfolding run_engines update
  run_job unlinks es jobs =
      let (r, s) = locked (update id (codes "running")) (0, jobs) in
      let (r', s') = run_engines es s in
      let upload = if unlinks then false else true in
      elim r [ ok _ ↦ (r', s'.1, upload) | raised x ↦ (raised x, s.1, upload) ]
