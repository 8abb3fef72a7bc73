-- ===== src/Orchestrator/Scan/Uploads.antt =====
-- Which replies leave the upload's temporary file behind.
use win_validator.Base.{
  ℕ, suc, ◌≡◌, ◌⊎◌, inl, inr, refl, Bool, true, false, List, [], ◌∷◌, ◌++◌, Option, none, some,
  Text, codes, Outcome, ok, raised, lookup, text_instance, Bool-cases, Outcome-cases,
}
use win_validator.Orchestrator.{
  Job, Jobs, At, Engines, failed, Raised, create, change, update_engine, locked,
}
use win_validator.Orchestrator.Scan.{
  Submitted, queued, queued_late, not_queued, Request, Stop, status, broken, reply_of, accepted,
  http, escapes, checked_name, copy_upload, selected, Served, left_by, refuse, refuse_engines,
  refused_before, submit_job, spool, scan,
}

abbrev pub is_queued : Submitted → Bool
is_queued queued = true
is_queued queued_late = true
is_queued (not_queued _) = false

module _ (others : ℕ → Jobs → Jobs) (id : Text) (registered : Engines) where
  -- An operation that raised found no job.
  abbrev Lost : Outcome Raised (Unit {0}) × At → Type 0
  Lost (ok _, s) = Unit
  Lost (raised _, s) = lookup id s.1 ≡ none

  locked-Lost :
      (f : Job → Job) (s : At)
      → Lost (locked others id registered (λ jobs. change f id jobs (lookup id jobs)) s)
  locked-Lost f (n, jobs) = by_lookup (lookup id (others n jobs)) refl
    where
      by_lookup :
          (o : Option Job)
          → lookup id (others n jobs) ≡ o
          → Lost (elim (change f id (others n jobs) o) [
            | ok jobs' ↦ (ok tt, (suc n, jobs'))
            | raised e ↦ (raised e, (suc n, others n jobs))
          ])
      by_lookup none e = e
      by_lookup (some job) e = tt

  refuse_engines-Lost :
      (why : Text) (es : List Text) (s : At) → Lost (refuse_engines others id registered why es s)
  unfolding refuse_engines update_engine
  refuse_engines-Lost why [] s = tt
  refuse_engines-Lost why (e ∷ es) s =
      onward
        (locked others id registered (update_engine id e (failed (codes "not queued: " ++ why))) s)
        (locked-Lost _ s) (refuse_engines-Lost why es)
    where
      onward :
          (r : Outcome Raised (Unit {0}) × At)
          → Lost r
          → ((s : At) → Lost (refuse_engines others id registered why es s))
          → Lost (elim (r.0) [
            | ok _ ↦ refuse_engines others id registered why es r.1
            | raised x ↦ (raised x, r.1)
          ])
      onward (ok _, s) h again = again s
      onward (raised x, s) h again = h

  -- What a reply says of the temporary file.
  abbrev pub Uploads : Request → Served → Type 0
  Uploads q (accepted jid es, left, jobs) = (left ≡ true) × (is_queued q.submitted ≡ true)
  Uploads q (http code, left, jobs) = left ≡ false
  Uploads q (escapes, left, jobs) = (left ≡ false) ⊎ (lookup id jobs ≡ none)

  refused_before-Uploads :
      (q : Request) (why : Text) (es : List Text) (jobs : Jobs)
      → q.unlinks ≡ true
      → Uploads q (refused_before others id registered q why es jobs)
  unfolding refused_before refuse
  refused_before-Uploads q why es jobs u =
      onward (locked others id registered (refuse others id registered why) (0, jobs))
        (locked-Lost _ (0, jobs))
    where
      ended :
          (r : Outcome Raised (Unit {0}) × At)
          → Lost r
          → Uploads q (elim (r.0) [
            | raised x ↦ (escapes, true, r.1.1)
            | ok _ ↦ (http 503, left_by q, r.1.1)
          ])
      ended (ok _, s) h = rw u refl
      ended (raised x, s) h = inr h

      onward :
          (r : Outcome Raised (Unit {0}) × At)
          → Lost r
          → Uploads q (elim (r.0) [
            | raised x ↦ (escapes, true, r.1.1)
            | ok _ ↦ elim ((refuse_engines others id registered why es r.1).0) [
              | raised x ↦ (escapes, true, (refuse_engines others id registered why es r.1).1.1)
              | ok _ ↦ (http 503, left_by q, (refuse_engines others id registered why es r.1).1.1)
            ]
          ])
      onward (ok _, s) h =
          ended (refuse_engines others id registered why es s) (refuse_engines-Lost why es s)
      onward (raised x, s) h = inr h

  submit_job-Uploads :
      (q : Request) (s : Submitted) (es : List Text) (jobs : Jobs)
      → q.submitted ≡ s
      → q.unlinks ≡ true
      → Uploads q (submit_job others id registered q s es jobs)
  unfolding submit_job
  submit_job-Uploads q queued es jobs e u = (refl, rw e refl)
  submit_job-Uploads q queued_late es jobs e u = (refl, rw e refl)
  submit_job-Uploads q (not_queued why) es jobs e u = refused_before-Uploads q why es jobs u

  stopped-Uploads :
      (q : Request) (stop : Stop) (left : Bool) (jobs : Jobs)
      → left ≡ false
      → Uploads q (reply_of stop, left, jobs)
  stopped-Uploads q (status code) left jobs h = h
  stopped-Uploads q broken left jobs h = inl h

  spool-Uploads :
      (max_bytes max_jobs : ℕ) (q : Request) (name : Text) (jobs : Jobs)
      → q.unlinks ≡ true
      → Uploads q (spool others id registered max_bytes max_jobs q name jobs)
  unfolding spool
  spool-Uploads max_bytes max_jobs q name jobs u = elim (Bool-cases (q.makes_temp)) [
    | inr no_temp ↦ rw (spool, no_temp) (inl refl)
    | inl temp ↦ elim (Outcome-cases (copy_upload max_bytes 0 q.chunks)) [
      | inr (stop, e) ↦ rw (spool, temp, e) (stopped-Uploads q stop (left_by q) jobs (rw u refl))
      | inl (n, e) ↦
          rw (spool, temp, e)
            (submit_job-Uploads q (q.submitted) (selected q.engines)
              (create max_jobs id name (selected q.engines) jobs) refl u)
    ]
  ]

  -- Where unlink works, and whatever else happens: a request that is accepted has queued its job
  -- and leaves the upload to it; an error response leaves no upload; an exception leaves one only
  -- where the store has no job of that id.
  pub scan-Uploads :
      (max_bytes max_jobs : ℕ) (q : Request) (jobs : Jobs)
      → q.unlinks ≡ true
      → Uploads q (scan others id registered max_bytes max_jobs q jobs)
  unfolding scan
  scan-Uploads max_bytes max_jobs q jobs u = elim (Bool-cases (q.is_ready)) [
    | inr starting ↦ rw (scan, starting) refl
    | inl ready ↦ elim (Outcome-cases (checked_name q.filename)) [
      | inr (stop, e) ↦ rw (scan, ready, e) (stopped-Uploads q stop false jobs refl)
      | inl (name, e) ↦ rw (scan, ready, e) (spool-Uploads max_bytes max_jobs q name jobs u)
    ]
  ]
