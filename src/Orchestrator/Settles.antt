-- ===== src/Orchestrator/Settles.antt =====
-- What a run leaves of its job, whatever the other threads evict.
use win_validator.Base.{
  ℕ, suc, ◌≡◌, ◌⊎◌, inl, inr, refl, sym, subst, ◌∙◌, Bool, true, false, not, ◌&&◌, ◌||◌, List, [],
  ◌∷◌, Option, none, some, Text, codes, Outcome, ok, raised, lookup, insert, lookup-insert,
  text_instance, text_eq, text_eq_refl, mem_text, if◌then◌else◌, arith,
}
use win_validator.Json.{Json}
use win_validator.Envelope.{Summary}
use win_validator.Orchestrator.{
  Job, Jobs, At, Engines, Entry, waiting, busy, unavailable, reported, failed, Raised, update,
  update_engine, change, locked, run_engine, guard_engine, step_engine, run_engines, run_job,
  status_of, class_name,
}

-- An engine's entry that the page stops polling at.
abbrev pub is_settled : Option Entry → Bool
is_settled none = false
is_settled (some waiting) = false
is_settled (some busy) = false
is_settled (some unavailable) = true
is_settled (some (reported _ _)) = true
is_settled (some (failed _)) = true

-- The engines of the set have settled entries.
abbrev pub Settled : (Text → Bool) → Job → Type 0
Settled set job = (e : Text) → set e ≡ true → is_settled (lookup e job.engines) ≡ true

abbrev with_engine : Text → Entry → Job → Job
with_engine e entry job = record job { engines = insert e entry job.engines }

Settled-busy :
    (set : Text → Bool) (e : Text) (job : Job)
    → Settled set job
    → Settled (λ d. set d && not (text_eq d e)) (with_engine e busy job)
Settled-busy set e job h d p = rw (lookup-insert d e busy job.engines) (ground (arith, h d))

Settled-entry :
    (set : Text → Bool) (e : Text) (entry : Entry) (job : Job)
    → is_settled (some entry) ≡ true
    → Settled (λ d. set d && not (text_eq d e)) job
    → Settled (λ d. text_eq d e || set d) (with_engine e entry job)
Settled-entry set e entry job t h d p =
    rw (lookup-insert d e entry job.engines) (ground (arith, h d))

module _ (others : ℕ → Jobs → Jobs) (id : Text) (registered : Engines)
    (spares : (n : ℕ) (jobs : Jobs)
      → (lookup id (others n jobs) ≡ lookup id jobs) ⊎ (lookup id (others n jobs) ≡ none)) where
  abbrev Present : (Job → Type 0) → At → Type 0
  Present P s = (job : Job) × (lookup id s.1 ≡ some job) × P job

  abbrev Gone : At → Type 0
  Gone s = lookup id s.1 ≡ none

  -- A step that goes through leaves the job, one that raises has lost it.
  abbrev Leaves : (Job → Type 0) → Outcome Raised (Unit {0}) × At → Type 0
  Leaves P (ok _, s) = Present P s
  Leaves P (raised _, s) = Gone s

  locked-change :
      (f : Job → Job) (P Q : Job → Type 0) (s : At)
      → ((job : Job) → P job → Q (f job))
      → Gone s ⊎ Present P s
      → Leaves Q (locked others id registered (λ jobs. change f id jobs (lookup id jobs)) s)
  locked-change f P Q (n, jobs) h p =
      by_lookup (lookup id (others n jobs)) refl (survives p (spares n jobs))
    where
      survives :
          Gone (n, jobs) ⊎ Present P (n, jobs)
          → (lookup id (others n jobs) ≡ lookup id jobs) ⊎ (lookup id (others n jobs) ≡ none)
          → (lookup id (others n jobs) ≡ none)
            ⊎ ((job : Job) × (lookup id (others n jobs) ≡ some job) × P job)
      survives p (inr lost) = inl lost
      survives (inl gone) (inl same) = inl (same ∙ gone)
      survives (inr (job, g, q)) (inl same) = inr (job, same ∙ g, q)

      by_lookup :
          (o : Option Job)
          → lookup id (others n jobs) ≡ o
          → (lookup id (others n jobs) ≡ none)
            ⊎ ((job : Job) × (lookup id (others n jobs) ≡ some job) × P job)
          → Leaves Q (elim (change f id (others n jobs) o) [
            | ok jobs' ↦ (ok tt, (suc n, jobs'))
            | raised e ↦ (raised e, (suc n, others n jobs))
          ])
      by_lookup none e p = e
      by_lookup (some job) e (inl lost) = cc
      by_lookup (some job) e (inr (job', g, q)) =
          let same : job ≡ job' = cc in
          (
            f job,
            rw (lookup-insert id id (f job) (others n jobs), text_eq_refl id) refl,
            h job (subst P (sym same) q),
          )

  -- The step for one engine of the list.
  step_engine-Leaves :
      (set : Text → Bool) (e : Text) (result : Option (Outcome Raised (Summary × Json))) (s : At)
      → Present (Settled set) s
      → Leaves (Settled (λ d. text_eq d e || set d)) (step_engine others id registered e result s)
  unfolding update_engine
  step_engine-Leaves set e none s p =
      locked-change (with_engine e unavailable) (Settled set) _ s
        (λ job h. Settled-entry set e unavailable job refl (λ d q. h d (ground arith))) (inr p)
  step_engine-Leaves set e (some result) s p =
      guarded result (locked others id registered (update_engine id e busy) s) (
        locked-change (with_engine e busy) (Settled set) (Settled (λ d. set d && not (text_eq d e)))
          s (λ job. Settled-busy set e job) (inr p))
    where
      settle :
          (entry : Entry)
          → is_settled (some entry) ≡ true
          → (s : At) → Gone s ⊎ Present (Settled (λ d. set d && not (text_eq d e))) s
          → Leaves
              (Settled (λ d. text_eq d e || set d))
              (locked others id registered (update_engine id e entry) s)
      settle entry t s p =
          locked-change (with_engine e entry) (Settled (λ d. set d && not (text_eq d e))) _ s
            (λ job h. Settled-entry set e entry job t h) p

      caught :
          (r : Outcome Raised (Unit {0}) × At)
          → Leaves (Settled (λ d. text_eq d e || set d)) r
          → Leaves (Settled (λ d. text_eq d e || set d)) (guard_engine others id registered e r)
      caught (ok _, s) p = p
      caught (raised x, s) p = settle (failed (class_name x)) refl s (inl p)

      ran :
          (result : Outcome Raised (Summary × Json)) (s : At)
          → Present (Settled (λ d. set d && not (text_eq d e))) s
          → Leaves
              (Settled (λ d. text_eq d e || set d))
              (guard_engine others id registered e (run_engine others id registered e result s))
      ran (raised x) s p = settle (failed (class_name x)) refl s (inr p)
      ran (ok result) s p =
          caught
            (locked others id registered (update_engine id e (reported (status_of result.0) result))
              s)
            (settle (reported (status_of result.0) result) refl s (inr p))

      guarded :
          (result : Outcome Raised (Summary × Json)) (r : Outcome Raised (Unit {0}) × At)
          → Leaves (Settled (λ d. set d && not (text_eq d e))) r
          → Leaves (Settled (λ d. text_eq d e || set d)) (
              guard_engine others id registered e (elim (r.0) [
                | ok _ ↦ run_engine others id registered e result r.1
                | raised x ↦ (raised x, r.1)
              ]))
      guarded result (ok _, s) p = ran result s p
      guarded result (raised x, s) p = settle (failed (class_name x)) refl s (inl p)

  -- The job is done, and the engines of the set have settled entries.
  abbrev pub Done : (Text → Bool) → Job → Type 0
  Done set job = (job.status ≡ codes "done") × Settled set job

  run_engines-Leaves :
      (set : Text → Bool) (es : List Text) (s : At)
      → Present (Settled set) s
      → Leaves (Done (λ d. mem_text d es || set d)) (run_engines others id registered es s)
  unfolding run_engines update
  run_engines-Leaves set [] s p =
      locked-change (λ job. record job { status = codes "done" }) (Settled set) _ s
        (λ job h. (refl, h)) (inr p)
  run_engines-Leaves set (e ∷ es) s p =
      onward (step_engine others id registered e (registered e) s)
        (step_engine-Leaves set e (registered e) s p)
        (run_engines-Leaves (λ d. text_eq d e || set d) es)
    where
      regroup :
          (job : Job)
          → Done (λ d. mem_text d es || (text_eq d e || set d)) job
          → Done (λ d. mem_text d (e ∷ es) || set d) job
      regroup job h = (h.0, λ d q. h.1 d (ground arith))

      widen :
          (r : Outcome Raised (Unit {0}) × At)
          → Leaves (Done (λ d. mem_text d es || (text_eq d e || set d))) r
          → Leaves (Done (λ d. mem_text d (e ∷ es) || set d)) r
      widen (ok _, s) (job, g, h) = (job, g, regroup job h)
      widen (raised x, s) h = h

      onward :
          (r : Outcome Raised (Unit {0}) × At)
          → Leaves (Settled (λ d. text_eq d e || set d)) r
          → ((s : At)
              → Present (Settled (λ d. text_eq d e || set d)) s
              → Leaves
                  (Done (λ d. mem_text d es || (text_eq d e || set d)))
                  (run_engines others id registered es s))
          → Leaves (Done (λ d. mem_text d (e ∷ es) || set d)) (elim (r.0) [
            | ok _ ↦ run_engines others id registered es r.1
            | raised x ↦ (raised x, r.1)
          ])
      onward (ok _, s) h again = widen (run_engines others id registered es s) (again s h)
      onward (raised x, s) h again = h

  -- What `_run` leaves: the job done with every engine of the list settled, if it went through, and
  -- no job if it did not.
  abbrev pub Finished : List Text → Outcome Raised (Unit {0}) × Jobs × Bool → Type 0
  Finished es (ok _, jobs, upload) =
      (job : Job) × (lookup id jobs ≡ some job) × Done (λ d. mem_text d es) job
  Finished es (raised _, jobs, upload) = lookup id jobs ≡ none

  -- Whatever the engines answer or raise and whenever the other threads evict the job: a run ends
  -- with the job done and each of its engines settled, or the job was evicted.
  pub run_job-Finished :
      (unlinks : Bool) (es : List Text) (jobs : Jobs)
      → Finished es (run_job others id registered unlinks es jobs)
  unfolding run_job update
  run_job-Finished unlinks es jobs =
      begun (locked others id registered (update id (codes "running")) (0, jobs)) (
        locked-change (λ job. record job { status = codes "running" }) (λ _. Unit)
          (Settled (λ d. false)) (0, jobs) (λ job h d q. cc) (any_job (lookup id jobs) refl))
    where
      any_job :
          (o : Option Job) → lookup id jobs ≡ o → Gone (0, jobs) ⊎ Present (λ _. Unit) (0, jobs)
      any_job none e = inl e
      any_job (some job) e = inr (job, e, tt)

      ended :
          (r : Outcome Raised (Unit {0}) × At)
          → Leaves (Done (λ d. mem_text d es || false)) r
          → Finished es (r.0, r.1.1, if unlinks then false else true)
      ended (ok _, s) (job, g, (done, h)) = (job, g, (done, λ d q. h d (ground arith)))
      ended (raised x, s) h = h

      begun :
          (r : Outcome Raised (Unit {0}) × At)
          → Leaves (Settled (λ d. false)) r
          → Finished es (
              let (r', s') = run_engines others id registered es r.1 in
              elim (r.0) [
                | ok _ ↦ (r', s'.1, if unlinks then false else true)
                | raised x ↦ (raised x, r.1.1, if unlinks then false else true)
              ])
      begun (ok _, s) h =
          ended (run_engines others id registered es s) (run_engines-Leaves (λ d. false) es s h)
      begun (raised x, s) h = h
