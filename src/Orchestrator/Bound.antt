-- ===== src/Orchestrator/Bound.antt =====
-- The bound on the jobs, and what an eviction does to a job.
use win_validator.Base.{
  ℕ, ◌≤◌, ◌≡◌, ◌⊎◌, inl, inr, refl, false, List, [], ◌∷◌, none, some, Text, codes, length, ltb,
  lookup, insert, lookup-insert, text_instance, text_eq, text_eq_iff, arith, Bool-cases,
}
use win_validator.Orchestrator.{Job, Jobs, evict, create, all_waiting}

evict-le-max : (max : ℕ) (jobs : Jobs) → length (evict max jobs) ≤ max
unfolding evict
evict-le-max max [] = omega arith
evict-le-max max (j ∷ js) = ground (arith, evict-le-max max js)

-- However many jobs there were: after `create`, at most `max_jobs`.
pub create-le-max :
    (max : ℕ) (id filename : Text) (engines : List Text) (jobs : Jobs)
    → length (create max id filename engines jobs) ≤ max
unfolding create
create-le-max max id filename engines jobs = evict-le-max max _

-- No id has two jobs.
abbrev pub Distinct : Jobs → Type 0
Distinct [] = Unit
Distinct ((id, job) ∷ jobs) = (lookup id jobs ≡ none) × Distinct jobs

insert-Distinct :
    (id : Text) (job : Job) (jobs : Jobs) → Distinct jobs → Distinct (insert id job jobs)
insert-Distinct id job [] h = (refl, tt)
insert-Distinct id job ((j, old) ∷ jobs) h = elim (Bool-cases (text_eq id j)) [
  | inl same ↦ rw same h
  | inr other ↦ rw other (
    rw (lookup-insert j id job jobs) (ground (arith, h.0, text_eq_iff j id, text_eq_iff id j)),
    insert-Distinct id job jobs h.1,
  )
]

evict-Distinct : (max : ℕ) (jobs : Jobs) → Distinct jobs → Distinct (evict max jobs)
unfolding evict
evict-Distinct max [] h = tt
evict-Distinct max (j ∷ js) h = elim (Bool-cases (ltb max (length (j ∷ js)))) [
  | inl over ↦ rw (evict, over) (evict-Distinct max js h.1)
  | inr fits ↦ rw (evict, fits) h
]

evict-lookup :
    (max : ℕ) (id : Text) (jobs : Jobs)
    → Distinct jobs
    → (lookup id (evict max jobs) ≡ lookup id jobs) ⊎ (lookup id (evict max jobs) ≡ none)
unfolding evict
evict-lookup max id [] h = inl refl
evict-lookup max id ((j, job) ∷ jobs) h = elim (Bool-cases (ltb max (length ((j, job) ∷ jobs)))) [
  | inr fits ↦ inl (rw (evict, fits) refl)
  | inl over ↦ rw (evict, over) (ground (arith, evict-lookup max id jobs h.1, text_eq_iff id j))
]

-- A job that another request creates leaves the others as they are, or evicts them, and no id gets
-- a second job.
pub create-spares :
    (max : ℕ) (new filename : Text) (engines : List Text) (id : Text) (jobs : Jobs)
    → Distinct jobs
    → text_eq id new ≡ false
    → ((lookup id (create max new filename engines jobs) ≡ lookup id jobs)
        ⊎ (lookup id (create max new filename engines jobs) ≡ none))
      × Distinct (create max new filename engines jobs)
unfolding create
create-spares max new filename engines id jobs h other =
    let made : Job = record {
      status = codes "queued";
      filename = filename;
      error = none;
      engines = all_waiting [] engines;
    } in
    (
      rw (lookup-insert id new made jobs, other) at
          (evict-lookup max id (insert new made jobs) (insert-Distinct new made jobs h)),
      evict-Distinct max (insert new made jobs) (insert-Distinct new made jobs h),
    )

evict-insert :
    (max : ℕ) (new : Text) (made : Job) (jobs : Jobs)
    → lookup new jobs ≡ none
    → 1 ≤ max
    → lookup new (evict max (insert new made jobs)) ≡ some made
unfolding evict
evict-insert max new made [] fresh h = ground (arith, text_eq_iff new new)
evict-insert max new made ((id, job) ∷ jobs) fresh h = elim (Bool-cases (text_eq new id)) [
  | inl same ↦ cc (rw same at fresh)
  | inr other ↦
      let later : lookup new jobs ≡ none = rw other at fresh in
      ground (
        arith,
        other,
        lookup-insert new new made jobs,
        text_eq_iff new new,
        evict-insert max new made jobs later h,
      )
]

-- The new job is there, when its id is fresh and the bound is not zero.
pub create-lookup :
    (max : ℕ) (new filename : Text) (engines : List Text) (jobs : Jobs)
    → lookup new jobs ≡ none
    → 1 ≤ max
    → (job : Job) × (lookup new (create max new filename engines jobs) ≡ some job)
      × (job.status ≡ codes "queued")
unfolding create
create-lookup max new filename engines jobs fresh h =
    let made : Job = record {
      status = codes "queued";
      filename = filename;
      error = none;
      engines = all_waiting [] engines;
    } in
    (made, evict-insert max new made jobs fresh h, refl)
