-- ===== src/PoolManager/Start/Order.antt =====
-- The order of a start, and what it leaves.
use win_validator.Base.{
  ◌≡◌, refl, inl, inr, Bool, true, false, not, ◌||◌, List, [], ◌∷◌, some, last?, Outcome, ok,
  raised, arith, Bool-cases, ||-false,
}
use win_validator.PoolManager.Start.{
  Raise, system_exit, value_or_runtime, other, Event, scratch_made, scratch_closed, recovered,
  sweep_started, marker_cleared, warm_up, marker_written, claiming, shut_down, Host, is_below,
  overlap, roots_refused, serve, after_checks, run,
}

abbrev pub happens : (Event → Bool) → List Event → Bool
happens p [] = false
happens p (e ∷ es) = p e || happens p es

-- An event that touches jobs: a RUNNING row is failed, a directory is removed, a job is claimed.
abbrev pub touches_jobs : Event → Bool
touches_jobs recovered = true
touches_jobs sweep_started = true
touches_jobs claiming = true
touches_jobs scratch_made = false
touches_jobs scratch_closed = false
touches_jobs marker_cleared = false
touches_jobs warm_up = false
touches_jobs marker_written = false
touches_jobs shut_down = false

-- Whether the marker stands, from whether it did.
abbrev pub marker : Bool → List Event → Bool
marker there [] = there
marker there (marker_written ∷ es) = marker true es
marker there (marker_cleared ∷ es) = marker false es
marker there (scratch_made ∷ es) = marker there es
marker there (scratch_closed ∷ es) = marker there es
marker there (recovered ∷ es) = marker there es
marker there (sweep_started ∷ es) = marker there es
marker there (warm_up ∷ es) = marker there es
marker there (claiming ∷ es) = marker there es
marker there (shut_down ∷ es) = marker there es

abbrev pub is_warm_up : Event → Bool
is_warm_up warm_up = true
is_warm_up scratch_made = false
is_warm_up scratch_closed = false
is_warm_up recovered = false
is_warm_up sweep_started = false
is_warm_up marker_cleared = false
is_warm_up marker_written = false
is_warm_up claiming = false
is_warm_up shut_down = false

-- The two roots lie in neither way in each other, as written or as resolved, nor are one inode.
abbrev pub AreDisjoint : Host → Type 0
AreDisjoint h =
    (h.same_inode ≡ false)
    × (is_below h.work_root.written h.job_root.written ≡ false)
    × (is_below h.job_root.written h.work_root.written ≡ false)
    × (is_below h.work_root.resolved h.job_root.resolved ≡ false)
    × (is_below h.job_root.resolved h.work_root.resolved ≡ false)

after_checks-touches :
    (egress warmup : Outcome Raise (Unit {0})) (stopped : Bool)
    → happens touches_jobs (after_checks egress warmup stopped).1 ≡ true
    → egress ≡ ok tt
unfolding after_checks serve
after_checks-touches (ok _) warmup stopped h = refl
after_checks-touches (raised system_exit) warmup stopped h = cc
after_checks-touches (raised value_or_runtime) warmup stopped h = cc
after_checks-touches (raised other) warmup stopped h = cc

roots_refused-AreDisjoint :
    (h : Host) → roots_refused h ≡ false → AreDisjoint h × (h.job_root.is_dir ≡ true)
unfolding roots_refused overlap
roots_refused-AreDisjoint h r = ground arith

-- No job is touched before every check has passed: the roots are disjoint and the job root is a
-- directory, the scratch root is no link and this process's own, and the egress check let the start
-- through.
pub run_touches :
    (h : Host)
    → happens touches_jobs (run h).1 ≡ true
    → AreDisjoint h
      × (h.job_root.is_dir ≡ true)
      × (h.work_is_link ≡ false)
      × (h.work_is_ours ≡ true)
      × (h.egress ≡ ok tt)
unfolding run
run_touches h t = elim (Bool-cases (roots_refused h)) [
  | inl bad ↦ cc (rw (run, bad) at t)
  | inr good ↦ elim (Bool-cases (h.mkdir)) [
    | inr failed ↦ cc (rw (run, good, failed) at t)
    | inl made ↦ elim (Bool-cases (h.work_is_link || not h.work_is_ours)) [
      | inl foreign ↦ cc (rw (run, good, made, foreign) at t)
      | inr own ↦
          let (disjoint, is_dir) = roots_refused-AreDisjoint h good in
          let (no_link, ours) = ||-false (h.work_is_link) (not h.work_is_ours) own in
          (
            disjoint,
            is_dir,
            no_link,
            ground arith,
            after_checks-touches (h.egress) (h.warmup) (h.stopped) (rw (run, good, made, own) at t),
          )
    ]
  ]
]

after_checks_shuts_down :
    (egress warmup : Outcome Raise (Unit {0})) (stopped : Bool)
    → happens is_warm_up (after_checks egress warmup stopped).1 ≡ true
    → (there : Bool)
    → (last? (after_checks egress warmup stopped).1 ≡ some shut_down)
      × (marker there (after_checks egress warmup stopped).1 ≡ false)
unfolding after_checks serve
after_checks_shuts_down (ok _) (ok _) stopped h there = (refl, refl)
after_checks_shuts_down (ok _) (raised system_exit) stopped h there = (refl, refl)
after_checks_shuts_down (ok _) (raised value_or_runtime) stopped h there = (refl, refl)
after_checks_shuts_down (ok _) (raised other) stopped h there = (refl, refl)
after_checks_shuts_down (raised system_exit) warmup stopped h there = cc
after_checks_shuts_down (raised value_or_runtime) warmup stopped h there = cc
after_checks_shuts_down (raised other) warmup stopped h there = cc

-- A run that warmed the pool up shuts it down last, whether the warm-up went through or not, and
-- leaves no marker, whether there was one or not.
pub run_shuts_down :
    (h : Host) (there : Bool)
    → happens is_warm_up (run h).1 ≡ true
    → (last? (run h).1 ≡ some shut_down) × (marker there (run h).1 ≡ false)
unfolding run
run_shuts_down h there t = elim (Bool-cases (roots_refused h)) [
  | inl bad ↦ cc (rw (run, bad) at t)
  | inr good ↦ elim (Bool-cases (h.mkdir)) [
    | inr failed ↦ cc (rw (run, good, failed) at t)
    | inl made ↦ elim (Bool-cases (h.work_is_link || not h.work_is_ours)) [
      | inl foreign ↦ cc (rw (run, good, made, foreign) at t)
      | inr own ↦
          rw (run, good, made, own)
            (after_checks_shuts_down (h.egress) (h.warmup) (h.stopped)
              (rw (run, good, made, own) at t) there)
    ]
  ]
]
