-- ===== src/Rotation/Service.antt =====
-- What a restart that reports the pool in service has seen.
use win_validator.Base.{
  ℕ, suc, ◌≡◌, ◌⊎◌, refl, Option, true, ◌||◌, List, [], ◌∷◌, any, is_empty, ◌==◌, ==_iff, arith,
  Bool-cases, inl, inr,
}
use win_validator.Rotation.{in_service, Look, is_fresh, wait_warm, SystemdUnit, restart_pool}

wait_warm-is_fresh :
    (started tick : ℕ) (ls : List Look) (last : Option ℕ)
    → wait_warm started tick ls last ≡ in_service
    → (any (λ l. is_fresh started l.marker) ls || is_fresh started last) ≡ true
unfolding wait_warm
wait_warm-is_fresh started tick [] last h = elim (Bool-cases (is_fresh started last)) [
  | inl fresh ↦ fresh
  | inr stale ↦ cc (rw (wait_warm, stale) at h)
]
wait_warm-is_fresh started tick (l ∷ ls) last h = elim (Bool-cases (is_fresh started l.marker)) [
  | inl fresh ↦ rw fresh refl
  | inr stale ↦
      let rest = wait_warm-is_fresh started (suc tick) ls last in
      let later : wait_warm started (suc tick) ls last ≡ in_service = ground arith in
      rw stale (rest later)
]

-- "In service" is only said of a unit whose restart returned 0 and which is up, and, unless the wait
-- is switched off, when a look has found a marker that is no more than two seconds older than the start of the
-- restart.
pub restart_pool-in_service :
    (u : SystemdUnit)
    → restart_pool u ≡ in_service
    → (u.returns_0 ≡ true)
      × (u.is_up ≡ true)
      × ((u.settle ≡ 0)
          ⊎ ((any (λ l. is_fresh u.started l.marker) u.looks || is_fresh u.started u.last_marker)
              ≡ true))
unfolding restart_pool
restart_pool-in_service u h = elim (Bool-cases (is_empty u.service)) [
  | inl disabled ↦ cc (rw (restart_pool, disabled) at h)
  | inr named ↦ elim (Bool-cases (u.returns_0)) [
    | inr fails ↦ cc (rw (restart_pool, named, fails) at h)
    | inl returned ↦ elim (Bool-cases (u.is_up)) [
      | inr down ↦ ground (arith, rw (restart_pool, named, returned, down) at h)
      | inl up ↦ elim (Bool-cases (u.settle == 0)) [
        | inl no_wait ↦ (returned, up, inl ((==_iff (u.settle) 0).0 no_wait))
        | inr waits ↦ (
          returned,
          up,
          inr (
              wait_warm-is_fresh (u.started) 0 (u.looks) (u.last_marker)
                (rw (restart_pool, named, returned, up, waits) at h)),
        )
      ]
    ]
  ]
]
