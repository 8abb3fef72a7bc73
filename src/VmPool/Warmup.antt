-- ===== src/VmPool/Warmup.antt =====
-- The warm-up ends, and leaves no pool behind unless a worker is warm.
use win_validator.Base.{
  ℕ, zero, suc, ◌+◌, ◌≤◌, ◌<◌, ◌↔◌, ◌≡◌, ap, Bool, true, false, Bool-cases, leb, ◌≢◌, ◌⊎◌, inl, inr,
  refl, [], ◌∷◌, ok, if◌then◌else◌, arith,
}
use win_validator.VmPool.{
  Look, sees, interrupted, Wait, raises, stop_requested, warm, out_of_fuel, reached, poll_loop,
  start_pool, stop_pool, start_result, start,
}

poll_loop-ne-out_of_fuel :
    (fuel deadline : ℕ) (clock : ℕ → ℕ) (look : ℕ → Look) (i : ℕ)
    → ((j : ℕ) → clock j + 1 ≤ clock (suc j))
    → deadline ≤ clock i + fuel
    → poll_loop (suc fuel) deadline clock look i ≢ out_of_fuel
unfolding poll_loop
poll_loop-ne-out_of_fuel zero deadline clock look i ticks h = ground arith
poll_loop-ne-out_of_fuel (suc fuel) deadline clock look i ticks h =
    ground (arith, ticks i, poll_loop-ne-out_of_fuel fuel deadline clock look (suc i) ticks)

start_calls :
    (w : Wait)
    → let calls = start_pool ∷ (if reached w then [] else stop_pool ∷ []) in
      (start_result w ≡ ok tt) × (calls ≡ start_pool ∷ [])
      ⊎ (start_result w ≢ ok tt) × (calls ≡ start_pool ∷ stop_pool ∷ [])
start_calls warm = inl (refl, refl)
start_calls _ = inr ((λ e. cc), refl)

-- The looks from `i` on that come in front of the deadline and see no worker and no stop, up to `j`,
-- which sees a warm worker in time.
abbrev pub WarmAt : ℕ → (ℕ → ℕ) → (ℕ → Look) → ℕ → ℕ → Type 0
WarmAt deadline clock look i zero =
    (clock i < deadline) × ((idle : ℕ) × (stop : Bool) × (look i ≡ sees (suc idle) stop))
WarmAt deadline clock look i (suc j) =
    (clock i < deadline) × (look i ≡ sees 0 false) × WarmAt deadline clock look (suc i) j

WarmAt-later :
    (deadline : ℕ) (clock : ℕ → ℕ) (look : ℕ → Look) (i : ℕ)
    → clock i < deadline
    → look i ≡ sees 0 false
    → (j : ℕ) × WarmAt deadline clock look (suc i) j
    → (j : ℕ) × WarmAt deadline clock look i j
WarmAt-later deadline clock look i early seen (j, later) = (suc j, (early, seen, later))

poll_loop-WarmAt :
    (fuel deadline : ℕ) (clock : ℕ → ℕ) (look : ℕ → Look) (i : ℕ)
    → poll_loop fuel deadline clock look i ≡ warm
    → (j : ℕ) × WarmAt deadline clock look i j
unfolding poll_loop
poll_loop-WarmAt zero deadline clock look i h = cc
poll_loop-WarmAt (suc fuel) deadline clock look i h = elim (Bool-cases (leb deadline (clock i))) [
  | inl late ↦ cc (rw (poll_loop, late) at h)
  | inr early ↦
      by_look (ground arith) (poll_loop-WarmAt fuel deadline clock look (suc i)) (look i) refl
        (rw (poll_loop, early) at h)
]
  where
    by_look :
        clock i < deadline
        → (poll_loop fuel deadline clock look (suc i) ≡ warm
            → (j : ℕ) × WarmAt deadline clock look (suc i) j)
        → (l : Look) → look i ≡ l
        → (elim l [
          | interrupted e ↦ raises e
          | sees idle stop ↦
              if leb 1 idle
              then warm
              else if stop
              then stop_requested
              else poll_loop fuel deadline clock look (suc i)
        ])
          ≡ warm
        → (j : ℕ) × WarmAt deadline clock look i j
    by_look early more (interrupted e) seen k = cc
    by_look early more (sees (suc idle) stop) seen k = (0, (early, (idle, stop, seen)))
    by_look early more (sees zero true) seen k = cc
    by_look early more (sees zero false) seen k =
        WarmAt-later deadline clock look i early seen (more k)

WarmAt-poll_loop :
    (j fuel deadline : ℕ) (clock : ℕ → ℕ) (look : ℕ → Look) (i : ℕ)
    → WarmAt deadline clock look i j
    → j < fuel
    → poll_loop fuel deadline clock look i ≡ warm
unfolding poll_loop
WarmAt-poll_loop j zero deadline clock look i h f = absurd (omega (arith, f))
WarmAt-poll_loop zero (suc fuel) deadline clock look i (early, (idle, stop, seen)) f =
    let in_time : leb deadline (clock i) ≡ false = ground arith in
    let one : leb 1 (suc idle) ≡ true = ground arith in rw (poll_loop, in_time, seen, one) refl
WarmAt-poll_loop (suc j) (suc fuel) deadline clock look i (early, seen, later) f =
    let in_time : leb deadline (clock i) ≡ false = ground arith in
    rw (poll_loop, in_time, seen)
      (WarmAt-poll_loop j fuel deadline clock look (suc i) later (omega (arith, f)))

-- Before the look that sees a worker there are fewer looks than milliseconds.
WarmAt-lt :
    (deadline : ℕ) (clock : ℕ → ℕ) (look : ℕ → Look) (i j : ℕ)
    → ((k : ℕ) → clock k + 1 ≤ clock (suc k))
    → WarmAt deadline clock look i j
    → clock i + j < deadline
WarmAt-lt deadline clock look i zero ticks (early, seen) = omega (arith, early)
WarmAt-lt deadline clock look i (suc j) ticks (early, seen, later) =
    omega (arith, ticks i, WarmAt-lt deadline clock look (suc i) j ticks later)

start_result-warm : (w : Wait) → start_result w ≡ ok tt → w ≡ warm
start_result-warm warm h = refl
start_result-warm _ h = cc

-- The clock goes on by at least a millisecond from one test to the next, and the first test is not
-- before the call: then the wait ends within as many rounds as it has milliseconds, and one more.
-- The call returns exactly if a look in front of the deadline sees a worker that is warm, and no look
-- before it saw a stop request or was interrupted. On every other end, an exception included, the pool
-- that it started is stopped.
pub start_settles :
    (fuel begun wait_warm : ℕ) (clock : ℕ → ℕ) (look : ℕ → Look)
    → ((j : ℕ) → clock j + 1 ≤ clock (suc j))
    → begun ≤ clock 0
    → wait_warm ≤ fuel
    → let (w, result, calls) = start (suc fuel) begun wait_warm clock look in
      (w ≢ out_of_fuel)
      × ((result ≡ ok tt) ↔ ((j : ℕ) × WarmAt (begun + wait_warm) clock look 0 j))
      × ((result ≡ ok tt) × (calls ≡ start_pool ∷ [])
          ⊎ (result ≢ ok tt) × (calls ≡ start_pool ∷ stop_pool ∷ []))
unfolding start
start_settles fuel begun wait_warm clock look ticks h f =
    let deadline = begun + wait_warm in
    let w = poll_loop (suc fuel) deadline clock look 0 in
    (
      poll_loop-ne-out_of_fuel fuel deadline clock look 0 ticks (omega (arith, h, f)),
      (
        λ returns. poll_loop-WarmAt (suc fuel) deadline clock look 0 (start_result-warm w returns),
        λ (j, seen). ap start_result (
            WarmAt-poll_loop j (suc fuel) deadline clock look 0 seen
              (omega (arith, h, f, WarmAt-lt deadline clock look 0 j ticks seen))),
      ),
      start_calls w,
    )
