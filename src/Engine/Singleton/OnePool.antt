-- ===== src/Engine/Singleton/OnePool.antt =====
-- At most one pool is up, in every interleaving.
use win_validator.Base.{
  ℕ, suc, ◌<◌, ◌≡◌, ◌≢◌, ◌⊎◌, refl, sym, ◌∙◌, subst, inl, inr, true, false, Option, none, some,
  ◌==◌, ==_iff, ==_refl, arith, Bool-cases,
}
use win_validator.Engine.Singleton.{
  Getter, outside, looking, waiting, relooking, booting, booted, leaving, returning, returned,
  Stopper, away, stopping, clearing, World, put, go, Step, call, look_some, look_none, acquire,
  relook_some, relook_none, boot, boot_fails, publish, leave, give, stop_look, shut, clear, Reach,
  begin, later,
}

-- What a thread's place says of the lock and of _POOL.
abbrev Fits : Option ℕ → Option ℕ → ℕ → Getter → Type 0
Fits lock pool i relooking = lock ≡ some i
Fits lock pool i booting = (lock ≡ some i) × (pool ≡ none)
Fits lock pool i (booted k) = (lock ≡ some i) × (pool ≡ none)
Fits lock pool i leaving = lock ≡ some i
Fits lock pool i _ = Unit

abbrev Stops : World → Stopper → Type 0
Stops w clearing = (k : ℕ) × (w.pool ≡ some k) × (w.is_shut k ≡ true)
Stops w _ = Unit

record Inv (w : World) : Type 0 where
  fits : (i : ℕ) → Fits w.lock w.pool i (w.getter i)
  up :
      (k : ℕ)
      → k < w.started
      → w.is_shut k ≡ false
      → (w.pool ≡ some k) ⊎ ((i : ℕ) × (w.getter i ≡ booted k))
  stops : Stops w w.stopper

-- One thread moves; the others keep what their places say.
Fits-put :
    (lock pool : Option ℕ) (f : ℕ → Getter) (i : ℕ) (p : Getter)
    → Fits lock pool i p
    → ((j : ℕ) → j ≢ i → Fits lock pool j (f j))
    → (j : ℕ) → Fits lock pool j (put i p f j)
Fits-put lock pool f i p new others j = elim (Bool-cases (j == i)) [
  | inl same ↦ rw same (subst (λ j. Fits lock pool j p) (sym ((==_iff j i).0 same)) new)
  | inr other ↦ rw other (others j (ground arith))
]

no_two : {i j : ℕ} {lock : Option ℕ} → lock ≡ some i → lock ≡ some j → j ≢ i → ⊥
no_two held held_too apart = apart (cc)

-- No other thread says anything of the lock that one holds, or that is free.
Fits_others :
    (lock pool lock' pool' : Option ℕ) {i : ℕ} (j : ℕ) (p : Getter)
    → lock ≡ some i
    → j ≢ i
    → Fits lock pool j p
    → Fits lock' pool' j p
Fits_others lock pool lock' pool' j relooking held apart h = absurd (no_two held h apart)
Fits_others lock pool lock' pool' j booting held apart h = absurd (no_two held h.0 apart)
Fits_others lock pool lock' pool' j (booted k) held apart h = absurd (no_two held h.0 apart)
Fits_others lock pool lock' pool' j leaving held apart h = absurd (no_two held h apart)
Fits_others lock pool lock' pool' j outside held apart h = tt
Fits_others lock pool lock' pool' j looking held apart h = tt
Fits_others lock pool lock' pool' j waiting held apart h = tt
Fits_others lock pool lock' pool' j returning held apart h = tt
Fits_others lock pool lock' pool' j (returned r) held apart h = tt

Fits_free :
    (lock pool lock' : Option ℕ) (j : ℕ) (p : Getter)
    → lock ≡ none
    → Fits lock pool j p
    → Fits lock' pool j p
Fits_free lock pool lock' j relooking free h = cc
Fits_free lock pool lock' j booting free (h, e) = cc
Fits_free lock pool lock' j (booted k) free (h, e) = cc
Fits_free lock pool lock' j leaving free h = cc
Fits_free lock pool lock' j outside free h = tt
Fits_free lock pool lock' j looking free h = tt
Fits_free lock pool lock' j waiting free h = tt
Fits_free lock pool lock' j returning free h = tt
Fits_free lock pool lock' j (returned r) free h = tt

Fits_cleared : (lock pool : Option ℕ) (j : ℕ) (p : Getter) → Fits lock pool j p → Fits lock none j p
Fits_cleared lock pool j relooking h = h
Fits_cleared lock pool j booting (h, e) = (h, refl)
Fits_cleared lock pool j (booted k) (h, e) = (h, refl)
Fits_cleared lock pool j leaving h = h
Fits_cleared lock pool j outside h = tt
Fits_cleared lock pool j looking h = tt
Fits_cleared lock pool j waiting h = tt
Fits_cleared lock pool j returning h = tt
Fits_cleared lock pool j (returned r) h = tt

-- A pool that is up stays published or in the hand of its thread, which is not the one that moves.
abbrev pub Up : World → Type 0
Up w =
    (k : ℕ)
    → k < w.started
    → w.is_shut k ≡ false
    → (w.pool ≡ some k) ⊎ ((i : ℕ) × (w.getter i ≡ booted k))

put_other :
    (f : ℕ → Getter) (i : ℕ) (p : Getter) (k j : ℕ)
    → f i ≢ booted k
    → f j ≡ booted k
    → put i p f j ≡ booted k
put_other f i p k j differs e = elim (Bool-cases (j == i)) [
  | inl same ↦ absurd (differs (subst (λ j. f j ≡ booted k) ((==_iff j i).0 same) e))
  | inr other ↦ rw other e
]

Up-go : (w : World) (i : ℕ) (p : Getter) → ((k : ℕ) → w.getter i ≢ booted k) → Up w → Up (go i p w)
Up-go w i p differs up k lt live = elim (up k lt live) [
  | inl published ↦ inl published
  | inr (j, e) ↦ inr (j, put_other w.getter i p k j (differs k) e)
]

put_self : {A : Type 0} (i : ℕ) (a : A) (f : ℕ → A) → put i a f i ≡ a
put_self i a f = rw ==_refl refl

fits_at : {w : World} (i : ℕ) {p : Getter} → Inv w → w.getter i ≡ p → Fits w.lock w.pool i p
fits_at {w} i inv e = subst (Fits w.lock w.pool i) e (inv.fits i)

booted_holds : {w : World} (j : ℕ) {k : ℕ} → Inv w → w.getter j ≡ booted k → w.lock ≡ some j
booted_holds {w} j inv e = (subst (Fits w.lock w.pool j) e (inv.fits j)).0

Up-boot :
    (w : World) (i : ℕ)
    → w.getter i ≡ booting
    → Up w
    → Up (go i (booted w.started) (record w { started = suc w.started }))
Up-boot w i e up k lt live = elim (Bool-cases (k == w.started)) [
  | inl last ↦ inr (
    i,
    subst (λ k. put i (booted w.started) w.getter i ≡ booted k) (sym ((==_iff k w.started).0 last))
        (put_self i (booted w.started) w.getter),
  )
  | inr earlier ↦ elim (up k (ground arith) live) [
    | inl published ↦ inl published
    | inr (j, b) ↦ inr (j, put_other w.getter i (booted w.started) k j (λ b. cc) b)
  ]
]

-- The pool that its thread publishes is the only one in a hand.
Up-publish :
    (w : World) (i k : ℕ)
    → w.getter i ≡ booted k
    → Inv w
    → Up (go i leaving (record w { pool = some k }))
Up-publish w i k e inv k' lt live = elim (inv.up k' lt live) [
  | inl published ↦ absurd (cc ((fits_at i inv e).1, published))
  | inr (j, b) ↦
      let one : some i ≡ some j = sym (booted_holds i inv e) ∙ booted_holds j inv b in
      let same : j ≡ i = cc in
      let both : booted k ≡ booted k' = sym e ∙ subst (λ j. w.getter j ≡ booted k') same b in inl cc
]

Stops-publish : (w v : World) (st : Stopper) → w.pool ≡ none → Stops w st → Stops v st
Stops-publish w v away empty h = tt
Stops-publish w v stopping empty h = tt
Stops-publish w v clearing empty (k, published, ended) = cc

Up-shut :
    (w : World) (k : ℕ)
    → Up w
    → Up (record w { is_shut = put k true w.is_shut; stopper = clearing })
Up-shut w k up k' lt live = elim (Bool-cases (k' == k)) [
  | inl same ↦ cc (rw same at live)
  | inr other ↦ up k' lt (rw other at live)
]

Up-clear : (w : World) → Stops w clearing → Up w → Up (record w { pool = none; stopper = away })
Up-clear w (k, published, ended) up k' lt live = elim (up k' lt live) [
  | inl also ↦ let both : some k ≡ some k' = sym published ∙ also in let same : k ≡ k' = cc in cc
  | inr hand ↦ inr hand
]

-- A step of a thread that touches neither the lock nor _POOL.
quiet-Inv :
    (w : World) (i : ℕ) (p : Getter)
    → Fits w.lock w.pool i p
    → ((k : ℕ) → w.getter i ≢ booted k)
    → Inv w
    → Inv (go i p w)
quiet-Inv w i p new differs inv = record {
  fits = Fits-put w.lock w.pool w.getter i p new (λ j apart. inv.fits j);
  up = Up-go w i p differs inv.up;
  stops = inv.stops;
}

-- The thread with the lock moves, and may give it back.
locked-fits :
    (w : World) (i : ℕ) (p : Getter) (lock' pool' : Option ℕ)
    → w.lock ≡ some i
    → Fits lock' pool' i p
    → Inv w
    → (j : ℕ) → Fits lock' pool' j (put i p w.getter j)
locked-fits w i p lock' pool' held new inv =
    Fits-put lock' pool' w.getter i p new
      λ j apart. Fits_others w.lock w.pool lock' pool' j (w.getter j) held apart (inv.fits j)

Step-Inv : {w v : World} → Inv w → Step w v → Inv v
Step-Inv {w} inv (call i e) = quiet-Inv w i looking tt (λ k b. cc) inv
Step-Inv {w} inv (look_some i e some_pool) = quiet-Inv w i returning tt (λ k b. cc) inv
Step-Inv {w} inv (look_none i e no_pool) = quiet-Inv w i waiting tt (λ k b. cc) inv
Step-Inv {w} inv (acquire i e free) = record {
  fits =
      Fits-put (some i) w.pool w.getter i relooking refl
        (λ j apart. Fits_free w.lock w.pool (some i) j (w.getter j) free (inv.fits j));
  up = Up-go w i relooking (λ k b. cc) inv.up;
  stops = inv.stops;
}
Step-Inv {w} inv (relook_some i e some_pool) =
    quiet-Inv w i leaving (fits_at i inv e) (λ k b. cc) inv
Step-Inv {w} inv (relook_none i e no_pool) =
    quiet-Inv w i booting (fits_at i inv e, no_pool) (λ k b. cc) inv
Step-Inv {w} inv (boot i e) =
    let (held, empty) = fits_at i inv e in
    record {
      fits = locked-fits w i (booted w.started) w.lock w.pool held (held, empty) inv;
      up = Up-boot w i e inv.up;
      stops = inv.stops;
    }
Step-Inv {w} inv (boot_fails i e) =
    let (held, empty) = fits_at i inv e in
    record {
      fits = locked-fits w i outside none w.pool held tt inv;
      up = Up-go w i outside (λ k b. cc) inv.up;
      stops = inv.stops;
    }
Step-Inv {w} inv (publish i {k} e) =
    let (held, empty) = fits_at i inv e in
    record {
      fits = locked-fits w i leaving w.lock (some k) held held inv;
      up = Up-publish w i k e inv;
      stops = Stops-publish w (go i leaving (record w { pool = some k })) w.stopper empty inv.stops;
    }
Step-Inv {w} inv (leave i e) = record {
  fits = locked-fits w i returning none w.pool (fits_at i inv e) tt inv;
  up = Up-go w i returning (λ k b. cc) inv.up;
  stops = inv.stops;
}
Step-Inv {w} inv (give i e) = quiet-Inv w i (returned w.pool) tt (λ k b. cc) inv
Step-Inv {w} inv (stop_look e some_pool) = record { fits = inv.fits; up = inv.up; stops = tt }
Step-Inv {w} inv (shut {k} e some_pool) = record {
  fits = inv.fits;
  up = Up-shut w k inv.up;
  stops = (k, some_pool, put_self k true w.is_shut);
}
Step-Inv {w} inv (clear e) = record {
  fits = λ j. Fits_cleared w.lock w.pool j (w.getter j) (inv.fits j);
  up = Up-clear w (subst (Stops w) e inv.stops) inv.up;
  stops = tt;
}

Reach-Inv : {w : World} → Reach w → Inv w
Reach-Inv begin = record { fits = λ i. tt; up = λ k lt live. absurd (omega arith); stops = tt }
Reach-Inv (later r st) = Step-Inv (Reach-Inv r) st

-- In every interleaving of any number of threads in `get_pool` with one in `shutdown_pool`, two pools
-- that have been started and not shut down are one pool.
pub Reach-one_pool :
    {w : World}
    → Reach w
    → (j k : ℕ) → j < w.started
    → k < w.started
    → w.is_shut j ≡ false
    → w.is_shut k ≡ false
    → j ≡ k
Reach-one_pool {w} r j k lt_j lt_k live_j live_k =
    let inv = Reach-Inv r in
    elim (inv.up j lt_j live_j) [
      | inl pool_j ↦ elim (inv.up k lt_k live_k) [
        | inl pool_k ↦ let both : some j ≡ some k = sym pool_j ∙ pool_k in cc
        | inr (i, b) ↦ absurd (cc ((fits_at i inv b).1, pool_j))
      ]
      | inr (i, b) ↦ elim (inv.up k lt_k live_k) [
        | inl pool_k ↦ absurd (cc ((fits_at i inv b).1, pool_k))
        | inr (i', b') ↦
            let one : some i ≡ some i' = sym (booted_holds i inv b) ∙ booted_holds i' inv b' in
            let same : i ≡ i' = cc in
            let both : booted j ≡ booted k =
              sym b ∙ subst (λ i. w.getter i ≡ booted k) (sym same) b' in
            cc
      ]
    ]
