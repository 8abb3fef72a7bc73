-- ===== src/Engine/Singleton.antt =====
-- engine.py: `get_pool` and `shutdown_pool` over the module's _POOL and _POOL_LOCK. Any number of
-- threads are in `get_pool`, one is in `shutdown_pool`, interleaved at each read or write of what they
-- share. The pools that have been started are numbered in their order.
pub mod OnePool
mod Tests
use win_validator.Base.{ℕ, suc, ◌≡◌, Bool, true, false, Option, none, some, ◌==◌, if◌then◌else◌}

-- Where a thread stands in `get_pool`.
pub data Getter : Type 0 where
  outside : Getter
  looking : Getter  -- the first `if _POOL is None`
  waiting : Getter  -- `with _POOL_LOCK`
  relooking : Getter  -- the second `if`
  booting : Getter  -- `WarmVmPool(...)` and `pool.start(...)`
  booted : (pool : ℕ) → Getter  -- before `_POOL = pool`
  leaving : Getter  -- the end of the `with`
  returning : Getter  -- before `return _POOL`
  returned : (pool : Option ℕ) → Getter

-- Where the thread stands in `shutdown_pool`.
pub data Stopper : Type 0 where
  away : Stopper
  stopping : Stopper  -- before `_POOL.shutdown()`
  clearing : Stopper  -- before `_POOL = None`

pub record World : Type 0 where
  pub pool : Option ℕ
  pub lock : Option ℕ
  pub started : ℕ
  pub is_shut : ℕ → Bool
  pub getter : ℕ → Getter
  pub stopper : Stopper

abbrev pub init : World
init = record {
  pool = none;
  lock = none;
  started = 0;
  is_shut = λ _. false;
  getter = λ _. outside;
  stopper = away;
}

abbrev pub put {ℓ} : {A : Type ℓ} → ℕ → A → (ℕ → A) → ℕ → A
put i a f j = if j == i then a else f j

abbrev pub go : ℕ → Getter → World → World
go i p w = record w { getter = put i p w.getter }

pub data Step (w : World) : World → Type 0 where
  call : (i : ℕ) → w.getter i ≡ outside → Step w (go i looking w)
  look_some : (i : ℕ) {k : ℕ} → w.getter i ≡ looking → w.pool ≡ some k → Step w (go i returning w)
  look_none : (i : ℕ) → w.getter i ≡ looking → w.pool ≡ none → Step w (go i waiting w)
  acquire :
      (i : ℕ)
      → w.getter i ≡ waiting
      → w.lock ≡ none
      → Step w (go i relooking (record w { lock = some i }))
  relook_some : (i : ℕ) {k : ℕ} → w.getter i ≡ relooking → w.pool ≡ some k → Step w (go i leaving w)
  relook_none : (i : ℕ) → w.getter i ≡ relooking → w.pool ≡ none → Step w (go i booting w)
  boot :
      (i : ℕ)
      → w.getter i ≡ booting
      → Step w (go i (booted w.started) (record w { started = suc w.started }))
  boot_fails : (i : ℕ) → w.getter i ≡ booting → Step w (go i outside (record w { lock = none }))
  publish :
      (i : ℕ) {k : ℕ} → w.getter i ≡ booted k → Step w (go i leaving (record w { pool = some k }))
  leave : (i : ℕ) → w.getter i ≡ leaving → Step w (go i returning (record w { lock = none }))
  give : (i : ℕ) → w.getter i ≡ returning → Step w (go i (returned w.pool) w)
  stop_look :
      {k : ℕ} → w.stopper ≡ away → w.pool ≡ some k → Step w (record w { stopper = stopping })
  shut :
      {k : ℕ}
      → w.stopper ≡ stopping
      → w.pool ≡ some k
      → Step w (record w { is_shut = put k true w.is_shut; stopper = clearing })
  clear : w.stopper ≡ clearing → Step w (record w { pool = none; stopper = away })

pub data Reach : World → Type 0 where
  begin : Reach init
  later : {w v : World} → Reach w → Step w v → Reach v
