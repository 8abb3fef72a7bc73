-- ===== src/Engine/Singleton/Tests.antt =====
-- Two interleavings, and the theorem at the first.
use win_validator.Base.{ℕ, ◌≡◌, refl, false, none, some, arith}
use win_validator.Engine.Singleton.{
  outside, looking, waiting, relooking, booting, booted, returned, World, init, put, go, call,
  look_none, acquire, relook_none, boot, publish, leave, give, stop_look, shut, clear, Reach, begin,
  later,
}
use win_validator.Engine.Singleton.OnePool.{Reach-one_pool}

-- Thread 0 finds no pool while thread 1 waits for the lock, and boots one.
abbrev boots : World
boots = go 0 (booted 0) (record {
  pool = none;
  lock = some 0;
  started = 1;
  is_shut = λ _. false;
  getter = put 0 booting (
      put 0 relooking
        (put 1 waiting (put 0 waiting (put 1 looking (put 0 looking (λ _. outside))))));
  stopper = init.stopper;
})

boots-Reach : Reach boots
boots-Reach =
    later
      (later
        (later
          (later (later (later (later begin (call 0 refl)) (call 1 refl)) (look_none 0 refl refl))
            (look_none 1 refl refl))
          (acquire 0 refl refl))
        (relook_none 0 refl refl))
      (boot 0 refl)

Reach-one_pool_example : ◌≡◌ {A = ℕ} 0 0
Reach-one_pool_example = Reach-one_pool boots-Reach 0 0 (omega arith) (omega arith) refl refl

-- A shutdown between the `with` and the `return` of `get_pool`: the caller gets no pool.
no_pool_given : (w : World) × Reach w × (w.getter 0 ≡ returned none)
no_pool_given = (
  _,
  later
      (later
        (later
          (later (later (later boots-Reach (publish 0 refl)) (leave 0 refl)) (stop_look refl refl))
          (shut refl refl))
        (clear refl))
      (give 0 refl),
  refl,
)
