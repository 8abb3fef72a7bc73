-- ===== src/Knobs/Laws.antt =====
-- The knobs never leave their range.
use win_validator.Base.{◌≡◌, some, Text, ℤ, pos, ◌≤ℤ◌, arith, true, false}
use win_validator.Knobs.{Environ, env_int, upload_mb, agent_port, pool_size, Floats, env_float}

-- Whatever the environment holds, a knob with a floor is not below it: an unset, blank or
-- unreadable value gives the default, and a value below the floor gives the floor.
pub env_int_floor :
    (env : Environ) (name : Text) (default floor : ℤ)
    → floor ≤ℤ default
    → floor ≤ℤ (env_int env name default (some floor)).0
unfolding env_int
env_int_floor env name default floor h = ground arith

-- The upload bound, the agent's port and the pool's size are at least 1 in every environment.
pub knobs_pos :
    (env : Environ)
    → (pos 1 ≤ℤ (upload_mb env).0) × (pos 1 ≤ℤ (agent_port env).0) × (pos 1 ≤ℤ (pool_size env).0)
unfolding upload_mb agent_port pool_size
knobs_pos env = (
  env_int_floor env _ (pos 1024) (pos 1) (omega arith),
  env_int_floor env _ (pos 8765) (pos 1) (omega arith),
  env_int_floor env _ (pos 2) (pos 1) (omega arith),
)

module _ (F : Floats) where
  open F use {Float, is_finite, lt}

  -- A float knob is finite and not below its floor, if the default and the floor are finite and
  -- the default is not below the floor (the order of floats is a parameter, irreflexive here).
  pub env_float_range :
      (env : Environ) (name : Text) (default floor : Float)
      → is_finite default ≡ true
      → is_finite floor ≡ true
      → lt default floor ≡ false
      → lt floor floor ≡ false
      → let v = (env_float F env name default (some floor)).0 in
        (is_finite v ≡ true) × (lt v floor ≡ false)
  unfolding env_float
  env_float_range env name default floor d f h r = ground arith
