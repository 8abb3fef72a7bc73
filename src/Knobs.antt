-- ===== src/Knobs.antt =====
-- winval_blastbox/knobs.py, and `golden_rotate._env_int`, which is `env_int` with a floor: the
-- numeric knobs of the environment. Floats are a parameter.
pub mod Laws
mod Tests
use win_validator.Base.{
  ℕ, ◌≡◌, Bool, true, false, not, ◌&&◌, ◌||◌, [], Option, none, some, or_else, Text, codes, strip,
  is_empty, Dict, lookup, text_instance, ℤ, pos, ltb_ℤ, int_of, if◌then◌else◌,
}

-- `os.environ`
abbrev pub Environ : Type 0
Environ = Dict Text Text

-- What is logged: the value is no number, or it is below the floor.
pub data Warning : Type 0 where
  not_a_number below_floor : Warning

-- `os.environ.get(name, "").strip()`
unfoldable pub raw_knob : Environ → Text → Text
raw_knob env name = strip (or_else (lookup name env) [])

-- The value, and the warning that was logged.
abbrev at_least : Option ℤ → ℤ → ℤ × Option Warning
at_least none n = (n, none)
at_least (some floor) n = if ltb_ℤ n floor then (floor, some below_floor) else (n, none)

unfoldable pub env_int : Environ → Text → ℤ → Option ℤ → ℤ × Option Warning
env_int env name default floor =
    let raw = raw_knob env name in
    if is_empty raw
    then (default, none)
    else elim (int_of raw) [ none ↦ (default, some not_a_number) | some n ↦ at_least floor n ]

unfoldable pub upload_mb : Environ → ℤ × Option Warning
unfolding env_int
upload_mb env = env_int env (codes "AUTHENTICODE_MAX_UPLOAD_MB") (pos 1024) (some (pos 1))

unfoldable pub agent_port : Environ → ℤ × Option Warning
unfolding env_int
agent_port env = env_int env (codes "AUTHENTICODE_AGENT_PORT") (pos 8765) (some (pos 1))

-- vm_pool.pool_size
unfoldable pub pool_size : Environ → ℤ × Option Warning
unfolding env_int
pool_size env = env_int env (codes "AUTHENTICODE_POOL_SIZE") (pos 2) (some (pos 1))

-- Python's floats, as far as the knobs use them: `float(text)`, finiteness and the order.
pub record Floats : Type 1 where
  pub Float : Type 0
  pub float : Text → Option Float
  pub is_finite : Float → Bool
  pub lt : Float → Float → Bool

module _ (F : Floats) where
  open F use {Float, float, is_finite, lt}

  abbrev finite_only : Option Float → Option Float
  finite_only none = none
  finite_only (some v) = if is_finite v then some v else none

  abbrev float_at_least : Option Float → Float → Float × Option Warning
  float_at_least none v = (v, none)
  float_at_least (some floor) v = if lt v floor then (floor, some below_floor) else (v, none)

  pub env_float : Environ → Text → Float → Option Float → Float × Option Warning
  env_float env name default floor =
      let raw = raw_knob env name in
      if is_empty raw then (default, none) else elim (finite_only (float raw)) [
        | none ↦ (default, some not_a_number)
        | some v ↦ float_at_least floor v
      ]
