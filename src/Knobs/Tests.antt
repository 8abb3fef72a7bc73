-- ===== src/Knobs/Tests.antt =====
-- Runs of the knobs, and their theorems at concrete environments.
use win_validator.Base.{◌≡◌, refl, [], ◌∷◌, none, some, codes, pos, int_of, ltb, ℕ, read_nat}
use win_validator.Knobs.{
  Environ, below_floor, not_a_number, raw_knob, upload_mb, agent_port, pool_size, Floats,
}

abbrev environ : Environ
environ =
    (codes "AUTHENTICODE_MAX_UPLOAD_MB", codes " 1_0\n")
    ∷ (codes "AUTHENTICODE_AGENT_PORT", codes "-3")
    ∷ (codes "AUTHENTICODE_POOL_SIZE", codes "2 workers")
    ∷ []

upload_mb_read : upload_mb environ ≡ (pos 10, none)
unfolding upload_mb raw_knob int_of
upload_mb_read = refl

agent_port_raised : agent_port environ ≡ (pos 1, some below_floor)
unfolding agent_port raw_knob int_of
agent_port_raised = refl

pool_size_default : pool_size environ ≡ (pos 2, some not_a_number)
unfolding pool_size raw_knob int_of
pool_size_default = refl

-- Whole numbers in the place of the floats: all are finite but 999.
abbrev whole : Floats
whole = record { Float = ℕ; float = read_nat; is_finite = λ n. ltb n 999; lt = ltb }
