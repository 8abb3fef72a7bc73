-- ===== src/Chain/Choice.antt =====
-- What a rebake starts from.
use win_validator.Base.{
  ◌≡◌, Bool, true, false, not, ◌&&◌, ◌||◌, Option, none, some, ℤ, ltb_ℤ, arith,
}
use win_validator.Chain.{Source, golden, master, rebake_source}

-- The image that a source names exists.
abbrev pub exists : Bool → Bool → Source → Bool
exists has_golden has_master golden = has_golden
exists has_golden has_master master = has_master

-- What the choice of a rebake's source promises.
abbrev pub Chooses : Bool → Bool → Bool → Option Source → Type 0
Chooses due has_golden has_master none = (has_golden ≡ false) × (has_master ≡ false)
Chooses due has_golden has_master (some golden) =
    (has_golden ≡ true) × ((due && has_master) ≡ false)
Chooses due has_golden has_master (some master) =
    (has_master ≡ true) × ((due || not has_golden) ≡ true)

-- A source is always an image that exists; the master is taken when it is forced or the chain has
-- reached its bound, or when there is no golden, and the golden otherwise; only without both is
-- there none.
pub rebake_source-Chooses :
    (wants_master has_golden has_master : Bool) (max length : ℤ)
    → Chooses
        (wants_master || not (ltb_ℤ length max))
        has_golden
        has_master
        (rebake_source wants_master has_golden has_master max length)
unfolding rebake_source
rebake_source-Chooses wants_master has_golden has_master max length = ground arith
