-- ===== src/Refresh.antt =====
-- golden_rotate.refresh_result: which answers of the in-guest trust refresh count as a success.
pub mod Proof
mod Tests
use win_validator.Base.{
  ℕ, Bool, true, false, not, ◌&&◌, ◌||◌, List, [], ◌∷◌, ◌++◌, Option, none, some, or_else, Text,
  codes, is_empty, mem_code, int_of, ℤ, pos, ltb_ℤ, Outcome, ok, raised, if◌then◌else◌,
}
use win_validator.Json.{Json, null, bool, num, str, arr, obj, Fields, find}

-- The RuntimeErrors: no JSON, not an object, or the fields that report no success.
pub data Refused : Type 0 where
  no_json not_an_object : Refused
  problems : (roots kill_list census : Bool) → Refused

-- `v is True`
abbrev pub is_true : Json → Bool
is_true (bool b) = b
is_true null = false
is_true (num _) = false
is_true (str _) = false
is_true (arr _) = false
is_true (obj _) = false

-- A number without a fraction or an exponent is an int.
abbrev pub is_int : Text → Bool
is_int s = not (mem_code b'.' s) && not (mem_code b'e' s) && not (mem_code b'E' s)

abbrev pub at_least_1 : Option ℤ → Bool
at_least_1 none = false
at_least_1 (some n) = ltb_ℤ (pos 0) n

-- `isinstance(v, int) and not v < 1`; True is an int, and 1.
unfoldable pub counts : Json → Bool
unfolding int_of
counts (bool b) = b
counts (num s) = is_int s && at_least_1 (int_of s)
counts null = false
counts (str _) = false
counts (arr _) = false
counts (obj _) = false

abbrev pub value : Text → Fields → Json
value k fs = or_else (find k fs) null

abbrev pub judge : Json → Fields → Outcome Refused Json
judge j fs =
    let roots = is_true (value (codes "roots_synced") fs) in
    let kill_list = is_true (value (codes "disallowed_kill_list_installed") fs) in
    let census = counts (value (codes "disallowed_store_count") fs) in
    if roots && kill_list && census
    then ok j
    else raised (problems (not roots) (not kill_list) (not census))

abbrev pub judge_json : Option Json → Outcome Refused Json
judge_json none = raised no_json
judge_json (some (obj fs)) = judge (obj fs) fs
judge_json (some null) = raised not_an_object
judge_json (some (bool _)) = raised not_an_object
judge_json (some (num _)) = raised not_an_object
judge_json (some (str _)) = raised not_an_object
judge_json (some (arr _)) = raised not_an_object

-- `refresh_result`, with the parser.
unfoldable pub refresh_result : (Text → Option Json) → Text → Outcome Refused Json
unfolding counts
refresh_result loads out = judge_json (loads out)
