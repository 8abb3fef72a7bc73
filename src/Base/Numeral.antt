-- ===== src/Base/Numeral.antt =====
-- `int(text)` on decimal text.
use Prim.Native.Nat.{ℕ, zero, suc, compare, Ordering, ◌+◌, ◌-◌, ◌*◌}
use mathlib.Core.Bool.{Bool, false, ◌&&◌, ◌||◌}
use Prim.Native.Nat.{◌/◌, ◌%◌}
use mathlib.Core.List.{[], ◌∷◌, ◌++◌}
use mathlib.Core.Option.{Option, none, some}
use win_validator.Base.Tests.{leb, ltb, ◌==◌, if◌then◌else◌}
use win_validator.Base.Chars.{Text, strip}
use win_validator.Base.Int.{ℤ, pos, neg}

abbrev pub is_digit : ℕ → Bool
is_digit c = leb b'0' c && leb c b'9'

-- Digits, with single underscores between them; `after` says that a digit has just been read.
abbrev pub read_digits : ℕ → Bool → Text → Option ℕ
read_digits acc after [] = if after then some acc else none
read_digits acc after (c ∷ s) =
    let rest = read_digits (if is_digit c then acc * 10 + (c - b'0') else acc) (is_digit c) s in
    if is_digit c || (after && c == b'_') then rest else none

abbrev pub count_digits : Text → ℕ
count_digits [] = 0
count_digits (c ∷ s) = if is_digit c then suc (count_digits s) else count_digits s

-- `sys.get_int_max_str_digits()`: a longer text is a ValueError too.
abbrev pub max_str_digits : ℕ
max_str_digits = 4300

abbrev pub read_nat : Text → Option ℕ
read_nat s = if ltb max_str_digits (count_digits s) then none else read_digits 0 false s

abbrev negated : Option ℕ → Option ℤ
negated none = none
negated (some n) = some (neg n)

abbrev non_negated : Option ℕ → Option ℤ
non_negated none = none
non_negated (some n) = some (pos n)

abbrev signed : Text → Option ℤ
signed [] = none
signed (c ∷ s) =
    if c == b'-'
    then negated (read_nat s)
    else if c == b'+'
    then non_negated (read_nat s)
    else non_negated (read_nat (c ∷ s))

-- `int(raw)`; `none` is the ValueError.
unfoldable pub int_of : Text → Option ℤ
int_of raw = signed (strip raw)

-- `str(n)`, on fuel that exceeds the count of digits.
abbrev decimal_by : ℕ → ℕ → Text
decimal_by zero n = []
decimal_by (suc fuel) n = elim (compare n 10) [
  | Ordering.lt ↦ (b'0' + n) ∷ []
  | _ ↦ decimal_by fuel (n / 10) ++ (b'0' + n % 10) ∷ []
]

unfoldable pub decimal : ℕ → Text
decimal n = decimal_by (suc n) n
