-- ===== src/Utf8.antt =====
-- `bytes.decode("utf-8", "surrogateescape")`, which golden_rotate.py's `parse_env_file` reads its
-- file through: a byte that starts no well-formed sequence becomes the code point 0xDC00 + byte.
use win_validator.Base.{
  ℕ, zero, suc, ◌+◌, ◌-◌, ◌*◌, ◌<◌, ◌≡◌, refl, Bool, ◌&&◌, List, [], ◌∷◌, Text, leb, ltb, ◌==◌,
  if◌then◌else◌, All, arith,
}

abbrev pub Bytes : Type 0
Bytes = List ℕ

abbrev within : ℕ → ℕ → ℕ → Bool
within lo hi b = leb lo b && leb b hi

-- The byte after the lead byte `a`: the standard narrows it after E0, ED, F0 and F4.
second_ok : ℕ → ℕ → Bool
second_ok a b =
    within (if a == 0xE0 then 0xA0 else if a == 0xF0 then 0x90 else 0x80)
      (if a == 0xED then 0x9F else if a == 0xF4 then 0x8F else 0xBF) b

escaped : ℕ → ℕ × ℕ
escaped a = (0xDC00 + a, 0)

two : ℕ → Bytes → ℕ × ℕ
unfolding escaped
two a (b ∷ _) = if within 0x80 0xBF b then ((a - 0xC0) * 64 + (b - 0x80), 1) else escaped a
two a [] = escaped a

three : ℕ → Bytes → ℕ × ℕ
unfolding escaped second_ok
three a (b ∷ c ∷ _) =
    if second_ok a b && within 0x80 0xBF c
    then ((a - 0xE0) * 4096 + (b - 0x80) * 64 + (c - 0x80), 2)
    else escaped a
three a _ = escaped a

four : ℕ → Bytes → ℕ × ℕ
unfolding escaped second_ok
four a (b ∷ c ∷ d ∷ _) =
    if second_ok a b && within 0x80 0xBF c && within 0x80 0xBF d
    then ((a - 0xF0) * 262144 + (b - 0x80) * 4096 + (c - 0x80) * 64 + (d - 0x80), 3)
    else escaped a
four a _ = escaped a

-- The code point that begins at the byte `a`, and how many of the bytes behind it belong to it.
first : ℕ → Bytes → ℕ × ℕ
unfolding two three four
first a r =
    if ltb a 0x80
    then (a, 0)
    else if within 0xC2 0xDF a
    then two a r
    else if within 0xE0 0xEF a
    then three a r
    else if within 0xF0 0xF4 a
    then four a r
    else escaped a

-- `skip` bytes are still part of the last code point.
decode_from : ℕ → Bytes → Text
unfolding first
decode_from skip [] = []
decode_from (suc skip) (a ∷ r) = decode_from skip r
decode_from zero (a ∷ r) = (first a r).0 ∷ decode_from (first a r).1 r

unfoldable pub decode : Bytes → Text
unfolding decode_from
decode = decode_from 0

-- An ASCII file is its own text.
pub decode-ascii : (s : Bytes) → All (λ c. c < 128) s → decode s ≡ s
unfolding decode
decode-ascii [] h = refl
decode-ascii (a ∷ r) h = ground (arith, decode-ascii r h.1)

-- "é", "€", "😀", and the bytes of an encoded surrogate, which are escaped one by one.
decode_test :
    decode (0xC3 ∷ 0xA9 ∷ 0xE2 ∷ 0x82 ∷ 0xAC ∷ 0xF0 ∷ 0x9F ∷ 0x98 ∷ 0x80 ∷ 0xED ∷ 0xA0 ∷ 0x80 ∷ [])
    ≡ 0xE9 ∷ 0x20AC ∷ 0x1F600 ∷ 0xDCED ∷ 0xDCA0 ∷ 0xDC80 ∷ []
unfolding decode
decode_test = refl
