-- ===== src/EnvFile/RoundTrip.antt =====
-- A file of double-quoted assignments, written as systemd.exec's manual describes them, reads back.
use win_validator.Base.{
  ℕ, ◌<◌, ◌≡◌, refl, true, false, List, [], ◌∷◌, ◌++◌, append-nil, append_assoc, Option, none, some,
  Text, Dict, insert, lookup, lookup-insert, text_eq, text_instance, ok, all, mem_code, All, arith,
  if◌then◌else◌, &&-true, ◌==◌, Bool-cases, inl, inr, is_some,
}
use win_validator.Utf8.{decode-ascii}
use win_validator.EnvFile.{
  key, pre_value, dq, Parser, is_ws, is_nl, is_comment, is_esc, name_char, name_start, push,
  end_assignment, step, walk, start, finish, parse_text, parse_env_file,
}
use win_validator.EnvFile.Clean.{IsClean}

-- The characters of a value between double quotes.
abbrev pub escape : Text → Text
escape [] = []
escape (c ∷ v) = if is_esc c then 92 ∷ c ∷ escape v else c ∷ escape v

-- KEY="value" and a line feed.
abbrev pub print_entry : Text × Text → Text → Text
print_entry (k, v) rest = k ++ b'=' ∷ b'"' ∷ (escape v ++ b'"' ∷ 10 ∷ rest)

abbrev pub print_env : List (Text × Text) → Text
print_env [] = []
print_env (e ∷ es) = print_entry e (print_env es)

-- What the assignments mean: the last one of a name counts.
abbrev pub last_value : Text → List (Text × Text) → Option Text
last_value k [] = none
last_value k ((j, v) ∷ es) =
    let later = last_value k es in
    if is_some later then later else if text_eq k j then some v else none

abbrev assign : List (Text × Text) → Dict Text Text → Dict Text Text
assign [] d = d
assign ((k, v) ∷ es) d = assign es (insert k v d)

lookup-assign :
    (k : Text) (es : List (Text × Text)) (d : Dict Text Text)
    → lookup k (assign es d) ≡ (if is_some (last_value k es) then last_value k es else lookup k d)
lookup-assign k [] d = refl
lookup-assign k ((j, v) ∷ es) d =
    ground (arith, lookup-assign k es (insert j v d), lookup-insert k j v d)

-- Inside double quotes the escaped text adds the value.
pub plain_in_quotes : (c : ℕ) → is_esc c ≡ false → ((c == b'"') ≡ false) × ((c == 92) ≡ false)
plain_in_quotes c h = ground arith

pub snoc : (u : Text) (c : ℕ) (v : Text) → (u ++ c ∷ []) ++ v ≡ u ++ c ∷ v
snoc u c v = append_assoc u (c ∷ []) v

walk-escape :
    (v rest u : Text) (p : Parser)
    → walk (escape v ++ rest) (record p { st = dq; val = u })
      ≡ walk rest (record p { st = dq; val = u ++ v })
unfolding walk step
walk-escape [] rest u p = rw (append-nil u)
walk-escape (c ∷ v) rest u p = elim (Bool-cases (is_esc c)) [
  | inl special ↦ rw (special, special, ← snoc u c v) (walk-escape v rest (u ++ c ∷ []) p)
  | inr plain ↦
      let (a, b) = plain_in_quotes c plain in
      rw (plain, a, b, ← snoc u c v) (walk-escape v rest (u ++ c ∷ []) p)
]

name_in_key :
    (c : ℕ) → name_char c ≡ true → (is_nl c ≡ false) × ((c == b'=') ≡ false) × (is_ws c ≡ false)
name_in_key c h = ground arith

pub walk-key :
    (k rest u : Text) (p : Parser)
    → all name_char k ≡ true
    → walk (k ++ b'=' ∷ rest) (record p { st = key; key_text = u; key_ws = none })
      ≡ walk rest
          (record p { st = pre_value; key_text = u ++ k; key_ws = none; val = []; val_ws = none })
unfolding walk step
walk-key [] rest u p n = rw (append-nil u)
walk-key (c ∷ k) rest u p n =
    let (here, later) = &&-true (name_char c) (all name_char k) n in
    let (a, b, d) = name_in_key c here in
    rw (a, b, d, ← snoc u c k) (walk-key k rest (u ++ c ∷ []) p later)

pub name_at_start :
    (c : ℕ) → name_start c ≡ true → (is_comment c ≡ false) × (is_ws c ≡ false) × (is_nl c ≡ false)
name_at_start c h = ground arith

-- One printed assignment, from between two lines, sets its name.
walk-print_entry :
    (k v rest : Text) (o : Dict Text Text)
    → IsClean (k, v)
    → walk (print_entry (k, v) rest) (record start { out = o })
      ≡ walk rest (record start { out = insert k v o })
unfolding walk step end_assignment push
walk-print_entry [] v rest o h = cc h.0
walk-print_entry (c ∷ k) v rest o h =
    let (s, n) = &&-true (name_start c) (all name_char k) h.0 in
    let (a, b, d) = name_at_start c s in
    rw
      (
        a,
        b,
        d,
        walk-key k (b'"' ∷ (escape v ++ b'"' ∷ 10 ∷ rest)) (c ∷ []) (record start { out = o }) n,
        walk-escape v (b'"' ∷ 10 ∷ rest) [] (record start { out = o; key_text = c ∷ k }),
        h.1,
        h.0,
      )
      refl

walk-print_env :
    (es : List (Text × Text)) (o : Dict Text Text)
    → All IsClean es
    → walk (print_env es) (record start { out = o }) ≡ ok (record start { out = assign es o })
unfolding walk
walk-print_env [] o h = refl
walk-print_env ((k, v) ∷ es) o h =
    rw (walk-print_entry k v (print_env es) o h.0) (walk-print_env es (insert k v o) h.1)

-- Text that can stand in an ASCII file which systemd accepts.
abbrev pub IsAscii : ℕ → Type 0
IsAscii c = (0 < c) × (c < 128)

mem_code-IsAscii : (s : Text) → All IsAscii s → mem_code 0 s ≡ false
mem_code-IsAscii [] h = refl
mem_code-IsAscii (c ∷ s) h = ground (arith, mem_code-IsAscii s h.1)

IsAscii-lt : (s : Text) → All IsAscii s → All (λ c. c < 128) s
IsAscii-lt [] h = tt
IsAscii-lt (c ∷ s) h = (h.0.1, IsAscii-lt s h.1)

some_or_none : (o : Option Text) → (if is_some o then o else none) ≡ o
some_or_none none = refl
some_or_none (some v) = refl

-- A file of assignments NAME="value", each on its line, with names that systemd accepts and
-- values in which a double quote, a backslash, a backquote and a dollar sign carry a backslash,
-- is read back: no quote is left open, and each name has the value of its last assignment. The
-- file is ASCII without a NUL; the values may hold line feeds, blanks and comment signs.
pub parse_env_file-print_env :
    (es : List (Text × Text))
    → All IsClean es
    → All IsAscii (print_env es)
    → (seen : Dict Text Text) × (parse_env_file (print_env es) ≡ ok (seen, false))
      × ((k : Text) → lookup k seen ≡ last_value k es)
unfolding parse_env_file parse_text finish
parse_env_file-print_env es h a = (
  assign es [],
  rw (mem_code-IsAscii _ a, decode-ascii _ (IsAscii-lt _ a), walk-print_env es [] h) refl,
  λ k. rw (lookup-assign k es []) (some_or_none (last_value k es)),
)
