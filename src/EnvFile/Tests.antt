-- ===== src/EnvFile/Tests.antt =====
-- Runs of the parser, and its theorems at concrete files.
use win_validator.Base.{
  ◌≡◌, refl, false, List, [], ◌∷◌, ◌++◌, Text, codes, Dict, text_instance, lookup, ok, raised,
  arith,
}
use win_validator.Utf8.{Bytes}
use win_validator.EnvFile.{not_utf8, parse_env_file}
use win_validator.EnvFile.RoundTrip.{print_env, last_value, parse_env_file-print_env}

-- A="x"  'y' z  , then a comment, then B=1\ (continued) 2, then an invalid name.
abbrev file : Bytes
file = codes "A=\"x\"  'y' z  \n# B=9 \"\n  B=1\\\n2 \n9C=3\n"

file_parses :
    parse_env_file file ≡ ok ((codes "A", codes "xyz") ∷ (codes "B", codes "12") ∷ [], false)
unfolding parse_env_file
file_parses = refl

-- A carriage return behind a backslash in double quotes keeps the backslash; a line feed does not.
escapes_parse :
    parse_env_file (codes "A=\"\\\r\\\n\\$\"") ≡ ok ((codes "A", 92 ∷ 13 ∷ b'$' ∷ []) ∷ [], false)
unfolding parse_env_file
escapes_parse = refl

broken_refused : parse_env_file (codes "A=" ++ 0xFF ∷ []) ≡ raised (not_utf8 (codes "A"))
unfolding parse_env_file
broken_refused = refl

abbrev entries : List (Text × Text)
entries = (codes "A", codes "a\n# $x") ∷ (codes "B_1", codes "\"") ∷ (codes "A", codes "\\") ∷ []

parse_env_file-print_env_example :
    (seen : Dict Text Text) × (parse_env_file (print_env entries) ≡ ok (seen, false))
    × ((k : Text) → lookup k seen ≡ last_value k entries)
parse_env_file-print_env_example =
    parse_env_file-print_env entries ((refl, refl), ((refl, refl), ((refl, refl), tt)))
      (omega arith)
