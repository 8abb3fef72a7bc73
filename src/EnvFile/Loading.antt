-- ===== src/EnvFile/Loading.antt =====
-- `_load_env_file`: what it does to the environment.
use win_validator.Base.{
  ◌≡◌, refl, Bool, [], ◌∷◌, none, some, Text, Dict, insert, contains, lookup, lookup-insert,
  text_instance, text_eq_iff, ok, raised, arith, if◌then◌else◌,
}
use win_validator.Utf8.{Bytes}
use win_validator.EnvFile.{Refusal, parse_env_file, apply_unset, load_env_file}

apply_unset_lem :
    (k : Text) (seen env : Dict Text Text)
    → lookup k (apply_unset seen env) ≡ (if contains k env then lookup k env else lookup k seen)
unfolding apply_unset
apply_unset_lem k [] env = ground arith
apply_unset_lem k ((j, w) ∷ seen) env = ground (
  arith,
  apply_unset_lem k seen (if contains j env then env else insert j w env),
  lookup-insert k j w env,
  text_eq_iff k j,
)

-- A file that the parser accepts gives each variable that the environment lacks its value, and
-- leaves each variable that the environment has as it was.
pub load_env_file-parse_env_file :
    (k : Text) (file : Bytes) (env : Dict Text Text) {seen : Dict Text Text} {unterminated : Bool}
    → parse_env_file file ≡ ok (seen, unterminated)
    → lookup k (load_env_file (some file) env)
      ≡ (if contains k env then lookup k env else lookup k seen)
unfolding load_env_file
load_env_file-parse_env_file k file env h = rw (h, load_env_file) (apply_unset_lem k _ env)

-- A file that cannot be read, or that systemd would refuse, changes nothing.
pub load_env_file_refused :
    (file : Bytes) (env : Dict Text Text) {e : Refusal}
    → parse_env_file file ≡ raised e
    → (load_env_file (some file) env ≡ env) × (load_env_file none env ≡ env)
unfolding load_env_file
load_env_file_refused file env h = (rw (h, load_env_file), refl)
