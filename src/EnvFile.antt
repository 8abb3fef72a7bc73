-- ===== src/EnvFile.antt =====
-- golden_rotate.py, `parse_env_file` and `_load_env_file`: the units' EnvironmentFile as systemd
-- reads it. The state of the loop is a record, and one character is one step.
pub mod Loading
pub mod Clean
pub mod RoundTrip
pub mod Quotes
mod Tests
use win_validator.Base.{
  ℕ, ◌+◌, Bool, true, false, not, ◌&&◌, ◌||◌, List, [], ◌∷◌, ◌++◌, Option, none, some, Text, codes,
  Dict, insert, text_instance, contains, Outcome, ok, raised, ◌>>=◌, length, take, any, all,
  mem_code, is_some, leb, ◌==◌, if◌then◌else◌,
}
use win_validator.Utf8.{Bytes, decode}

pub data Mode : Type 0 where
  pre_key key pre_value value value_escape sq dq dq_escape comment : Mode

pub record Parser : Type 0 where
  pub st : Mode
  pub key_text : Text
  pub val : Text
  pub key_ws : Option ℕ
  pub val_ws : Option ℕ
  pub out : Dict Text Text

-- The two `raise ValueError` of the parser.
pub data Refusal : Type 0 where
  nul_byte : Refusal
  not_utf8 : Text → Refusal

abbrev pub is_ws : ℕ → Bool
is_ws c = c == b' ' || c == 9

abbrev pub is_nl : ℕ → Bool
is_nl c = c == 10 || c == 13

abbrev pub is_comment : ℕ → Bool
is_comment c = c == b'#' || c == b';'

-- The characters that a backslash escapes inside double quotes.
abbrev pub is_esc : ℕ → Bool
is_esc c = c == b'"' || c == 92 || c == b'`' || c == b'$'

abbrev pub is_surrogate : ℕ → Bool
is_surrogate c = leb 0xDC80 c && leb c 0xDCFF

abbrev pub name_start : ℕ → Bool
name_start c = (leb b'A' c && leb c b'Z') || (leb b'a' c && leb c b'z') || c == b'_'

abbrev pub name_char : ℕ → Bool
name_char c = name_start c || (leb b'0' c && leb c b'9')

-- `_re.fullmatch(r"[A-Za-z_][A-Za-z0-9_]*", k)`
abbrev pub is_name : Text → Bool
is_name [] = false
is_name (c ∷ k) = name_start c && all name_char k

-- `s[:ws] if ws is not None else s`
abbrev pub cut : Option ℕ → Text → Text
cut none s = s
cut (some n) s = take n s

-- `push()`: record the assignment, or refuse the whole file.
unfoldable pub push : Parser → Outcome Refusal Parser
push p =
    let k = cut p.key_ws p.key_text in
    if any is_surrogate (k ++ p.val)
    then raised (not_utf8 k)
    else ok (if is_name k then record p { out = insert k p.val p.out } else p)

-- `st = PRE_KEY; push(); key = []; val = []`
unfoldable pub end_assignment : Parser → Outcome Refusal Parser
unfolding push
end_assignment p = push p >>= λ q. ok (record q { st = pre_key; key_text = []; val = [] })

-- One character, in each state.
unfoldable pub step : Mode → ℕ → Parser → Outcome Refusal Parser
unfolding end_assignment
step pre_key c p = ok (
    if is_comment c
    then record p { st = comment }
    else if not (is_ws c) && not (is_nl c)
    then record p { st = key; key_text = c ∷ []; key_ws = none }
    else p)
step key c p = ok (
    if is_nl c
    then record p { st = pre_key; key_text = [] }
    else if c == b'='
    then record p { st = pre_value; val = []; val_ws = none }
    else record p {
      key_ws =
          if not (is_ws c)
          then none
          else if is_some p.key_ws
          then p.key_ws
          else some (length p.key_text);
      key_text = p.key_text ++ c ∷ [];
    })
step pre_value c p =
    if is_nl c
    then end_assignment p
    else ok (
        if c == 39
        then record p { st = sq }
        else if c == b'"'
        then record p { st = dq }
        else if c == 92
        then record p { st = value_escape; val_ws = none }
        else if not (is_ws c)
        then record p { st = value; val_ws = none; val = p.val ++ c ∷ [] }
        else p)
step value c p =
    if is_nl c
    then end_assignment (record p { val = cut p.val_ws p.val })
    else ok (
        if c == 92 then record p { st = value_escape; val_ws = none } else record p {
          val_ws =
              if not (is_ws c)
              then none
              else if is_some p.val_ws
              then p.val_ws
              else some (length p.val);
          val = p.val ++ c ∷ [];
        })
step value_escape c p =
    ok (if is_nl c then record p { st = value } else record p { st = value; val = p.val ++ c ∷ [] })
step sq c p =
    ok (if c == 39 then record p { st = pre_value } else record p { val = p.val ++ c ∷ [] })
step dq c p = ok (
    if c == b'"'
    then record p { st = pre_value }
    else if c == 92
    then record p { st = dq_escape }
    else record p { val = p.val ++ c ∷ [] })
step dq_escape c p = ok (
    if is_esc c
    then record p { st = dq; val = p.val ++ c ∷ [] }
    else if c == 10
    then record p { st = dq }
    else record p { st = dq; val = p.val ++ 92 ∷ c ∷ [] })
step comment c p = ok (if is_nl c then record p { st = pre_key } else p)

-- `for c in text`
unfoldable pub walk : Text → Parser → Outcome Refusal Parser
unfolding step
walk [] p = ok p
walk (c ∷ s) p = step p.st c p >>= walk s

abbrev pub start : Parser
start = record { st = pre_key; key_text = []; val = []; key_ws = none; val_ws = none; out = [] }

abbrev pub in_quotes : Mode → Bool
in_quotes sq = true
in_quotes dq = true
in_quotes dq_escape = true
in_quotes _ = false

-- The states in which an assignment is still open at the end of the file.
abbrev pub in_assignment : Mode → Bool
in_assignment pre_key = false
in_assignment key = false
in_assignment comment = false
in_assignment _ = true

-- `if st == VALUE and val_ws is not None: del val[val_ws:]`
abbrev pub trim_value : Mode → Parser → Parser
trim_value value p = record p { val = cut p.val_ws p.val }
trim_value _ p = p

-- What follows the loop.
unfoldable pub finish : Parser → Outcome Refusal (Dict Text Text × Bool)
unfolding push
finish p = (if in_assignment p.st then push (trim_value p.st p) else ok p) >>= λ q.
    ok (q.out, in_quotes p.st)

unfoldable pub parse_text : Text → Outcome Refusal (Dict Text Text × Bool)
unfolding walk finish
parse_text s = walk s start >>= finish

unfoldable pub parse_env_file : Bytes → Outcome Refusal (Dict Text Text × Bool)
unfolding parse_text decode
parse_env_file data_bytes =
    if mem_code 0 data_bytes then raised nul_byte else parse_text (decode data_bytes)

-- `if k not in os.environ: os.environ[k] = v`, over the assignments in their order.
unfoldable pub apply_unset : Dict Text Text → Dict Text Text → Dict Text Text
apply_unset [] env = env
apply_unset ((k, v) ∷ seen) env = apply_unset seen (if contains k env then env else insert k v env)

-- `_load_env_file`: `none` is a file that cannot be read.
unfoldable pub load_env_file : Option Bytes → Dict Text Text → Dict Text Text
unfolding parse_env_file apply_unset
load_env_file none env = env
load_env_file (some bytes) env = elim (parse_env_file bytes) [
  | ok (seen, _) ↦ apply_unset seen env
  | raised _ ↦ env
]
