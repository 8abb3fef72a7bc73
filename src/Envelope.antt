-- ===== src/Envelope.antt =====
-- The sealed envelope's verdict: `pool_manager._extract_verdict` and
-- `orchestrator._authenticode_verdict`. `json.loads` is a parameter (`none` is its ValueError).
pub mod Verdict
mod Tests
use win_validator.Base.{
  Bool, true, false, List, [], ◌∷◌, Option, none, some, or_else, Text, codes, Outcome, ok, raised,
  ◌>>=◌, text_eq, if◌then◌else◌,
}
use win_validator.Json.{
  Json, null, bool, num, str, arr, obj, Items, nil, cons, Fields, end, field, Fault,
  attribute_error, type_error, get, or_empty, truthy,
}

-- `v.get(key)`, which only a dict has.
abbrev pub get_of : Text → Json → Outcome Fault Json
get_of k v = elim (get k v) [ none ↦ raised attribute_error | some w ↦ ok w ]

-- `for w in v or []`: the elements of a list, the keys of a dict, the characters of a text.
abbrev pub items_of : Items → List Json
items_of nil = []
items_of (cons v vs) = v ∷ items_of vs

abbrev keys_of : Fields → List Json
keys_of end = []
keys_of (field k _ fs) = str k ∷ keys_of fs

abbrev characters : Text → List Json
characters [] = []
characters (c ∷ s) = str (c ∷ []) ∷ characters s

abbrev elements : Json → Outcome Fault (List Json)
elements (arr vs) = ok (items_of vs)
elements (obj fs) = ok (keys_of fs)
elements (str s) = ok (characters s)
elements null = raised type_error
elements (bool _) = raised type_error
elements (num _) = raised type_error

abbrev pub iterate : Json → Outcome Fault (List Json)
iterate v = if truthy v then elements v else ok []

-- `[w.get("code") for w in ws]`
abbrev pub codes_of : List Json → Outcome Fault (List Json)
codes_of [] = ok []
codes_of (w ∷ ws) = get_of (codes "code") w >>= λ c. codes_of ws >>= λ cs. ok (c ∷ cs)

-- What is written back: the parsed verdict (null when there is none), the warnings' codes and the
-- envelope's status.
pub record Summary : Type 0 where
  pub verdict : Json
  pub warnings : List Json
  pub envelope_status : Json

abbrev parse_field : (Text → Option Json) → Json → Json
parse_field loads (str raw) = or_else (loads raw) null
parse_field loads null = null
parse_field loads (bool _) = null
parse_field loads (num _) = null
parse_field loads (arr _) = null
parse_field loads (obj _) = null

-- `(env.get("payload") or {}).get("fields") or {}`
unfoldable pub payload_fields : Json → Outcome Fault Json
payload_fields env = get_of (codes "payload") env >>= λ payload.
    get_of (codes "fields") (or_empty payload) >>= λ fields. ok (or_empty fields)

unfoldable pub extract_verdict : (Text → Option Json) → Json → Outcome Fault Summary
unfolding payload_fields
extract_verdict loads env = payload_fields env >>= λ fields.
    get_of (codes "authenticode_json") fields >>= λ raw.
    get_of (codes "warnings") env >>= λ warnings. iterate warnings >>= λ ws. codes_of ws >>= λ cs.
    get_of (codes "status") env >>= λ status.
    ok (record { verdict = parse_field loads raw; warnings = cs; envelope_status = status })

-- `v == "engine_error"`
abbrev pub is_text : Text → Json → Bool
is_text t (str s) = text_eq s t
is_text t null = false
is_text t (bool _) = false
is_text t (num _) = false
is_text t (arr _) = false
is_text t (obj _) = false

abbrev pub is_engine_error : Json → Bool
is_engine_error = is_text (codes "engine_error")

-- `next((a for a in artifacts or [] if a.get("id") == "authenticode"), None)`
abbrev find_artifact : List Json → Outcome Fault Json
find_artifact [] = ok null
find_artifact (a ∷ rest) =
    let later = find_artifact rest in
    get_of (codes "id") a >>= λ id. if is_text (codes "authenticode") id then ok a else later

-- The orchestrator's version has the artifact's reference too.
unfoldable pub authenticode_verdict : (Text → Option Json) → Json → Outcome Fault (Summary × Json)
unfolding extract_verdict
authenticode_verdict loads env = extract_verdict loads env >>= λ summary.
    get_of (codes "artifacts") env >>= λ artifacts.
    iterate artifacts >>= λ as_list. find_artifact as_list >>= λ artifact. ok (summary, artifact)
