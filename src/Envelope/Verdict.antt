-- ===== src/Envelope/Verdict.antt =====
-- Which sealed envelopes give a summary.
use win_validator.Base.{
  ◌≡◌, refl, ◌∙◌, Bool, true, false, not, ◌&&◌, ◌||◌, List, [], ◌∷◌, Option, or_else, Text, codes,
  Outcome, ok, raised, ◌>>=◌, all, Outcome-cases, Bool-cases, inl, inr, if◌then◌else◌,
}
use win_validator.Json.{
  Json, null, bool, num, str, arr, obj, nil, cons, end, field, Fault, get, or_empty, truthy,
  attribute_error,
}
use win_validator.Envelope.{get_of, iterate, codes_of, items_of, payload_fields, extract_verdict}

abbrev pub is_dict : Json → Bool
is_dict (obj _) = true
is_dict null = false
is_dict (bool _) = false
is_dict (num _) = false
is_dict (str _) = false
is_dict (arr _) = false

abbrev pub at : Text → Json → Json
at k v = or_else (get k v) null

abbrev list_of_dicts : Json → Bool
list_of_dicts (arr vs) = all is_dict (items_of vs)
list_of_dicts (obj _) = false
list_of_dicts null = false
list_of_dicts (bool _) = false
list_of_dicts (num _) = false
list_of_dicts (str _) = false

-- The payload and its fields are dicts where they are not empty, and so are the warnings.
abbrev pub well_sealed : Json → Bool
well_sealed env =
    is_dict env
    && is_dict (or_empty (at (codes "payload") env))
    && is_dict (or_empty (at (codes "fields") (or_empty (at (codes "payload") env))))
    && (not (truthy (at (codes "warnings") env)) || list_of_dicts (at (codes "warnings") env))

abbrev pub is_ok {ℓ} : {E A : Type ℓ} → Outcome E A → Bool
is_ok (ok _) = true
is_ok (raised _) = false

pub get_of-dict :
    (k : Text) (v : Json) → get_of k v ≡ (if is_dict v then ok (at k v) else raised attribute_error)
get_of-dict k null = refl
get_of-dict k (bool _) = refl
get_of-dict k (num _) = refl
get_of-dict k (str _) = refl
get_of-dict k (arr _) = refl
get_of-dict k (obj _) = refl

is_ok-codes_of : (ws : List Json) → is_ok (codes_of ws) ≡ all is_dict ws
is_ok-codes_of [] = refl
is_ok-codes_of (w ∷ ws) = elim (Bool-cases (is_dict w)) [
  | inl dict ↦ elim (Outcome-cases (codes_of ws)) [
    | inl (cs, e) ↦ rw (get_of-dict, dict, ← is_ok-codes_of ws, e) refl
    | inr (x, e) ↦ rw (get_of-dict, dict, ← is_ok-codes_of ws, e) refl
  ]
  | inr other ↦ rw (get_of-dict, other) refl
]

is_ok-iterate : (v : Json) → is_ok (iterate v >>= codes_of) ≡ (not (truthy v) || list_of_dicts v)
is_ok-iterate null = refl
is_ok-iterate (bool true) = refl
is_ok-iterate (bool false) = refl
is_ok-iterate (num s) = elim (Bool-cases (truthy (num s))) [ inl t ↦ rw t refl | inr f ↦ rw f refl ]
is_ok-iterate (str []) = refl
is_ok-iterate (str (c ∷ s)) = refl
is_ok-iterate (arr nil) = refl
is_ok-iterate (arr (cons v vs)) = is_ok-codes_of (v ∷ items_of vs)
is_ok-iterate (obj end) = refl
is_ok-iterate (obj (field k v fs)) = refl

is_ok-chain :
    {A B C : Type 0} (m : Outcome Fault A) (k : A → Outcome Fault B) (g : B → C)
    → is_ok (m >>= λ x. k x >>= λ y. ok (g y)) ≡ is_ok (m >>= k)
is_ok-chain (raised e) k g = refl
is_ok-chain (ok x) k g = elim (Outcome-cases (k x)) [
  | inl (y, e) ↦ rw e refl
  | inr (f, e) ↦ rw e refl
]

-- `_extract_verdict` gives a summary for exactly the envelopes whose parts have the right types,
-- whatever the text of the verdict is and whether or not it parses.
pub extract_verdict-is_ok :
    (loads : Text → Option Json) (env : Json) → is_ok (extract_verdict loads env) ≡ well_sealed env
unfolding extract_verdict payload_fields
extract_verdict-is_ok loads env = elim (Bool-cases (is_dict env)) [
  | inr bare ↦ rw (get_of-dict (codes "payload") env, bare) refl
  | inl env_dict ↦ elim (Bool-cases (is_dict (or_empty (at (codes "payload") env)))) [
    | inr bare ↦
        rw
          (
            get_of-dict (codes "payload") env,
            env_dict,
            get_of-dict (codes "fields") (or_empty (at (codes "payload") env)),
            bare,
          )
          refl
    | inl payload_dict ↦
        elim (Bool-cases
          (is_dict (or_empty (at (codes "fields") (or_empty (at (codes "payload") env)))))) [
            | inr bare ↦
                rw
                  (
                    get_of-dict (codes "payload") env,
                    env_dict,
                    get_of-dict (codes "fields") (or_empty (at (codes "payload") env)),
                    payload_dict,
                    get_of-dict (codes "authenticode_json")
                        (or_empty (at (codes "fields") (or_empty (at (codes "payload") env)))),
                    bare,
                  )
                  refl
            | inl fields_dict ↦
                rw
                  (
                    get_of-dict (codes "payload") env,
                    env_dict,
                    get_of-dict (codes "fields") (or_empty (at (codes "payload") env)),
                    payload_dict,
                    get_of-dict (codes "authenticode_json")
                        (or_empty (at (codes "fields") (or_empty (at (codes "payload") env)))),
                    fields_dict,
                    get_of-dict (codes "warnings") env,
                    get_of-dict (codes "status") env,
                    env_dict,
                  )
                  (is_ok-chain (iterate (at (codes "warnings") env)) codes_of _
                    ∙ is_ok-iterate (at (codes "warnings") env))
          ]
  ]
]
