-- ===== src/Engine/Summary.antt =====
-- For which verdicts the engine gives a result.
use win_validator.Base.{
  ◌≡◌, refl, sym, ap, ◌∙◌, inl, inr, Bool, true, false, not, ◌&&◌, ◌||◌, length, leb, ltb, arith,
  List, [], ◌∷◌, Option, Text, codes, decimal, Dict, Outcome, ok, raised, ◌>>=◌, Bool-cases,
  Outcome-cases,
}
use win_validator.Json.{Json, num, Fault, attribute_error, or_empty, truthy}
use win_validator.Envelope.{get_of}
use win_validator.Envelope.Verdict.{is_dict, at, is_ok, get_of-dict}
use win_validator.Knobs.{Environ}
use win_validator.VmPool.{Exc, Params}
use win_validator.Engine.{
  Printers, Source, of_verdict, of_signer, of_rest, part, length_of, read_fields, chain_fields,
  fields_of, summary, graveyard_message, warned, graveyard_warnings, result_of, report, detonate,
  as_failure, request_params,
}

abbrev pub all_dicts : List Source → Bool
all_dicts [] = true
all_dicts ((name, v, key) ∷ sources) = is_dict v && all_dicts sources

abbrev pub piece : Text → Json → Json
piece k v = or_empty (at k v)

get_of-found : (k : Text) (v : Json) → is_dict v ≡ true → get_of k v ≡ ok (at k v)
get_of-found k v dict = get_of-dict k v ∙ rw dict refl

get_of-fails : (k : Text) (v : Json) → is_dict v ≡ false → get_of k v ≡ raised attribute_error
get_of-fails k v other = get_of-dict k v ∙ rw other refl

part-dict : (k : Text) (v : Json) → is_dict v ≡ true → part k v ≡ ok (piece k v)
part-dict k v dict = rw (part, get_of-found k v dict) refl

is_ok-as_failure : {A : Type 0} (m : Outcome Fault A) → is_ok (as_failure m) ≡ is_ok m
is_ok-as_failure (ok a) = refl
is_ok-as_failure (raised e) = refl

-- The summary goes through where every part that it reads is a dict and the chain's links have a size.
abbrev pub well_typed : Json → Bool
well_typed v =
    is_dict v
    && is_dict (piece (codes "signer") v)
    && is_dict (piece (codes "chain") v)
    && is_dict (piece (codes "graveyard") v)
    && is_dict (piece (codes "timestamper") v)
    && is_ok (length_of (at (codes "chain") (piece (codes "chain") v)))

-- A call that goes through or not, and what follows it whatever it gives.
is_ok->>= :
    {A B : Type 0} (m : Outcome Fault A) (f : A → Outcome Fault B) (b : Bool)
    → ((a : A) → is_ok (f a) ≡ b)
    → is_ok (m >>= f) ≡ (is_ok m && b)
is_ok->>= (ok a) f b h = h a
is_ok->>= (raised e) f b h = refl

&&-false : (b : Bool) → (b && false) ≡ false
&&-false false = refl
&&-false true = refl

&&-end : (b : Bool) → (b && true) ≡ b
&&-end false = refl
&&-end true = refl

rest_bools :
    (c v t g : Bool)
    → (c
        && (c && (c && (c && (c && (c && (v && (t && (t && (g && (g && (g && (g && true)))))))))))))
      ≡ (c && v && t && g)
rest_bools false v t g = refl
rest_bools true false t g = refl
rest_bools true true false g = refl
rest_bools true true true false = refl
rest_bools true true true true = refl

all_dicts-of_rest :
    (v c t g : Json)
    → all_dicts (of_rest v c t g) ≡ (is_dict c && is_dict v && is_dict t && is_dict g)
unfolding of_rest
all_dicts-of_rest v c t g = rest_bools (is_dict c) (is_dict v) (is_dict t) (is_dict g)

module _ (p : Printers) where
  is_ok-read_fields :
      (sources : List Source) (rest : Outcome Fault (Dict Text Json))
      → is_ok (read_fields p sources rest) ≡ (all_dicts sources && is_ok rest)
  is_ok-read_fields [] rest = refl
  is_ok-read_fields ((name, v, key) ∷ sources) rest = elim (Bool-cases (is_dict v)) [
    | inr other ↦ rw (read_fields, get_of-fails key v other, other) refl
    | inl dict ↦
        let more = is_ok-read_fields sources rest in
        elim (Outcome-cases (read_fields p sources rest)) [
          | inl (fields, e) ↦
              rw (read_fields, get_of-found key v dict, dict, ◌>>=◌, e) (ap is_ok (sym e) ∙ more)
          | inr (x, e) ↦
              rw (read_fields, get_of-found key v dict, dict, ◌>>=◌, e) (ap is_ok (sym e) ∙ more)
        ]
  ]

  chain_bools :
      (c k d v t g : Bool) → (d ≡ (c && v && t && g)) → (c && (k && d)) ≡ (c && k && v && t && g)
  chain_bools false k d v t g e = refl
  chain_bools true false d v t g e = refl
  chain_bools true true d v t g e = e

  tail_fields :
      (v chain tsa grave : Json) (w : Text × Json)
      → is_ok (read_fields p (of_rest v chain tsa grave) (ok []) >>= λ fields. ok (w ∷ fields))
        ≡ all_dicts (of_rest v chain tsa grave)
  tail_fields v chain tsa grave w =
      is_ok->>= (read_fields p (of_rest v chain tsa grave) (ok [])) (λ fields. ok (w ∷ fields)) true
        (λ _. refl)
      ∙ &&-end _
      ∙ is_ok-read_fields (of_rest v chain tsa grave) (ok [])
      ∙ &&-end _

  chain_first :
      (v chain tsa grave : Json)
      → is_ok (chain_fields p v chain tsa grave) ≡ (
          is_dict chain
          && (is_ok (length_of (at (codes "chain") chain))
              && all_dicts (of_rest v chain tsa grave)))
  unfolding chain_fields
  chain_first v chain tsa grave = elim (Bool-cases (is_dict chain)) [
    | inr other ↦ rw (chain_fields, get_of-fails (codes "chain") chain other, other) refl
    | inl dict ↦
        rw (chain_fields, get_of-found (codes "chain") chain dict, dict, ◌>>=◌)
          (is_ok->>= (length_of (at (codes "chain") chain)) _
            (all_dicts (of_rest v chain tsa grave))
            (λ n. tail_fields v chain tsa grave (codes "chain_len", num (decimal n))))
  ]

  is_ok-chain_fields :
      (v chain tsa grave : Json)
      → is_ok (chain_fields p v chain tsa grave) ≡ (
          is_dict chain
          && is_ok (length_of (at (codes "chain") chain))
          && is_dict v
          && is_dict tsa
          && is_dict grave)
  is_ok-chain_fields v chain tsa grave =
      chain_first v chain tsa grave
      ∙ chain_bools (is_dict chain) (is_ok (length_of (at (codes "chain") chain)))
          (all_dicts (of_rest v chain tsa grave)) (is_dict v) (is_dict tsa) (is_dict grave)
          (all_dicts-of_rest v chain tsa grave)

  is_ok-fields_of :
      (v signer chain grave tsa : Json)
      → is_ok (fields_of p v signer chain grave tsa) ≡ (
          all_dicts (of_verdict v)
          && (all_dicts (of_signer signer) && is_ok (chain_fields p v chain tsa grave)))
  unfolding fields_of
  is_ok-fields_of v signer chain grave tsa =
      is_ok-read_fields (of_verdict v) _
      ∙ ap (all_dicts (of_verdict v) &&◌) (is_ok-read_fields (of_signer signer) _)

  same_dicts :
      (v signer : Json)
      → (all_dicts (of_verdict v) ≡ is_dict v) × (all_dicts (of_signer signer) ≡ is_dict signer)
  unfolding of_verdict of_signer
  same_dicts v signer = (eight (is_dict v), eleven (is_dict signer))
    where
      eight : (b : Bool) → (b && (b && (b && (b && (b && (b && (b && (b && true)))))))) ≡ b
      eight false = refl
      eight true = refl

      eleven :
          (b : Bool)
          → (b && (b && (b && (b && (b && (b && (b && (b && (b && (b && (b && true))))))))))) ≡ b
      eleven false = refl
      eleven true = refl

  -- A verdict that is a dict.
  is_ok-summary :
      (v : Json)
      → is_dict v ≡ true
      → is_ok (summary p v) ≡ (
          is_dict (piece (codes "signer") v)
          && is_ok (
              chain_fields p v
                (piece (codes "chain") v)
                (piece (codes "timestamper") v)
                (piece (codes "graveyard") v)))
  unfolding summary
  is_ok-summary v dict =
      rw
        (
          summary,
          part-dict (codes "signer") v dict,
          ◌>>=◌,
          part-dict (codes "chain") v dict,
          ◌>>=◌,
          part-dict (codes "graveyard") v dict,
          ◌>>=◌,
          part-dict (codes "timestamper") v dict,
          ◌>>=◌,
        )
        (is_ok-fields_of v (piece (codes "signer") v) (piece (codes "chain") v)
            (piece (codes "graveyard") v) (piece (codes "timestamper") v)
          ∙ rw
              (
                (same_dicts v (piece (codes "signer") v)).0,
                (same_dicts v (piece (codes "signer") v)).1,
                dict,
              )
              refl)

  -- A graveyard that is no hit, or whose message is within the bound.
  abbrev pub hit_fits : Json → Bool
  hit_fits g =
      not (truthy (at (codes "hit") g))
      || leb (length (graveyard_message p (at (codes "matched_on") g) (at (codes "malware") g)))
          2000

  is_ok-warned :
      (hit : Bool) (message : Text)
      → is_ok (warned p hit message) ≡ (not hit || leb (length message) 2000)
  is_ok-warned false message = refl
  is_ok-warned true message = elim (Bool-cases (ltb 2000 (length message))) [
    | inl long ↦ rw long (ground arith)
    | inr fits ↦ rw fits (ground arith)
  ]

  is_ok-graveyard_warnings : (g : Json) → is_ok (graveyard_warnings p g) ≡ (is_dict g && hit_fits g)
  is_ok-graveyard_warnings g = elim (Bool-cases (is_dict g)) [
    | inr other ↦ rw (graveyard_warnings, get_of-fails (codes "hit") g other, other) refl
    | inl dict ↦
        rw
          (
            graveyard_warnings,
            get_of-found (codes "hit") g dict,
            ◌>>=◌,
            get_of-found (codes "matched_on") g dict,
            ◌>>=◌,
            get_of-found (codes "malware") g dict,
            dict,
          )
          (is_ok-warned (truthy (at (codes "hit") g))
            (graveyard_message p (at (codes "matched_on") g) (at (codes "malware") g)))
  ]

  reorder :
      (s c k t g : Bool) → (s && (c && k && true && t && g) && g) ≡ (true && s && c && g && t && k)
  reorder false c k t g = refl
  reorder true false k t g = refl
  reorder true true false false g = sym (&&-false (g && false))
  reorder true true false true g = sym (&&-false (g && true))
  reorder true true true false false = refl
  reorder true true true false true = refl
  reorder true true true true false = refl
  reorder true true true true true = refl

  reorder_with :
      (s c k t g f : Bool)
      → (s && (c && k && true && t && g) && (g && f)) ≡ ((true && s && c && g && t && k) && f)
  reorder_with s c k t g true =
      ap (λ x. s && (c && k && true && t && g) && x) (&&-end g)
      ∙ reorder s c k t g
      ∙ sym (&&-end (true && s && c && g && t && k))
  reorder_with s c k t g false =
      ap (λ x. s && (c && k && true && t && g) && x) (&&-false g)
      ∙ &&-false (s && (c && k && true && t && g))
      ∙ sym (&&-false (true && s && c && g && t && k))

  is_ok-after_summary :
      (env : Environ) (suffix : Text) (v : Json) (fields : Dict Text Json)
      → is_dict v ≡ true
      → is_ok (
          part (codes "graveyard") v >>= graveyard_warnings p >>= λ hits.
          ok (result_of p env suffix v fields hits))
        ≡ (is_dict (piece (codes "graveyard") v) && hit_fits (piece (codes "graveyard") v))
  is_ok-after_summary env suffix v fields dict =
      rw (part-dict (codes "graveyard") v dict, ◌>>=◌)
        (is_ok->>= (graveyard_warnings p (piece (codes "graveyard") v)) _ true (λ _. refl)
          ∙ &&-end _
          ∙ is_ok-graveyard_warnings (piece (codes "graveyard") v))

  is_ok-report :
      (env : Environ) (suffix : Text) (writes : Bool) (v : Json)
      → is_ok (report p env suffix writes v)
        ≡ (writes && (well_typed v && hit_fits (piece (codes "graveyard") v)))
  unfolding report
  is_ok-report env suffix false v = refl
  is_ok-report env suffix true v = elim (Bool-cases (is_dict v)) [
    | inr other ↦ rw (report, summary, part, get_of-fails (codes "signer") v other, other) refl
    | inl dict ↦
        is_ok-as_failure _
        ∙ is_ok->>= (summary p v) _
            (is_dict (piece (codes "graveyard") v) && hit_fits (piece (codes "graveyard") v))
            (λ fields. is_ok-after_summary env suffix v fields dict)
        ∙ rw
            (
              is_ok-summary v dict,
              is_ok-chain_fields v (piece (codes "chain") v) (piece (codes "timestamper") v)
                  (piece (codes "graveyard") v),
              dict,
            )
            (reorder_with (is_dict (piece (codes "signer") v)) (is_dict (piece (codes "chain") v))
              (is_ok (length_of (at (codes "chain") (piece (codes "chain") v))))
              (is_dict (piece (codes "timestamper") v)) (is_dict (piece (codes "graveyard") v))
              (hit_fits (piece (codes "graveyard") v)))
  ]

  abbrev pub answered_well : Outcome Exc Json → Bool
  answered_well (ok v) = well_typed v && hit_fits (piece (codes "graveyard") v)
  answered_well (raised e) = false

  -- `detonate` gives a result exactly if the pool gives a verdict, the artifact is written, the verdict
  -- is a dict, each of its signer, chain, graveyard and timestamper is a dict or counts as absent, the
  -- chain's list of certificates has a length or counts as absent, and the message of a graveyard hit has
  -- at most 2000 characters; else it raises.
  pub detonate-is_ok :
      (env : Environ) (suffix : Text) (validate : Option Params → Outcome Exc Json) (writes : Bool)
      → is_ok (detonate p env suffix validate writes)
        ≡ (writes && answered_well (validate (request_params p env)))
  unfolding detonate
  detonate-is_ok env suffix validate writes =
      elim (Outcome-cases (validate (request_params p env))) [
        | inl (v, answered) ↦ rw (detonate, answered) (is_ok-report env suffix writes v)
        | inr (e, failed) ↦ rw (detonate, failed) (sym (&&-false writes))
      ]
