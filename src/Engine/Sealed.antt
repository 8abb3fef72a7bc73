-- ===== src/Engine/Sealed.antt =====
-- The way of a verdict through the engine's payload, blastbox's envelope and the envelope's reader.
use win_validator.Base.{
  ◌≡◌, refl, ap, ◌∙◌, subst, Bool, true, false, [], ◌∷◌, Option, some, Text, codes, text_eq, Dict,
  lookup, lookup-insert, text_instance, map, Outcome, ok, raised, ◌>>=◌, >>=-eq-ok, if◌then◌else◌,
}
use win_validator.Json.{
  Json, null, bool, num, str, arr, obj, Items, nil, cons, Fields, end, field, Fault, find, get,
  or_empty,
}
use win_validator.Envelope.{get_of, iterate, codes_of, items_of, payload_fields, extract_verdict}
use win_validator.Knobs.{Environ}
use win_validator.VmPool.{Exc, Params}
use win_validator.Engine.{
  Detonation, Failure, Printers, summary, part, graveyard_warnings, report, detonate, as_failure,
  result_of, request_params,
}

-- A dict of the engine as a JSON object.
abbrev pub to_fields : Dict Text Json → Fields
to_fields [] = end
to_fields ((k, v) ∷ d) = field k v (to_fields d)

-- What the envelope's reader relies on in blastbox: the envelope is an object whose payload has the
-- record's fields, whose warnings have their codes, in order, and whose status is the result's.
pub record Harness : Type 0 where
  pub seal : Detonation → Json
  pub payload : Detonation → Json
  pub warnings : Detonation → Items
  pub has_payload : (r : Detonation) → get (codes "payload") (seal r) ≡ some (payload r)
  pub has_fields :
      (r : Detonation) → get (codes "fields") (payload r) ≡ some (obj (to_fields r.payload))
  pub has_warnings : (r : Detonation) → get (codes "warnings") (seal r) ≡ some (arr (warnings r))
  pub has_codes :
      (r : Detonation) → codes_of (items_of (warnings r)) ≡ ok (map (λ w. str w.code) r.warnings)
  pub has_status : (r : Detonation) → get (codes "status") (seal r) ≡ some (str (codes "ok"))

find-to_fields : (k : Text) (d : Dict Text Json) → find k (to_fields d) ≡ lookup k d
find-to_fields k [] = refl
find-to_fields k ((j, v) ∷ d) = ap (λ o. if text_eq k j then some v else o) (find-to_fields k d)

-- What is read under a key is what is there, and a part with a field is not empty.
get_of-some : (k : Text) (v w : Json) → get k v ≡ some w → get_of k v ≡ ok w
get_of-some k v w h = rw (get_of, h) refl

or_empty-some : (k : Text) (v : Json) (fs : Fields) → get k v ≡ some (obj fs) → or_empty v ≡ v
or_empty-some k (obj end) fs h = cc
or_empty-some k (obj (field j w gs)) fs h = refl
or_empty-some k null fs h = cc
or_empty-some k (bool b) fs h = cc
or_empty-some k (num s) fs h = cc
or_empty-some k (str s) fs h = cc
or_empty-some k (arr vs) fs h = cc

iterate-arr : (vs : Items) → iterate (arr vs) ≡ ok (items_of vs)
iterate-arr nil = refl
iterate-arr (cons v vs) = refl

or_empty-filled :
    (k : Text) (v : Json) (fs : Fields) → find k fs ≡ some v → or_empty (obj fs) ≡ obj fs
or_empty-filled k v end h = cc
or_empty-filled k v (field j w gs) h = refl

as_failure-ok :
    {A : Type 0} (x : Outcome Fault A) {a : A}
    → ◌≡◌ {A = Outcome Failure A} (as_failure x) (ok a)
    → x ≡ ok a
as_failure-ok (ok b) h = cc
as_failure-ok (raised e) h = cc

module _ (p : Printers) where
  report-payload :
      (env : Environ) (suffix : Text) (writes : Bool) (v : Json) (r : Detonation)
      → report p env suffix writes v ≡ ok r
      → lookup (codes "authenticode_json") r.payload ≡ some (str (p.dumps v))
  unfolding report result_of
  report-payload env suffix false v r h = cc
  report-payload env suffix true v r h =
      let (fields, made, rest) = >>=-eq-ok (summary p v) _ (as_failure-ok _ h) in
      let (hits, known, last) =
        >>=-eq-ok (part (codes "graveyard") v >>= graveyard_warnings p) _ rest in
      let same : result_of p env suffix v fields hits ≡ r = cc in
      subst (λ r. lookup (codes "authenticode_json") r.payload ≡ some (str (p.dumps v))) same
        (lookup-insert (codes "authenticode_json") (codes "authenticode_json") (str (p.dumps v))
          fields)

module _ (H : Harness) (loads : Text → Option Json) where
  -- The fields that the reader finds.
  payload_fields-seal :
      (r : Detonation) (w : Json)
      → lookup (codes "authenticode_json") r.payload ≡ some w
      → payload_fields (H.seal r) ≡ ok (obj (to_fields r.payload))
  unfolding payload_fields
  payload_fields-seal r w h =
      let top = get_of-some (codes "payload") (H.seal r) (H.payload r) (H.has_payload r) in
      let filled =
        or_empty-some (codes "fields") (H.payload r) (to_fields r.payload) (H.has_fields r) in
      let fields =
        get_of-some (codes "fields") (H.payload r) (obj (to_fields r.payload)) (H.has_fields r) in
      let full =
        or_empty-filled (codes "authenticode_json") w (to_fields r.payload)
          (find-to_fields (codes "authenticode_json") r.payload ∙ h) in
      rw (payload_fields, top, filled, fields, full) refl

  pub extract_verdict-seal :
      (r : Detonation) (raw : Text) (v : Json)
      → lookup (codes "authenticode_json") r.payload ≡ some (str raw)
      → loads raw ≡ some v
      → extract_verdict loads (H.seal r)
        ≡ ok (record {
          verdict = v;
          warnings = map (λ w. str w.code) r.warnings;
          envelope_status = str (codes "ok");
        })
  unfolding extract_verdict
  extract_verdict-seal r raw v h parses =
      let fields = payload_fields-seal r (str raw) h in
      let found = find-to_fields (codes "authenticode_json") r.payload ∙ h in
      let warned =
        get_of-some (codes "warnings") (H.seal r) (arr (H.warnings r)) (H.has_warnings r) in
      let status = get_of-some (codes "status") (H.seal r) (str (codes "ok")) (H.has_status r) in
      rw
        (
          extract_verdict,
          fields,
          ◌>>=◌,
          found,
          ◌>>=◌,
          warned,
          ◌>>=◌,
          iterate-arr (H.warnings r),
          ◌>>=◌,
          H.has_codes r,
          ◌>>=◌,
          status,
          ◌>>=◌,
          parses,
        )
        refl

  -- Whatever the pool's verdict is: where `detonate` returns a result for it and `json.loads` reads back
  -- what `json.dumps` printed, the pool-manager's reader of the sealed envelope gives that verdict, the
  -- codes of the result's warnings in their order, and the status ok.
  pub extract_verdict-detonate :
      (p : Printers) (env : Environ) (suffix : Text) (validate : Option Params → Outcome Exc Json)
      (writes : Bool) (v : Json) (r : Detonation)
      → validate (request_params p env) ≡ ok v
      → detonate p env suffix validate writes ≡ ok r
      → loads (p.dumps v) ≡ some v
      → extract_verdict loads (H.seal r)
        ≡ ok (record {
          verdict = v;
          warnings = map (λ w. str w.code) r.warnings;
          envelope_status = str (codes "ok");
        })
  unfolding detonate
  extract_verdict-detonate p env suffix validate writes v r answered made parses =
      let reported : report p env suffix writes v ≡ ok r = rw (detonate, answered) at made in
      extract_verdict-seal r (p.dumps v) v (report-payload p env suffix writes v r reported) parses
