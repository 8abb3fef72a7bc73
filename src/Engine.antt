-- ===== src/Engine.antt =====
-- winval_blastbox/engine.py: the knob warnings, the detected type, the summary of a verdict, and
-- `detonate`. The pool's `validate`, `json.dumps`, `repr` and `str` of a JSON value are parameters.
pub mod Summary
pub mod Sealed
pub mod Singleton
mod Tests
use win_validator.Base.{
  ℕ, zero, suc, ◌+◌, ◌≡◌, Bool, true, false, not, ◌&&◌, ◌||◌, List, [], ◌∷◌, ◌++◌, Option, none,
  some, or_else, is_some, Text, codes, text_eq, mem_text, is_empty, lower, decimal, length, take,
  drop, Dict, lookup, insert, text_instance, Outcome, ok, raised, ◌>>=◌, ltb, ◌==◌, if◌then◌else◌,
}
use win_validator.Json.{
  Json, null, bool, num, str, arr, obj, Items, nil, cons, Fields, end, field, Fault, type_error,
  value_error, get, or_empty, truthy,
}
use win_validator.Envelope.{get_of, items_of}
use win_validator.Knobs.{Environ, raw_knob}
use win_validator.VmPool.{Exc, Params}

pub record Warning : Type 0 where
  pub code : Text
  pub message : Text

-- KNOB_VALUES, split, with its text and KNOB_FALLBACK
pub record Vocabulary : Type 0 where
  pub knob : Text
  pub allowed : List Text
  pub values : Text
  pub fallback : Text

abbrev pub vocabularies : List Vocabulary
vocabularies =
    record {
      knob = codes "AUTHENTICODE_REV";
      allowed = codes "online" ∷ codes "offline" ∷ codes "none" ∷ [];
      values = codes "online|offline|none";
      fallback = codes "the agent read it as online";
    }
    ∷ record {
      knob = codes "AUTHENTICODE_SCRIPTS";
      allowed = codes "ps" ∷ codes "native" ∷ [];
      values = codes "ps|native";
      fallback = codes "the agent read it as native (only the exact word ps selects PowerShell)";
    }
    ∷ []

-- `unknown_knob_values`: each knob with a value that names nothing the agent knows.
abbrev unknown_of : Environ → List Vocabulary → List (Vocabulary × Text)
unknown_of env [] = []
unknown_of env (w ∷ ws) =
    let v = raw_knob env w.knob in
    let rest = unknown_of env ws in
    if not (is_empty v) && not (mem_text v w.allowed) then (w, v) ∷ rest else rest

unfoldable pub unknown_knob_values : Environ → List (Vocabulary × Text)
unfolding raw_knob
unknown_knob_values env = unknown_of env vocabularies

-- `_EXT_TYPE`: label and MIME type
abbrev pub types : Dict Text (Text × Text)
types =
    (codes ".exe", (codes "pe", codes "application/vnd.microsoft.portable-executable"))
    ∷ (codes ".dll", (codes "pe", codes "application/vnd.microsoft.portable-executable"))
    ∷ (codes ".sys", (codes "pe", codes "application/vnd.microsoft.portable-executable"))
    ∷ (codes ".msi", (codes "msi", codes "application/x-msi"))
    ∷ (codes ".cab", (codes "cab", codes "application/vnd.ms-cab-compressed"))
    ∷ (codes ".cat", (codes "catalog", codes "application/octet-stream"))
    ∷ (codes ".ps1", (codes "script", codes "text/plain"))
    ∷ (codes ".vbs", (codes "script", codes "text/plain"))
    ∷ (codes ".js", (codes "script", codes "text/plain"))
    ∷ (codes ".rdp", (codes "rdp", codes "text/plain"))
    ∷ []

-- `detect`, from the suffix of the path
unfoldable pub detect : Text → Text × Text
detect suffix =
    or_else (lookup (lower suffix) types) (codes "binary", codes "application/octet-stream")

-- `verdict.get(key) or {}`
abbrev pub part : Text → Json → Outcome Fault Json
part k v = get_of k v >>= λ w. ok (or_empty w)

abbrev pub count_items : Items → ℕ
count_items nil = 0
count_items (cons v vs) = suc (count_items vs)

abbrev pub count_fields : Fields → ℕ
count_fields end = 0
count_fields (field k v fs) = suc (count_fields fs)

abbrev sized : Json → Outcome Fault ℕ
sized (arr vs) = ok (count_items vs)
sized (obj fs) = ok (count_fields fs)
sized (str s) = ok (length s)
sized null = raised type_error
sized (bool _) = raised type_error
sized (num _) = raised type_error

-- `len(v or [])`
abbrev pub length_of : Json → Outcome Fault ℕ
length_of v = if truthy v then sized v else ok 0

-- A field of the summary: its name, the part it is read from and the key there.
abbrev pub Source : Type 0
Source = Text × Json × Text

unfoldable pub of_verdict : Json → List Source
of_verdict v =
    (codes "file_sha256", v, codes "file_sha256")
    ∷ (codes "status", v, codes "status")
    ∷ (codes "signature_type", v, codes "signature_type")
    ∷ (codes "content_verified", v, codes "content_verified")
    ∷ (codes "is_os_binary", v, codes "is_os_binary")
    ∷ (codes "timestamped", v, codes "timestamped")
    ∷ (codes "sign_time", v, codes "sign_time")
    ∷ (codes "sign_time_verified", v, codes "sign_time_verified")
    ∷ []

unfoldable pub of_signer : Json → List Source
of_signer s =
    (codes "signer_subject_cn", s, codes "subject_cn")
    ∷ (codes "signer_issuer_cn", s, codes "issuer_cn")
    ∷ (codes "signer_serial_number", s, codes "serial_number")
    ∷ (codes "signer_thumbprint", s, codes "thumbprint")
    ∷ (codes "signer_sha1_fingerprint", s, codes "sha1_fingerprint")
    ∷ (codes "signer_sha256_fingerprint", s, codes "sha256_fingerprint")
    ∷ (codes "signer_tbs_sha256", s, codes "tbs_sha256")
    ∷ (codes "signer_eku_codesigning", s, codes "eku_codesigning")
    ∷ (codes "signer_self_signed", s, codes "self_signed")
    ∷ (codes "signer_not_before", s, codes "not_before")
    ∷ (codes "signer_not_after", s, codes "not_after")
    ∷ []

unfoldable pub of_rest : Json → Json → Json → Json → List Source
of_rest v c t g =
    (codes "chain_explicit_distrust", c, codes "explicit_distrust")
    ∷ (codes "chain_valid_at_sign_time", c, codes "valid_at_sign_time")
    ∷ (codes "chain_chains_to_trusted_root", c, codes "chains_to_trusted_root")
    ∷ (codes "chain_builds", c, codes "chain_builds")
    ∷ (codes "chain_revoked", c, codes "revoked")
    ∷ (codes "chain_revocation_checked", c, codes "revocation_checked")
    ∷ (codes "error", v, codes "error")
    ∷ (codes "timestamper_subject_cn", t, codes "subject_cn")
    ∷ (codes "timestamper_tbs_sha256", t, codes "tbs_sha256")
    ∷ (codes "graveyard_hit", g, codes "hit")
    ∷ (codes "graveyard_matched_on", g, codes "matched_on")
    ∷ (codes "graveyard_malware", g, codes "malware")
    ∷ (codes "graveyard_malware_type", g, codes "malware_type")
    ∷ []

-- What `detonate` raises: what the pool raised, a value of the wrong type, or a failed write.
pub data Failure : Type 0 where
  transport : Exc → Failure
  wrong_type : Fault → Failure
  write_failed : Failure

pub record Detonation : Type 0 where
  pub payload : Dict Text Json
  pub artifact : Text
  pub detected : Text × Text
  pub warnings : List Warning

-- What is left to Python and to blastbox: printing a JSON value, `repr` of a text, `str` of a value.
pub record Printers : Type 0 where
  pub dumps : Json → Text
  pub repr : Text → Text
  pub show : Json → Text

abbrev pub as_failure : {A : Type 0} → Outcome Fault A → Outcome Failure A
as_failure (ok a) = ok a
as_failure (raised e) = raised (wrong_type e)

abbrev pub from_pool : Outcome Exc Json → Outcome Failure Json
from_pool (ok v) = ok v
from_pool (raised e) = raised (transport e)

module _ (p : Printers) where
  -- `_scalar`
  abbrev pub scalar : Json → Json
  scalar (arr vs) = str (p.dumps (arr vs))
  scalar (obj fs) = str (p.dumps (obj fs))
  scalar null = null
  scalar (bool b) = bool b
  scalar (num s) = num s
  scalar (str s) = str s

  -- The fields of a list of sources, in front of what follows.
  abbrev pub read_fields :
      List Source → Outcome Fault (Dict Text Json) → Outcome Fault (Dict Text Json)
  read_fields [] rest = rest
  read_fields ((name, v, key) ∷ sources) rest =
      get_of key v >>= λ w. read_fields sources rest >>= λ fields. ok ((name, scalar w) ∷ fields)

  -- The fields of the chain and those behind it.
  unfoldable pub chain_fields : (v chain tsa grave : Json) → Outcome Fault (Dict Text Json)
  chain_fields v chain tsa grave = get_of (codes "chain") chain >>= length_of >>= λ n.
      read_fields (of_rest v chain tsa grave) (ok []) >>= λ fields.
      ok ((codes "chain_len", num (decimal n)) ∷ fields)

  unfoldable pub fields_of : (v signer chain grave tsa : Json) → Outcome Fault (Dict Text Json)
  unfolding chain_fields of_verdict of_signer of_rest
  fields_of v signer chain grave tsa =
      read_fields (of_verdict v) (read_fields (of_signer signer) (chain_fields v chain tsa grave))

  -- `_summary`
  unfoldable pub summary : Json → Outcome Fault (Dict Text Json)
  unfolding fields_of
  summary v = part (codes "signer") v >>= λ signer. part (codes "chain") v >>= λ chain.
      part (codes "graveyard") v >>= λ grave.
      part (codes "timestamper") v >>= λ tsa. fields_of v signer chain grave tsa

  -- `knob_warnings`: the value is capped at 200, the message at 2000.
  abbrev knob_message : Vocabulary × Text → Text
  knob_message (w, bad) =
      w.knob
      ++ codes "="
      ++ p.repr (take 200 bad)
      ++ codes " is not a value the agent knows ("
      ++ w.values
      ++ codes "); "
      ++ w.fallback

  abbrev warn_each : List (Vocabulary × Text) → List Warning
  warn_each [] = []
  warn_each (u ∷ us) =
      record { code = codes "param_unknown_value"; message = take 2000 (knob_message u) }
      ∷ warn_each us

  unfoldable pub knob_warnings : Environ → List Warning
  unfolding unknown_knob_values
  knob_warnings env = warn_each (unknown_knob_values env)

  -- The knobs that nothing forwards, sorted, and the warning that names them.
  abbrev is_set : Environ → Text → Bool
  is_set env k = not (is_empty (raw_knob env k))

  abbrev not_forwarded : Bool → Bool → List Warning
  not_forwarded gv tier =
      if gv || tier
      then record {
        code = codes "param_not_forwarded";
        message =
            codes
              "--gv is server-global (baked into the golden's serve startup) and TIER is not a myatg parameter; not applied per-job: "
            ++ (if gv then codes "AUTHENTICODE_GV" else [])
            ++ (if gv && tier then codes "," else [])
            ++ (if tier then codes "AUTHENTICODE_TIER" else []);
      }
        ∷ []
      else []

  abbrev pub graveyard_message : (on malware : Json) → Text
  graveyard_message on malware =
      codes "signing cert in graveyard (matched_on="
      ++ p.show on
      ++ codes ", malware="
      ++ p.show malware
      ++ codes ")"

  -- A warning's message has at most 2000 characters: blastbox's contract refuses a longer one. The other
  -- two kinds are never longer.
  abbrev pub warned : Bool → Text → Outcome Fault (List Warning)
  warned false message = ok []
  warned true message =
      if ltb 2000 (length message)
      then raised value_error
      else ok (record { code = codes "graveyard_hit"; message = message } ∷ [])

  abbrev pub graveyard_warnings : Json → Outcome Fault (List Warning)
  graveyard_warnings grave = get_of (codes "hit") grave >>= λ hit.
      get_of (codes "matched_on") grave >>= λ on. get_of (codes "malware") grave >>= λ malware.
      warned (truthy hit) (graveyard_message on malware)

  -- The overrides of a request: the knobs that are set, `none` where none is.
  abbrev set_knob : Environ → Text → Option Text
  set_knob env k = let v = raw_knob env k in if is_empty v then none else some v

  unfoldable pub request_params : Environ → Option Params
  unfolding raw_knob
  request_params env =
      let rev = set_knob env (codes "AUTHENTICODE_REV") in
      let scripts = set_knob env (codes "AUTHENTICODE_SCRIPTS") in
      if is_some rev || is_some scripts
      then some (record { rev = rev; scripts = scripts })
      else none

  -- The result: the verdict's text beside its summary, and the warnings in their order.
  unfoldable pub result_of : Environ → Text → Json → Dict Text Json → List Warning → Detonation
  unfolding knob_warnings detect raw_knob
  result_of env suffix v fields hits = record {
    payload = insert (codes "authenticode_json") (str (p.dumps v)) fields;
    artifact = p.dumps v;
    detected = detect suffix;
    warnings =
        knob_warnings env
        ++ not_forwarded (is_set env (codes "AUTHENTICODE_GV"))
            (is_set env (codes "AUTHENTICODE_TIER"))
        ++ hits;
  }

  -- What follows the pool's verdict: the artifact is written before the summary is made.
  unfoldable pub report : Environ → Text → Bool → Json → Outcome Failure Detonation
  unfolding summary result_of
  report env suffix writes v =
      if not writes
      then raised write_failed
      else as_failure (
          summary v >>= λ fields. part (codes "graveyard") v >>= graveyard_warnings >>= λ hits.
          ok (result_of env suffix v fields hits))

  -- `detonate`: the environment, the input's suffix, the pool, and whether the artifact is written.
  unfoldable pub detonate :
      Environ → Text → (Option Params → Outcome Exc Json) → Bool → Outcome Failure Detonation
  unfolding report request_params
  detonate env suffix validate writes =
      from_pool (validate (request_params env)) >>= report env suffix writes
