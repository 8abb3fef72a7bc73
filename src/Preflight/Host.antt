-- ===== src/Preflight/Host.antt =====
-- What `_rotation_preflight` is called with, what the host answers, and what it refuses before it holds
-- the lock.
use win_validator.Base.{
  ℕ, Bool, true, false, not, ◌&&◌, ◌||◌, List, [], ◌∷◌, Option, Text, codes, text_eq, mem_text,
  is_empty, map, lower, any, ◌==◌, ℤ, pos, negsuc, pos_part, Outcome, ok, raised, ◌>>=◌, ◌>>◌,
  if◌then◌else◌,
}
use win_validator.Knobs.{Environ, raw_knob, pool_size}
use win_validator.Egress.{
  Blastbox, Check, loadable, runtime_error, refuse_if, knob_or, authenticode_spec,
  validate_egress_posture, refuse_open_egress,
}
use win_validator.Chain.{Records}
use win_validator.Prune.{File, Setting}
use win_validator.Preflight.{Places, validate_graveyard, validate_warm_dir}

-- Why nothing is published.
pub data Why : Type 0 where
  not_root old_name bad_path bad_spec no_lock lock_held not_held no_record odd_base : Why
  no_benign no_revoked bad_gate_spec no_size no_space : Why

-- What the run is called with, and what the host answers.
pub record Host : Type 0 where
  pub setting : Setting
  pub keep : Option Text
  pub hold_suffix : Option Text
  pub candidate_built : Bool
  pub source_copy : Bool
  pub gate_samples : Bool
  pub estimate : Option ℕ
  pub is_root : Bool
  pub legacy : Text
  pub golden_base : Text
  pub graveyard : Text
  pub warm_dir : Text
  pub env : Environ
  pub bridge : Bool × Bool
  pub is_file : Text → Bool
  pub is_dir : Text → Bool
  pub lock_opens : Bool
  pub grants : List Bool  -- one for each look up to the deadline
  pub marks_backup : Bool
  pub marks_mirror : Bool
  pub probe_written : Bool
  pub chain_written : Bool
  pub mirror_written : Bool
  pub max_chain : ℤ
  pub disk_exists : Bool
  pub odd_base : Bool
  pub stranded_hours : ℕ
  pub benign : Text
  pub revoked : Text
  pub gate_spec : Bool
  pub sizes : List ℕ  -- of the golden and of the master, those that exist
  pub places : Places

pub data Place : Type 0 where
  beside_image beside_mirror : Place

pub record State : Type 0 where
  pub backups : List File
  pub mirror : List File
  pub records : Records

abbrev pub Verdict : Type 0
Verdict = Outcome Why (Unit {0})

abbrev pub unless : Bool → Why → Verdict
unless true e = ok tt
unless false e = raised e

abbrev pub passes {ℓ} : {E A : Type ℓ} → Outcome E A → Bool
passes (ok _) = true
passes (raised _) = false

abbrev agent_statuses : List Text
agent_statuses =
    codes "Valid"
    ∷ codes "Revoked"
    ∷ codes "Distrusted"
    ∷ codes "UntrustedRoot"
    ∷ codes "HashMismatch"
    ∷ codes "Expired"
    ∷ codes "NotYetValid"
    ∷ codes "UnknownError"
    ∷ codes "NotSigned"
    ∷ []

abbrev pub int_eq : ℤ → ℤ → Bool
int_eq (pos m) (pos n) = m == n
int_eq (negsuc m) (negsuc n) = m == n
int_eq _ _ = false

-- `smoke_expect` refuses a status that the agent does not map.
abbrev pub smoke_expect : Environ → Check
smoke_expect env =
    let raw = knob_or env (codes "AUTHENTICODE_SMOKE_EXPECT") (codes "Valid") in
    refuse_if (not (mem_text (lower raw) (map lower agent_statuses))) runtime_error

module _ (b : Blastbox) (q : Host) where
  -- The pool-manager's own guards, in its order.
  unfoldable pub start_guards : Check
  unfolding pool_size
  start_guards =
      let smoke = raw_knob q.env (codes "AUTHENTICODE_SMOKE_SAMPLE") in
      let warm = raw_knob q.env (codes "AUTHENTICODE_WARM_DIR") in
      refuse_open_egress b q.env (pos_part (pool_size q.env).0) (loadable q.bridge.0 q.bridge.1)
      >> refuse_if (not (is_empty smoke) && not (q.is_file smoke)) runtime_error
      >> (if is_empty smoke then ok tt else smoke_expect q.env)
      >> refuse_if (not (is_empty warm) && not (q.is_dir warm)) runtime_error
      >> (authenticode_spec b q.env >>= validate_egress_posture b)

  -- What is refused before the lock is held.
  unfoldable pub first_checks : Verdict
  unfolding start_guards validate_graveyard validate_warm_dir
  first_checks =
      unless q.is_root not_root
      >> unless (is_empty q.legacy || text_eq q.legacy q.golden_base) old_name
      >> unless (passes (validate_graveyard q.graveyard) && passes (validate_warm_dir q.warm_dir))
          bad_path
      >> unless (passes start_guards) bad_spec
      >> unless q.lock_opens no_lock
      >> unless (any (λ g. g) q.grants) lock_held
