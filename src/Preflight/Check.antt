-- ===== src/Preflight/Check.antt =====
-- `rotation_preflight` and `_rotation_preflight`: what is refused before a build or a promotion, the
-- hold on the candidate, the prune, and the seeding of the chain's record. The probe files are left out,
-- and the temporaries of a killed promotion.
pub mod Seeding
pub mod Ready
pub mod Holds
pub mod Ends
mod Tests
use win_validator.Base.{
  ℕ, ◌+◌, ◌-◌, ◌*◌, Bool, true, false, not, ◌&&◌, ◌||◌, List, [], ◌∷◌, ◌++◌, Option, none, some,
  or_else, Text, codes, is_empty, starts_with, drop, keep, ltb, ℤ, Outcome, ok, raised, ◌>>◌,
  if◌then◌else◌,
}
use win_validator.Egress.{Blastbox}
use win_validator.Chain.{Depth, Records, read_depth, chain_length}
use win_validator.Chain.Markers.{pruned_records}
use win_validator.Prune.{
  File, after_last, ends_with, is_before, rebake_src_live, sweep, remove, prune_backups,
}
use win_validator.Locked.{written}
use win_validator.Preflight.{backup_terms, demands, enough_space}
use win_validator.Preflight.Host.{
  Why, Host, Place, State, Verdict, unless, int_eq, first_checks, not_held, no_record, odd_base,
  no_benign, no_revoked, bad_gate_spec, no_size, no_space, beside_image, beside_mirror,
}

abbrev pub is_source : Text → Bool
is_source n =
    starts_with (codes "golden-base.rebake-src-") n && ends_with (codes ".qcow2") (drop 23 n)

abbrev largest : List ℕ → ℕ
largest [] = 0
largest (n ∷ ns) = let m = largest ns in if ltb m n then n else m

abbrev filled : Option Text → Option Text
filled none = none
filled (some s) = if is_empty s then none else some s

module _ (q : Host) where
  -- The name of the sidecar that is wanted.
  abbrev pub hold_name : Option Text
  hold_name = elim (filled q.keep) [
    | none ↦ none
    | some path ↦ elim (filled q.hold_suffix) [
      | none ↦ none
      | some suffix ↦ some (after_last b'/' [] (q.setting.resolve path) ++ suffix)
    ]
  ]

  -- `_mark_kept`: beside the image, else beside the mirror.
  abbrev pub mark_in : (backup mirror : Bool) → Text → State → Option Place × State
  mark_in true _ name st =
      (some beside_image, record st { backups = written name q.setting.now st.backups })
  mark_in false true name st =
      (some beside_mirror, record st { mirror = written name q.setting.now st.mirror })
  mark_in false false name st = (none, st)

  abbrev pub mark_kept : Text → State → Option Place × State
  mark_kept = mark_in q.marks_backup q.marks_mirror

  abbrev pub record_time : Records → Option ℕ
  record_time r = elim r.chain [ none ↦ none | some d ↦ some d.mtime ]

  abbrev pub pruned : State → State
  pruned st =
      let (backups, mirror) =
        prune_backups q.setting (record_time st.records) q.keep none st.backups st.mirror in
      record { backups = backups; mirror = mirror; records = pruned_records q.setting st.records }

  abbrev pub reads : ℤ → Option Depth → Bool
  reads want none = false
  reads want (some d) = int_eq (read_depth q.max_chain d) want

  abbrev pub made : ℤ → Option Depth
  made want = some (record { mtime = q.setting.now; depth = some want })

  -- The record of the depth, written where it reads otherwise; the mirror's, as far as it can be.
  unfoldable pub seeded : Records → Outcome Why Records
  unfolding chain_length
  seeded r =
      let want = chain_length q.max_chain r in
      let mirror =
        if reads want r.mirror
        then r.mirror
        else if q.mirror_written
        then made want
        else r.mirror in
      if not q.probe_written
      then raised no_record
      else if reads want r.chain
      then ok (record r { mirror = mirror })
      else if q.chain_written
      then ok (record r { chain = made want; mirror = mirror })
      else raised no_record

  -- Under the lock: the hold, the prune, the record. What stays held by the run is given back with it.
  abbrev pub after_seed : Outcome Why Records → State → Verdict × State
  after_seed (raised e) st = (raised e, st)
  after_seed (ok r) st = (ok tt, record st { records = r })

  abbrev pub seed_where : Bool → State → Verdict × State
  unfolding seeded
  seed_where false st = (ok tt, st)
  seed_where true st = after_seed (seeded st.records) st

  abbrev pub prune_and_seed : State → Verdict × State
  unfolding seed_where
  prune_and_seed st = seed_where q.disk_exists (pruned st)

  abbrev pub after_mark : Text → Option Place × State → Verdict × Option (Place × Text) × State
  after_mark name (none, st) = (raised not_held, none, st)
  after_mark name (some place, st) =
      let (v, left) = prune_and_seed st in (v, some (place, name), left)

  abbrev pub lock_with : Option Text → State → Verdict × Option (Place × Text) × State
  unfolding prune_and_seed
  lock_with none st = let (v, left) = prune_and_seed st in (v, none, left)
  lock_with (some name) st = after_mark name (mark_kept name st)

  unfoldable pub under_lock : State → Verdict × Option (Place × Text) × State
  unfolding lock_with
  under_lock = lock_with hold_name

  -- `_sweep_stranded_sources`
  abbrev pub is_stranded : File → Bool
  unfolding rebake_src_live
  is_stranded f =
      is_before (q.setting.now - q.stranded_hours * 3600) f.mtime
      && not (rebake_src_live q.setting f.name)

  unfoldable pub sweep_stranded_sources : List File → List File
  unfolding is_stranded
  sweep_stranded_sources fs =
      sweep q.setting q.setting.backup_dir (λ _. is_stranded) (keep (λ f. is_source f.name) fs) fs

  abbrev pub image_size : ℕ
  image_size = or_else q.estimate (largest q.sizes)

  -- What is refused behind the lock, once the stranded copies are gone.
  unfoldable pub last_checks : Verdict
  unfolding enough_space
  last_checks =
      unless (not q.gate_samples || (not (is_empty q.benign) && q.is_file q.benign)) no_benign
      >> unless (not q.gate_samples || is_empty q.revoked || q.is_file q.revoked) no_revoked
      >> unless (not q.gate_samples || q.gate_spec) bad_gate_spec
      >> unless (ltb 0 image_size) no_size
      >> unless
          (enough_space (
            demands q.places (backup_terms q.candidate_built q.source_copy q.disk_exists)
              image_size))
          no_space

  abbrev pub swept_unless :
      Bool → Option (Place × Text) → State → Verdict × Option (Place × Text) × State
  unfolding last_checks sweep_stranded_sources
  swept_unless true hold st = (raised odd_base, hold, st)
  swept_unless false hold st =
      (last_checks, hold, record st { backups = sweep_stranded_sources st.backups })

  abbrev pub after_lock :
      Verdict × Option (Place × Text) × State → Verdict × Option (Place × Text) × State
  unfolding swept_unless
  after_lock (raised e, hold, st) = (raised e, hold, st)
  after_lock (ok _, hold, st) = swept_unless q.odd_base hold st

  -- The wrapper: a hold that was written goes again with a refusal.
  abbrev pub released : Option (Place × Text) → State → State
  released none st = st
  released (some (beside_image, name)) st = record st {
    backups = remove q.setting q.setting.backup_dir name st.backups;
  }
  released (some (beside_mirror, name)) st = record st {
    mirror = remove q.setting q.setting.mirror_dir name st.mirror;
  }

  abbrev pub wrapped :
      Verdict × Option (Place × Text) × State → Outcome Why (Option (Place × Text)) × State
  wrapped (ok _, hold, st) = (ok hold, st)
  wrapped (raised e, hold, st) = (raised e, released hold st)

abbrev pub begun_with : Verdict → Host → State → Verdict × Option (Place × Text) × State
unfolding under_lock after_lock
begun_with (raised e) q st = (raised e, none, st)
begun_with (ok _) q st = after_lock q (under_lock q st)

unfoldable pub rotation_preflight :
    Blastbox → Host → State → Outcome Why (Option (Place × Text)) × State
unfolding first_checks begun_with
rotation_preflight b q st = wrapped q (begun_with (first_checks b q) q st)
