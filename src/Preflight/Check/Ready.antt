-- ===== src/Preflight/Check/Ready.antt =====
-- What a preflight that returns has made sure of.
use win_validator.Base.{
  ◌<◌, ◌≡◌, refl, Bool, true, false, ◌||◌, text_eq, is_empty, any, Outcome, ok, raised, ◌>>◌, arith,
}
use win_validator.Egress.{Blastbox}
use win_validator.Preflight.{
  backup_terms, demands, enough_space, validate_graveyard, validate_warm_dir,
}
use win_validator.Preflight.Host.{Why, Host, Verdict, unless, passes, start_guards, first_checks}
use win_validator.Preflight.Check.{image_size, last_checks}

both : (v w : Verdict) → (v >> w) ≡ ok tt → (v ≡ ok tt) × (w ≡ ok tt)
both (ok tt) w h = (refl, h)
both (raised e) w h = cc

holds : (t : Bool) (e : Why) → unless t e ≡ ok tt → t ≡ true
holds true e h = refl
holds false e h = cc

-- A verdict that ends with one more check.
checked : (v : Verdict) (t : Bool) (e : Why) → (v >> unless t e) ≡ ok tt → (v ≡ ok tt) × (t ≡ true)
checked v t e h = let (first, last) = both v (unless t e) h in (first, holds t e last)

passed : {E : Type 0} → (v : Outcome E (Unit {0})) → passes v ≡ true → v ≡ ok tt
passed (ok tt) h = refl
passed (raised e) h = cc

-- What a preflight that returns has made sure of, on what the host answers.
pub record Ready (b : Blastbox) (q : Host) : Type 0 where
  pub root : q.is_root ≡ true
  pub one_base : (is_empty q.legacy || text_eq q.legacy q.golden_base) ≡ true
  pub graveyard : validate_graveyard q.graveyard ≡ ok tt
  pub warm_dir : validate_warm_dir q.warm_dir ≡ ok tt
  pub start : start_guards b q ≡ ok tt
  pub opens : q.lock_opens ≡ true
  pub granted : any (λ g. g) q.grants ≡ true
  pub even : q.odd_base ≡ false
  pub benign : q.gate_samples ≡ true → q.is_file q.benign ≡ true
  pub revoked : q.gate_samples ≡ true → is_empty q.revoked ≡ false → q.is_file q.revoked ≡ true
  pub gate : q.gate_samples ≡ true → q.gate_spec ≡ true
  pub sized : 0 < image_size q
  pub space :
      enough_space (
        demands q.places
          (backup_terms q.candidate_built q.source_copy q.disk_exists)
          (image_size q))
      ≡ true

pub Ready-checks :
    (b : Blastbox) (q : Host)
    → first_checks b q ≡ ok tt
    → q.odd_base ≡ false
    → last_checks q ≡ ok tt
    → Ready b q
unfolding first_checks last_checks
Ready-checks b q h even l =
    let (h5, granted) = checked _ _ _ h in
    let (h4, opens) = checked _ _ _ h5 in
    let (h3, start) = checked _ _ _ h4 in
    let (h2, paths) = checked _ _ _ h3 in
    let (h1, one_base) = checked _ _ _ h2 in
    let (l4, space) = checked _ _ _ l in
    let (l3, sized) = checked _ _ _ l4 in
    let (l2, gate) = checked _ _ _ l3 in
    let (l1, known) = checked _ _ _ l2 in
    let benign = holds _ _ l1 in
    record {
      root = holds _ _ h1;
      one_base = one_base;
      graveyard = passed (validate_graveyard q.graveyard) (ground arith);
      warm_dir = passed (validate_warm_dir q.warm_dir) (ground arith);
      start = passed (start_guards b q) start;
      opens = opens;
      granted = granted;
      even = even;
      benign = λ on. ground arith;
      revoked = λ on filled. ground arith;
      gate = λ on. ground arith;
      sized = ground arith;
      space = space;
    }
