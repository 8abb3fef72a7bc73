-- ===== src/Egress/Posture.antt =====
-- The spec that `authenticode_spec` builds: closed where a value is given and unreadable.
use win_validator.Base.{
  ◌≡◌, refl, Bool, true, false, Option, none, some, is_some, is_empty, ◌&&◌, Option-cases, Text,
  codes, lookup, text_instance, ok, >>=-eq-ok, arith, all, inl, inr, List, ℕ, not, subst,
}
use win_validator.Knobs.{Environ}
use win_validator.Egress.{
  Policy, Spec, Blastbox, golden_base, is_printable, closed_if_given, egress_ports_of,
  exit_driver_of, policy_of, routing_of, authenticode_spec,
}

closed_if_given_lem :
    (raw : Text) (ports : Option (List ℕ)) → is_some (closed_if_given (some raw) ports) ≡ true
unfolding closed_if_given
closed_if_given_lem raw none = refl
closed_if_given_lem raw (some ports) = refl

abbrev pub has_no_list : Option Policy → Bool
has_no_list none = false
has_no_list (some pol) = not (is_some pol.egress_ports)

module _ (b : Blastbox) where
  -- An allowlist variable that is set never reads as "no allowlist".
  egress_ports_of_given :
      (raw : Text) {ports : Option (List ℕ)}
      → egress_ports_of b (some raw) ≡ ok ports
      → is_some ports ≡ true
  unfolding egress_ports_of
  egress_ports_of_given raw h =
      let (ps, e, same) = >>=-eq-ok (b.parse_ports (some raw)) _ h in
      let lem = closed_if_given_lem raw ps in cc

  -- No policy means that no exit driver is named.
  pub policy_of-none :
      (env : Environ) → policy_of b env ≡ ok none → is_empty (exit_driver_of env) ≡ true
  unfolding policy_of
  policy_of-none env h = ground arith

  pub policy_of-some :
      (env : Environ) (pol : Policy)
      → policy_of b env ≡ ok (some pol)
      → (is_empty (exit_driver_of env) ≡ false)
        × (pol.exit_driver ≡ exit_driver_of env)
        × (egress_ports_of b (lookup (codes "AUTHENTICODE_EGRESS_PORTS") env) ≡ ok pol.egress_ports)
        × (b.parse_bool (lookup (codes "AUTHENTICODE_BLOCK_INTERNAL") env) ≡ ok pol.block_internal)
  unfolding policy_of
  policy_of-some env pol h = ground arith

  pub spec_parts :
      (env : Environ) (spec : Spec)
      → authenticode_spec b env ≡ ok spec
      → (policy_of b env ≡ ok spec.egress)
        × (golden_base env ≡ ok spec.golden)
        × (spec.routing ≡ routing_of env)
  unfolding authenticode_spec
  spec_parts env spec h = ground arith

  -- A spec has routing exactly when it has a policy.
  routing_of-egress :
      (env : Environ) (p : Option Policy)
      → policy_of b env ≡ ok p
      → is_some (routing_of env) ≡ is_some p
  unfolding routing_of policy_of
  routing_of-egress env none h = ground arith
  routing_of-egress env (some pol) h = ground arith

  closed_ports :
      (env : Environ) (p : Option Policy)
      → policy_of b env ≡ ok p
      → (is_some (lookup (codes "AUTHENTICODE_EGRESS_PORTS") env) && has_no_list p) ≡ false
  closed_ports env none h = ground arith
  closed_ports env (some pol) h =
      elim (Option-cases (lookup (codes "AUTHENTICODE_EGRESS_PORTS") env)) [
        | inl unset ↦ rw unset
        | inr (raw, l) ↦ rw (
          l,
          egress_ports_of_given raw (
              subst (λ v. egress_ports_of b v ≡ ok pol.egress_ports) l
                (policy_of-some env pol h).2),
        )
      ]

  golden_base-printable :
      (env : Environ) (path : Text) → golden_base env ≡ ok path → all is_printable path ≡ true
  unfolding golden_base
  golden_base-printable env path h = ground arith

  named :
      (env : Environ) (p : Option Policy)
      → policy_of b env ≡ ok p
      → is_empty (exit_driver_of env) ≡ not (is_some p)
  named env none h = policy_of-none env h
  named env (some pol) h = (policy_of-some env pol h).0

  -- Every spec that is built boots a plain printable path, has exit routing exactly when it has a
  -- policy (so a policy never stands without its routing), has no policy exactly where no exit
  -- driver is named, and where the variable of the allowlist is set, however it reads, has no
  -- policy without an allowlist.
  pub authenticode_spec_closed :
      (env : Environ) (spec : Spec)
      → authenticode_spec b env ≡ ok spec
      → (all is_printable spec.golden ≡ true)
        × (is_some spec.routing ≡ is_some spec.egress)
        × (is_empty (exit_driver_of env) ≡ not (is_some spec.egress))
        × ((is_some (lookup (codes "AUTHENTICODE_EGRESS_PORTS") env) && has_no_list spec.egress)
            ≡ false)
  authenticode_spec_closed env spec h =
      let (policy, golden, routing) = spec_parts env spec h in
      (
        golden_base-printable env spec.golden golden,
        rw routing (routing_of-egress env spec.egress policy),
        named env spec.egress policy,
        closed_ports env spec.egress policy,
      )
