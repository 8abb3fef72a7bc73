-- ===== src/Egress/Siblings.antt =====
-- What a start that `_refuse_open_egress` lets through has closed.
use win_validator.Base.{
  ℕ, ◌≤◌, ◌≡◌, ◌⊎◌, refl, Bool, true, false, Option, none, some, is_empty, codes, text_eq, lower,
  strip, ok, ◌>>=◌, ◌>>◌, >>=-eq-ok, arith, if◌then◌else◌, ℤ,
}
use win_validator.Knobs.{Environ, raw_knob, agent_port}
use win_validator.Egress.{
  Policy, Spec, Blastbox, mem_port, refuse_policy, Sysctl, live, loadable, refuse_bridge,
  exit_driver_of, policy_of, authenticode_spec, refuse_open_egress,
}
use win_validator.Egress.Posture.{policy_of-none, spec_parts}

-- What blastbox's rooter does with a frame from one worker to another worker's agent port, once the
-- bridge shows it to the FORWARD rules: the drop exit and block_internal drop it, an allowlist
-- admits its own ports, and without one the chain ends in ACCEPT.
abbrev pub forwards : ℤ → Policy → Bool
forwards port pol =
    if text_eq pol.exit_driver (codes "drop")
    then false
    else if pol.block_internal
    then false
    else elim pol.egress_ports [ none ↦ true | some ports ↦ mem_port port ports ]

-- The bridge shows its frames to the rules: now, or (for a caller whose restart applies it) at the
-- next start.
abbrev pub IsFiltered : Sysctl → Type 0
IsFiltered (live none) = ⊥
IsFiltered (live (some value)) = text_eq (strip value) (codes "1") ≡ true
IsFiltered (loadable exists would_load) = (exists ≡ true) ⊎ (would_load ≡ true)

refuse_policy-forwards :
    (port : ℤ) (pol : Policy) → refuse_policy port (some pol) ≡ ok tt → forwards port pol ≡ false
unfolding refuse_policy
refuse_policy-forwards port pol h = ground arith

refuse_bridge-IsFiltered : (s : Sysctl) → refuse_bridge s ≡ ok tt → IsFiltered s
unfolding refuse_bridge
refuse_bridge-IsFiltered (live none) h = cc
refuse_bridge-IsFiltered (live (some value)) h = ground arith
refuse_bridge-IsFiltered (loadable exists would_load) h = ground arith

module _ (b : Blastbox) where
  refuse_open_egress-parts :
      (env : Environ) (workers : ℕ) (s : Sysctl)
      → refuse_open_egress b env workers s ≡ ok tt
      → 2 ≤ workers
      → text_eq (lower (raw_knob env (codes "AUTHENTICODE_EXIT"))) (codes "none") ≡ false
      → (is_empty (raw_knob env (codes "AUTHENTICODE_EXIT")) ≡ false)
        × ((authenticode_spec b env >>= λ spec.
              refuse_policy (agent_port env).0 spec.egress >> refuse_bridge s)
            ≡ ok tt)
  unfolding refuse_open_egress
  refuse_open_egress-parts env workers s h w n = ground arith

  policy_closed :
      (env : Environ) (p : Option Policy)
      → policy_of b env ≡ ok p
      → is_empty (exit_driver_of env) ≡ false
      → refuse_policy (agent_port env).0 p ≡ ok tt
      → (pol : Policy) × (p ≡ some pol) × (forwards (agent_port env).0 pol ≡ false)
  policy_closed env none h e r = cc (policy_of-none b env h)
  policy_closed env (some pol) h e r = (pol, refl, refuse_policy-forwards (agent_port env).0 pol r)

  exit_named :
      (env : Environ)
      → is_empty (raw_knob env (codes "AUTHENTICODE_EXIT")) ≡ false
      → text_eq (lower (raw_knob env (codes "AUTHENTICODE_EXIT"))) (codes "none") ≡ false
      → is_empty (exit_driver_of env) ≡ false
  unfolding exit_driver_of
  exit_named env e n = rw (n, e)

  -- With two workers or more on the bridge, and not opted out by name, a start that is let through
  -- has a policy that drops worker-to-worker traffic to the agent port, and a bridge that shows
  -- the rules that traffic.
  pub refuse_open_egress_closed :
      (env : Environ) (workers : ℕ) (s : Sysctl)
      → refuse_open_egress b env workers s ≡ ok tt
      → 2 ≤ workers
      → text_eq (lower (raw_knob env (codes "AUTHENTICODE_EXIT"))) (codes "none") ≡ false
      → (spec : Spec) × (pol : Policy) × (authenticode_spec b env ≡ ok spec)
        × (spec.egress ≡ some pol)
        × (forwards (agent_port env).0 pol ≡ false)
        × IsFiltered s
  refuse_open_egress_closed env workers s h w n =
      let (set, passed) = refuse_open_egress-parts env workers s h w n in
      let (spec, built, rest) = >>=-eq-ok (authenticode_spec b env) _ passed in
      let (unit, policy_ok, bridge) =
        >>=-eq-ok (refuse_policy (agent_port env).0 spec.egress) (λ _. refuse_bridge s) rest in
      let (pol, is_pol, closed) =
        policy_closed env spec.egress (spec_parts b env spec built).0 (exit_named env set n) (cc) in
      (spec, pol, built, is_pol, closed, refuse_bridge-IsFiltered s bridge)
