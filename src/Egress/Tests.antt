-- ===== src/Egress/Tests.antt =====
-- Runs of the egress refusals, and their theorems at concrete environments.
use win_validator.Base.{
  ℕ, ◌≡◌, refl, Bool, true, false, not, ◌&&◌, [], ◌∷◌, List, Option, none, some, is_some, is_empty,
  Text, codes, text_eq, lookup, text_instance, all, Outcome, ok, raised, arith, lower,
  if◌then◌else◌,
}
use win_validator.Knobs.{Environ, raw_knob, agent_port, pool_size}
use win_validator.Egress.{
  Refusal, exit_unset, siblings_open, Policy, Spec, Blastbox, is_printable, golden_base, live,
  refuse_policy, refuse_bridge, exit_driver_of, policy_of, egress_ports_of, closed_if_given,
  routing_of, authenticode_spec, refuse_open_egress,
}
use win_validator.Egress.Siblings.{forwards, IsFiltered, refuse_open_egress_closed}
use win_validator.Egress.Posture.{has_no_list, authenticode_spec_closed}

-- Parsers that read "1" as true and "443" as one port.
abbrev parse_ports : Option Text → Outcome Refusal (Option (List ℕ))
parse_ports none = ok none
parse_ports (some v) = ok (if text_eq v (codes "443") then some (443 ∷ []) else none)

abbrev parse_bool : Option Text → Outcome Refusal Bool
parse_bool none = ok false
parse_bool (some v) = ok (text_eq v (codes "1"))

abbrev blastbox : Blastbox
blastbox = record {
  parse_ports = parse_ports;
  parse_bool = parse_bool;
  is_routing_driver = λ e. text_eq e (codes "tor");
  is_supported_exit = λ e. true;
  parse_ip_pool = λ s. ok tt;
  has_names = true;
}

abbrev open_env : Environ
open_env = (codes "AUTHENTICODE_EXIT", codes " direct ") ∷ []

abbrev closed_env : Environ
closed_env =
    (codes "AUTHENTICODE_EXIT", codes "direct")
    ∷ (codes "AUTHENTICODE_EGRESS_PORTS", codes "http")
    ∷ []

open_refused :
    refuse_open_egress blastbox open_env 2 (live (some (codes "1\n"))) ≡ raised siblings_open
unfolding refuse_open_egress raw_knob authenticode_spec policy_of egress_ports_of closed_if_given
    exit_driver_of golden_base refuse_policy
open_refused = refl

unset_refused : refuse_open_egress blastbox [] 1 (live none) ≡ raised exit_unset
unfolding refuse_open_egress raw_knob
unset_refused = refl

closed_passes : refuse_open_egress blastbox closed_env 2 (live (some (codes "1\n"))) ≡ ok tt
unfolding refuse_open_egress raw_knob authenticode_spec policy_of egress_ports_of closed_if_given
    exit_driver_of golden_base refuse_policy refuse_bridge agent_port
closed_passes = refl

closed_not_none :
    text_eq (lower (raw_knob closed_env (codes "AUTHENTICODE_EXIT"))) (codes "none") ≡ false
unfolding raw_knob
closed_not_none = refl

refuse_open_egress_closed_example :
    (spec : Spec) × (pol : Policy) × (authenticode_spec blastbox closed_env ≡ ok spec)
    × (spec.egress ≡ some pol)
    × (forwards (agent_port closed_env).0 pol ≡ false)
    × IsFiltered (live (some (codes "1\n")))
refuse_open_egress_closed_example =
    refuse_open_egress_closed blastbox closed_env 2 (live (some (codes "1\n"))) closed_passes
      (omega arith) closed_not_none

abbrev built : Spec
built = record {
  golden = codes "/dev/shm/golden-base.qcow2";
  port = (agent_port closed_env).0;
  warm_size = (pool_size closed_env).0;
  egress =
      some
        (record { exit_driver = codes "direct"; egress_ports = some []; block_internal = false });
  routing = routing_of closed_env;
  ip_pool = [];
}

closed_built : authenticode_spec blastbox closed_env ≡ ok built
unfolding authenticode_spec raw_knob policy_of egress_ports_of closed_if_given exit_driver_of
    golden_base
closed_built = refl

authenticode_spec_closed_example :
    (all is_printable built.golden ≡ true)
    × (is_some built.routing ≡ is_some built.egress)
    × (is_empty (exit_driver_of closed_env) ≡ not (is_some built.egress))
    × ((is_some (lookup (codes "AUTHENTICODE_EGRESS_PORTS") closed_env) && has_no_list built.egress)
        ≡ false)
authenticode_spec_closed_example = authenticode_spec_closed blastbox closed_env built closed_built
