-- ===== src/Egress.antt =====
-- The worker's network policy: vm_pool.py (`golden_base`, `_egress_ports`, `authenticode_spec`,
-- `validate_egress_posture`) and pool_manager.py (`_refuse_open_egress`). blastbox's
-- parsers and its sets of exits are parameters.
pub mod Siblings
pub mod Posture
mod Tests
use win_validator.Base.{
  ℕ, zero, suc, Bool, true, false, not, ◌&&◌, ◌||◌, List, [], ◌∷◌, Option, none, some, or_else,
  is_some, Text, codes, Outcome, ok, raised, ◌>>=◌, ◌>>◌, lookup, text_instance, text_eq, strip,
  strip_by, lower, is_empty, all, leb, ltb, ◌==◌, ℤ, pos, negsuc, mem_text, if◌then◌else◌,
}
use win_validator.Knobs.{Environ, raw_knob, agent_port, pool_size}

-- Why a start is refused: SystemExit by its cause, or a ValueError or RuntimeError.
pub data Refusal : Type 0 where
  exit_unset siblings_by_allowlist siblings_open not_loadable bridge_off : Refusal
  value_error runtime_error : Refusal

abbrev pub Check : Type 0
Check = Outcome Refusal (Unit {0})

abbrev pub refuse_if : Bool → Refusal → Check
refuse_if true e = raised e
refuse_if false e = ok tt

-- `(os.environ.get(name) or "").strip() or default`
abbrev pub knob_or : Environ → Text → Text → Text
knob_or env name default = let v = raw_knob env name in if is_empty v then default else v

abbrev pub knob? : Environ → Text → Option Text
knob? env name = let v = raw_knob env name in if is_empty v then none else some v

abbrev is_blank : ℕ → Bool
is_blank c = c == 32 || c == 9

abbrev is_printable : ℕ → Bool
is_printable c = leb 32 c && ltb c 127

unfoldable pub golden_base : Environ → Outcome Refusal Text
golden_base env =
    let trimmed = strip_by is_blank (or_else (lookup (codes "AUTHENTICODE_GOLDEN_BASE") env) []) in
    let raw = if is_empty trimmed then codes "/dev/shm/golden-base.qcow2" else trimmed in
    if all is_printable raw then ok raw else raised runtime_error

-- VmEgressPolicy, ExitRouting and VmWorkerSpec, as far as the program fills and reads them. An
-- allowlist of `none` is "no allowlist"; an empty one is closed.
pub record Policy : Type 0 where
  pub exit_driver : Text
  pub egress_ports : Option (List ℕ)
  pub block_internal : Bool

pub record Routing : Type 0 where
  pub vpn_table : Text
  pub vpn_tun : Text
  pub fakenet_addr : Option Text
  pub gateway : Option Text
  pub leg : Option Text

pub record Spec : Type 0 where
  pub golden : Text
  pub port : ℤ
  pub warm_size : ℤ
  pub egress : Option Policy
  pub routing : Option Routing
  pub ip_pool : Text

-- blastbox: `parse_egress_ports`, `parse_strict_bool`, the sets of exits, `_parse_ip_pool`, and
-- whether the installed version has those names.
pub record Blastbox : Type 0 where
  pub parse_ports : Option Text → Outcome Refusal (Option (List ℕ))
  pub parse_bool : Option Text → Outcome Refusal Bool
  pub is_routing_driver : Text → Bool
  pub is_supported_exit : Text → Bool
  pub parse_ip_pool : Text → Check
  pub has_names : Bool

-- `_egress_ports`: a value that is there and parses to nothing is a closed allowlist.
pub closed_if_given : Option Text → Option (List ℕ) → Option (List ℕ)
closed_if_given raw (some ports) = some ports
closed_if_given none none = none
closed_if_given (some raw) none = some []

-- The exit driver: `none`, in any case, is the same as no driver here.
pub exit_driver_of : Environ → Text
exit_driver_of env =
    let raw = raw_knob env (codes "AUTHENTICODE_EXIT") in
    if text_eq (lower raw) (codes "none") then [] else raw

pub routing_of : Environ → Option Routing
unfolding exit_driver_of
routing_of env =
    if is_empty (exit_driver_of env)
    then none
    else some (record {
      vpn_table = knob_or env (codes "AUTHENTICODE_VPN_TABLE") (codes "vpn");
      vpn_tun = knob_or env (codes "AUTHENTICODE_VPN_TUN") (codes "tun0");
      fakenet_addr = knob? env (codes "AUTHENTICODE_FAKENET_ADDR");
      gateway = knob? env (codes "AUTHENTICODE_GATEWAY");
      leg = knob? env (codes "AUTHENTICODE_LEG");
    })

abbrev has_fakenet : Option Routing → Bool
has_fakenet none = false
has_fakenet (some r) = is_some r.fakenet_addr

-- A gateway without a leg, or a leg without a gateway.
abbrev half_router : Option Routing → Bool
half_router none = false
half_router (some r) = if is_some r.gateway then not (is_some r.leg) else is_some r.leg

abbrev is_vpn : Text → Bool
is_vpn exit = text_eq exit (codes "openvpn") || text_eq exit (codes "wireguard")

-- `agent_port() in eg.egress_ports`
abbrev pub mem_port : ℤ → List ℕ → Bool
mem_port (negsuc _) ports = false
mem_port (pos n) [] = false
mem_port (pos n) (p ∷ ports) = n == p || mem_port (pos n) ports

abbrev admits_agent : ℤ → Option (List ℕ) → Bool
admits_agent port none = false
admits_agent port (some ports) = mem_port port ports

-- The two refusals over the policy, in their order.
pub refuse_policy : ℤ → Option Policy → Check
refuse_policy port none = ok tt
refuse_policy port (some eg) =
    let lax = not (text_eq eg.exit_driver (codes "drop")) && not eg.block_internal in
    refuse_if (lax && admits_agent port eg.egress_ports) siblings_by_allowlist
    >> refuse_if (lax && not (is_some eg.egress_ports)) siblings_open

-- How the sysctl is judged: as it reads now ("live", with its text or a failed read), or by
-- whether the next start can set it ("loadable": it exists, or the module would be inserted).
pub data Sysctl : Type 0 where
  live : Option Text → Sysctl
  loadable : (exists would_load : Bool) → Sysctl

pub refuse_bridge : Sysctl → Check
refuse_bridge (live none) = raised bridge_off
refuse_bridge (live (some value)) = refuse_if (not (text_eq (strip value) (codes "1"))) bridge_off
refuse_bridge (loadable exists would_load) = refuse_if (not exists && not would_load) not_loadable

module _ (b : Blastbox) where
  pub egress_ports_of : Option Text → Outcome Refusal (Option (List ℕ))
  unfolding closed_if_given
  egress_ports_of raw = b.parse_ports raw >>= λ ports. ok (closed_if_given raw ports)

  pub policy_of : Environ → Outcome Refusal (Option Policy)
  unfolding exit_driver_of
  policy_of env =
      if is_empty (exit_driver_of env)
      then ok none
      else egress_ports_of (lookup (codes "AUTHENTICODE_EGRESS_PORTS") env) >>= λ ports.
          b.parse_bool (lookup (codes "AUTHENTICODE_BLOCK_INTERNAL") env) >>= λ block. ok (
            some (record {
              exit_driver = exit_driver_of env;
              egress_ports = ports;
              block_internal = block;
            }))

  pub authenticode_spec : Environ → Outcome Refusal Spec
  authenticode_spec env = policy_of env >>= λ policy. golden_base env >>= λ golden. ok (record {
    golden = golden;
    port = (agent_port env).0;
    warm_size = (pool_size env).0;
    egress = policy;
    routing = routing_of env;
    ip_pool = raw_knob env (codes "AUTHENTICODE_IP_POOL");
  })

  abbrev check_policy : Option Policy → Option Routing → Check
  check_policy none routing = ok tt
  check_policy (some pol) routing =
      refuse_if (b.is_routing_driver pol.exit_driver && not (is_some routing)) value_error
      >> refuse_if (text_eq pol.exit_driver (codes "inetsim") && not (has_fakenet routing))
          value_error
      >> refuse_if (not (b.is_supported_exit pol.exit_driver)) value_error
      >> refuse_if (is_vpn pol.exit_driver && half_router routing) value_error

  pub validate_egress_posture : Spec → Check
  validate_egress_posture spec =
      refuse_if (not b.has_names) runtime_error
      >> (if is_empty spec.ip_pool then ok tt else b.parse_ip_pool spec.ip_pool)
      >> check_policy spec.egress spec.routing

  pub refuse_open_egress : Environ → ℕ → Sysctl → Check
  refuse_open_egress env workers sysctl =
      let raw = raw_knob env (codes "AUTHENTICODE_EXIT") in
      if is_empty raw
      then raised exit_unset
      else if text_eq (lower raw) (codes "none") || ltb workers 2
      then ok tt
      else authenticode_spec env >>= λ spec.
          refuse_policy (agent_port env).0 spec.egress >> refuse_bridge sysctl
