-- ===== src/Modprobe/Tests.antt =====
-- Runs of the loadability check, and its theorem at a concrete host.
use win_validator.Base.{
  ◌≡◌, refl, Bool, true, false, List, [], ◌∷◌, none, some, Text, codes, text_eq, split,
  if◌then◌else◌,
}
use win_validator.Modprobe.{
  first_command, names_br_netfilter, is_self_load, Run, own_directive, before_comment,
  bridge_nf_loadable,
}
use win_validator.Modprobe.Loadable.{RestsOnPlan, bridge_nf_loadable-RestsOnPlan}

abbrev no_path : Text → Bool
no_path p = false

idiom_read :
    is_self_load no_path
      (split (codes "modprobe -q --ignore-install br-netfilter.ko.xz && sysctl -w x=1"))
    ≡ some (codes "--ignore-install" ∷ codes "br-netfilter.ko.xz" ∷ [])
unfolding is_self_load first_command names_br_netfilter
idiom_read = refl

dry_run_refused : is_self_load no_path (split (codes "modprobe -n -i br_netfilter")) ≡ none
unfolding is_self_load first_command names_br_netfilter
dry_run_refused = refl

-- A host with the self-load directive, whose module exists.
abbrev insmod_plan : List Text
insmod_plan = codes "insmod /lib/modules/6.1/br_netfilter.ko.zst" ∷ []

abbrev conf : List Text
conf = codes "install br_netfilter modprobe -i br_netfilter # load" ∷ []

abbrev modprobe : List Text → Run
modprobe [] = none
modprobe (a ∷ _) = some (0, if text_eq a (codes "-c") then conf else insmod_plan)

loadable : bridge_nf_loadable no_path modprobe ≡ true
unfolding bridge_nf_loadable own_directive before_comment is_self_load first_command
    names_br_netfilter
loadable = refl

-- The same host with a directive that only says so.
abbrev false_conf : List Text → Run
false_conf [] = none
false_conf (a ∷ _) = some (
  0,
  if text_eq a (codes "-c") then codes "install br_netfilter /bin/false" ∷ [] else insmod_plan,
)

not_loadable : bridge_nf_loadable no_path false_conf ≡ false
unfolding bridge_nf_loadable own_directive before_comment is_self_load first_command
    names_br_netfilter
not_loadable = refl

bridge_nf_loadable-RestsOnPlan_example : RestsOnPlan no_path modprobe
bridge_nf_loadable-RestsOnPlan_example = bridge_nf_loadable-RestsOnPlan no_path modprobe loadable
