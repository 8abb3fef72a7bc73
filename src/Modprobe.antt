-- ===== src/Modprobe.antt =====
-- pool_manager.py, `_is_self_load` and `_bridge_nf_loadable`: would `modprobe br_netfilter` insert
-- the module? What `modprobe` prints, and which paths are the system's modprobe, are parameters.
pub mod Loadable
mod Tests
use win_validator.Base.{
  ℕ, zero, Bool, true, false, not, ◌&&◌, ◌||◌, List, [], ◌∷◌, ◌++◌, Option, none, some, is_some,
  Text, codes, mem_text, mem_code, text_eq, is_empty, keep, all, any, length, drop, take, reverse,
  starts_with, has_part, split, basename, ◌==◌, ◌-◌, if◌then◌else◌,
}

abbrev pub self_load_flags : List Text
self_load_flags =
    codes "--ignore-install"
    ∷ codes "-i"
    ∷ codes "--quiet"
    ∷ codes "-q"
    ∷ codes "--verbose"
    ∷ codes "-v"
    ∷ codes "--all"
    ∷ codes "-a"
    ∷ codes "--use-blacklist"
    ∷ codes "-b"
    ∷ codes "--syslog"
    ∷ codes "-s"
    ∷ []

abbrev pub is_flag : Text → Bool
is_flag w = starts_with (codes "-") w

abbrev pub is_ignore_install : Text → Bool
is_ignore_install w = mem_text w (codes "--ignore-install" ∷ codes "-i" ∷ [])

-- Flags that hide the plan.
abbrev pub is_hiding : Text → Bool
is_hiding w = mem_text w (codes "-q" ∷ codes "--quiet" ∷ codes "-s" ∷ codes "--syslog" ∷ [])

-- The words up to the first `&&`, `||`, `;` or `|`.
unfoldable pub first_command : List Text → List Text
first_command [] = []
first_command (w ∷ ws) =
    let rest = first_command ws in
    if mem_text w (codes "&&" ∷ codes "||" ∷ codes ";" ∷ codes "|" ∷ []) then [] else w ∷ rest

-- `if name.endswith(suffix): name = name[: -len(suffix)]`
abbrev cut_suffix : Text → Text → Text
cut_suffix suffix name =
    if starts_with (reverse suffix) (reverse name)
    then take (length name - length suffix) name
    else name

abbrev dashes_to_underscores : Text → Text
dashes_to_underscores [] = []
dashes_to_underscores (c ∷ s) = (if c == b'-' then b'_' else c) ∷ dashes_to_underscores s

unfoldable pub names_br_netfilter : Text → Bool
names_br_netfilter arg =
    text_eq
      (dashes_to_underscores (
        cut_suffix (codes ".ko") (
          cut_suffix (codes ".gz")
            (cut_suffix (codes ".xz") (cut_suffix (codes ".zst") (basename arg))))))
      (codes "br_netfilter")

abbrev one_module : List Text → Bool
one_module [] = false
one_module (arg ∷ []) = names_br_netfilter arg
one_module (_ ∷ _ ∷ _) = false

-- `is_system prog`: an executable path that resolves to the modprobe on the PATH.
unfoldable pub is_self_load : (Text → Bool) → List Text → Option (List Text)
is_self_load is_system words = elim (first_command words) [
  | [] ↦ none
  | prog ∷ rest ↦
      let flags = keep is_flag rest in
      let args = keep (λ w. not (is_flag w)) rest in
      if text_eq (basename prog) (codes "modprobe")
        && (not (mem_code b'/' prog) || is_system prog)
        && all (λ f. mem_text f self_load_flags) flags
        && any is_ignore_install flags
        && one_module args
      then some (keep (λ w. not (is_hiding w)) rest)
      else none
]

-- A run of modprobe: its exit code and the lines that it printed; `none` is a run that failed.
abbrev pub Run : Type 0
Run = Option (ℕ × List Text)

abbrev pub inserts : Text → Bool
inserts line = starts_with (codes "insmod ") line && has_part (codes "/br_netfilter.ko") line

abbrev pub installs : Text → Bool
installs line = starts_with (codes "install ") line

-- `ln.split()[:2] == ["install", "br_netfilter"]`, and the words behind those, up to a comment.
abbrev is_own : List Text → Bool
is_own (a ∷ b ∷ _) = text_eq a (codes "install") && text_eq b (codes "br_netfilter")
is_own (_ ∷ []) = false
is_own [] = false

unfoldable pub own_directive : List Text → Option Text
own_directive [] = none
own_directive (line ∷ conf) =
    let rest = own_directive conf in if is_own (split line) then some line else rest

unfoldable pub before_comment : List Text → List Text
before_comment [] = []
before_comment (w ∷ ws) =
    let rest = before_comment ws in if starts_with (codes "#") w then [] else w ∷ rest

-- What a plan must be for the module to be inserted.
abbrev pub good_plan : ℕ × List Text → Bool
good_plan (rc, plan) = rc == 0 && any inserts plan && not (any installs plan)

abbrev run_is_good : Run → Bool
run_is_good none = false
run_is_good (some r) = good_plan r

-- The dry run without a directive needs a zero exit code already checked.
abbrev judge_own : (Text → Bool) → (List Text → Run) → Text → Bool
judge_own is_system modprobe line =
    elim (is_self_load is_system (before_comment (drop 2 (split line)))) [
      | none ↦ false
      | some argv ↦ run_is_good (modprobe (codes "-n" ∷ codes "-v" ∷ argv))
    ]

abbrev with_conf : (Text → Bool) → (List Text → Run) → ℕ × List Text → Run → Bool
with_conf is_system modprobe first none = false
with_conf is_system modprobe first (some (_, conf)) = elim (own_directive conf) [
  | some line ↦ judge_own is_system modprobe line
  | none ↦ any inserts first.1 && not (any installs first.1)
]

-- `modprobe argv` is one run with those arguments.
unfoldable pub bridge_nf_loadable : (Text → Bool) → (List Text → Run) → Bool
bridge_nf_loadable is_system modprobe =
    elim (modprobe (codes "-n" ∷ codes "-v" ∷ codes "br_netfilter" ∷ [])) [
      | none ↦ false
      | some (rc, plan) ↦
          if not (rc == 0)
          then false
          else with_conf is_system modprobe (rc, plan) (modprobe (codes "-c" ∷ []))
    ]
