-- ===== src/Preflight.antt =====
-- golden_rotate.py: `validate_graveyard`, `validate_warm_dir`, and the space that `_rotation_preflight`
-- wants on each filesystem.
pub mod Space
pub mod Host
pub mod Check
mod Tests
use win_validator.Base.{
  ℕ, ◌+◌, ◌*◌, Bool, true, false, not, ◌&&◌, ◌||◌, List, [], ◌∷◌, length, ◌++◌, Option, none, some,
  or_else, Text, is_empty, mem_code, leb, ltb, ◌==◌, Dict, lookup, insert, nat_eq, Outcome, ok,
  raised, if◌then◌else◌,
}

-- Why a path is refused.
pub data Refusal : Type 0 where
  bad_graveyard bad_warm_dir : Refusal

-- `ntpath.dirname`: the drive, and what stands in front of the last slash, without the slashes at its
-- end unless there is nothing else. A UNC path keeps its leading backslash, or nothing.
abbrev is_slash : ℕ → Bool
is_slash c = c == b'\\' || c == b'/'

abbrev to_last_slash : Text → Option Text
to_last_slash [] = none
to_last_slash (c ∷ s) =
    let later = to_last_slash s in
    elim later [ some t ↦ some (c ∷ t) | none ↦ if is_slash c then some (c ∷ []) else none ]

abbrev rstrip_slashes : Text → Text
rstrip_slashes [] = []
rstrip_slashes (c ∷ s) =
    let rest = rstrip_slashes s in if is_empty rest && is_slash c then [] else c ∷ rest

abbrev head_of : Text → Text
head_of s =
    let head = or_else (to_last_slash s) [] in
    let bare = rstrip_slashes head in if is_empty bare then head else bare

abbrev pub nt_dirname : Text → Text
nt_dirname (c ∷ d ∷ s) = if d == b':' then c ∷ d ∷ head_of s else head_of (c ∷ d ∷ s)
nt_dirname s = head_of s

abbrev is_letter : ℕ → Bool
is_letter c = (leb b'A' c && leb c b'Z') || (leb b'a' c && leb c b'z')

-- `^[A-Za-z]:\\[^\\]`
abbrev pub is_drive_path : Text → Bool
is_drive_path (a ∷ b ∷ c ∷ d ∷ s) = is_letter a && b == b':' && c == b'\\' && not (d == b'\\')
is_drive_path _ = false

abbrev pub has_expansion : Text → Bool
has_expansion s = mem_code b'$' s || mem_code b'`' s || mem_code b'"' s || mem_code b'\'' s

unfoldable pub validate_graveyard : Text → Outcome Refusal (Unit {0})
validate_graveyard path =
    if is_empty path
    then ok tt
    else if not (is_drive_path (nt_dirname path)) || has_expansion path
    then raised bad_graveyard
    else ok tt

unfoldable pub validate_warm_dir : Text → Outcome Refusal (Unit {0})
validate_warm_dir path =
    if is_empty path
    then ok tt
    else if not (is_drive_path path) || has_expansion path
    then raised bad_warm_dir
    else ok tt

-- A demand: the device of its path's nearest directory, what is free there, and how much is needed.
pub record Demand : Type 0 where
  pub device : ℕ
  pub free : ℕ
  pub amount : ℕ

-- `per_fs`: by device, what is free at its first path, and the sum of what is needed.
abbrev pub add_demand : Demand → Dict ℕ (ℕ × ℕ) → Dict ℕ (ℕ × ℕ)
add_demand d fs = elim (lookup d.device fs) [
  | none ↦ insert d.device (d.free, d.amount) fs
  | some (free, need) ↦ insert d.device (free, need + d.amount) fs
]

abbrev pub per_filesystem : List Demand → Dict ℕ (ℕ × ℕ) → Dict ℕ (ℕ × ℕ)
per_filesystem [] fs = fs
per_filesystem (d ∷ ds) fs = per_filesystem ds (add_demand d fs)

abbrev pub all_fit : Dict ℕ (ℕ × ℕ) → Bool
all_fit [] = true
all_fit ((dev, (free, need)) ∷ fs) = not (ltb free need) && all_fit fs

-- The paths that a run writes to, in the order of the source: the backup folder and the folders of the
-- two images.
pub record Places : Type 0 where
  pub backups : ℕ × ℕ
  pub disk_base : ℕ × ℕ
  pub ram_base : ℕ × ℕ

-- What the backup folder holds at the peak, in images.
pub data Term : Type 0 where
  candidate copy_or_backup : Term

abbrev pub backup_terms : Bool → Bool → Bool → List Term
backup_terms candidate_built source_copy golden_exists =
    (if candidate_built then [] else candidate ∷ [])
    ++ (if source_copy || golden_exists then copy_or_backup ∷ [] else [])

abbrev pub demands : Places → List Term → ℕ → List Demand
demands p terms need =
    record { device = p.backups.0; free = p.backups.1; amount = length terms * need }
    ∷ record { device = p.disk_base.0; free = p.disk_base.1; amount = need }
    ∷ record { device = p.ram_base.0; free = p.ram_base.1; amount = need }
    ∷ []

unfoldable pub enough_space : List Demand → Bool
enough_space ds = all_fit (per_filesystem ds [])
