-- ===== src/Prune.antt =====
-- golden_rotate.py: `_prune_backups` with `_held_backups`, `_rebake_src_live` and `_mtime`. A folder is
-- the list of its files; a removal that works takes the file off the list. Names are ASCII, without
-- line ends; times are seconds.
pub mod Names
pub mod Order
pub mod Loops
pub mod Ranks
mod Tests
use win_validator.Base.{
  ℕ, zero, suc, ◌-◌, ◌*◌, Bool, true, false, not, ◌&&◌, ◌||◌, List, [], ◌∷◌, ◌++◌, Option, none,
  some, or_else, is_some, Text, codes, text_eq, mem_text, is_empty, starts_with, has_part, is_digit,
  length, take, drop, all, keep, ltb, ◌==◌, if◌then◌else◌,
}

-- `none` is a stat that fails.
pub record File : Type 0 where
  pub name : Text
  pub mtime : Option ℕ

-- What the prune is given: `KEEP_N`, `CANDIDATE_KEEP_DAYS`, the clock, the folders' paths, how a path
-- resolves, which processes run, and where `rm -f` works.
pub record Setting : Type 0 where
  pub keep_n : ℕ
  pub keep_days : ℕ
  pub now : ℕ
  pub backup_dir : Text
  pub mirror_dir : Text
  pub resolve : Text → Text
  pub is_builder : Text → Bool
  pub proc_start : Text → Option Text
  pub removes : Text → Bool

abbrev pub path_in : Text → Text → Text
path_in dir name = dir ++ b'/' ∷ name

-- `s.endswith(p)`
abbrev pub ends_with : Text → Text → Bool
ends_with p [] = is_empty p
ends_with p (c ∷ s) = text_eq p (c ∷ s) || ends_with p s

abbrev pub image_prefix : Text
image_prefix = codes "golden-base."

abbrev pub image_suffix : Text
image_suffix = codes ".qcow2"

-- The globs golden-base.*.qcow2, golden-base.*.qcow2.chain and golden-base.*.qcow2.keep*
abbrev pub is_image : Text → Bool
is_image s = starts_with image_prefix s && ends_with image_suffix (drop 12 s)

abbrev pub is_sidecar : Text → Bool
is_sidecar s = starts_with image_prefix s && ends_with (codes ".qcow2.chain") (drop 12 s)

abbrev pub is_hold : Text → Bool
is_hold s = starts_with image_prefix s && has_part (codes ".qcow2.keep") (drop 12 s)

abbrev pub digits_then : ℕ → (Text → Bool) → Text → Bool
digits_then zero rest s = rest s
digits_then (suc n) rest [] = false
digits_then (suc n) rest (c ∷ s) = is_digit c && digits_then n rest s

abbrev pub hyphen_then : (Text → Bool) → Text → Bool
hyphen_then rest [] = false
hyphen_then rest (c ∷ s) = c == b'-' && rest s

-- `_BACKUP_NAME`: golden-base., eight digits, a hyphen, six digits, .qcow2
abbrev pub is_backup_name : Text → Bool
is_backup_name s =
    starts_with image_prefix s
    && digits_then 8 (hyphen_then (digits_then 6 (text_eq image_suffix))) (drop 12 s)

-- `_mtime(p) or float("inf")` is below the cutoff: a time of 0 counts as none.
abbrev pub is_before : ℕ → Option ℕ → Bool
is_before cutoff none = false
is_before cutoff (some t) = not (t == 0) && ltb t cutoff

-- `s.rsplit(c, 1)[-1]`
abbrev pub after_last : ℕ → Text → Text → Text
after_last c acc [] = acc
after_last c acc (d ∷ s) = after_last c (if d == c then [] else acc ++ d ∷ []) s

abbrev pub all_digits : Text → Bool
all_digits s = not (is_empty s) && all is_digit s

-- The text before and behind the last occurrence of a part.
abbrev before_char : ℕ → Option (Text × Text) → Option (Text × Text)
before_char c none = none
before_char c (some (front, back)) = some (c ∷ front, back)

abbrev pub cut_last : Text → Text → Option (Text × Text)
cut_last p [] = none
cut_last p (c ∷ s) =
    let later = before_char c (cut_last p s) in
    if is_some later
    then later
    else if starts_with p (c ∷ s)
    then some ([], drop (length p) (c ∷ s))
    else none

abbrev pub build_mark : Text
build_mark = codes ".keep.build-"

-- A builder's number and start, behind the mark; the start may be missing.
abbrev pub with_digit : ℕ → Option (Text × Option Text) → Option (Text × Option Text)
with_digit c none = none
with_digit c (some (pid, start)) = some (c ∷ pid, start)

abbrev pub read_builder : Bool → Text → Option (Text × Option Text)
read_builder after [] = if after then some ([], none) else none
read_builder after (c ∷ s) =
    let rest = read_builder true s in
    if is_digit c
    then with_digit c rest
    else if after && c == b'.' && all_digits s
    then some ([], some s)
    else none

-- `_BUILD_HOLD`: the backup, the builder's number and its start.
abbrev pub build_hold_of : Text × Text → Option (Text × Text × Option Text)
build_hold_of (front, back) = elim (read_builder false back) [
  | none ↦ none
  | some (pid, start) ↦ if is_image front then some (front, pid, start) else none
]

unfoldable pub build_hold : Text → Option (Text × Text × Option Text)
build_hold s = elim (cut_last build_mark s) [ none ↦ none | some parts ↦ build_hold_of parts ]

abbrev pub drop_name : Text → List File → List File
drop_name n = keep (λ f. not (text_eq f.name n))

abbrev pub find_file : Text → List File → Option File
find_file n [] = none
find_file n (f ∷ fs) = if text_eq n f.name then some f else find_file n fs

-- `Path.exists`, for which the stat must go through.
abbrev pub exists : Text → List File → Bool
exists n fs = elim (find_file n fs) [ none ↦ false | some f ↦ is_some f.mtime ]

abbrev pub is_candidate : Text → Bool
is_candidate n =
    has_part (codes ".candidate-") n
    || has_part (codes ".built-") n
    || has_part (codes ".rebake-src-") n

abbrev pub is_marker : Text → Bool
is_marker = ends_with (codes ".chain.unrecorded")

module _ (s : Setting) where
  -- `rm -f` of a name in a folder
  abbrev pub remove : Text → Text → List File → List File
  remove dir n fs = if s.removes (path_in dir n) then drop_name n fs else fs

  -- A loop over a listing that removes what a test asks for; the test sees the folder as it is.
  abbrev pub sweep : Text → (List File → File → Bool) → List File → List File → List File
  sweep dir test [] now = now
  sweep dir test (f ∷ fs) now =
      sweep dir test fs (if test now f then remove dir f.name now else now)

  -- `_rebake_src_live`
  unfoldable pub rebake_src_live : Text → Bool
  rebake_src_live n =
      let pid = after_last b'-' [] (take (length n - 6) n) in
      has_part (codes ".rebake-src-") n && all_digits pid && s.is_builder pid

  abbrev is_start : Option Text → Text → Bool
  is_start none start = false
  is_start (some t) start = text_eq t start

  -- A build's hold counts while that builder runs; one without a start never does.
  abbrev pub is_running : Text → Option Text → Bool
  is_running pid none = false
  is_running pid (some start) = s.is_builder pid && is_start (s.proc_start pid) start

  abbrev pub resolved : Text → Text
  resolved n = s.resolve (path_in s.backup_dir n)

  -- What one sidecar holds, and whether it is a stale build hold.
  abbrev pub held_by : Text → List Text
  unfolding build_hold
  held_by n =
      if ends_with (codes ".keep") n
      then resolved (take (length n - 5) n) ∷ []
      else elim (build_hold n) [
        | none ↦ []
        | some (backup, pid, start) ↦ if is_running pid start then resolved backup ∷ [] else []
      ]

  abbrev pub is_stale_hold : Text → Bool
  unfolding build_hold
  is_stale_hold n = not (ends_with (codes ".keep") n) && elim (build_hold n) [
    | none ↦ false
    | some (backup, pid, start) ↦ not (is_running pid start)
  ]

  abbrev pub held_in : List File → List Text
  held_in [] = []
  held_in (f ∷ fs) = if is_hold f.name then held_by f.name ++ held_in fs else held_in fs

  abbrev pub without_stale : Text → List File → List File
  without_stale dir fs = sweep dir (λ _ f. is_stale_hold f.name) (keep (λ f. is_hold f.name) fs) fs

  -- `_held_backups`: what is held, and both folders without the stale holds.
  unfoldable pub held_backups : List File → List File → List Text × List File × List File
  held_backups backups mirror = (
    held_in backups ++ held_in mirror,
    without_stale s.backup_dir backups,
    without_stale s.mirror_dir mirror,
  )

  abbrev pub named : Option Text → List Text → List Text
  named none rest = rest
  named (some p) rest = if is_empty p then rest else s.resolve p ∷ rest

  abbrev pub named_pair : Option Text → List Text → List Text
  named_pair none rest = rest
  named_pair (some p) rest =
      if is_empty p then rest else s.resolve p ∷ (s.resolve p ++ codes ".chain") ∷ rest

  abbrev pub is_kept : List Text → Text → Bool
  is_kept keep_paths n = mem_text (resolved n) keep_paths

  abbrev pub is_stale_candidate : List Text → File → Bool
  unfolding rebake_src_live
  is_stale_candidate kept f =
      not (is_kept kept f.name)
      && is_candidate f.name
      && is_before (s.now - s.keep_days * 86400) f.mtime
      && not (rebake_src_live f.name)

  abbrev pub is_stale_sidecar : List Text → List File → File → Bool
  is_stale_sidecar kept now f =
      not (is_kept kept f.name)
      && not (exists (take (length f.name - 6) f.name) now)
      && is_before (s.now - 3600) f.mtime

  abbrev pub is_stale_marker : ℕ → File → Bool
  is_stale_marker rec_t f =
      is_before (if ltb rec_t (s.now - 3600) then rec_t else s.now - 3600) f.mtime

  -- Each loop in turn, over what its glob lists.
  abbrev pub prune_candidates : List Text → List File → List File
  prune_candidates kept fs =
      sweep s.backup_dir (λ _. is_stale_candidate kept) (keep (λ f. is_image f.name) fs) fs

  abbrev pub prune_sidecars : List Text → List File → List File
  prune_sidecars kept fs =
      sweep s.backup_dir (is_stale_sidecar kept) (keep (λ f. is_sidecar f.name) fs) fs

  abbrev pub prune_markers : Option ℕ → List File → List File
  prune_markers none fs = fs
  prune_markers (some rec_t) fs =
      sweep s.backup_dir (λ _. is_stale_marker rec_t) (keep (λ f. is_marker f.name) fs) fs

-- The order of names, by code points.
abbrev pub text_lt : Text → Text → Bool
text_lt [] [] = false
text_lt [] (b ∷ t) = true
text_lt (a ∷ s) [] = false
text_lt (a ∷ s) (b ∷ t) = ltb a b || (a == b && text_lt s t)

-- The sort's key is `(_mtime(b) or 0.0, b.name)`.
abbrev pub sort_time : File → ℕ
sort_time f = or_else f.mtime 0

abbrev pub precedes : File → File → Bool
precedes f g =
    ltb (sort_time f) (sort_time g) || (sort_time f == sort_time g && text_lt f.name g.name)

abbrev pub insert_file : File → List File → List File
insert_file f [] = f ∷ []
insert_file f (g ∷ gs) = if precedes g f then g ∷ insert_file f gs else f ∷ g ∷ gs

abbrev pub sort_files : List File → List File
sort_files [] = []
sort_files (f ∷ fs) = insert_file f (sort_files fs)

abbrev pub backups_in : List File → List File
backups_in = keep (λ f. is_image f.name && is_backup_name f.name)

-- `baks[:-KEEP_N] if KEEP_N > 0 else baks`
abbrev pub excess : ℕ → List File → List File
excess n baks = if ltb 0 n then take (length baks - n) baks else baks

module _ (s : Setting) where
  abbrev pub prune_old : List Text → List File → List File
  prune_old kept fs =
      sweep s s.backup_dir (λ _ f. not (is_kept s kept f.name))
        (excess s.keep_n (sort_files (backups_in fs))) fs

  -- Everything behind the set of what is kept.
  unfoldable pub prune_all : Option ℕ → List Text → List File → List File
  prune_all rec_t kept fs =
      prune_old kept (prune_markers s rec_t (prune_sidecars s kept (prune_candidates s kept fs)))

  -- What is kept: the candidate with its sidecar, the backup that a split state names, the holds.
  abbrev pub keep_paths : Option Text → Option Text → List Text → List Text
  keep_paths candidate also_keep held = named_pair s candidate (named s also_keep held)

  -- `_prune_backups`: both folders behind it.
  unfoldable pub prune_backups :
      Option ℕ → Option Text → Option Text → List File → List File → List File × List File
  unfolding held_backups prune_all
  prune_backups rec_t candidate also_keep backups mirror =
      let (held, left, mirror_left) = held_backups s backups mirror in
      (prune_all rec_t (keep_paths candidate also_keep held) left, mirror_left)
