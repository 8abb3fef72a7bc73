-- ===== src/PoolManager/Paths.antt =====
-- `_rel_parts` and `_open_under`, and `Path(...).name`: how the manager reaches a directory that the
-- ingress named. Paths are texts; the working directory and the root are given by their components.
pub mod Lexical
pub mod Walk
mod Tests
use win_validator.Base.{
  ℕ, zero, suc, ◌+◌, Bool, true, false, not, ◌&&◌, ◌||◌, List, [], ◌∷◌, ◌++◌, Option, none, some,
  or_else, Text, codes, Outcome, ok, raised, text_eq, mem_code, mem_text, is_empty, last?, ◌==◌,
  Dict, lookup, text_instance, if◌then◌else◌, starts_with, reverse,
}

-- `path.split("/")` without the empty components.
abbrev components_from : Text → Text → List Text
components_from word [] = if is_empty word then [] else word ∷ []
components_from word (c ∷ s) =
    let rest = components_from (if c == b'/' then [] else word ++ c ∷ []) s in
    if c == b'/' && not (is_empty word) then word ∷ rest else rest

abbrev pub components : Text → List Text
components = components_from []

abbrev pub is_dot : Text → Bool
is_dot w = text_eq w (codes ".")

abbrev pub is_dotdot : Text → Bool
is_dotdot w = text_eq w (codes "..")

-- The components of a pathlib path: "." is dropped, ".." is not.
abbrev pub pure_parts : List Text → List Text
pure_parts [] = []
pure_parts (w ∷ ws) = if is_dot w then pure_parts ws else w ∷ pure_parts ws

-- `Path(p).name`
unfoldable pub path_name : Text → Text
path_name p = or_else (last? (pure_parts (components p))) []

abbrev pub drop_one : List Text → List Text
drop_one [] = []
drop_one (w ∷ ws) = ws

-- `os.path.abspath`: what stands, innermost first, and the components that follow.
unfoldable pub normalise : List Text → List Text → List Text
normalise stack [] = reverse stack
normalise stack (w ∷ ws) =
    normalise (if is_dot w then stack else if is_dotdot w then drop_one stack else w ∷ stack) ws

abbrev is_absolute : Text → Bool
is_absolute p = starts_with (codes "/") p

unfoldable pub abspath : List Text → Text → List Text
unfolding normalise
abspath cwd p = normalise (if is_absolute p then [] else reverse cwd) (components p)

-- What stands behind `base` in `p`, if `p` is `base` or lies below it.
unfoldable pub relative_to : List Text → List Text → Option (List Text)
relative_to [] p = some p
relative_to (b ∷ bs) [] = none
relative_to (b ∷ bs) (w ∷ ws) = let rest = relative_to bs ws in if text_eq b w then rest else none

pub data PathError : Type 0 where
  is_root escapes not_opened nul_in_name : PathError

abbrev non_empty : List Text → Outcome PathError (List Text)
non_empty [] = raised is_root
non_empty (w ∷ ws) = ok (w ∷ ws)

-- A path with exactly two leading slashes keeps both, and lies below no root with one.
abbrev pub is_double_rooted : Text → Bool
is_double_rooted p = starts_with (codes "//") p && not (starts_with (codes "///") p)

-- `_rel_parts`, under the root as it is written and as it resolves.
unfoldable pub rel_parts : List Text → List Text → List Text → Text → Outcome PathError (List Text)
unfolding abspath relative_to
rel_parts cwd root resolved p =
    if is_double_rooted p then raised escapes else elim (relative_to root (abspath cwd p)) [
      | some parts ↦ non_empty parts
      | none ↦ elim (relative_to resolved (abspath cwd p)) [
        | some parts ↦ non_empty parts
        | none ↦ raised escapes
      ]
    ]

-- Inodes: a directory maps names to inode numbers.
pub data Node : Type 0 where
  directory : Dict Text ℕ → Node
  regular : (size links : ℕ) → Node
  link : Text → Node
  special : Node

abbrev pub FileSystem : Type 0
FileSystem = ℕ → Option Node

abbrev target_directory : Option Node → Option ℕ → Option ℕ
target_directory (some (directory _)) i = i
target_directory (some (regular _ _)) i = none
target_directory (some (link _)) i = none
target_directory (some special) i = none
target_directory none i = none

abbrev pub child : Option Node → Text → Option ℕ
child (some (directory entries)) name = lookup name entries
child (some (regular _ _)) name = none
child (some (link _)) name = none
child (some special) name = none
child none name = none

-- `os.open(name, O_RDONLY | O_DIRECTORY | O_NOFOLLOW, dir_fd=dir)`: a directory, or an error.
unfoldable pub open_directory : FileSystem → ℕ → Text → Outcome PathError ℕ
open_directory fs dir name =
    if mem_code 0 name then raised nul_in_name else elim (child (fs dir) name) [
      | none ↦ raised not_opened
      | some i ↦ elim (target_directory (fs i) (some i)) [
        | none ↦ raised not_opened
        | some j ↦ ok j
      ]
    ]

-- Descriptors that are opened and closed, in order.
pub data FdEvent : Type 0 where
  opened closed : ℕ → FdEvent

-- The walk of `_open_under` from a descriptor; other processes change the file system between two
-- opens, so each open sees its own: `world n` at the n-th.
unfoldable pub walk_under :
    (ℕ → FileSystem) → ℕ → ℕ → List Text → Outcome PathError ℕ × List FdEvent
unfolding open_directory
walk_under world n fd [] = (ok fd, [])
walk_under world n fd (part ∷ parts) = elim (open_directory (world n) fd part) [
  | raised e ↦ (raised e, closed fd ∷ [])
  | ok next ↦
      let (r, events) = walk_under world (suc n) next parts in (r, opened next ∷ closed fd ∷ events)
]

-- `_open_under`: `root` is what opening the root gave.
unfoldable pub open_under :
    (ℕ → FileSystem) → Outcome PathError ℕ → List Text → Outcome PathError ℕ × List FdEvent
unfolding walk_under
open_under world (raised e) parts = (raised e, [])
open_under world (ok root) parts =
    let (r, events) = walk_under world 0 root parts in (r, opened root ∷ events)
