-- ===== src/PoolManager/Paths/Walk.antt =====
-- `_open_under` while the ingress changes the tree: what a descriptor that it returns names, and
-- which descriptors it leaves open.
use win_validator.Base.{
  ℕ, suc, ◌+◌, ◌≡◌, refl, subst, ◌∙◌, List, [], ◌∷◌, Option, none, some, Text, Outcome, ok, raised,
  mem_code, arith, Bool-cases, Option-cases, Outcome-cases, inl, inr,
}
use win_validator.PoolManager.Paths.{
  PathError, Node, directory, regular, link, special, FileSystem, child, target_directory,
  open_directory, FdEvent, opened, closed, walk_under, open_under,
}

abbrev pub IsDirectory : Option Node → Type 0
IsDirectory (some (directory _)) = Unit
IsDirectory (some (regular _ _)) = ⊥
IsDirectory (some (link _)) = ⊥
IsDirectory (some special) = ⊥
IsDirectory none = ⊥

-- From `fd` to `i`, each part is at the moment of its own open an entry of the directory reached so
-- far, and names a directory, never a link.
abbrev pub IsChain : (ℕ → FileSystem) → ℕ → ℕ → List Text → ℕ → Type 0
IsChain world n fd [] i = fd ≡ i
IsChain world n fd (part ∷ parts) i =
    (next : ℕ) × (child (world n fd) part ≡ some next)
    × IsDirectory (world n next)
    × IsChain world (suc n) next parts i

target_directory-IsDirectory :
    (node : Option Node) (i : ℕ) {j : ℕ}
    → target_directory node (some i) ≡ some j
    → IsDirectory node × (i ≡ j)
target_directory-IsDirectory (some (directory es)) i h = ground arith
target_directory-IsDirectory (some (regular _ _)) i h = cc
target_directory-IsDirectory (some (link _)) i h = cc
target_directory-IsDirectory (some special) i h = cc
target_directory-IsDirectory none i h = cc

open_directory-eq-ok :
    (fs : FileSystem) (dir : ℕ) (name : Text) {next : ℕ}
    → open_directory fs dir name ≡ ok next
    → (child (fs dir) name ≡ some next) × IsDirectory (fs next)
unfolding open_directory
open_directory-eq-ok fs dir name {next = next} h = elim (Bool-cases (mem_code 0 name)) [
  | inl nul ↦ cc (rw (open_directory, nul) at h)
  | inr fine ↦ elim (Option-cases (child (fs dir) name)) [
    | inl missing ↦ cc (rw (open_directory, fine, missing) at h)
    | inr (i, found) ↦ elim (Option-cases (target_directory (fs i) (some i))) [
      | inl other ↦ cc (rw (open_directory, fine, found, other) at h)
      | inr (j, dir_found) ↦
          let (is_dir, same) = target_directory-IsDirectory (fs i) i dir_found in
          let reached : j ≡ next = cc (rw (open_directory, fine, found, dir_found) at h) in
          (cc, subst (λ k. IsDirectory (fs k)) (same ∙ reached) is_dir)
    ]
  ]
]

abbrev pub count_opened : List FdEvent → ℕ
count_opened [] = 0
count_opened (opened _ ∷ es) = suc (count_opened es)
count_opened (closed _ ∷ es) = count_opened es

abbrev pub count_closed : List FdEvent → ℕ
count_closed [] = 0
count_closed (opened _ ∷ es) = count_closed es
count_closed (closed _ ∷ es) = suc (count_closed es)

-- Of the descriptors opened, the result's alone is left open.
abbrev pub Balanced : ℕ → Outcome PathError ℕ × List FdEvent → Type 0
Balanced before (ok i, es) = before + count_opened es ≡ suc (count_closed es)
Balanced before (raised e, es) = before + count_opened es ≡ count_closed es

Balanced-step :
    (next fd : ℕ) (r : Outcome PathError ℕ) (es : List FdEvent)
    → Balanced 1 (r, es)
    → Balanced 1 (r, opened next ∷ closed fd ∷ es)
Balanced-step next fd (ok i) es h = omega (arith, h)
Balanced-step next fd (raised e) es h = omega (arith, h)

walk_under-Balanced :
    (world : ℕ → FileSystem) (n fd : ℕ) (parts : List Text)
    → Balanced 1 (walk_under world n fd parts)
unfolding walk_under
walk_under-Balanced world n fd [] = refl
walk_under-Balanced world n fd (part ∷ parts) =
    elim (Outcome-cases (open_directory (world n) fd part)) [
      | inl (next, e) ↦
          let (r, es) = walk_under world (suc n) next parts in
          rw (walk_under, e)
            (Balanced-step next fd r es (walk_under-Balanced world (suc n) next parts))
      | inr (err, e) ↦ rw (walk_under, e) refl
    ]

walk_under-IsChain :
    (world : ℕ → FileSystem) (n fd : ℕ) (parts : List Text) {i : ℕ}
    → (walk_under world n fd parts).0 ≡ ok i
    → IsChain world n fd parts i
unfolding walk_under
walk_under-IsChain world n fd [] h = cc
walk_under-IsChain world n fd (part ∷ parts) h =
    elim (Outcome-cases (open_directory (world n) fd part)) [
      | inl (next, e) ↦
          let (entry, is_dir) = open_directory-eq-ok (world n) fd part e in
          (
            next,
            entry,
            is_dir,
            walk_under-IsChain world (suc n) next parts (rw (walk_under, e) at h),
          )
      | inr (err, e) ↦ cc (rw (walk_under, e) at h)
    ]

-- However the tree changes between two opens: a descriptor that `_open_under` returns was reached
-- from the root by entries that were real directories when they were opened, never through a link
-- in any component.
pub open_under-IsChain :
    (world : ℕ → FileSystem) (root : ℕ) (parts : List Text) {i : ℕ}
    → (open_under world (ok root) parts).0 ≡ ok i
    → IsChain world 0 root parts i
unfolding open_under
open_under-IsChain world root parts h = walk_under-IsChain world 0 root parts h

Balanced-root :
    (root : ℕ) (r : Outcome PathError ℕ) (es : List FdEvent)
    → Balanced 1 (r, es)
    → Balanced 0 (r, opened root ∷ es)
Balanced-root root (ok i) es h = omega (arith, h)
Balanced-root root (raised e) es h = omega (arith, h)

-- `_open_under` leaves one descriptor open when it returns, and none when it raises, however far
-- it had come.
pub open_under-Balanced :
    (world : ℕ → FileSystem) (root : Outcome PathError ℕ) (parts : List Text)
    → Balanced 0 (open_under world root parts)
unfolding open_under
open_under-Balanced world (raised e) parts = refl
open_under-Balanced world (ok root) parts =
    let (r, es) = walk_under world 0 root parts in
    Balanced-root root r es (walk_under-Balanced world 0 root parts)
