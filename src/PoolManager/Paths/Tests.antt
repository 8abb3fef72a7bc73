-- ===== src/PoolManager/Paths/Tests.antt =====
-- Runs of the path functions, and their theorems at a concrete tree.
use win_validator.Base.{
  zero, suc, ◌≡◌, ◌≢◌, ◌⊎◌, refl, List, [], ◌∷◌, ◌++◌, some, Text, codes, ok, raised, All,
}
use win_validator.PoolManager.Paths.{
  path_name, abspath, rel_parts, escapes, not_opened, directory, link, FileSystem, open_under,
}
use win_validator.PoolManager.Paths.Lexical.{IsPlain, rel_parts-IsPlain}
use win_validator.PoolManager.Paths.Walk.{
  IsChain, Balanced, open_under-IsChain, open_under-Balanced,
}

name_of_slash : path_name (codes "/a/b/./") ≡ codes "b"
unfolding path_name
name_of_slash = refl

abbrev job_root : List Text
job_root = codes "srv" ∷ codes "jobs" ∷ []

abbrev cwd : List Text
cwd = codes "srv" ∷ []

inside : rel_parts cwd job_root job_root (codes "jobs/x/../7f") ≡ ok (codes "7f" ∷ [])
unfolding rel_parts
inside = refl

outside : rel_parts cwd job_root job_root (codes "/srv/jobs/7f/../../work") ≡ raised escapes
unfolding rel_parts
outside = refl

rel_parts-IsPlain_example :
    (◌≢◌ {A = List Text} (codes "7f" ∷ []) [])
    × All IsPlain (codes "7f" ∷ [])
    × ((abspath cwd (codes "jobs/x/../7f") ≡ job_root ++ codes "7f" ∷ [])
        ⊎ (abspath cwd (codes "jobs/x/../7f") ≡ job_root ++ codes "7f" ∷ []))
rel_parts-IsPlain_example =
    rel_parts-IsPlain cwd job_root job_root (codes "jobs/x/../7f") ((refl, refl, refl, refl), tt)
      inside

-- Inode 0 is the root, 1 a job, 2 its input; "evil" is a link.
abbrev tree : FileSystem
tree zero = some (directory ((codes "7f", 1) ∷ (codes "evil", 3) ∷ []))
tree (suc zero) = some (directory ((codes "input", 2) ∷ []))
tree (suc (suc zero)) = some (directory [])
tree (suc (suc (suc _))) = some (link (codes "/etc"))

link_refused : (open_under (λ _. tree) (ok 0) (codes "evil" ∷ [])).0 ≡ raised not_opened
unfolding open_under
link_refused = refl

found : (open_under (λ _. tree) (ok 0) (codes "7f" ∷ codes "input" ∷ [])).0 ≡ ok 2
unfolding open_under
found = refl

open_under-IsChain_example : IsChain (λ _. tree) 0 0 (codes "7f" ∷ codes "input" ∷ []) 2
open_under-IsChain_example =
    open_under-IsChain (λ _. tree) 0 (codes "7f" ∷ codes "input" ∷ []) found

open_under-Balanced_example :
    Balanced 0 (open_under (λ _. tree) (ok 0) (codes "7f" ∷ codes "gone" ∷ []))
open_under-Balanced_example =
    open_under-Balanced (λ _. tree) (ok 0) (codes "7f" ∷ codes "gone" ∷ [])
