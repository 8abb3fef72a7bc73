-- ===== src/PoolManager/Removal/Tests.antt =====
-- The removal of a job's directory with a subdirectory that is swapped for a link, and its theorems.
use win_validator.Base.{
  ℕ, ◌-◌, ◌≡◌, refl, sym, subst, inl, inr, ==_iff, Bool-cases, text_eq, false, [], ◌∷◌, Option,
  some, Text, codes, Dict, lookup, text_instance, All, ok, ◌==◌, if◌then◌else◌, arith, ◌<◌,
}
use win_validator.PoolManager.Removal.{
  Entry, file, link, directory, Heap, Kernel, without, open_at, unlink, rmdir, rm_entry, rm_entries,
  rm_tree_fd, rm_job_dir,
}
use win_validator.PoolManager.Removal.Inside.{Closed, begun, rm_job_dir_inside}
use win_validator.PoolManager.Removal.Quiet.{quiet, IsTree, Names, rm_job_dir_removes}

-- The job root is 1, the job's directory 2, its subdirectory 3; 9 is a directory of the host.
abbrev host : Heap
host d =
    if d == 1
    then (codes "job", directory 2) ∷ []
    else if d == 2
    then (codes "input", directory 3) ∷ (codes "note", file) ∷ []
    else if d == 3
    then (codes "sample", file) ∷ []
    else if d == 9
    then (codes "passwd", file) ∷ []
    else []

abbrev swapped : Heap
swapped d = if d == 2 then (codes "input", link 9) ∷ (codes "note", file) ∷ [] else host d

-- The ingress swaps the subdirectory for a link between the listing and the open.
abbrev swapping : Kernel
swapping = record { others = λ i h. if i == 2 then swapped else h; fails = λ i. false }

rm_job_dir_runs :
    (rm_job_dir swapping 5 1 (codes "job") (begun host)).1.log
    ≡ (1, codes "job") ∷ (2, codes "note") ∷ (2, codes "input") ∷ []
unfolding rm_job_dir rm_tree_fd rm_entries rm_entry open_at unlink rmdir
rm_job_dir_runs = refl

abbrev Below : ℕ → Type 0
Below d = d < 4

-- The directories that a listing names, and those of the three listings that matter.
abbrev NamesOnly : (ℕ → Type 0) → Dict Text Entry → Type 0
NamesOnly P [] = Unit
NamesOnly P ((n, directory e) ∷ es) = P e × NamesOnly P es
NamesOnly P ((n, file) ∷ es) = NamesOnly P es
NamesOnly P ((n, link _) ∷ es) = NamesOnly P es

found_one :
    (P : ℕ → Type 0) (n : Text) (e : ℕ) (es : Dict Text Entry)
    → NamesOnly P es
    → lookup n es ≡ some (directory e)
    → P e
found_one P n e [] h found = cc
found_one P n e ((m, x) ∷ es) h found = elim (Bool-cases (text_eq n m)) [
  | inr other ↦ found_one P n e es (later_names x h) (rw other at found)
  | inl here ↦ first x h (rw here at found)
]
  where
    later_names : (x : Entry) → NamesOnly P ((m, x) ∷ es) → NamesOnly P es
    later_names file h = h
    later_names (link _) h = h
    later_names (directory k) (p, h) = h

    first :
        (x : Entry)
        → NamesOnly P ((m, x) ∷ es)
        → ◌≡◌ {A = Option Entry} (some x) (some (directory e))
        → P e
    first file h found = cc
    first (link _) h found = cc
    first (directory k) (p, h) found = let same : k ≡ e = cc in subst P same p

abbrev level : ℕ → ℕ
level d = 4 - d

-- What a directory of the host names, by its number.
by_number :
    (P : ℕ → Dict Text Entry → Type 0) (d : ℕ)
    → P 1 (host 1)
    → P 2 (host 2)
    → P 3 (host 3)
    → P 9 (host 9)
    → ((e : ℕ) → P e [])
    → P d (host d)
by_number P d one two three nine rest = elim (Bool-cases (d == 1)) [
  | inl e ↦ subst (λ d. P d (host d)) (sym ((==_iff d 1).0 e)) one
  | inr not_1 ↦ elim (Bool-cases (d == 2)) [
    | inl e ↦ subst (λ d. P d (host d)) (sym ((==_iff d 2).0 e)) two
    | inr not_2 ↦ elim (Bool-cases (d == 3)) [
      | inl e ↦ subst (λ d. P d (host d)) (sym ((==_iff d 3).0 e)) three
      | inr not_3 ↦ elim (Bool-cases (d == 9)) [
        | inl e ↦ subst (λ d. P d (host d)) (sym ((==_iff d 9).0 e)) nine
        | inr not_9 ↦ rw (not_1, not_2, not_3, not_9) (rest d)
      ]
    ]
  ]
]

host-Closed : Closed Below host
host-Closed d p n e found =
    found_one Below n e (host d)
      (by_number (λ d es. NamesOnly Below es) d (omega arith, tt) (omega arith, tt) tt tt (λ e. tt))
      found

swapped-Closed : Closed Below swapped
swapped-Closed d p n e found = elim (Bool-cases (d == 2)) [
  | inl two ↦
      found_one Below n e (swapped 2) tt
        (subst (λ d. lookup n (swapped d) ≡ some (directory e)) ((==_iff d 2).0 two) found)
  | inr other ↦
      let same : swapped d ≡ host d = rw other refl in
      host-Closed d p n e (subst (λ es. lookup n es ≡ some (directory e)) same found)
]

swapping_tame : (i : ℕ) (h : Heap) → Closed Below h → Closed Below (swapping.others i h)
swapping_tame i h closed = elim (Bool-cases (i == 2)) [
  | inl now ↦ rw now swapped-Closed
  | inr other ↦ rw other closed
]

rm_job_dir_inside_example :
    All (λ (d, m). Below d) (rm_job_dir swapping 5 1 (codes "job") (begun host)).1.log
rm_job_dir_inside_example =
    rm_job_dir_inside Below swapping swapping_tame 5 1 (codes "job") host host-Closed (omega arith)

host-IsTree : IsTree level host
host-IsTree = record {
  below = λ d n e found.
      found_one (λ e. level e < level d) n e (host d)
        (by_number (λ d es. NamesOnly (λ e. level e < level d) es) d (omega arith, tt)
          (omega arith, tt) tt tt (λ e. tt))
        found;
  names = λ d.
      by_number (λ d es. Names es) d (refl, tt) (refl, (refl, tt)) (refl, tt) (refl, tt) (λ e. tt);
}

rm_job_dir_removes_example :
    let (r, w) = rm_job_dir quiet 5 1 (codes "job") (begun host) in
    (r ≡ ok tt) × (w.heap 2 ≡ []) × (w.heap 1 ≡ without (codes "job") (host 1))
rm_job_dir_removes_example =
    rm_job_dir_removes level 5 1 2 (codes "job") host host-IsTree refl (omega arith)
