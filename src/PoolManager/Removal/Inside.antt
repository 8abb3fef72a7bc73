-- ===== src/PoolManager/Removal/Inside.antt =====
-- Whatever the ingress does between two calls, the removal takes entries away only inside the tree
-- that it was given.
use win_validator.Base.{
  ℕ, zero, suc, ◌≡◌, refl, inl, inr, [], ◌∷◌, Option, none, some, Text, text_eq, text_eq_iff, Dict,
  lookup, text_instance, All, is_empty, Outcome, ok, raised, ◌==◌, arith, Bool-cases, if◌then◌else◌,
}
use win_validator.PoolManager.Removal.{
  Entry, file, link, directory, Heap, Errno, eloop, enotdir, enoent, eisdir, enotempty, other_errno,
  too_deep, World, Kernel, Run, without, drop_entry, tick, and_then, open_at, as_opened, unlinked,
  emptied, unlink, rmdir, after_rmdir, after_open, rm_entry, rm_entries, rm_tree_fd, rm_job_dir,
}

-- The directories of a tree: what one of them names is one of them.
abbrev pub Closed : (ℕ → Type 0) → Heap → Type 0
Closed P h = (d : ℕ) → P d → (n : Text) (e : ℕ) → lookup n (h d) ≡ some (directory e) → P e

pub lookup-without_eq :
    (n m : Text) (d : Dict Text Entry)
    → lookup n (without m d) ≡ (if text_eq n m then none else lookup n d)
lookup-without_eq n m [] = ground arith
lookup-without_eq n m ((j, f) ∷ d) =
    ground (arith, text_eq_iff n m, text_eq_iff j m, text_eq_iff n j, lookup-without_eq n m d)

pub lookup-without :
    (n m : Text) (d : Dict Text Entry) (e : Entry)
    → lookup n (without m d) ≡ some e
    → lookup n d ≡ some e
lookup-without n m d e h = elim (Bool-cases (text_eq n m)) [
  | inl same ↦ cc (rw (lookup-without_eq n m d, same) at h)
  | inr other ↦ rw (lookup-without_eq n m d, other) at h
]

module _ (P : ℕ → Type 0) where
  -- What holds of the state: the tree is closed, and what was taken away was in it.
  abbrev pub Safe : World → Type 0
  Safe w = Closed P w.heap × All (λ (d, n). P d) w.log

  Safe-drop_entry : (d : ℕ) (n : Text) (w : World) → P d → Safe w → Safe (drop_entry d n w)
  Safe-drop_entry d n w inside (closed, logged) = (still, (inside, logged))
    where
      still : Closed P (drop_entry d n w).heap
      still e p m f h = elim (Bool-cases (e == d)) [
        | inl same ↦
            closed d inside m f (lookup-without m n (w.heap d) (directory f) (rw same at h))
        | inr other ↦ closed e p m f (rw other at h)
      ]

  module _ (k : Kernel) (tame : (i : ℕ) (h : Heap) → Closed P h → Closed P (k.others i h)) where
    Safe-tick : (w : World) → Safe w → Safe (tick k w)
    Safe-tick w (closed, logged) = (tame w.clock w.heap closed, logged)

    -- A call is safe: from a safe state it leads to a safe one.
    abbrev pub SafeRun : Run (Unit {0}) → Type 0
    SafeRun r = (w : World) → Safe w → Safe (r w).1

    Safe-unlink : (fd : ℕ) (n : Text) → P fd → SafeRun (unlink k fd n)
    unfolding unlink
    Safe-unlink fd n inside w safe = elim (Bool-cases (k.fails w.clock)) [
      | inl fails ↦ rw (unlink, fails) (Safe-tick w safe)
      | inr runs ↦ rw (unlink, runs) (by_entry (lookup n ((tick k w).heap fd)))
    ]
      where
        by_entry : (e : Option Entry) → Safe (unlinked k fd n (tick k w) e).1
        by_entry none = Safe-tick w safe
        by_entry (some (directory e)) = Safe-tick w safe
        by_entry (some file) = Safe-drop_entry fd n (tick k w) inside (Safe-tick w safe)
        by_entry (some (link _)) = Safe-drop_entry fd n (tick k w) inside (Safe-tick w safe)

    Safe-rmdir : (fd : ℕ) (n : Text) → P fd → SafeRun (rmdir k fd n)
    unfolding rmdir
    Safe-rmdir fd n inside w safe = elim (Bool-cases (k.fails w.clock)) [
      | inl fails ↦ rw (rmdir, fails) (Safe-tick w safe)
      | inr runs ↦ rw (rmdir, runs) (by_entry (lookup n ((tick k w).heap fd)))
    ]
      where
        by_entry : (e : Option Entry) → Safe (emptied k fd n (tick k w) e).1
        by_entry none = Safe-tick w safe
        by_entry (some file) = Safe-tick w safe
        by_entry (some (link _)) = Safe-tick w safe
        by_entry (some (directory e)) = elim (Bool-cases (is_empty ((tick k w).heap e))) [
          | inl empty ↦ rw empty (Safe-drop_entry fd n (tick k w) inside (Safe-tick w safe))
          | inr full ↦ rw full (Safe-tick w safe)
        ]

    Safe-after_rmdir :
        (fd : ℕ) (n : Text) (r : Outcome Errno (Unit {0})) (w : World)
        → P fd
        → Safe w
        → Safe (after_rmdir k fd n (r, w)).1
    Safe-after_rmdir fd n (ok _) w inside safe = safe
    Safe-after_rmdir fd n (raised enotdir) w inside safe = Safe-unlink fd n inside w safe
    Safe-after_rmdir fd n (raised eloop) w inside safe = safe
    Safe-after_rmdir fd n (raised enoent) w inside safe = safe
    Safe-after_rmdir fd n (raised eisdir) w inside safe = safe
    Safe-after_rmdir fd n (raised enotempty) w inside safe = safe
    Safe-after_rmdir fd n (raised other_errno) w inside safe = safe
    Safe-after_rmdir fd n (raised too_deep) w inside safe = safe

    Safe-and_then :
        {A : Type 0} (r : Outcome Errno A) (w : World) (rest : A → Run (Unit {0}))
        → Safe w
        → ((a : A) → r ≡ ok a → SafeRun (rest a))
        → Safe (and_then (r, w) rest).1
    Safe-and_then (raised e) w rest safe h = safe
    Safe-and_then (ok a) w rest safe h = h a refl w safe

    as_opened-directory :
        (e : Option Entry) (inner : ℕ) → as_opened k e ≡ ok inner → e ≡ some (directory inner)
    as_opened-directory none inner h = cc
    as_opened-directory (some file) inner h = cc
    as_opened-directory (some (link _)) inner h = cc
    as_opened-directory (some (directory e)) inner h = cc

    -- A directory that an open gives is in the tree.
    open_at-inside :
        (fd : ℕ) (n : Text) (w : World) (inner : ℕ)
        → P fd
        → Safe w
        → (open_at k fd n w).0 ≡ ok inner
        → P inner
    unfolding open_at
    open_at-inside fd n w inner inside safe h = elim (Bool-cases (k.fails w.clock)) [
      | inl fails ↦ cc (rw (open_at, fails) at h)
      | inr runs ↦
          let found =
            as_opened-directory (lookup n ((tick k w).heap fd)) inner (rw (open_at, runs) at h) in
          (Safe-tick w safe).0 fd inside n inner found
    ]

    Safe-open_at : (fd : ℕ) (n : Text) (w : World) → Safe w → Safe (open_at k fd n w).1
    unfolding open_at
    Safe-open_at fd n w safe = elim (Bool-cases (k.fails w.clock)) [
      | inl fails ↦ rw (open_at, fails) (Safe-tick w safe)
      | inr runs ↦ rw (open_at, runs) (Safe-tick w safe)
    ]

    module _ (sub : ℕ → Run (Unit {0})) (sub_safe : (d : ℕ) → P d → SafeRun (sub d)) where
      Safe-after_open :
          (fd : ℕ) (n : Text) (r : Outcome Errno ℕ) (w : World)
          → P fd
          → Safe w
          → ((inner : ℕ) → r ≡ ok inner → P inner)
          → Safe (after_open k sub fd n (r, w)).1
      Safe-after_open fd n (ok inner) w inside safe h =
          let (r, v) = sub inner w in
          Safe-and_then r v (λ _ v. after_rmdir k fd n (rmdir k fd n v))
            (sub_safe inner (h inner refl) w safe)
            λ _ went u u_safe.
              let (q, x) = rmdir k fd n u in
              Safe-after_rmdir fd n q x inside (Safe-rmdir fd n inside u u_safe)
      Safe-after_open fd n (raised eloop) w inside safe h = Safe-unlink fd n inside w safe
      Safe-after_open fd n (raised enotdir) w inside safe h = Safe-unlink fd n inside w safe
      Safe-after_open fd n (raised enoent) w inside safe h = safe
      Safe-after_open fd n (raised eisdir) w inside safe h = safe
      Safe-after_open fd n (raised enotempty) w inside safe h = safe
      Safe-after_open fd n (raised other_errno) w inside safe h = safe
      Safe-after_open fd n (raised too_deep) w inside safe h = safe

      Safe-rm_entry : (fd : ℕ) (n : Text) (e : Entry) → P fd → SafeRun (rm_entry k sub fd n e)
      unfolding rm_entry
      Safe-rm_entry fd n file inside w safe = Safe-unlink fd n inside w safe
      Safe-rm_entry fd n (link t) inside w safe = Safe-unlink fd n inside w safe
      Safe-rm_entry fd n (directory e) inside w safe =
          let (r, v) = open_at k fd n w in
          Safe-after_open fd n r v inside (Safe-open_at fd n w safe)
            λ inner opened. open_at-inside fd n w inner inside safe opened

      Safe-rm_entries : (fd : ℕ) (es : Dict Text Entry) → P fd → SafeRun (rm_entries k sub fd es)
      unfolding rm_entries
      Safe-rm_entries fd [] inside w safe = safe
      Safe-rm_entries fd ((n, e) ∷ es) inside w safe =
          let (r, v) = rm_entry k sub fd n e w in
          Safe-and_then r v (λ _. rm_entries k sub fd es) (Safe-rm_entry fd n e inside w safe)
            λ _ went. Safe-rm_entries fd es inside

    Safe-rm_tree_fd : (depth fd : ℕ) → P fd → SafeRun (rm_tree_fd k depth fd)
    unfolding rm_tree_fd
    Safe-rm_tree_fd zero fd inside w safe = safe
    Safe-rm_tree_fd (suc depth) fd inside w safe =
        Safe-rm_entries (rm_tree_fd k depth) (Safe-rm_tree_fd depth) fd ((tick k w).heap fd) inside
          (tick k w) (Safe-tick w safe)

    Safe-rm_job_dir :
        (depth parent : ℕ) (n : Text) → P parent → SafeRun (rm_job_dir k depth parent n)
    unfolding rm_job_dir
    Safe-rm_job_dir depth parent n inside w safe =
        let (r, v) = open_at k parent n w in
        Safe-and_then r v _ (Safe-open_at parent n w safe) λ fd opened u u_safe.
          let (q, x) = rm_tree_fd k depth fd u in
          Safe-and_then q x (λ _. rmdir k parent n)
            (Safe-rm_tree_fd depth fd (open_at-inside parent n w fd inside safe opened) u u_safe)
            λ _ went. Safe-rmdir parent n inside

abbrev pub begun : Heap → World
begun h = record { heap = h; clock = 0; log = [] }

-- Whatever the ingress does between two calls, as long as it brings no directory from outside a set of
-- directories into one of that set, and whatever fails: the removal of a job's directory below a parent
-- of the set takes away only entries that stand in directories of the set.
pub rm_job_dir_inside :
    (P : ℕ → Type 0) (k : Kernel)
    → ((i : ℕ) (h : Heap) → Closed P h → Closed P (k.others i h))
    → (depth parent : ℕ) (n : Text) (h : Heap) → Closed P h
    → P parent
    → All (λ (d, m). P d) (rm_job_dir k depth parent n (begun h)).1.log
rm_job_dir_inside P k tame depth parent n h closed inside =
    (Safe-rm_job_dir P k tame depth parent n inside (begun h) (closed, tt)).1
