-- ===== src/PoolManager/Removal.antt =====
-- `_rm_tree_fd` and `_rm_job_dir` on a file system that the ingress changes between two calls. A
-- directory is a number (an inode); its entries are files, links (to a directory) and directories. Each call first lets
-- the others move; `fails` are the calls that fail for a reason of their own. The recursion's depth is
-- Python's bound on it. The log lists what the removal took away, by directory and name.
pub mod Inside
pub mod Quiet
mod Tests
use win_validator.Base.{
  ℕ, zero, suc, ◌≡◌, Bool, true, false, not, List, [], ◌∷◌, Option, none, some, Text, text_eq, Dict,
  lookup, text_instance, keep, is_empty, ◌==◌, Outcome, ok, raised, if◌then◌else◌,
}

pub data Entry : Type 0 where
  file : Entry
  link : (target : ℕ) → Entry
  directory : (inode : ℕ) → Entry

abbrev pub Heap : Type 0
Heap = ℕ → Dict Text Entry

-- ELOOP, ENOTDIR, ENOENT, EISDIR, ENOTEMPTY, another errno, and RecursionError
pub data Errno : Type 0 where
  eloop enotdir enoent eisdir enotempty other_errno too_deep : Errno

pub record World : Type 0 where
  pub heap : Heap
  pub clock : ℕ
  pub log : List (ℕ × Text)

pub record Kernel : Type 0 where
  pub others : ℕ → Heap → Heap
  pub fails : ℕ → Bool

abbrev pub Run : Type 0 → Type 0
Run A = World → Outcome Errno A × World

abbrev pub is_directory : Entry → Bool
is_directory file = false
is_directory (link _) = false
is_directory (directory _) = true

abbrev pub without : Text → Dict Text Entry → Dict Text Entry
without n = keep (λ (m, _). not (text_eq m n))

abbrev pub drop_entry : ℕ → Text → World → World
drop_entry d n w = record w {
  heap = λ e. if e == d then without n (w.heap d) else w.heap e;
  log = (d, n) ∷ w.log;
}

-- What follows a call that went through.
abbrev pub and_then :
    {A : Type 0} → Outcome Errno A × World → (A → Run (Unit {0})) → Outcome Errno (Unit {0}) × World
and_then (raised e, w) rest = (raised e, w)
and_then (ok a, w) rest = rest a w

module _ (k : Kernel) where
  -- The others move, and the clock goes on.
  abbrev pub tick : World → World
  tick w = record w { heap = k.others w.clock w.heap; clock = suc w.clock }

  abbrev pub as_opened : Option Entry → Outcome Errno ℕ
  as_opened none = raised enoent
  as_opened (some file) = raised enotdir
  as_opened (some (link _)) = raised eloop
  as_opened (some (directory e)) = ok e

  -- `os.open(name, _DIR, dir_fd=fd)`: O_NOFOLLOW and O_DIRECTORY
  unfoldable pub open_at : ℕ → Text → Run ℕ
  open_at fd n w =
      let v = tick w in
      if k.fails w.clock then (raised other_errno, v) else (as_opened (lookup n (v.heap fd)), v)

  abbrev pub unlinked : ℕ → Text → World → Option Entry → Outcome Errno (Unit {0}) × World
  unlinked fd n v none = (raised enoent, v)
  unlinked fd n v (some (directory e)) = (raised eisdir, v)
  unlinked fd n v (some file) = (ok tt, drop_entry fd n v)
  unlinked fd n v (some (link _)) = (ok tt, drop_entry fd n v)

  -- `os.unlink(name, dir_fd=fd)`
  unfoldable pub unlink : ℕ → Text → Run (Unit {0})
  unlink fd n w =
      let v = tick w in
      if k.fails w.clock then (raised other_errno, v) else unlinked fd n v (lookup n (v.heap fd))

  abbrev pub emptied : ℕ → Text → World → Option Entry → Outcome Errno (Unit {0}) × World
  emptied fd n v none = (raised enoent, v)
  emptied fd n v (some file) = (raised enotdir, v)
  emptied fd n v (some (link _)) = (raised enotdir, v)
  emptied fd n v (some (directory e)) =
      if is_empty (v.heap e) then (ok tt, drop_entry fd n v) else (raised enotempty, v)

  -- `os.rmdir(name, dir_fd=fd)`
  unfoldable pub rmdir : ℕ → Text → Run (Unit {0})
  rmdir fd n w =
      let v = tick w in
      if k.fails w.clock then (raised other_errno, v) else emptied fd n v (lookup n (v.heap fd))

  -- The rmdir of an entry, or the unlink of what it was swapped for.
  abbrev pub after_rmdir :
      ℕ → Text → Outcome Errno (Unit {0}) × World → Outcome Errno (Unit {0}) × World
  after_rmdir fd n (ok _, w) = (ok tt, w)
  after_rmdir fd n (raised enotdir, w) = unlink fd n w
  after_rmdir fd n (raised e, w) = (raised e, w)

  -- A directory of the listing: opened, emptied by `sub`, removed.
  abbrev pub after_open :
      (ℕ → Run (Unit {0})) → ℕ → Text → Outcome Errno ℕ × World → Outcome Errno (Unit {0}) × World
  after_open sub fd n (ok inner, w) = and_then (sub inner w) λ _ v. after_rmdir fd n (rmdir fd n v)
  after_open sub fd n (raised eloop, w) = unlink fd n w
  after_open sub fd n (raised enotdir, w) = unlink fd n w
  after_open sub fd n (raised e, w) = (raised e, w)

  unfoldable pub rm_entry : (ℕ → Run (Unit {0})) → ℕ → Text → Entry → Run (Unit {0})
  unfolding open_at unlink rmdir
  rm_entry sub fd n e w =
      if is_directory e then after_open sub fd n (open_at fd n w) else unlink fd n w

  -- The loop over the listing.
  unfoldable pub rm_entries : (ℕ → Run (Unit {0})) → ℕ → Dict Text Entry → Run (Unit {0})
  unfolding rm_entry
  rm_entries sub fd [] w = (ok tt, w)
  rm_entries sub fd ((n, e) ∷ es) w = and_then (rm_entry sub fd n e w) λ _. rm_entries sub fd es

  -- `_rm_tree_fd`, at most so deep.
  unfoldable pub rm_tree_fd : ℕ → ℕ → Run (Unit {0})
  unfolding rm_entries
  rm_tree_fd zero fd w = (raised too_deep, w)
  rm_tree_fd (suc depth) fd w = let v = tick w in rm_entries (rm_tree_fd depth) fd (v.heap fd) v

  -- `_rm_job_dir`, from the descriptor of the parent that `_open_under` gave.
  unfoldable pub rm_job_dir : ℕ → ℕ → Text → Run (Unit {0})
  unfolding rm_tree_fd
  rm_job_dir depth parent n w =
      and_then (open_at parent n w) λ fd v. and_then (rm_tree_fd depth fd v) λ _. rmdir parent n
