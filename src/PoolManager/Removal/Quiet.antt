-- ===== src/PoolManager/Removal/Quiet.antt =====
-- Where nobody interferes and no call fails, the removal returns and takes the whole tree away.
use win_validator.Base.{
  ℕ, zero, suc, ◌≤◌, ◌<◌, ◌≡◌, ◌≢◌, refl, sym, ap, ◌∙◌, subst, inl, inr, false, [], ◌∷◌, none, some,
  Text, text_eq, text_eq_iff, text_eq_refl, Dict, lookup, text_instance, is_empty, Outcome, ok,
  raised, ◌==◌, ==_iff, ==_refl, arith, Bool-cases, if◌then◌else◌,
}
use win_validator.PoolManager.Removal.{
  Entry, file, link, directory, Heap, Errno, World, Kernel, Run, enotempty, is_directory, without,
  drop_entry, tick, and_then, open_at, as_opened, unlinked, emptied, unlink, rmdir, after_rmdir,
  after_open, rm_entry, rm_entries, rm_tree_fd, rm_job_dir,
}
use win_validator.PoolManager.Removal.Inside.{lookup-without, lookup-without_eq, begun}

abbrev pub quiet : Kernel
quiet = record { others = λ i h. h; fails = λ i. false }

-- The names of a directory differ.
abbrev pub Names : Dict Text Entry → Type 0
Names [] = Unit
Names ((n, e) ∷ es) = (lookup n es ≡ none) × Names es

-- A tree: a directory names only directories below its level.
pub record IsTree (level : ℕ → ℕ) (h : Heap) : Type 0 where
  pub below : (d : ℕ) (n : Text) (e : ℕ) → lookup n (h d) ≡ some (directory e) → level e < level d
  pub names : (d : ℕ) → Names (h d)

stays_absent :
    (n m : Text) (es : Dict Text Entry) → lookup n es ≡ none → lookup n (without m es) ≡ none
stays_absent n m es h = lookup-without_eq n m es ∙ ground arith

Names-without : (m : Text) (es : Dict Text Entry) → Names es → Names (without m es)
Names-without m [] d = tt
Names-without m ((n, e) ∷ es) (fresh, d) = elim (Bool-cases (text_eq n m)) [
  | inl same ↦ rw same (Names-without m es d)
  | inr other ↦ rw other (stays_absent n m es fresh, Names-without m es d)
]

without_fresh : (m : Text) (es : Dict Text Entry) → lookup m es ≡ none → without m es ≡ es
without_fresh m [] h = refl
without_fresh m ((n, e) ∷ es) h = elim (Bool-cases (text_eq m n)) [
  | inl same ↦ cc (rw same at h)
  | inr other ↦
      let apart : text_eq n m ≡ false = ground (arith, text_eq_iff n m, text_eq_iff m n) in
      rw apart (ap ((n, e) ∷◌) (without_fresh m es (rw other at h)))
]

without_head :
    (n : Text) (e : Entry) (es : Dict Text Entry)
    → Names ((n, e) ∷ es)
    → without n ((n, e) ∷ es) ≡ es
without_head n e es (fresh, d) = rw text_eq_refl (without_fresh n es fresh)

lookup_head : (n : Text) (e : Entry) (es : Dict Text Entry) → lookup n ((n, e) ∷ es) ≡ some e
lookup_head n e es = rw text_eq_refl refl

module _ (level : ℕ → ℕ) where
  IsTree-drop_entry :
      (d : ℕ) (n : Text) (w : World) → IsTree level w.heap → IsTree level (drop_entry d n w).heap
  IsTree-drop_entry d n w tree = record {
    below = λ e m f h. elim (Bool-cases (e == d)) [
      | inl same ↦
          subst (λ x. level f < level x) (sym ((==_iff e d).0 same))
            (tree.below d m f (lookup-without m n (w.heap d) (directory f) (rw same at h)))
      | inr other ↦ tree.below e m f (rw other at h)
    ];
    names = λ e. elim (Bool-cases (e == d)) [
      | inl same ↦ rw same (Names-without n (w.heap d) (tree.names d))
      | inr other ↦ rw other (tree.names e)
    ];
  }

  -- What a removal of the contents of `fd` leaves: `fd` is empty, a directory that is not below it is as
  -- before, and the rest is a tree.
  record Emptied (fd : ℕ) (h h' : Heap) : Type 0 where
    gone : h' fd ≡ []
    kept : (d : ℕ) → d ≢ fd → level fd ≤ level d → h' d ≡ h d
    tree : IsTree level h'

  abbrev Empties : ℕ → Run (Unit {0}) → Type 0
  Empties fd r =
      (w : World) → IsTree level w.heap → ((r w).0 ≡ ok tt) × Emptied fd w.heap (r w).1.heap

  kept_apart : (d fd : ℕ) (n : Text) (w : World) → d ≢ fd → (drop_entry fd n w).heap d ≡ w.heap d
  kept_apart d fd n w apart = elim (Bool-cases (d == fd)) [
    | inl same ↦ absurd (apart ((==_iff d fd).0 same))
    | inr other ↦ rw other refl
  ]

  -- Dropping the head of the listing.
  dropped_head :
      (fd : ℕ) (n : Text) (e : Entry) (es : Dict Text Entry) (w : World)
      → IsTree level w.heap
      → w.heap fd ≡ (n, e) ∷ es
      → (drop_entry fd n w).heap fd ≡ es
  dropped_head fd n e es w tree listed =
      let named : Names ((n, e) ∷ es) = subst Names listed (tree.names fd) in
      rw (==_refl fd) (ap (without n) listed ∙ without_head n e es named)

  -- An entry of the listing goes, and what stands at the level of `fd` or above is as before.
  record Dropped (fd : ℕ) (es : Dict Text Entry) (w : World) (r : Outcome Errno (Unit {0}) × World)
      : Type 0 where
    went : r.0 ≡ ok tt
    rest : r.1.heap fd ≡ es
    same : (d : ℕ) → d ≢ fd → level fd ≤ level d → r.1.heap d ≡ w.heap d
    good : IsTree level r.1.heap

  drop_head :
      (fd : ℕ) (n : Text) (e : Entry) (es : Dict Text Entry) (w : World)
      → IsTree level w.heap
      → w.heap fd ≡ (n, e) ∷ es
      → Dropped fd es w (ok tt, drop_entry fd n (tick quiet w))
  drop_head fd n e es w tree listed = record {
    went = refl;
    rest = dropped_head fd n e es (tick quiet w) tree listed;
    same = λ d apart above. kept_apart d fd n w apart;
    good = IsTree-drop_entry fd n (tick quiet w) tree;
  }

  found_head :
      (fd : ℕ) (n : Text) (e : Entry) (es : Dict Text Entry) (w : World)
      → w.heap fd ≡ (n, e) ∷ es
      → lookup n (w.heap fd) ≡ some e
  found_head fd n e es w listed = ap (lookup n) listed ∙ lookup_head n e es

  unlink_head :
      (fd : ℕ) (n : Text) (e : Entry) (es : Dict Text Entry) (w : World)
      → IsTree level w.heap
      → w.heap fd ≡ (n, e) ∷ es
      → is_directory e ≡ false
      → Dropped fd es w (unlink quiet fd n w)
  unfolding unlink
  unlink_head fd n e es w tree listed plain =
      subst (λ o. Dropped fd es w (unlinked quiet fd n (tick quiet w) o))
        (sym (found_head fd n e es w listed)) (by_entry e listed plain)
    where
      by_entry :
          (e : Entry)
          → w.heap fd ≡ (n, e) ∷ es
          → is_directory e ≡ false
          → Dropped fd es w (unlinked quiet fd n (tick quiet w) (some e))
      by_entry file listed plain = drop_head fd n file es w tree listed
      by_entry (link t) listed plain = drop_head fd n (link t) es w tree listed
      by_entry (directory inner) listed plain = cc

  -- An empty directory of the listing.
  rmdir_head :
      (fd inner : ℕ) (n : Text) (es : Dict Text Entry) (w : World)
      → IsTree level w.heap
      → w.heap fd ≡ (n, directory inner) ∷ es
      → w.heap inner ≡ []
      → Dropped fd es w (rmdir quiet fd n w)
  unfolding rmdir
  rmdir_head fd inner n es w tree listed empty =
      subst (λ o. Dropped fd es w (emptied quiet fd n (tick quiet w) o))
        (sym (found_head fd n (directory inner) es w listed))
        (subst
          (λ l. Dropped fd es w (
            if is_empty l
            then (ok tt, drop_entry fd n (tick quiet w))
            else (raised enotempty, tick quiet w)))
          (sym empty) (drop_head fd n (directory inner) es w tree listed))

  and_then_done :
      (r : Outcome Errno (Unit {0}) × World) (rest : Unit {0} → Run (Unit {0}))
      → r.0 ≡ ok tt
      → and_then r rest ≡ rest tt r.1
  and_then_done (ok tt, w) rest h = refl
  and_then_done (raised e, w) rest h = cc

  after_rmdir-Dropped :
      (fd : ℕ) (n : Text) (es : Dict Text Entry) (w : World) (r : Outcome Errno (Unit {0}) × World)
      → Dropped fd es w r
      → Dropped fd es w (after_rmdir quiet fd n r)
  after_rmdir-Dropped fd n es w (ok tt, v) d = d
  after_rmdir-Dropped fd n es w (raised e, v) d = cc (d.went)

  -- A directory of the listing behind the removal of its contents.
  removed_directory :
      (fd inner : ℕ) (n : Text) (es : Dict Text Entry) (w v : World)
      → level inner < level fd
      → Emptied inner w.heap v.heap
      → w.heap fd ≡ (n, directory inner) ∷ es
      → Dropped fd es w (after_rmdir quiet fd n (rmdir quiet fd n v))
  removed_directory fd inner n es w v lower e listed =
      let still = e.kept fd (above_apart fd lower (omega arith)) (omega arith) ∙ listed in
      let d =
        after_rmdir-Dropped fd n es v (rmdir quiet fd n v)
          (rmdir_head fd inner n es v e.tree still e.gone) in
      record {
        went = d.went;
        rest = d.rest;
        same = λ x apart above.
            d.same x apart above ∙ e.kept x (above_apart x lower above) (omega arith);
        good = d.good;
      }
    where
      above_apart : (x : ℕ) → level inner < level fd → level fd ≤ level x → x ≢ inner
      above_apart x lower above h = absurd (omega (arith, ap level h))

  module _ (sub : ℕ → Run (Unit {0})) (bound : ℕ)
      (empties : (d : ℕ) → level d < bound → Empties d (sub d)) where
    -- One entry of the listing.
    rm_entry_head :
        (fd : ℕ) (n : Text) (e : Entry) (es : Dict Text Entry) (w : World)
        → level fd ≤ bound
        → IsTree level w.heap
        → w.heap fd ≡ (n, e) ∷ es
        → Dropped fd es w (rm_entry quiet sub fd n e w)
    unfolding rm_entry
    rm_entry_head fd n file es w within tree listed = unlink_head fd n file es w tree listed refl
    rm_entry_head fd n (link t) es w within tree listed =
        unlink_head fd n (link t) es w tree listed refl
    rm_entry_head fd n (directory inner) es w within tree listed =
        let lower = tree.below fd n inner (found_head fd n (directory inner) es w listed) in
        let (done, emptied_inner) = empties inner (omega arith) (tick quiet w) tree in
        subst (λ o. Dropped fd es w (after_open quiet sub fd n (as_opened quiet o, tick quiet w)))
          (sym (found_head fd n (directory inner) es w listed))
          (subst (Dropped fd es w) (sym (and_then_done (sub inner (tick quiet w)) _ done)) (
            removed_directory fd inner n es w (sub inner (tick quiet w)).1 lower emptied_inner
              listed))

    -- The loop over the listing.
    rm_entries_head :
        (fd : ℕ) (es : Dict Text Entry) (w : World)
        → level fd ≤ bound
        → IsTree level w.heap
        → w.heap fd ≡ es
        → ((rm_entries quiet sub fd es w).0 ≡ ok tt)
          × Emptied fd w.heap (rm_entries quiet sub fd es w).1.heap
    unfolding rm_entries
    rm_entries_head fd [] w within tree listed =
        (refl, record { gone = listed; kept = λ d apart above. refl; tree = tree })
    rm_entries_head fd ((n, e) ∷ es) w within tree listed =
        let first = rm_entry_head fd n e es w within tree listed in
        let v = (rm_entry quiet sub fd n e w).1 in
        let (done, emptied_rest) = rm_entries_head fd es v within first.good first.rest in
        subst (λ r. (r.0 ≡ ok tt) × Emptied fd w.heap r.1.heap)
          (sym (
            and_then_done (rm_entry quiet sub fd n e w) (λ _. rm_entries quiet sub fd es)
              first.went))
          (
            done,
            record {
              gone = emptied_rest.gone;
              kept = λ d apart above. emptied_rest.kept d apart above ∙ first.same d apart above;
              tree = emptied_rest.tree;
            },
          )

  -- The depth exceeds the level: the removal returns, and has emptied the directory.
  rm_tree_fd-Empties : (depth fd : ℕ) → level fd < depth → Empties fd (rm_tree_fd quiet depth fd)
  unfolding rm_tree_fd
  rm_tree_fd-Empties zero fd lt w tree = absurd (omega arith)
  rm_tree_fd-Empties (suc depth) fd lt w tree =
      rm_entries_head (rm_tree_fd quiet depth) depth (rm_tree_fd-Empties depth) fd (w.heap fd)
        (tick quiet w) (omega arith) tree refl

  -- The rmdir behind the removal of the contents.
  last_rmdir :
      (parent fd : ℕ) (n : Text) (h : Heap) (v : World)
      → level fd < level parent
      → lookup n (h parent) ≡ some (directory fd)
      → Emptied fd h v.heap
      → let (r, u) = rmdir quiet parent n v in
        (r ≡ ok tt) × (u.heap fd ≡ []) × (u.heap parent ≡ without n (h parent))
  unfolding rmdir
  last_rmdir parent fd n h v lower found e =
      let same : v.heap parent ≡ h parent = e.kept parent (parent_apart lower) (omega arith) in
      let there : lookup n (v.heap parent) ≡ some (directory fd) = ap (lookup n) same ∙ found in
      rw (rmdir, there, emptied, e.gone)
        (
          refl,
          kept_apart fd parent n (tick quiet v) (λ h. parent_apart lower (sym h)) ∙ e.gone,
          rw (==_refl parent) (ap (without n) same),
        )
    where
      parent_apart : level fd < level parent → parent ≢ fd
      parent_apart lower h = absurd (omega (arith, ap level h))

  -- Where nobody interferes and no call fails, in a tree whose names differ and with a bound on the depth
  -- above the level of the job's directory, the removal returns: that directory is empty, and its parent
  -- has lost its entry and no other.
  pub rm_job_dir_removes :
      (depth parent fd : ℕ) (n : Text) (h : Heap)
      → IsTree level h
      → lookup n (h parent) ≡ some (directory fd)
      → level fd < depth
      → let (r, w) = rm_job_dir quiet depth parent n (begun h) in
        (r ≡ ok tt) × (w.heap fd ≡ []) × (w.heap parent ≡ without n (h parent))
  unfolding rm_job_dir open_at
  rm_job_dir_removes depth parent fd n h tree found deep =
      let w = tick quiet (begun h) in
      let (done, emptied_fd) = rm_tree_fd-Empties depth fd deep w tree in
      let lower = tree.below parent n fd found in
      rw (rm_job_dir, open_at, found, as_opened, and_then)
        (subst (λ r. (r.0 ≡ ok tt) × (r.1.heap fd ≡ []) × (r.1.heap parent ≡ without n (h parent)))
          (sym (and_then_done (rm_tree_fd quiet depth fd w) (λ _. rmdir quiet parent n) done))
          (last_rmdir parent fd n h (rm_tree_fd quiet depth fd w).1 lower found emptied_fd))
