-- ===== src/Chain/Markers.antt =====
-- The markers behind `_prune_backups` (golden_rotate.py): those that the record superseded go.
use win_validator.Base.{
  ℕ, suc, ◌≤◌, ◌≡◌, refl, sym, ap, ◌∙◌, inl, inr, Bool, true, false, not, ◌&&◌, List, [], ◌∷◌,
  Option, none, some, keep, ltb, ℤ, arith, Bool-cases,
}
use win_validator.Chain.{Depth, Marker, Records, newer, newer_of, newest, depth_of, chain_length}
use win_validator.Prune.{Setting, path_in, is_stale_marker}

-- A marker that is older than the record and an hour, where `rm -f` works.
abbrev pub goes : Setting → ℕ → Marker → Bool
goes s rec_t m =
    is_stale_marker s rec_t (record { name = m.name; mtime = some m.copy.mtime })
    && s.removes (path_in s.backup_dir m.name)

abbrev pub without_superseded : Setting → Option Depth → List Marker → List Marker
without_superseded s none ms = ms
without_superseded s (some c) ms = keep (λ m. not (goes s c.mtime m)) ms

unfoldable pub pruned_records : Setting → Records → Records
pruned_records s r = record r { markers = without_superseded s r.chain r.markers }

newer_of_assoc : (a b c : Option Depth) → newer_of (newer_of a b) c ≡ newer_of a (newer_of b c)
newer_of_assoc none b c = refl
newer_of_assoc (some x) none c = refl
newer_of_assoc (some x) (some m) none = refl
newer_of_assoc (some x) (some m) (some n) = elim (Bool-cases (ltb x.mtime m.mtime)) [
  | inl later ↦ elim (Bool-cases (ltb m.mtime n.mtime)) [
    | inl latest ↦
        let over : ltb x.mtime n.mtime ≡ true = ground arith in rw (later, latest, over) refl
    | inr not_latest ↦ rw (later, not_latest, later) refl
  ]
  | inr not_later ↦ elim (Bool-cases (ltb m.mtime n.mtime)) [
    | inl latest ↦ rw (not_later, latest) refl
    | inr not_latest ↦
        let under : ltb x.mtime n.mtime ≡ false = ground arith in
        rw (not_later, not_latest, under, not_later) refl
  ]
]

goes_older : (s : Setting) (t : ℕ) (m : Marker) → goes s t m ≡ true → suc m.copy.mtime ≤ t
goes_older s t m h = ground arith

-- Behind a copy that is as new as the record, what goes does not matter.
newer_of-keep :
    (s : Setting) (t : ℕ) (ms : List Marker) (x : Depth)
    → t ≤ x.mtime
    → newer_of (some x) (newest (keep (λ m. not (goes s t m)) ms)) ≡ newer_of (some x) (newest ms)
newer_of-keep s t [] x h = refl
newer_of-keep s t (m ∷ ms) x h = elim (Bool-cases (goes s t m)) [
  | inl yes_goes ↦
      let older : ltb x.mtime m.copy.mtime ≡ false = ground (arith, goes_older s t m yes_goes) in
      rw yes_goes (
        newer_of-keep s t ms x h
        ∙ ap (λ y. newer_of y (newest ms)) (behind x m.copy older)
        ∙ newer_of_assoc (some x) (some m.copy) (newest ms))
  | inr stays ↦ rw stays (
      sym (newer_of_assoc (some x) (some m.copy) _)
      ∙ newer_of-keep s t ms (newer x m.copy) (at_least x m.copy t h)
      ∙ newer_of_assoc (some x) (some m.copy) (newest ms))
]
  where
    behind :
        (x d : Depth)
        → ltb x.mtime d.mtime ≡ false
        → ◌≡◌ {A = Option Depth} (some x) (newer_of (some x) (some d))
    behind x d h = rw h refl

    at_least : (x d : Depth) (t : ℕ) → t ≤ x.mtime → t ≤ (newer x d).mtime
    at_least x d t h = ground arith

-- The prune leaves the depth as it reads, whichever markers it removes.
pub chain_length-pruned_records :
    (max : ℤ) (s : Setting) (r : Records)
    → chain_length max (pruned_records s r) ≡ chain_length max r
unfolding chain_length pruned_records
chain_length-pruned_records max s r = by_chain r.chain
  where
    from :
        (c : Depth) (m : Option Depth)
        → newer_of (newer_of (some c) m) (newest (without_superseded s (some c) r.markers))
          ≡ newer_of (newer_of (some c) m) (newest r.markers)
    from c none = newer_of-keep s c.mtime r.markers c (omega arith)
    from c (some d) = newer_of-keep s c.mtime r.markers (newer c d) (ground arith)

    by_chain :
        (o : Option Depth)
        → depth_of max (newer_of (newer_of o r.mirror) (newest (without_superseded s o r.markers)))
          ≡ depth_of max (newer_of (newer_of o r.mirror) (newest r.markers))
    by_chain none = refl
    by_chain (some c) = ap (depth_of max) (from c r.mirror)
