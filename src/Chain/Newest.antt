-- ===== src/Chain/Newest.antt =====
-- The depth that is read after a promotion.
use win_validator.Base.{
  ℕ, ◌<◌, ◌≡◌, sym, subst, List, [], ◌∷◌, All, keep, ltb, text_eq, inl, inr, refl, Bool, true,
  false, not, ◌&&◌, ◌||◌, Option, none, some, or_else, Text, strip, is_empty, int_of, &&-true, ℤ,
  arith, Bool-cases,
}
use win_validator.Chain.{
  Depth, Records, Writes, read_depth, Marker, newest, newer_of, depth_of, chain_length,
  candidate_depth, gone, keep_as_unrecorded, record_chain,
}

-- A copy, if there is one, is older than `now`.
abbrev pub IsOlder : ℕ → Option Depth → Type 0
IsOlder now none = Unit
IsOlder now (some d) = d.mtime < now

-- The copies are older than the promotion.
abbrev pub AreOlder : ℕ → Records → Type 0
AreOlder now r =
    IsOlder now r.chain × IsOlder now r.mirror × All (λ m. m.copy.mtime < now) r.markers

-- A sidecar that reads alike as the candidate's depth and as a marker.
abbrev pub is_legible : Option (Option Text) → Bool
is_legible none = false
is_legible (some none) = true
is_legible (some (some text)) = not (is_empty (strip text))

-- One of the three places took the depth; a marker is dated, too, and it reads as its sidecar did.
abbrev pub is_recorded : Writes → Records → Bool
is_recorded w r = w.chain || w.mirror || (w.renames && w.touches && is_legible r.sidecar)

newest_first :
    (max : ℤ) (d : Depth) (b c : Option Depth)
    → IsOlder d.mtime b
    → IsOlder d.mtime c
    → depth_of max (newer_of (newer_of (some d) b) c) ≡ read_depth max d
newest_first max d none none h k = refl
newest_first max d none (some c) h k = ground arith
newest_first max d (some b) none h k = ground arith
newest_first max d (some b) (some c) h k = ground arith

newest_second :
    (max : ℤ) (d : Depth) (a c : Option Depth)
    → IsOlder d.mtime a
    → IsOlder d.mtime c
    → depth_of max (newer_of (newer_of a (some d)) c) ≡ read_depth max d
newest_second max d none none h k = refl
newest_second max d none (some c) h k = ground arith
newest_second max d (some a) none h k = ground arith
newest_second max d (some a) (some c) h k = ground arith

newest_third :
    (max : ℤ) (d : Depth) (a b : Option Depth)
    → IsOlder d.mtime a
    → IsOlder d.mtime b
    → depth_of max (newer_of (newer_of a b) (some d)) ≡ read_depth max d
newest_third max d none none h k = refl
newest_third max d none (some b) h k = ground arith
newest_third max d (some a) none h k = ground arith
newest_third max d (some a) (some b) h k = ground arith

newest_both :
    (max : ℤ) (d : Depth) (c : Option Depth)
    → IsOlder d.mtime c
    → depth_of max (newer_of (newer_of (some d) (some d)) c) ≡ read_depth max d
newest_both max d none k = ground arith
newest_both max d (some c) k = ground arith

gone-IsOlder : (now : ℕ) (b : Bool) (d : Option Depth) → IsOlder now d → IsOlder now (gone b d)
gone-IsOlder now true d h = tt
gone-IsOlder now false d h = h

newest-IsOlder :
    (now : ℕ) (ms : List Marker) → All (λ m. m.copy.mtime < now) ms → IsOlder now (newest ms)
newest-IsOlder now [] h = tt
newest-IsOlder now (m ∷ ms) (older, h) =
    first_older now m.copy (newest ms) older (newest-IsOlder now ms h)
  where
    first_older :
        (now : ℕ) (d : Depth) (o : Option Depth)
        → d.mtime < now
        → IsOlder now o
        → IsOlder now (newer_of (some d) o)
    first_older now d none h k = h
    first_older now d (some e) h k = ground arith

pub All-keep-All {ℓ κ} :
    {A : Type ℓ} (P : A → Type κ) (p : A → Bool) (xs : List A) → All P xs → All P (keep p xs)
All-keep-All P p [] h = h
All-keep-All P p (x ∷ xs) (here, h) = elim (Bool-cases (p x)) [
  | inl yes_p ↦ rw yes_p (here, All-keep-All P p xs h)
  | inr no_p ↦ rw no_p (All-keep-All P p xs h)
]

newer_of_older : (d : Depth) (o : Option Depth) → IsOlder d.mtime o → newer_of (some d) o ≡ some d
newer_of_older d none h = refl
newer_of_older d (some e) h =
    let not_later : ltb d.mtime e.mtime ≡ false = ground arith in rw not_later refl

candidate_depth-legible :
    (max : ℤ) (text : Text)
    → not (is_empty (strip text)) ≡ true
    → candidate_depth max (some (some text)) ≡ or_else (int_of text) max
unfolding candidate_depth
candidate_depth-legible max text h = ground arith

-- After a promotion, whichever of the three places took the depth (the marker only with its rename and
-- its touch, and from a sidecar that is not blank), and whether a stale copy could be removed or not: the
-- depth that is read is the candidate's, if every copy was older.
pub chain_length-record_chain :
    (max : ℤ) (w : Writes) (now : ℕ) (r : Records)
    → AreOlder now r
    → is_recorded w r ≡ true
    → chain_length max (record_chain max w now r) ≡ candidate_depth max r.sidecar
unfolding chain_length record_chain candidate_depth
chain_length-record_chain max w now r (older, older_mirror, older_markers) h =
    let marker_older = newest-IsOlder now r.markers older_markers in
    elim (Bool-cases (w.chain)) [
      | inl written ↦ elim (Bool-cases (w.mirror)) [
        | inl mirrored ↦
            rw (record_chain, written, mirrored)
              (newest_both max made (newest r.markers) marker_older)
        | inr refused ↦
            rw (record_chain, written, refused)
              (newest_first max made (gone w.removes r.mirror) (newest r.markers)
                (gone-IsOlder now w.removes r.mirror older_mirror) marker_older)
      ]
      | inr refused ↦ elim (Bool-cases (w.mirror)) [
        | inl mirrored ↦
            rw (record_chain, refused, mirrored)
              (newest_second max made (gone w.removes r.chain) (newest r.markers)
                (gone-IsOlder now w.removes r.chain older) marker_older)
        | inr neither ↦
            rw (record_chain, refused, neither)
              (as_marker (r.sidecar) refl (rw (refused, neither) at h))
      ]
    ]
  where
    made : Depth
    made = record { mtime = now; depth = some (candidate_depth max r.sidecar) }

    -- The marker of this promotion is the newest copy.
    newest_marked :
        (max : ℤ) (depth : Option ℤ)
        → IsOlder now r.chain
        → IsOlder now r.mirror
        → All (λ m. m.copy.mtime < now) r.markers
        → depth_of max (
            newer_of (newer_of r.chain r.mirror) (
              newer_of
                (some (record { mtime = now; depth = depth }))
                (newest (keep (λ m. not (text_eq m.name w.marker_name)) r.markers))))
          ≡ or_else depth max
    newest_marked max depth older older_mirror older_markers =
        let kept = newest-IsOlder now (keep (λ m. not (text_eq m.name w.marker_name)) r.markers) (
          All-keep-All (λ m. m.copy.mtime < now) (λ m. not (text_eq m.name w.marker_name)) r.markers
            older_markers) in
        subst (λ o. depth_of max (newer_of (newer_of r.chain r.mirror) o) ≡ or_else depth max)
          (sym (newer_of_older (record { mtime = now; depth = depth }) _ kept))
          (newest_third max (record { mtime = now; depth = depth }) r.chain r.mirror older
            older_mirror)

    as_marker :
        (o : Option (Option Text))
        → r.sidecar ≡ o
        → (w.renames && w.touches && is_legible o) ≡ true
        → depth_of max (
            newer_of
              (newer_of (keep_as_unrecorded w now o r).chain (keep_as_unrecorded w now o r).mirror)
              (newest (keep_as_unrecorded w now o r).markers))
          ≡ candidate_depth max o
    as_marker none e q = let impossible = (&&-true (w.renames && w.touches) false q).1 in cc
    as_marker (some none) e q =
        let (put, legible) = &&-true (w.renames && w.touches) true q in
        let (renames, touches) = &&-true w.renames w.touches put in
        rw (renames, touches) (newest_marked max none older older_mirror older_markers)
    as_marker (some (some text)) e q =
        let (put, legible) = &&-true (w.renames && w.touches) (not (is_empty (strip text))) q in
        let (renames, touches) = &&-true w.renames w.touches put in
        rw (renames, touches, candidate_depth-legible max text legible)
          (newest_marked max (int_of text) older older_mirror older_markers)
