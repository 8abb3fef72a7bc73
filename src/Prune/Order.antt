-- ===== src/Prune/Order.antt =====
-- The order of the backups: a strict order on files of different names, a sort that keeps the files,
-- and which files the slice in front of the newest takes.
use win_validator.Base.{
  ℕ, zero, suc, ◌-◌, ◌≤◌, ◌≡◌, refl, sym, ap, ◌∙◌, subst, Bool, true, false, ◌&&◌, ◌||◌, List, [],
  ◌∷◌, Option, some, Text, text_eq, text_eq_iff, All, length, take, ltb, leb, leb→le, arith,
  Bool-cases, inl, inr, if◌then◌else◌,
}
use win_validator.Prune.{File, text_lt, precedes, insert_file, sort_files, find_file, excess}

abbrev pub has_name : Text → List File → Bool
has_name n [] = false
has_name n (f ∷ fs) = text_eq n f.name || has_name n fs

-- No name stands twice in a folder.
abbrev pub Distinct : List File → Type 0
Distinct [] = Unit
Distinct (f ∷ fs) = (has_name f.name fs ≡ false) × Distinct fs

abbrev pub IsSorted : List File → Type 0
IsSorted [] = Unit
IsSorted (f ∷ fs) = All (λ g. precedes f g ≡ true) fs × IsSorted fs

-- How many files of the list are newer than `f`.
abbrev pub newer_than : File → List File → ℕ
newer_than f [] = 0
newer_than f (g ∷ gs) = if precedes f g then suc (newer_than f gs) else newer_than f gs

text_eq_sym : (s t : Text) → text_eq s t ≡ text_eq t s
text_eq_sym [] [] = refl
text_eq_sym [] (b ∷ t) = refl
text_eq_sym (a ∷ s) [] = refl
text_eq_sym (a ∷ s) (b ∷ t) = ground (arith, text_eq_sym s t)

text_lt_total : (s t : Text) → text_eq s t ≡ false → text_lt s t ≡ false → text_lt t s ≡ true
text_lt_total [] [] d h = cc
text_lt_total [] (b ∷ t) d h = cc
text_lt_total (a ∷ s) [] d h = refl
text_lt_total (a ∷ s) (b ∷ t) d h = ground (arith, text_lt_total s t)

text_lt_asym : (s t : Text) → text_lt s t ≡ true → text_lt t s ≡ false
text_lt_asym [] [] h = refl
text_lt_asym [] (b ∷ t) h = refl
text_lt_asym (a ∷ s) [] h = cc
text_lt_asym (a ∷ s) (b ∷ t) h = ground (arith, text_lt_asym s t)

text_lt_trans : (s t u : Text) → text_lt s t ≡ true → text_lt t u ≡ true → text_lt s u ≡ true
text_lt_trans s [] [] h k = cc
text_lt_trans s (b ∷ t) [] h k = cc
text_lt_trans [] t (c ∷ u) h k = refl
text_lt_trans (a ∷ s) [] (c ∷ u) h k = cc
text_lt_trans (a ∷ s) (b ∷ t) (c ∷ u) h k = ground (arith, text_lt_trans s t u)

pub precedes_total :
    (f g : File) → text_eq f.name g.name ≡ false → precedes f g ≡ false → precedes g f ≡ true
precedes_total f g d h = ground (arith, text_lt_total f.name g.name)

precedes_asym : (f g : File) → precedes f g ≡ true → precedes g f ≡ false
precedes_asym f g h = ground (arith, text_lt_asym f.name g.name)

precedes_trans : (f g h : File) → precedes f g ≡ true → precedes g h ≡ true → precedes f h ≡ true
precedes_trans f g h p q = ground (arith, text_lt_trans f.name g.name h.name)

precedes_irrefl : (f : File) → precedes f f ≡ false
precedes_irrefl f = elim (Bool-cases (precedes f f)) [ inl p ↦ precedes_asym f f p | inr p ↦ p ]

-- Insertion.
All-insert_file :
    (P : File → Type 0) (f : File) (gs : List File) → P f → All P gs → All P (insert_file f gs)
All-insert_file P f [] p ps = (p, tt)
All-insert_file P f (g ∷ gs) p (q, qs) = elim (Bool-cases (precedes g f)) [
  | inl before ↦ rw before (q, All-insert_file P f gs p qs)
  | inr not_before ↦ rw not_before (p, (q, qs))
]

minus_zero : (n : ℕ) → n - 0 ≡ n
minus_zero n = omega arith

take_all : (gs : List File) → take (length gs) gs ≡ gs
take_all [] = refl
take_all (g ∷ gs) = ap (g ∷◌) (take_all gs)

All-precedes :
    (f g : File) (gs : List File)
    → precedes f g ≡ true
    → All (λ h. precedes g h ≡ true) gs
    → All (λ h. precedes f h ≡ true) gs
All-precedes f g [] p ps = tt
All-precedes f g (h ∷ gs) p (q, qs) = (precedes_trans f g h p q, All-precedes f g gs p qs)

insert_file-IsSorted :
    (f : File) (gs : List File)
    → has_name f.name gs ≡ false
    → IsSorted gs
    → IsSorted (insert_file f gs)
insert_file-IsSorted f [] d s = (tt, tt)
insert_file-IsSorted f (g ∷ gs) d (below, s) = elim (Bool-cases (precedes g f)) [
  | inl before ↦
      rw before (All-insert_file _ f gs before below, insert_file-IsSorted f gs (ground arith) s)
  | inr not_before ↦
      let first = precedes_total g f (ground (arith, text_eq_sym f.name g.name)) not_before in
      rw not_before ((first, All-precedes f g gs first below), (below, s))
]

has_name-insert_file :
    (n : Text) (f : File) (gs : List File)
    → has_name n (insert_file f gs) ≡ (text_eq n f.name || has_name n gs)
has_name-insert_file n f [] = refl
has_name-insert_file n f (g ∷ gs) = ground (arith, has_name-insert_file n f gs)

newer_than-insert_file :
    (h f : File) (gs : List File) → newer_than h (insert_file f gs) ≡ newer_than h (f ∷ gs)
newer_than-insert_file h f [] = refl
newer_than-insert_file h f (g ∷ gs) = ground (arith, newer_than-insert_file h f gs)

length-insert_file : (f : File) (gs : List File) → length (insert_file f gs) ≡ suc (length gs)
length-insert_file f [] = refl
length-insert_file f (g ∷ gs) = ground (arith, length-insert_file f gs)

-- The sort.
has_name-sort_files : (n : Text) (fs : List File) → has_name n (sort_files fs) ≡ has_name n fs
has_name-sort_files n [] = refl
has_name-sort_files n (f ∷ fs) =
    has_name-insert_file n f (sort_files fs) ∙ ap (text_eq n f.name ||◌) (has_name-sort_files n fs)

pub newer_than-sort_files :
    (h : File) (fs : List File) → newer_than h (sort_files fs) ≡ newer_than h fs
newer_than-sort_files h [] = refl
newer_than-sort_files h (f ∷ fs) =
    ground (arith, newer_than-insert_file h f (sort_files fs), newer_than-sort_files h fs)

pub sort_files-IsSorted : (fs : List File) → Distinct fs → IsSorted (sort_files fs)
sort_files-IsSorted [] d = tt
sort_files-IsSorted (f ∷ fs) (fresh, d) =
    insert_file-IsSorted f (sort_files fs) (has_name-sort_files f.name fs ∙ fresh)
      (sort_files-IsSorted fs d)

-- Which files of a sorted list the slice takes.
newer_than-le-length : (f : File) (gs : List File) → newer_than f gs ≤ length gs
newer_than-le-length f [] = omega arith
newer_than-le-length f (g ∷ gs) = ground (arith, newer_than-le-length f gs)

newer_than-eq-length :
    (f : File) (gs : List File) → All (λ g. precedes f g ≡ true) gs → newer_than f gs ≡ length gs
newer_than-eq-length f [] below = refl
newer_than-eq-length f (g ∷ gs) (p, below) = ground (arith, newer_than-eq-length f gs below)

the_file : {f g : File} → ◌≡◌ {A = Option File} (some g) (some f) → g ≡ f
the_file h = cc

All-find_file :
    (P : File → Type 0) (n : Text) (f : File) (gs : List File)
    → All P gs
    → find_file n gs ≡ some f
    → P f
All-find_file P n f [] ps h = cc
All-find_file P n f (g ∷ gs) (p, ps) h = elim (Bool-cases (text_eq n g.name)) [
  | inl here ↦ subst P (the_file (rw here at h)) p
  | inr there ↦ All-find_file P n f gs ps (rw there at h)
]

-- One round of the slice.
has_name-take_round :
    (n l : ℕ) (name : Text) (g : File) (gs : List File)
    → has_name name (take (suc l - n) (g ∷ gs))
      ≡ (leb n l && (text_eq name g.name || has_name name (take (l - n) gs)))
has_name-take_round n l name g gs = elim (Bool-cases (leb n l)) [
  | inl within ↦
      let left : suc l - n ≡ suc (l - n) = omega (arith, leb→le n l within) in
      rw (left, within) refl
  | inr over ↦ let left : suc l - n ≡ 0 = ground arith in rw (left, over) refl
]

taken_first :
    (n : ℕ) (name : Text) (g : File) (gs : List File)
    → All (λ h. precedes g h ≡ true) gs
    → text_eq name g.name ≡ true
    → has_name name (take (suc (length gs) - n) (g ∷ gs)) ≡ leb n (newer_than g (g ∷ gs))
taken_first n name g gs below here =
    has_name-take_round n (length gs) name g gs
    ∙ ground (arith, precedes_irrefl g, newer_than-eq-length g gs below)

pub has_name-take :
    (n : ℕ) (name : Text) (f : File) (gs : List File)
    → IsSorted gs
    → find_file name gs ≡ some f
    → has_name name (take (length gs - n) gs) ≡ leb n (newer_than f gs)
has_name-take n name f [] s h = cc
has_name-take n name f (g ∷ gs) (below, s) h = elim (Bool-cases (text_eq name g.name)) [
  | inl here ↦
      let same : g ≡ f = the_file (rw here at h) in
      subst
        (λ f. has_name name (take (suc (length gs) - n) (g ∷ gs)) ≡ leb n (newer_than f (g ∷ gs)))
        same (taken_first n name g gs below here)
  | inr there ↦
      let found : find_file name gs ≡ some f = rw there at h in
      let older : precedes f g ≡ false =
        precedes_asym g f (All-find_file _ name f gs below found) in
      has_name-take_round n (length gs) name g gs
      ∙ rw (there, older, has_name-take n name f gs s found)
          (ground (arith, newer_than-le-length f gs))
]

find_file-insert_file :
    (n : Text) (f : File) (gs : List File)
    → has_name f.name gs ≡ false
    → find_file n (insert_file f gs) ≡ find_file n (f ∷ gs)
find_file-insert_file n f [] fresh = refl
find_file-insert_file n f (g ∷ gs) fresh = ground (
  arith,
  text_eq_iff n f.name,
  text_eq_iff n g.name,
  text_eq_iff f.name g.name,
  find_file-insert_file n f gs,
)

pub find_file-sort_files :
    (n : Text) (fs : List File) → Distinct fs → find_file n (sort_files fs) ≡ find_file n fs
find_file-sort_files n [] d = refl
find_file-sort_files n (f ∷ fs) (fresh, d) =
    find_file-insert_file n f (sort_files fs) (has_name-sort_files f.name fs ∙ fresh)
    ∙ ground (arith, find_file-sort_files n fs d)

pub excess-eq-take : (n : ℕ) (gs : List File) → excess n gs ≡ take (length gs - n) gs
excess-eq-take zero gs = rw minus_zero (sym (take_all gs))
excess-eq-take (suc n) gs = let some_kept : ltb 0 (suc n) ≡ true = ground arith in rw some_kept refl
