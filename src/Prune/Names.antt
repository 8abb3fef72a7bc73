-- ===== src/Prune/Names.antt =====
-- Which names a glob and a pattern can share: the backups' names have letters of no other kind of
-- file, and an image's name is neither a marker's nor a build hold's.
use win_validator.Base.{
  ℕ, zero, suc, ◌≤◌, ◌≡◌, refl, sym, ap, ◌∙◌, append_assoc, subst, inl, inr, Bool, true, false,
  ◌&&◌, ◌||◌, [], ◌∷◌, ◌++◌, Option, none, some, is_some, Text, codes, text_eq, text_eq_sound,
  is_empty, starts_with, has_part, is_digit, length, length-append, drop, any, all, last?, ◌==◌,
  &&-true, arith, Bool-cases, Option-cases,
}
use win_validator.Prune.{
  ends_with, image_prefix, image_suffix, is_image, is_sidecar, is_hold, digits_then, hyphen_then,
  is_backup_name, is_candidate, is_marker, cut_last, build_mark, read_builder, with_digit,
  all_digits, build_hold, build_hold_of,
}

module _ (q : ℕ → Bool) where
  pub any-starts_with : (p s : Text) → starts_with p s ≡ true → any q p ≡ true → any q s ≡ true
  any-starts_with [] s h k = cc
  any-starts_with (a ∷ p) [] h k = cc
  any-starts_with (a ∷ p) (b ∷ s) h k = ground (arith, any-starts_with p s)

  pub any-has_part : (p s : Text) → has_part p s ≡ true → any q p ≡ true → any q s ≡ true
  any-has_part [] [] h k = cc
  any-has_part (a ∷ p) [] h k = cc
  any-has_part p (c ∷ s) h k = elim (Bool-cases (starts_with p (c ∷ s))) [
    | inl here ↦ any-starts_with p (c ∷ s) here k
    | inr there ↦ ground (arith, any-has_part p s (rw there at h) k)
  ]

  pub any-ends_with : (p s : Text) → ends_with p s ≡ true → any q p ≡ true → any q s ≡ true
  any-ends_with [] [] h k = cc
  any-ends_with (a ∷ p) [] h k = cc
  any-ends_with p (c ∷ s) h k = elim (Bool-cases (text_eq p (c ∷ s))) [
    | inl here ↦ subst (λ t. any q t ≡ true) (text_eq_sound p (c ∷ s) here) k
    | inr there ↦ ground (arith, any-ends_with p s (rw there at h) k)
  ]

  pub any-drop : (n : ℕ) (s : Text) → any q (drop n s) ≡ true → any q s ≡ true
  any-drop zero s h = h
  any-drop (suc n) [] h = h
  any-drop (suc n) (c ∷ s) h = ground (arith, any-drop n s h)

  any-digits_then :
      (n : ℕ) (rest : Text → Bool) (s : Text)
      → ((c : ℕ) → is_digit c ≡ true → q c ≡ false)
      → ((t : Text) → rest t ≡ true → any q t ≡ false)
      → digits_then n rest s ≡ true
      → any q s ≡ false
  any-digits_then zero rest s digits k h = k s h
  any-digits_then (suc n) rest [] digits k h = cc
  any-digits_then (suc n) rest (c ∷ s) digits k h =
      ground (arith, digits c, any-digits_then n rest s digits k)

pub starts_with-eq : (p s : Text) → starts_with p s ≡ true → s ≡ p ++ drop (length p) s
starts_with-eq [] s h = refl
starts_with-eq (a ∷ p) [] h = cc
starts_with-eq (a ∷ p) (b ∷ s) h =
    let (same, more) : (b ≡ a) × (starts_with p s ≡ true) = ground arith in
    rw same (ap (a ∷◌) (starts_with-eq p s more))

-- t, u, k and h: each other kind of file has one of them in its name.
abbrev pub is_odd : ℕ → Bool
is_odd c = c == b't' || c == b'u' || c == b'k' || c == b'h'

digit-plain : (c : ℕ) → is_digit c ≡ true → is_odd c ≡ false
digit-plain c h = ground arith

is_odd-hyphen_then :
    (s : Text) → hyphen_then (digits_then 6 (text_eq image_suffix)) s ≡ true → any is_odd s ≡ false
is_odd-hyphen_then [] h = cc
is_odd-hyphen_then (c ∷ s) h =
    let six =
      any-digits_then is_odd 6 (text_eq image_suffix) s digit-plain
        (λ t e. subst (λ u. any is_odd u ≡ false) (text_eq_sound image_suffix t e) refl) in
    ground arith

pub is_backup_name-plain : (n : Text) → is_backup_name n ≡ true → any is_odd n ≡ false
is_backup_name-plain n h =
    let (front, back) = &&-true (starts_with image_prefix n) _ h in
    let tail =
      any-digits_then is_odd 8 (hyphen_then (digits_then 6 (text_eq image_suffix))) (drop 12 n)
        digit-plain is_odd-hyphen_then back in
    subst (λ t. any is_odd t ≡ false) (sym (starts_with-eq image_prefix n front)) tail

pub is_candidate-odd : (n : Text) → is_candidate n ≡ true → any is_odd n ≡ true
is_candidate-odd n h = elim (Bool-cases (has_part (codes ".candidate-") n)) [
  | inl first ↦ any-has_part is_odd (codes ".candidate-") n first refl
  | inr not_first ↦ elim (Bool-cases (has_part (codes ".built-") n)) [
    | inl second ↦ any-has_part is_odd (codes ".built-") n second refl
    | inr not_second ↦
        any-has_part is_odd (codes ".rebake-src-") n (rw (not_first, not_second) at h) refl
  ]
]

pub is_sidecar-odd : (n : Text) → is_sidecar n ≡ true → any is_odd n ≡ true
is_sidecar-odd n h = any-drop is_odd 12 n (
    any-ends_with is_odd (codes ".qcow2.chain") (drop 12 n)
      (&&-true (starts_with image_prefix n) _ h).1 refl)

pub is_hold-odd : (n : Text) → is_hold n ≡ true → any is_odd n ≡ true
is_hold-odd n h = any-drop is_odd 12 n (
    any-has_part is_odd (codes ".qcow2.keep") (drop 12 n)
      (&&-true (starts_with image_prefix n) _ h).1 refl)

pub is_marker-odd : (n : Text) → is_marker n ≡ true → any is_odd n ≡ true
is_marker-odd n h = any-ends_with is_odd (codes ".chain.unrecorded") n h refl

-- Two ends of one text.
ends_with-append :
    (p x y : Text) → length p ≤ length y → ends_with p (x ++ y) ≡ true → ends_with p y ≡ true
ends_with-append p [] y long h = h
ends_with-append p (c ∷ x) y long h = elim (Bool-cases (text_eq p (c ∷ x ++ y))) [
  | inl whole ↦
      absurd (omega (arith, ap length (text_eq_sound p (c ∷ x ++ y) whole), length-append x y))
  | inr not_whole ↦ ends_with-append p x y long (rw not_whole at h)
]

pub ends_with-drop :
    (p : Text) (n : ℕ) (s : Text)
    → is_empty p ≡ false
    → ends_with p (drop n s) ≡ true
    → ends_with p s ≡ true
ends_with-drop p zero s filled h = h
ends_with-drop p (suc n) [] filled h = h
ends_with-drop p (suc n) (c ∷ s) filled h = ground (arith, ends_with-drop p n s filled h)

cut_last-eq : (p s front back : Text) → cut_last p s ≡ some (front, back) → s ≡ front ++ p ++ back
cut_last-eq p [] front back h = cc
cut_last-eq p (c ∷ s) front back h = elim (Option-cases (cut_last p s)) [
  | inr ((f, b), later) ↦
      let same : ◌≡◌ {A = Option (Text × Text)} (some (c ∷ f, b)) (some (front, back)) =
        rw later at h in
      let (e, k) : (c ∷ f ≡ front) × (b ≡ back) = (cc, cc) in
      subst (λ t. c ∷ s ≡ t ++ p ++ back) e
        (subst (λ t. c ∷ s ≡ c ∷ f ++ p ++ t) k (ap (c ∷◌) (cut_last-eq p s f b later)))
  | inl no_later ↦ elim (Bool-cases (starts_with p (c ∷ s))) [
    | inl here ↦
        let same : ◌≡◌ {A = Option (Text × Text)} (some ([], drop (length p) (c ∷ s)))
            (some (front, back)) =
          rw (no_later, here) at h in
        let (e, k) : ([] ≡ front) × (drop (length p) (c ∷ s) ≡ back) = (cc, cc) in
        subst (λ t. c ∷ s ≡ t ++ p ++ back) e
          (subst (λ t. c ∷ s ≡ p ++ t) k (starts_with-eq p (c ∷ s) here))
    | inr not_here ↦ cc (rw (no_later, not_here) at h)
  ]
]

-- What stands behind the mark of a build hold has no w in it.
abbrev is_w : ℕ → Bool
is_w c = c == b'w'

digits-plain : (s : Text) → all is_digit s ≡ true → any is_w s ≡ false
digits-plain [] h = refl
digits-plain (c ∷ s) h = ground (arith, digits-plain s)

with_digit-some :
    (c : ℕ) (r : Option (Text × Option Text)) → is_some (with_digit c r) ≡ true → is_some r ≡ true
with_digit-some c none h = h
with_digit-some c (some r) h = refl

read_builder-plain :
    (after : Bool) (s : Text) → is_some (read_builder after s) ≡ true → any is_w s ≡ false
read_builder-plain after [] h = refl
read_builder-plain after (c ∷ s) h = elim (Bool-cases (is_digit c)) [
  | inl digit ↦
      let more = with_digit-some c (read_builder true s) (rw digit at h) in
      ground (arith, read_builder-plain true s more)
  | inr no_digit ↦ elim (Bool-cases (after && c == b'.' && all_digits s)) [
    | inl point ↦ let (_, digits) = &&-true _ (all_digits s) point in ground (arith, digits-plain s)
    | inr no_point ↦ cc (rw (no_digit, no_point) at h)
  ]
]

split_mark :
    (front back : Text)
    → (front ++ build_mark) ++ back ≡ (front ++ codes ".keep.") ++ (codes "build-" ++ back)
split_mark front back =
    append_assoc front build_mark back
    ∙ sym (append_assoc front (codes ".keep.") (codes "build-" ++ back))

no_w :
    (x back : Text)
    → ends_with image_suffix (x ++ (codes "build-" ++ back)) ≡ true
    → any is_w back ≡ false
    → ⊥
no_w x back ends plain =
    let w =
      any-ends_with is_w image_suffix (codes "build-" ++ back)
        (ends_with-append image_suffix x (codes "build-" ++ back) (omega arith) ends) refl in
    cc

-- An image's name is not that of a build hold, nor a marker's.
pub is_image-build_hold : (n : Text) → is_image n ≡ true → build_hold n ≡ none
unfolding build_hold
is_image-build_hold n h = elim (Option-cases (cut_last build_mark n)) [
  | inl uncut ↦ rw (build_hold, uncut) refl
  | inr ((front, back), cut) ↦ elim (Option-cases (read_builder false back)) [
    | inl unread ↦ rw (build_hold, cut, build_hold_of, unread) refl
    | inr (r, read) ↦
        let whole = cut_last-eq build_mark n front back cut in
        let ends =
          ends_with-drop image_suffix 12 n refl (&&-true (starts_with image_prefix n) _ h).1 in
        absurd (
          no_w (front ++ codes ".keep.") back
            (subst (λ t. ends_with image_suffix t ≡ true) (whole ∙ split_mark front back) ends)
            (read_builder-plain false back (rw read refl)))
  ]
]

ends_with-last? : (p s : Text) → is_empty p ≡ false → ends_with p s ≡ true → last? s ≡ last? p
ends_with-last? p [] filled h = cc
ends_with-last? p (c ∷ []) filled h = elim (Bool-cases (text_eq p (c ∷ []))) [
  | inl whole ↦ ap last? (sym (text_eq_sound p (c ∷ []) whole))
  | inr not_whole ↦ cc (rw not_whole at h)
]
ends_with-last? p (c ∷ d ∷ s) filled h = elim (Bool-cases (text_eq p (c ∷ d ∷ s))) [
  | inl whole ↦ ap last? (sym (text_eq_sound p (c ∷ d ∷ s) whole))
  | inr not_whole ↦ ends_with-last? p (d ∷ s) filled (rw not_whole at h)
]

pub is_image-is_marker : (n : Text) → is_image n ≡ true → is_marker n ≡ false
is_image-is_marker n h = elim (Bool-cases (is_marker n)) [
  | inr other ↦ other
  | inl marker ↦
      let image =
        ends_with-drop image_suffix 12 n refl (&&-true (starts_with image_prefix n) _ h).1 in
      let two = ends_with-last? image_suffix n refl image in
      let d = ends_with-last? (codes ".chain.unrecorded") n refl marker in cc (sym two ∙ d)
]
