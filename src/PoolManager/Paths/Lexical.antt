-- ===== src/PoolManager/Paths/Lexical.antt =====
-- `_rel_parts` gives a path that cannot leave the root.
use win_validator.Base.{
  ℕ, ◌≡◌, ◌≢◌, ◌⊎◌, inl, inr, refl, false, List, [], ◌∷◌, ◌++◌, some, Text, ok, text_eq,
  text_eq_sound, mem_code, is_empty, ◌==◌, All, arith, reverse, subst, Bool-cases, Option-cases,
}
use mathlib.Core.List.{reverse_aux}
use win_validator.PoolManager.Paths.{
  components, components_from, is_dot, is_dotdot, drop_one, normalise, abspath, is_double_rooted,
  is_absolute, relative_to, non_empty, rel_parts,
}

-- A name that an open by descriptor takes one step with, downwards.
abbrev pub IsPlain : Text → Type 0
IsPlain w =
    (is_empty w ≡ false) × (is_dot w ≡ false) × (is_dotdot w ≡ false) × (mem_code b'/' w ≡ false)

abbrev IsWord : Text → Type 0
IsWord w = (is_empty w ≡ false) × (mem_code b'/' w ≡ false)

mem_code-snoc :
    (word : Text) (c : ℕ)
    → mem_code b'/' word ≡ false
    → (c == b'/') ≡ false
    → mem_code b'/' (word ++ c ∷ []) ≡ false
mem_code-snoc [] c h e = ground arith
mem_code-snoc (d ∷ word) c h e = ground (arith, mem_code-snoc word c)

components_from-IsWord :
    (word s : Text) → mem_code b'/' word ≡ false → All IsWord (components_from word s)
components_from-IsWord word [] h = elim (Bool-cases (is_empty word)) [
  | inl e ↦ rw e tt
  | inr e ↦ rw e ((e, h), tt)
]
components_from-IsWord word (c ∷ s) h = elim (Bool-cases (c == b'/')) [
  | inl slash ↦ elim (Bool-cases (is_empty word)) [
    | inl e ↦ rw (slash, e) (components_from-IsWord [] s refl)
    | inr e ↦ rw (slash, e) ((e, h), components_from-IsWord [] s refl)
  ]
  | inr other ↦ rw other (components_from-IsWord (word ++ c ∷ []) s (mem_code-snoc word c h other))
]

All-reverse_aux :
    (P : Text → Type 0) (xs ys : List Text) → All P xs → All P ys → All P (reverse_aux xs ys)
All-reverse_aux P [] ys h k = k
All-reverse_aux P (x ∷ xs) ys h k = All-reverse_aux P xs (x ∷ ys) h.1 (h.0, k)

All-drop_one : (P : Text → Type 0) (xs : List Text) → All P xs → All P (drop_one xs)
All-drop_one P [] h = tt
All-drop_one P (x ∷ xs) h = h.1

normalise-IsPlain :
    (stack ws : List Text) → All IsPlain stack → All IsWord ws → All IsPlain (normalise stack ws)
unfolding normalise
normalise-IsPlain stack [] h k = All-reverse_aux IsPlain stack [] h tt
normalise-IsPlain stack (w ∷ ws) h k = elim (Bool-cases (is_dot w)) [
  | inl dot ↦ rw dot (normalise-IsPlain stack ws h k.1)
  | inr name ↦ elim (Bool-cases (is_dotdot w)) [
    | inl dots ↦
        rw (name, dots) (normalise-IsPlain (drop_one stack) ws (All-drop_one IsPlain stack h) k.1)
    | inr plain ↦
        rw (name, plain) (normalise-IsPlain (w ∷ stack) ws ((k.0.0, name, plain, k.0.1), h) k.1)
  ]
]

abspath-IsPlain : (cwd : List Text) (p : Text) → All IsPlain cwd → All IsPlain (abspath cwd p)
unfolding abspath
abspath-IsPlain cwd p h = elim (Bool-cases (is_absolute p)) [
  | inl absolute ↦
      rw absolute (normalise-IsPlain [] (components p) tt (components_from-IsWord [] p refl))
  | inr relative ↦ rw relative (
      normalise-IsPlain (reverse cwd) (components p) (All-reverse_aux IsPlain cwd [] h tt)
        (components_from-IsWord [] p refl))
]

relative_to-eq-some :
    (base p : List Text) {rest : List Text} → relative_to base p ≡ some rest → p ≡ base ++ rest
unfolding relative_to
relative_to-eq-some [] p h = cc
relative_to-eq-some (b ∷ bs) [] h = cc
relative_to-eq-some (b ∷ bs) (w ∷ ws) h = elim (Bool-cases (text_eq b w)) [
  | inl same ↦ cc (text_eq_sound b w same, relative_to-eq-some bs ws (rw (relative_to, same) at h))
  | inr other ↦ cc (rw (relative_to, other) at h)
]

All-append_right : (P : Text → Type 0) (xs ys : List Text) → All P (xs ++ ys) → All P ys
All-append_right P [] ys h = h
All-append_right P (x ∷ xs) ys h = All-append_right P xs ys h.1

plain_rest :
    (cwd base : List Text) (p : Text) {rest : List Text}
    → All IsPlain cwd
    → relative_to base (abspath cwd p) ≡ some rest
    → All IsPlain rest × (abspath cwd p ≡ base ++ rest)
plain_rest cwd base p h e =
    let same = relative_to-eq-some base (abspath cwd p) e in
    (All-append_right IsPlain base _ (subst (All IsPlain) same (abspath-IsPlain cwd p h)), same)

non_empty-eq-ok :
    (rest : List Text) {parts : List Text}
    → non_empty rest ≡ ok parts
    → (rest ≡ parts) × (parts ≢ [])
non_empty-eq-ok [] h = cc
non_empty-eq-ok (w ∷ ws) h = ground arith

-- Whatever text the ingress wrote as a result_dir: the components that `_rel_parts` gives are not
-- empty, and each is a plain name (not empty, "." or "..", without a slash), so that a walk along
-- them from the root can only go down; and the absolute path is the root, as written or as
-- resolved, followed by them. The working directory is a normal absolute path.
pub rel_parts-IsPlain :
    (cwd root resolved : List Text) (p : Text) {parts : List Text}
    → All IsPlain cwd
    → rel_parts cwd root resolved p ≡ ok parts
    → (parts ≢ [])
      × All IsPlain parts
      × ((abspath cwd p ≡ root ++ parts) ⊎ (abspath cwd p ≡ resolved ++ parts))
unfolding rel_parts
rel_parts-IsPlain cwd root resolved p h e = elim (Bool-cases (is_double_rooted p)) [
  | inl double ↦ cc (rw (rel_parts, double) at e)
  | inr single ↦ elim (Option-cases (relative_to root (abspath cwd p))) [
    | inl outside ↦ elim (Option-cases (relative_to resolved (abspath cwd p))) [
      | inl also ↦ cc (rw (rel_parts, single, outside, also) at e)
      | inr (rest, found) ↦
          let (same, some_part) =
            non_empty-eq-ok rest (rw (rel_parts, single, outside, found) at e) in
          let (plain, whole) = plain_rest cwd resolved p h found in
          (
            some_part,
            subst (All IsPlain) same plain,
            inr (subst (λ r. abspath cwd p ≡ resolved ++ r) same whole),
          )
    ]
    | inr (rest, found) ↦
        let (same, some_part) = non_empty-eq-ok rest (rw (rel_parts, single, found) at e) in
        let (plain, whole) = plain_rest cwd root p h found in
        (
          some_part,
          subst (All IsPlain) same plain,
          inl (subst (λ r. abspath cwd p ≡ root ++ r) same whole),
        )
  ]
]
