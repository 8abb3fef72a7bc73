-- ===== src/Preflight/Space.antt =====
-- The sums per filesystem against a specification without a dict.
use win_validator.Base.{
  ℕ, ◌+◌, ◌≤◌, ◌≡◌, ◌↔◌, refl, sym, ap, ◌∙◌, subst, inl, inr, true, false, List, [], ◌∷◌, Option,
  none, some, Dict, lookup, insert, lookup-insert, nat_eq, ◌==◌, ==_iff, ==_refl, arith, Bool-cases,
  Option-cases, if◌then◌else◌,
}
use win_validator.Preflight.{Demand, add_demand, per_filesystem, all_fit, enough_space}

-- What is needed on a device, and what is free at the first path there.
abbrev pub total : ℕ → List Demand → ℕ
total dev [] = 0
total dev (d ∷ ds) = if dev == d.device then d.amount + total dev ds else total dev ds

abbrev pub free_on : ℕ → List Demand → Option ℕ
free_on dev [] = none
free_on dev (d ∷ ds) = if dev == d.device then some d.free else free_on dev ds

abbrev merged : Option (ℕ × ℕ) → Option ℕ → ℕ → Option (ℕ × ℕ)
merged none none need = none
merged none (some free) need = some (free, need)
merged (some (free, before)) o need = some (free, before + need)

merged_nothing : (o : Option (ℕ × ℕ)) → merged o none 0 ≡ o
merged_nothing none = refl
merged_nothing (some (free, need)) = ap (λ n. some (free, n)) (omega arith)

merged_twice :
    (o : Option (ℕ × ℕ)) (free amount : ℕ) (later : Option ℕ) (rest : ℕ)
    → merged (merged o (some free) amount) later rest ≡ merged o (some free) (amount + rest)
merged_twice none free amount later rest = refl
merged_twice (some (f, need)) free amount later rest = ap (λ n. some (f, n)) (omega arith)

lookup-add_demand :
    (dev : ℕ) (d : Demand) (fs : Dict ℕ (ℕ × ℕ))
    → lookup dev (add_demand d fs) ≡ (
        if dev == d.device
        then merged (lookup d.device fs) (some d.free) d.amount
        else lookup dev fs)
lookup-add_demand dev d fs = elim (Option-cases (lookup d.device fs)) [
  | inl fresh ↦ rw (add_demand, fresh) (lookup-insert dev d.device (d.free, d.amount) fs)
  | inr ((free, need), there) ↦
      rw (add_demand, there) (lookup-insert dev d.device (free, need + d.amount) fs)
]

-- The dict behind all demands.
lookup-per_filesystem :
    (dev : ℕ) (ds : List Demand) (fs : Dict ℕ (ℕ × ℕ))
    → lookup dev (per_filesystem ds fs) ≡ merged (lookup dev fs) (free_on dev ds) (total dev ds)
lookup-per_filesystem dev [] fs = sym (merged_nothing (lookup dev fs))
lookup-per_filesystem dev (d ∷ ds) fs =
    lookup-per_filesystem dev ds (add_demand d fs)
    ∙ ap (λ o. merged o (free_on dev ds) (total dev ds)) (lookup-add_demand dev d fs)
    ∙ elim (Bool-cases (dev == d.device)) [
      | inl here ↦
          let there : lookup d.device fs ≡ lookup dev fs =
            ap (λ x. lookup x fs) (sym ((==_iff dev d.device).0 here)) in
          rw here (
            merged_twice (lookup d.device fs) d.free d.amount (free_on dev ds) (total dev ds)
            ∙ ap (λ o. merged o (some d.free) (d.amount + total dev ds)) there)
      | inr other ↦ rw other refl
    ]

-- No device stands twice in the dict.
abbrev Keys : Dict ℕ (ℕ × ℕ) → Type 0
Keys [] = Unit
Keys ((dev, v) ∷ fs) = (lookup dev fs ≡ none) × Keys fs

Keys-insert : (dev : ℕ) (v : ℕ × ℕ) (fs : Dict ℕ (ℕ × ℕ)) → Keys fs → Keys (insert dev v fs)
Keys-insert dev v [] k = (refl, tt)
Keys-insert dev v ((j, w) ∷ fs) (fresh, k) = elim (Bool-cases (dev == j)) [
  | inl same ↦ rw same (fresh, k)
  | inr other ↦
      let apart : (j == dev) ≡ false = ground arith in
      rw other (lookup-insert j dev v fs ∙ rw apart fresh, Keys-insert dev v fs k)
]

Keys-per_filesystem :
    (ds : List Demand) (fs : Dict ℕ (ℕ × ℕ)) → Keys fs → Keys (per_filesystem ds fs)
Keys-per_filesystem [] fs k = k
Keys-per_filesystem (d ∷ ds) fs k =
    Keys-per_filesystem ds (add_demand d fs) (elim (Option-cases (lookup d.device fs)) [
      | inl fresh ↦ rw (add_demand, fresh) (Keys-insert d.device (d.free, d.amount) fs k)
      | inr ((free, need), there) ↦
          rw (add_demand, there) (Keys-insert d.device (free, need + d.amount) fs k)
    ])

-- Every entry fits: what is looked up fits.
abbrev Fits : Dict ℕ (ℕ × ℕ) → Type 0
Fits fs = (dev free need : ℕ) → lookup dev fs ≡ some (free, need) → need ≤ free

all_fit-Fits : (fs : Dict ℕ (ℕ × ℕ)) → all_fit fs ≡ true → Fits fs
all_fit-Fits [] h dev free need found = cc
all_fit-Fits ((j, (f, n)) ∷ fs) h dev free need found = elim (Bool-cases (dev == j)) [
  | inl here ↦
      let same : ◌≡◌ {A = Option (ℕ × ℕ)} (some (f, n)) (some (free, need)) = rw here at found in
      let (e, k) : (f ≡ free) × (n ≡ need) = (cc, cc) in ground arith
  | inr other ↦ all_fit-Fits fs (ground arith) dev free need (rw other at found)
]

Fits-all_fit : (fs : Dict ℕ (ℕ × ℕ)) → Keys fs → Fits fs → all_fit fs ≡ true
Fits-all_fit [] k h = refl
Fits-all_fit ((j, (f, n)) ∷ fs) (fresh, k) h =
    let fits : n ≤ f = h j f n (rw ==_refl refl) in
    let rest =
      Fits-all_fit fs k λ dev free need found.
        h dev free need (later_found dev j (f, n) fs free need fresh found) in
    ground arith
  where
    later_found :
        (dev j : ℕ) (v : ℕ × ℕ) (fs : Dict ℕ (ℕ × ℕ)) (free need : ℕ)
        → lookup j fs ≡ none
        → lookup dev fs ≡ some (free, need)
        → lookup dev ((j, v) ∷ fs) ≡ some (free, need)
    later_found dev j v fs free need fresh found = elim (Bool-cases (dev == j)) [
      | inl same ↦
          cc (sym found ∙ subst (λ d. lookup d fs ≡ none) (sym ((==_iff dev j).0 same)) fresh)
      | inr other ↦ rw other found
    ]

-- The check of the space passes exactly if on every device that the run writes to, the sum of all that
-- it needs there is free (as read at the first path on it).
pub enough_space_iff :
    (ds : List Demand)
    → (enough_space ds ≡ true) ↔ ((dev free : ℕ) → free_on dev ds ≡ some free → total dev ds ≤ free)
unfolding enough_space
enough_space_iff ds = (to, from)
  where
    to :
        all_fit (per_filesystem ds []) ≡ true
        → (dev free : ℕ) → free_on dev ds ≡ some free
        → total dev ds ≤ free
    to h dev free there =
        all_fit-Fits (per_filesystem ds []) h dev free (total dev ds)
          (lookup-per_filesystem dev ds [] ∙ rw there refl)

    from :
        ((dev free : ℕ) → free_on dev ds ≡ some free → total dev ds ≤ free)
        → all_fit (per_filesystem ds []) ≡ true
    from h =
        Fits-all_fit (per_filesystem ds []) (Keys-per_filesystem ds [] tt) λ dev free need found.
          by_free dev free need (free_on dev ds) refl
            (sym (lookup-per_filesystem dev ds []) ∙ found)
      where
        by_free :
            (dev free need : ℕ) (o : Option ℕ)
            → free_on dev ds ≡ o
            → merged none (free_on dev ds) (total dev ds) ≡ some (free, need)
            → need ≤ free
        by_free dev free need none e found = cc (rw e at found)
        by_free dev free need (some f) e found =
            let same : ◌≡◌ {A = Option (ℕ × ℕ)} (some (f, total dev ds)) (some (free, need)) =
              rw e at found in
            let (k, l) : (f ≡ free) × (total dev ds ≡ need) = (cc, cc) in omega (arith, h dev f e)
