-- ===== src/Base/Raising.antt =====
-- What a call that may raise gives back.
use mathlib.Core.Path.{◌≡◌, refl}
use mathlib.Core.Logic.{◌⊎◌, inl, inr}

pub data Outcome {ℓ} (E : Type ℓ) (A : Type ℓ) : Type ℓ where
  ok : A → Outcome E A
  raised : E → Outcome E A

infixl 5 ◌>>=◌ ◌>>◌
abbrev pub ◌>>=◌ {ℓ} : {E A B : Type ℓ} → Outcome E A → (A → Outcome E B) → Outcome E B
ok x >>= k = k x
raised e >>= k = raised e

abbrev pub ◌>>◌ {ℓ} : {E A B : Type ℓ} → Outcome E A → Outcome E B → Outcome E B
m >> k = m >>= λ _. k

-- The result of a call that returns has the property; a raise has no result.
abbrev pub Ensures {ℓ κ} : {E A : Type ℓ} → (A → Type κ) → Outcome E A → Type κ
Ensures P (ok a) = P a
Ensures P (raised e) = Unit

pub Ensures->>= {ℓ κ μ} :
    {E A B : Type ℓ} (P : A → Type κ) (Q : B → Type μ) (m : Outcome E A) (f : A → Outcome E B)
    → Ensures P m
    → ((a : A) → P a → Ensures Q (f a))
    → Ensures Q (m >>= f)
Ensures->>= P Q (ok a) f h k = k a h
Ensures->>= P Q (raised e) f h k = tt

pub Outcome-cases {ℓ} :
    {E A : Type ℓ} (r : Outcome E A) → ((a : A) × (r ≡ ok a)) ⊎ ((e : E) × (r ≡ raised e))
Outcome-cases (ok a) = inl (a, refl)
Outcome-cases (raised e) = inr (e, refl)

-- Inversion of a call that went through: what came before it did, too.
pub >>=-eq-ok {ℓ} :
    {E A B : Type ℓ} (call : Outcome E A) (rest : A → Outcome E B) {last : B}
    → (call >>= rest) ≡ ok last
    → (first : A) × (call ≡ ok first) × (rest first ≡ ok last)
>>=-eq-ok (ok first) rest h = (first, refl, h)
>>=-eq-ok (raised e) rest h = cc

pub >>-eq-ok {ℓ} :
    {E A B : Type ℓ} (call : Outcome E A) (rest : Outcome E B) {last : B}
    → (call >> rest) ≡ ok last
    → rest ≡ ok last
>>-eq-ok (ok first) rest h = h
>>-eq-ok (raised e) rest h = cc
