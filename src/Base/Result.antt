-- ===== src/Base/Result.antt =====
-- A value or an error, as Go functions return the pair of them.
use mathlib.Core.Path.{◌≡◌, refl, subst}
use mathlib.Core.Logic.{◌⊎◌, inl, inr}
use mathlib.Core.Bool.{Bool, true, false}

pub data Result {ℓ} (E A : Type ℓ) : Type ℓ where
  ok : A → Result E A
  err : E → Result E A

pub Result-cases {ℓ} :
    {E A : Type ℓ} (r : Result E A) → ((a : A) × (r ≡ ok a)) ⊎ ((e : E) × (r ≡ err e))
Result-cases (ok a) = inl (a, refl)
Result-cases (err e) = inr (e, refl)

-- the next step, unless there was an error
infixl 5 ◌>>=◌
unfoldable pub ◌>>=◌ : {E A B : Type 0} → Result E A → (A → Result E B) → Result E B
r >>= next = elim r [ ok a ↦ next a | err e ↦ err e ]

-- an early return with an error
abbrev pub refuse : {E : Type 0} → Bool → E → Result E (Unit {0})
refuse true e = err e
refuse false e = ok tt

-- What a result has, if it is a value.
abbrev pub IsEnsured : {E A : Type 0} → (A → Type 0) → Result E A → Type 0
IsEnsured P (ok a) = P a
IsEnsured P (err e) = Unit

pub >>=-IsEnsured :
    {E A B : Type 0} (P : B → Type 0) (r : Result E A) (next : A → Result E B)
    → ((a : A) → r ≡ ok a → IsEnsured P (next a))
    → IsEnsured P (r >>= next)
unfolding ◌>>=◌
>>=-IsEnsured P (ok a) next h = h a refl
>>=-IsEnsured P (err e) next h = tt

pub ok-IsEnsured :
    {E A : Type 0} (P : A → Type 0) (r : Result E A) (a : A) → IsEnsured P r → r ≡ ok a → P a
ok-IsEnsured P r a h e = subst (IsEnsured P) e h

pub IsEnsured-ok :
    {E A : Type 0} (P : A → Type 0) (r : Result E A) → ((a : A) → r ≡ ok a → P a) → IsEnsured P r
IsEnsured-ok P (ok a) h = h a refl
IsEnsured-ok P (err e) h = tt

pub refuse-ok : {E : Type 0} (c : Bool) (e : E) (u : Unit {0}) → refuse c e ≡ ok u → c ≡ false
refuse-ok true e u h = absurd cc
refuse-ok false e u h = refl

-- Where a step and the next one give a value, so does the first.
pub >>=-ok :
    {E A B : Type 0} (r : Result E A) (next : A → Result E B) {b : B}
    → (r >>= next) ≡ ok b
    → (a : A) × (r ≡ ok a) × (next a ≡ ok b)
unfolding ◌>>=◌
>>=-ok (ok a) next h = (a, refl, h)
>>=-ok (err e) next h = absurd cc
