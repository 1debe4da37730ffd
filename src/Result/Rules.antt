-- ===== src/Result/Rules.antt =====
-- Postconditions of fallible code, a rule for each way to build it, and inversions.
use pf_core.Prelude.{
  ◌⊎◌, inl, inr, ◌≡◌, refl, subst, Bool, true, false, Option, none, some, if◌then◌else◌,
}
use pf_core.Result.{Exn, Result, ok, err, require, fetch, ◌>>=◌}

-- whatever is returned satisfies `P`
pub record Returns {ℓ κ} {A : Type ℓ} (P : A → Type κ) (r : Result A) : Type (ℓ ⊔ κ) where
  pub at : (a : A) → r ≡ ok a → P a

module _ {ℓ κ} {A : Type ℓ} {P : A → Type κ} where
  pub Returns-ok : (a : A) → P a → Returns P (ok a)
  Returns-ok a h = record { at = λ b e. subst P (ok_inj a b e) h }
    where
      ok_inj : (a b : A) → ok a ≡ ok b → a ≡ b
      ok_inj a b e = cc

  pub Returns-err : (e : Exn) → Returns P (err e)
  Returns-err e = record { at = λ b h. absurd (cc) }

  pub Returns-if :
      (b : Bool) (m n : Result A)
      → (b ≡ true → Returns P m)
      → (b ≡ false → Returns P n)
      → Returns P (if b then m else n)
  Returns-if true m n hm hn = hm refl
  Returns-if false m n hm hn = hn refl

pub Returns-bind {ℓ κ μ} :
    {A : Type ℓ} {B : Type κ} {P : B → Type μ} (m : Result A) (f : A → Result B)
    → ((a : A) → m ≡ ok a → Returns P (f a))
    → Returns P (m >>= f)
unfolding ◌>>=◌
Returns-bind (ok a) f h = h a refl
Returns-bind (err e) f h = Returns-err e

pub fetch-eq-ok {ℓ} : {A : Type ℓ} (o : Option A) (e : Exn) {a : A} → fetch o e ≡ ok a → o ≡ some a
fetch-eq-ok none e h = absurd (cc)
fetch-eq-ok (some b) e h = cc

pub require-eq-ok : (b : Bool) (e : Exn) {u : Unit {0}} → require b e ≡ ok u → b ≡ true
require-eq-ok true e h = refl
require-eq-ok false e h = absurd (cc)

pub Result-cases {ℓ} :
    {A : Type ℓ} (r : Result A) → ((e : Exn) × (r ≡ err e)) ⊎ ((a : A) × (r ≡ ok a))
Result-cases (ok a) = inr (a, refl)
Result-cases (err e) = inl (e, refl)

pub ok_injective {ℓ} : {A : Type ℓ} (a b : A) → ok a ≡ ok b → a ≡ b
ok_injective a b e = cc
