-- ===== src/Sql.antt =====
-- What the repositories use of a table: SELECT … WHERE, UPDATE … WHERE, DELETE … WHERE, ORDER BY and
-- LIMIT over a list of rows in insertion order. `ORDER BY` is stable here.
pub mod Rows
pub mod Sorted
pub mod Keys
use pf_core.Prelude.{ℕ, suc, Bool, not, Option, none, some, List, [], ◌∷◌, if◌then◌else◌}

module _ {ℓ} {A : Type ℓ} where
  -- SELECT * FROM rows WHERE p
  unfoldable pub select : (A → Bool) → List A → List A
  select p [] = []
  select p (x ∷ xs) = let rest = select p xs in if p x then x ∷ rest else rest

  -- the first of them (`fetchone`)
  unfoldable pub first : (A → Bool) → List A → Option A
  first p [] = none
  first p (x ∷ xs) = let rest = first p xs in if p x then some x else rest

  -- UPDATE rows SET f WHERE p
  unfoldable pub update : (A → Bool) → (A → A) → List A → List A
  update p f [] = []
  update p f (x ∷ xs) = (if p x then f x else x) ∷ update p f xs

  -- the `rowcount` of an UPDATE or DELETE
  unfoldable pub rowcount : (A → Bool) → List A → ℕ
  rowcount p [] = 0
  rowcount p (x ∷ xs) = let rest = rowcount p xs in if p x then suc rest else rest

  -- DELETE FROM rows WHERE p
  unfoldable pub delete : (A → Bool) → List A → List A
  unfolding select
  delete p = select (λ x. not (p x))

  unfoldable pub place : (A → A → Bool) → A → List A → List A
  place before x [] = x ∷ []
  place before x (y ∷ ys) =
      let rest = place before x ys in if before y x then y ∷ rest else x ∷ y ∷ ys

  -- ORDER BY, for a test `before y x` that says that row `y` may stay in front of row `x`
  unfoldable pub order_by : (A → A → Bool) → List A → List A
  unfolding place
  order_by before [] = []
  order_by before (x ∷ xs) = place before x (order_by before xs)
