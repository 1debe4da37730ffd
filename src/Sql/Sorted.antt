-- ===== src/Sql/Sorted.antt =====
-- Laws of ORDER BY.
use mathlib.Core.List.{Memᴰ}
use mathlib.Core.Option.{some-injective}
use pf_core.Prelude.{
  arith, some, none, ◌≢◌, subst, All-mem, ◌≡◌, refl, Bool, true, false, List, [], ◌∷◌, All,
  Bool-cases, inl, inr,
}
use pf_core.Sql.{first, place, order_by}

-- Each row may stand in front of all that follow it.
abbrev pub IsSorted {ℓ} : {A : Type ℓ} → (A → A → Bool) → List A → Type ℓ
IsSorted before [] = Unit
IsSorted before (x ∷ xs) = All (λ y. before x y ≡ true) xs × IsSorted before xs

module _ {ℓ κ} {A : Type ℓ} (P : A → Type κ) (before : A → A → Bool) where
  All-place : (x : A) (xs : List A) → P x → All P xs → All P (place before x xs)
  unfolding place
  All-place x [] px h = (px, tt)
  All-place x (y ∷ ys) px h = elim (Bool-cases (before y x)) [
    | inl e ↦ rw e (h.0, All-place x ys px h.1)
    | inr e ↦ rw e (px, h)
  ]

  pub All-order_by : (xs : List A) → All P xs → All P (order_by before xs)
  unfolding order_by
  All-order_by [] h = tt
  All-order_by (x ∷ xs) h = All-place x (order_by before xs) h.0 (All-order_by xs h.1)

module _ {ℓ} {A : Type ℓ} (before : A → A → Bool) where
  place_some : (x : A) (xs : List A) → first (λ y. true) (place before x xs) ≢ none
  unfolding place first
  place_some x [] e = cc
  place_some x (y ∷ ys) e = ground arith

  -- it finds none only in an empty table
  pub first-order_by-none :
      (xs : List A) {x : A} → first (λ y. true) (order_by before xs) ≡ none → ¬ Memᴰ x xs
  unfolding order_by
  first-order_by-none [] e m = elim m [ ]
  first-order_by-none (y ∷ ys) e m = place_some y (order_by before ys) e

  mem-place_self : (x : A) (xs : List A) → Memᴰ x (place before x xs)
  unfolding place
  mem-place_self x [] = Memᴰ.head refl
  mem-place_self x (y ∷ ys) = elim (Bool-cases (before y x)) [
    | inl e ↦ rw e (Memᴰ.tail (mem-place_self x ys))
    | inr e ↦ rw e (Memᴰ.head refl)
  ]

  mem-place : (x : A) (xs : List A) {z : A} → Memᴰ z xs → Memᴰ z (place before x xs)
  unfolding place
  mem-place x [] m = elim m [ ]
  mem-place x (y ∷ ys) (Memᴰ.head e) = elim (Bool-cases (before y x)) [
    | inl t ↦ rw t (Memᴰ.head e)
    | inr t ↦ rw t (Memᴰ.tail (Memᴰ.head e))
  ]
  mem-place x (y ∷ ys) (Memᴰ.tail m) = elim (Bool-cases (before y x)) [
    | inl t ↦ rw t (Memᴰ.tail (mem-place x ys m))
    | inr t ↦ rw t (Memᴰ.tail (Memᴰ.tail m))
  ]

  pub mem-order_by : (xs : List A) {z : A} → Memᴰ z xs → Memᴰ z (order_by before xs)
  unfolding order_by
  mem-order_by [] m = elim m [ ]
  mem-order_by (x ∷ xs) (Memᴰ.head e) = rw e (mem-place_self x (order_by before xs))
  mem-order_by (x ∷ xs) (Memᴰ.tail m) = mem-place x (order_by before xs) (mem-order_by xs m)

module _ {ℓ} {A : Type ℓ} (before : A → A → Bool)
    (total : (x y : A) → before x y ≡ false → before y x ≡ true)
    (trans : (x y z : A) → before x y ≡ true → before y z ≡ true → before x z ≡ true) where
  All-before :
      (x y : A) (ys : List A)
      → before x y ≡ true
      → All (λ z. before y z ≡ true) ys
      → All (λ z. before x z ≡ true) ys
  All-before x y [] e h = tt
  All-before x y (z ∷ zs) e h = (trans x y z e h.0, All-before x y zs e h.1)

  place-IsSorted : (x : A) (xs : List A) → IsSorted before xs → IsSorted before (place before x xs)
  unfolding place
  place-IsSorted x [] h = (tt, tt)
  place-IsSorted x (y ∷ ys) h = elim (Bool-cases (before y x)) [
    | inl e ↦ rw e (All-place (λ z. before y z ≡ true) before x ys e h.0, place-IsSorted x ys h.1)
    | inr e ↦ rw e ((total y x e, All-before x y ys (total y x e) h.0), h)
  ]

  pub order_by-IsSorted : (xs : List A) → IsSorted before (order_by before xs)
  unfolding order_by
  order_by-IsSorted [] = tt
  order_by-IsSorted (x ∷ xs) = place-IsSorted x (order_by before xs) (order_by-IsSorted xs)

  before_self : (x : A) → before x x ≡ true
  before_self x = elim (Bool-cases (before x x)) [ inl e ↦ e | inr e ↦ total x x e ]

  head_before :
      (xs : List A) {r x : A}
      → IsSorted before xs
      → first (λ y. true) xs ≡ some r
      → Memᴰ x xs
      → before r x ≡ true
  unfolding first
  head_before [] s e m = elim m [ ]
  head_before (y ∷ ys) {r} {x} s e (Memᴰ.head q) =
      subst (λ z. before z x ≡ true) (some-injective y r e) (rw q (before_self y))
  head_before (y ∷ ys) {r} {x} s e (Memᴰ.tail m) =
      subst (λ z. before z x ≡ true) (some-injective y r e)
        (All-mem (λ z. before y z ≡ true) ys s.0 m)

  -- ORDER BY … LIMIT 1 finds a row that may stand in front of every row.
  pub first-order_by_least :
      (xs : List A) {r x : A}
      → first (λ y. true) (order_by before xs) ≡ some r
      → Memᴰ x xs
      → before r x ≡ true
  first-order_by_least xs e m =
      head_before (order_by before xs) (order_by-IsSorted xs) e (mem-order_by before xs m)
