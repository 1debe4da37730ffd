-- ===== src/Sql/Keys.antt =====
-- Tables whose keys ascend below a counter, under insert, update and delete.
use mathlib.Core.List.{Memᴰ}
use pf_core.Prelude.{
  sym, ap, ◌∙◌, All-mem, ℕ, ◌+◌, ◌<◌, ◌≡◌, refl, Bool, true, false, none, some, List, [], ◌∷◌, ◌++◌,
  arith, ltb, ◌==◌, All, All-append, Bool-cases, inl, inr,
}
use pf_core.Sql.{select, first, update, delete}
use pf_core.Sql.Sorted.{IsSorted}
use pf_core.Sql.Rows.{All-update, All-select}

module _ {ℓ} {A : Type ℓ} (before : A → A → Bool) where
  pub IsSorted-append :
      (xs : List A) (z : A)
      → IsSorted before xs
      → All (λ x. before x z ≡ true) xs
      → IsSorted before (xs ++ z ∷ [])
  IsSorted-append [] z s h = (tt, tt)
  IsSorted-append (x ∷ xs) z s h =
      (All-append (λ y. before x y ≡ true) xs (z ∷ []) s.0 (h.0, tt), IsSorted-append xs z s.1 h.1)

  pub IsSorted-select :
      (p : A → Bool) (xs : List A) → IsSorted before xs → IsSorted before (select p xs)
  unfolding select
  IsSorted-select p [] s = tt
  IsSorted-select p (x ∷ xs) s = elim (Bool-cases (p x)) [
    | inl e ↦ rw e (All-select (λ y. before x y ≡ true) p xs s.0, IsSorted-select p xs s.1)
    | inr e ↦ rw e (IsSorted-select p xs s.1)
  ]

  -- the rows after an update, seen from a row that the update may have changed too
  All-seen :
      (p : A → Bool) (f : A → A) (x x' : A) (xs : List A)
      → ((y : A) → before x' (f y) ≡ before x y)
      → ((y : A) → before x' y ≡ before x y)
      → All (λ y. before x y ≡ true) xs
      → All (λ y. before x' y ≡ true) (update p f xs)
  unfolding update
  All-seen p f x x' [] hf h s = tt
  All-seen p f x x' (y ∷ ys) hf h s = elim (Bool-cases (p y)) [
    | inl e ↦ rw e (rw hf s.0, All-seen p f x x' ys hf h s.1)
    | inr e ↦ rw e (rw h s.0, All-seen p f x x' ys hf h s.1)
  ]

  pub IsSorted-update :
      (p : A → Bool) (f : A → A) (xs : List A)
      → ((x y : A) → before (f x) y ≡ before x y)
      → ((x y : A) → before x (f y) ≡ before x y)
      → IsSorted before xs
      → IsSorted before (update p f xs)
  unfolding update
  IsSorted-update p f [] hl hr s = tt
  IsSorted-update p f (x ∷ xs) hl hr s = elim (Bool-cases (p x)) [
    | inl e ↦ rw e (
      All-seen p f x (f x) xs (λ y. rw (hl x (f y)) (hr x y)) (hl x) s.0,
      IsSorted-update p f xs hl hr s.1,
    )
    | inr e ↦ rw e (All-seen p f x x xs (hr x) (λ y. refl) s.0, IsSorted-update p f xs hl hr s.1)
  ]

module _ {ℓ} {A : Type ℓ} (key : A → ℕ) where
  abbrev pub key_before : A → A → Bool
  key_before x y = ltb (key x) (key y)

  -- keys ascend, and stay below the counter
  abbrev pub IsKeyed : ℕ → List A → Type ℓ
  IsKeyed n xs = IsSorted key_before xs × All (λ x. key x < n) xs

  All-below :
      (n : ℕ) (z : A) (xs : List A)
      → key z ≡ n
      → All (λ x. key x < n) xs
      → All (λ x. key_before x z ≡ true) xs
  All-below n z [] e h = tt
  All-below n z (x ∷ xs) e h = (ground arith, All-below n z xs e h.1)

  All-weaken : (n : ℕ) (xs : List A) → All (λ x. key x < n) xs → All (λ x. key x < n + 1) xs
  All-weaken n [] h = tt
  All-weaken n (x ∷ xs) h = (omega arith, All-weaken n xs h.1)

  pub IsKeyed-append :
      (n : ℕ) (xs : List A) (z : A) → key z ≡ n → IsKeyed n xs → IsKeyed (n + 1) (xs ++ z ∷ [])
  IsKeyed-append n xs z e h = (
    IsSorted-append key_before xs z h.0 (All-below n z xs e h.1),
    All-append (λ x. key x < n + 1) xs (z ∷ []) (All-weaken n xs h.1) (omega arith, tt),
  )

  pub IsKeyed-select : (n : ℕ) (p : A → Bool) (xs : List A) → IsKeyed n xs → IsKeyed n (select p xs)
  IsKeyed-select n p xs h =
      (IsSorted-select key_before p xs h.0, All-select (λ x. key x < n) p xs h.1)

  pub IsKeyed-update :
      (n : ℕ) (p : A → Bool) (f : A → A) (xs : List A)
      → ((x : A) → key (f x) ≡ key x)
      → IsKeyed n xs
      → IsKeyed n (update p f xs)
  IsKeyed-update n p f xs same h = (
    IsSorted-update key_before p f xs (λ x y. rw (same x)) (λ x y. rw (same y)) h.0,
    All-update (λ x. key x < n) p f xs (λ x _ hx. rw (same x) hx) h.1,
  )

  -- a row with this key is there
  abbrev pub has : ℕ → List A → Bool
  has k xs = elim (first (λ x. key x == k) xs) [ none ↦ false | some _ ↦ true ]

  pub has-update :
      (k : ℕ) (p : A → Bool) (f : A → A) (xs : List A)
      → ((x : A) → key (f x) ≡ key x)
      → has k (update p f xs) ≡ has k xs
  unfolding first update
  has-update k p f [] same = refl
  has-update k p f (x ∷ xs) same = ground (arith, same x, has-update k p f xs same)

  pub has-append : (k : ℕ) (xs ys : List A) → has k xs ≡ true → has k (xs ++ ys) ≡ true
  unfolding first
  has-append k [] ys h = absurd (cc)
  has-append k (x ∷ xs) ys h = ground (arith, has-append k xs ys)

  -- a key of the table that no deleted row has is still there after the deletion
  pub has-split :
      (k : ℕ) (p : A → Bool) (xs : List A)
      → has k xs ≡ true
      → has k (select p xs) ≡ false
      → has k (delete p xs) ≡ true
  unfolding first select delete
  has-split k p [] h g = absurd (cc)
  has-split k p (x ∷ xs) h g = ground (arith, has-split k p xs)

  -- a key names one row
  pub key_unique :
      (xs : List A) {x y : A}
      → IsSorted key_before xs
      → Memᴰ x xs
      → Memᴰ y xs
      → key x ≡ key y
      → x ≡ y
  key_unique [] s m m' e = elim m [ ]
  key_unique (z ∷ zs) s (Memᴰ.head p) (Memᴰ.head q) e = p ∙ sym q
  key_unique (z ∷ zs) {x} {y} s (Memᴰ.head p) (Memᴰ.tail m) e =
      absurd (ground (arith, ap key p, All-mem (λ w. key_before z w ≡ true) zs s.0 m))
  key_unique (z ∷ zs) {x} {y} s (Memᴰ.tail m) (Memᴰ.head q) e =
      absurd (ground (arith, ap key q, All-mem (λ w. key_before z w ≡ true) zs s.0 m))
  key_unique (z ∷ zs) s (Memᴰ.tail m) (Memᴰ.tail m') e = key_unique zs s.1 m m' e
