-- ===== src/Sql/Rows.antt =====
-- Laws of WHERE: what a selection, an update or a deletion keeps, and what a lookup finds after one.
use mathlib.Core.Option
use mathlib.Core.List.{Memᴰ}
use pf_core.Prelude.{
  false, ◌≢◌, ◌+◌, ◌≡◌, refl, subst, Bool, true, not, none, some, List, [], ◌∷◌, ◌++◌, arith,
  length, All, Bool-cases, inl, inr, if◌then◌else◌,
}
use pf_core.Sql.{select, first, update, rowcount, delete}

module _ {ℓ κ} {A : Type ℓ} (P : A → Type κ) where
  pub All-update :
      (p : A → Bool) (f : A → A) (xs : List A)
      → ((x : A) → p x ≡ true → P x → P (f x))
      → All P xs
      → All P (update p f xs)
  unfolding update
  All-update p f [] keep h = tt
  All-update p f (x ∷ xs) keep h = elim (Bool-cases (p x)) [
    | inl e ↦ rw e (keep x e h.0, All-update p f xs keep h.1)
    | inr e ↦ rw e (h.0, All-update p f xs keep h.1)
  ]

  pub All-select : (p : A → Bool) (xs : List A) → All P xs → All P (select p xs)
  unfolding select
  All-select p [] h = tt
  All-select p (x ∷ xs) h = elim (Bool-cases (p x)) [
    | inl e ↦ rw e (h.0, All-select p xs h.1)
    | inr e ↦ rw e (All-select p xs h.1)
  ]

  pub All-delete : (p : A → Bool) (xs : List A) → All P xs → All P (delete p xs)
  unfolding delete
  All-delete p xs h = All-select (λ x. not (p x)) xs h

  pub All-first : (p : A → Bool) (xs : List A) {x : A} → All P xs → first p xs ≡ some x → P x
  unfolding first
  All-first p [] h e = absurd (cc)
  All-first p (y ∷ ys) h e = elim (Bool-cases (p y)) [
    | inl t ↦ subst P (ground arith) h.0
    | inr t ↦ All-first p ys h.1 (ground arith)
  ]

module _ {ℓ} {A : Type ℓ} where
  pub first_holds : (p : A → Bool) (xs : List A) {x : A} → first p xs ≡ some x → p x ≡ true
  unfolding first
  first_holds p [] e = absurd (cc)
  first_holds p (y ∷ ys) e = elim (Bool-cases (p y)) [
    | inl t ↦ ground arith
    | inr t ↦ first_holds p ys (ground arith)
  ]

  -- An update that leaves the test of a lookup alone is seen through the lookup.
  pub first-update :
      (q p : A → Bool) (f : A → A) (xs : List A)
      → ((x : A) → q (f x) ≡ q x)
      → first q (update p f xs) ≡ Option.map (λ x. if p x then f x else x) (first q xs)
  unfolding first update
  first-update q p f [] same = refl
  first-update q p f (x ∷ xs) same = ground (arith, same x, first-update q p f xs same)

  pub first-append :
      (q : A → Bool) (xs ys : List A)
      → first q (xs ++ ys) ≡ elim (first q xs) [ some x ↦ some x | none ↦ first q ys ]
  unfolding first
  first-append q [] ys = refl
  first-append q (x ∷ xs) ys = ground (arith, first-append q xs ys)

  pub length-update : (p : A → Bool) (f : A → A) (xs : List A) → length (update p f xs) ≡ length xs
  unfolding update
  length-update p f [] = refl
  length-update p f (x ∷ xs) = omega (arith, length-update p f xs)

  pub length-delete :
      (p : A → Bool) (xs : List A) → length (delete p xs) + rowcount p xs ≡ length xs
  unfolding delete select rowcount
  length-delete p [] = omega arith
  length-delete p (x ∷ xs) = ground (arith, length-delete p xs)

  pub update-twice :
      (p : A → Bool) (f g : A → A) (xs : List A)
      → ((x : A) → p (f x) ≡ p x)
      → update p g (update p f xs) ≡ update p (λ x. g (f x)) xs
  unfolding update
  update-twice p f g [] same = refl
  update-twice p f g (x ∷ xs) same = ground (arith, same x, update-twice p f g xs same)

  -- A WHERE that no row satisfies changes nothing.
  pub update_none :
      (p : A → Bool) (f : A → A) (xs : List A) → rowcount p xs ≡ 0 → update p f xs ≡ xs
  unfolding update rowcount
  update_none p f [] h = refl
  update_none p f (x ∷ xs) h = ground (arith, update_none p f xs)

  -- A selection holds the rows of the table that pass the test, and no others.
  pub mem-select :
      (p : A → Bool) (xs : List A) {x : A} → Memᴰ x xs → p x ≡ true → Memᴰ x (select p xs)
  unfolding select
  mem-select p [] m h = elim m [ ]
  mem-select p (y ∷ ys) {x} (Memᴰ.head e) h = rw (subst (λ z. p z ≡ true) e h) (Memᴰ.head e)
  mem-select p (y ∷ ys) (Memᴰ.tail m) h = elim (Bool-cases (p y)) [
    | inl t ↦ rw t (Memᴰ.tail (mem-select p ys m h))
    | inr t ↦ rw t (mem-select p ys m h)
  ]

  pub select-All : (p : A → Bool) (xs : List A) → All (λ x. p x ≡ true) (select p xs)
  unfolding select
  select-All p [] = tt
  select-All p (x ∷ xs) = elim (Bool-cases (p x)) [
    | inl e ↦ rw e (e, select-All p xs)
    | inr e ↦ rw e (select-All p xs)
  ]

  pub rowcount_none : (p : A → Bool) (xs : List A) → All (λ x. p x ≡ false) xs → rowcount p xs ≡ 0
  unfolding rowcount
  rowcount_none p [] h = refl
  rowcount_none p (x ∷ xs) h = ground (arith, h.0, rowcount_none p xs h.1)

  pub rowcount_some :
      (p : A → Bool) (xs : List A) {x : A} → Memᴰ x xs → p x ≡ true → rowcount p xs ≢ 0
  unfolding rowcount
  rowcount_some p [] m h = elim m [ ]
  rowcount_some p (y ∷ ys) (Memᴰ.head e) h = rw (subst (λ z. p z ≡ true) e h) (omega arith)
  rowcount_some p (y ∷ ys) (Memᴰ.tail m) h = ground (arith, rowcount_some p ys m h)

  pub rowcount_found :
      (p : A → Bool) (xs : List A) → rowcount p xs ≢ 0 → (x : A) × Memᴰ x xs × (p x ≡ true)
  unfolding rowcount
  rowcount_found p [] h = absurd (h refl)
  rowcount_found p (x ∷ xs) h = elim (Bool-cases (p x)) [
    | inl e ↦ (x, Memᴰ.head refl, e)
    | inr e ↦ let (y, m, q) = rowcount_found p xs (ground arith) in (y, Memᴰ.tail m, q)
  ]

  pub mem-first : (p : A → Bool) (xs : List A) {x : A} → first p xs ≡ some x → Memᴰ x xs
  unfolding first
  mem-first p [] e = absurd (cc)
  mem-first p (y ∷ ys) {x} e = elim (Bool-cases (p y)) [
    | inl t ↦ Memᴰ.head (ground arith)
    | inr t ↦ Memᴰ.tail (mem-first p ys (ground arith))
  ]

  pub first_found :
      (p : A → Bool) (xs : List A) {x : A}
      → Memᴰ x xs
      → p x ≡ true
      → (y : A) × (first p xs ≡ some y)
  unfolding first
  first_found p [] m h = elim m [ ]
  first_found p (y ∷ ys) m h = elim (Bool-cases (p y)) [
    | inl t ↦ (y, rw t refl)
    | inr t ↦ elim m [
      | Memᴰ.head e ↦ absurd (cc (t, subst (λ z. p z ≡ true) e h))
      | Memᴰ.tail m' ↦ rw t (first_found p ys m' h)
    ]
  ]

module _ {ℓ κ} {A : Type ℓ} (Q : A → Type κ) where
  pub All-updated :
      (p : A → Bool) (f : A → A) (xs : List A)
      → All (λ x. Q (if p x then f x else x)) xs
      → All Q (update p f xs)
  unfolding update
  All-updated p f [] h = tt
  All-updated p f (x ∷ xs) h = (h.0, All-updated p f xs h.1)

module _ {ℓ} {A : Type ℓ} where
  -- a selected row is a row of the table that passes the test
  pub All-of_select :
      (p : A → Bool) (xs : List A) → All (λ x. Memᴰ x xs × (p x ≡ true)) (select p xs)
  unfolding select
  All-of_select p [] = tt
  All-of_select p (x ∷ xs) = elim (Bool-cases (p x)) [
    | inl e ↦ rw e ((Memᴰ.head refl, e), deeper p x (select p xs) xs (All-of_select p xs))
    | inr e ↦ rw e (deeper p x (select p xs) xs (All-of_select p xs))
  ]
    where
      deeper :
          (p : A → Bool) (x : A) (ys xs : List A)
          → All (λ y. Memᴰ y xs × (p y ≡ true)) ys
          → All (λ y. Memᴰ y (x ∷ xs) × (p y ≡ true)) ys
      deeper p x [] xs h = tt
      deeper p x (y ∷ ys) xs h = ((Memᴰ.tail h.0.0, h.0.1), deeper p x ys xs h.1)

  pub mem-update :
      (p : A → Bool) (f : A → A) (xs : List A) {x : A}
      → Memᴰ x xs
      → Memᴰ (if p x then f x else x) (update p f xs)
  unfolding update
  mem-update p f [] m = elim m [ ]
  mem-update p f (y ∷ ys) (Memᴰ.head e) = Memᴰ.head (rw e refl)
  mem-update p f (y ∷ ys) (Memᴰ.tail m) = Memᴰ.tail (mem-update p f ys m)
