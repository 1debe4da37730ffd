-- ===== src/Llm/Cache/Laws.antt =====
-- The rows of the response cache (src/pf_core/llm/cache/exact.py) seen by key: which row a lookup
-- meets after an upsert, a deletion or a growth of the reference tables.
use pf_core.Prelude.{
  ℕ, String, Bool, true, false, not, ◌&&◌, Option, none, some, List, [], ◌∷◌, str_eq, eq_iff, ◌==◌,
  ◌≡◌, refl, sym, subst, ap, ◌∙◌, inl, inr, arith, All, Bool-cases, Option-cases, if◌then◌else◌,
  &&_parts,
}
use pf_core.Sql.{select, first, delete}
use pf_core.Sql.Sorted.{IsSorted}
use pf_core.Llm.Names.{Names, name_of}
use pf_core.Llm.Names.Laws.{IsNames, name_of_injective}
use pf_core.Llm.Cache.{Entry, named}

module _ {ℓ} {A : Type ℓ} where
  unfoldable pub keep : (A → Bool) → Option A → Option A
  keep p none = none
  keep p (some a) = if p a then some a else none

  pub keep_comm : (p q : A → Bool) (o : Option A) → keep p (keep q o) ≡ keep q (keep p o)
  unfolding keep
  keep_comm p q none = refl
  keep_comm p q (some a) = ground arith

  pub first_cong :
      (p q : A → Bool) (xs : List A) → All (λ x. p x ≡ q x) xs → first p xs ≡ first q xs
  unfolding first
  first_cong p q [] h = refl
  first_cong p q (x ∷ xs) h = ground (arith, h.0, first_cong p q xs h.1)

  -- at most one row passes the test
  abbrev pub IsSole : (A → Bool) → List A → Type ℓ
  IsSole q = IsSorted (λ x y. not (q x && q y))

  first-delete-none :
      (q d : A → Bool) (x : A) (xs : List A)
      → q x ≡ true
      → All (λ y. not (q x && q y) ≡ true) xs
      → first q (delete d xs) ≡ none
  unfolding first delete select
  first-delete-none q d x [] e h = refl
  first-delete-none q d x (y ∷ ys) e h = ground (arith, e, h.0, first-delete-none q d x ys e h.1)

  pub first-delete :
      (q d : A → Bool) (xs : List A)
      → IsSole q xs
      → first q (delete d xs) ≡ keep (λ x. not (d x)) (first q xs)
  unfolding first delete select keep
  first-delete q d [] s = refl
  first-delete q d (x ∷ xs) s = elim (Bool-cases (q x)) [
    | inl e ↦ ground (arith, e, first-delete-none q d x xs e s.0)
    | inr e ↦ ground (arith, e, first-delete q d xs s.1)
  ]

module _ {ℓ} {A : Type ℓ} where
  first_and-none :
      (q l : A → Bool) (x : A) (xs : List A)
      → q x ≡ true
      → All (λ y. not (q x && q y) ≡ true) xs
      → first (λ y. q y && l y) xs ≡ none
  unfolding first
  first_and-none q l x [] e h = refl
  first_and-none q l x (y ∷ ys) e h = ground (arith, e, h.0, first_and-none q l x ys e h.1)

  -- a further condition on a row that is the only one
  pub first_and :
      (q l : A → Bool) (xs : List A)
      → IsSole q xs
      → first (λ y. q y && l y) xs ≡ keep l (first q xs)
  unfolding first keep
  first_and q l [] s = refl
  first_and q l (x ∷ xs) s = elim (Bool-cases (q x)) [
    | inl e ↦ ground (arith, e, first_and-none q l x xs e s.0)
    | inr e ↦ ground (arith, e, first_and q l xs s.1)
  ]

-- WHERE input_hash = … AND slug = …, behind the join
abbrev pub key_is : Names → String → String → Entry → Bool
key_is agents input_hash agent_type r =
    str_eq r.input_hash input_hash && named agents agent_type r.agent_type_id

-- the key that the unique constraint is on
abbrev pub other_key : Entry → Entry → Bool
other_key x y = not (str_eq x.input_hash y.input_hash && x.agent_type_id == y.agent_type_id)

pub named_iff : (n : Names) (s : String) (i : ℕ) → named n s i ≡ true → name_of i n ≡ some s
named_iff n s i h = elim (Option-cases (name_of i n)) [
  | inl e ↦ absurd (cc (rw e at h))
  | inr (t, e) ↦ e ∙ ap some (ground (arith, eq_iff t s, rw e at h))
]

pub name_of-named : (n : Names) (s : String) (i : ℕ) → name_of i n ≡ some s → named n s i ≡ true
name_of-named n s i h = rw h (ground (arith, eq_iff s s))

-- with a valid table, the id of a slug stands for the slug
pub named_id :
    (n : Names) (s : String) (i j : ℕ) → IsNames n → name_of i n ≡ some s → named n s j ≡ (j == i)
named_id n s i j v h = elim (Bool-cases (j == i)) [
  | inl e ↦ e' e ∙ sym e
  | inr e ↦ elim (Bool-cases (named n s j)) [
    | inl q ↦ absurd (ground (arith, e, name_of_injective n j i v (named_iff n s j q) h))
    | inr q ↦ q ∙ sym e
  ]
]
  where
    e' : (j == i) ≡ true → named n s j ≡ true
    e' q = name_of-named n s j (subst (λ (k : ℕ). name_of k n ≡ some s) (ground (arith, q)) h)

-- another slug has another id
pub named_other :
    (n : Names) (s t : String) (i : ℕ)
    → name_of i n ≡ some s
    → str_eq s t ≡ false
    → named n t i ≡ false
named_other n s t i h e = rw h e

key_is-IsSole-one :
    (n : Names) (h a : String) (x : Entry) (xs : List Entry)
    → IsNames n
    → All (λ y. other_key x y ≡ true) xs
    → All (λ y. not (key_is n h a x && key_is n h a y) ≡ true) xs
key_is-IsSole-one n h a x [] v s = tt
key_is-IsSole-one n h a x (y ∷ ys) v s = (
  elim (Bool-cases (key_is n h a x && key_is n h a y)) [
    | inr e ↦ rw e refl
    | inl e ↦
        let (ex, ey) = &&_parts (key_is n h a x) (key_is n h a y) e in
        let (hx, ax) = &&_parts (str_eq x.input_hash h) (named n a x.agent_type_id) ex in
        let (hy, ay) = &&_parts (str_eq y.input_hash h) (named n a y.agent_type_id) ey in
        let same =
          name_of_injective n x.agent_type_id y.agent_type_id v (named_iff n a x.agent_type_id ax)
            (named_iff n a y.agent_type_id ay) in
        absurd (
          ground (
            arith,
            s.0,
            same,
            hx,
            hy,
            eq_iff x.input_hash h,
            eq_iff y.input_hash h,
            eq_iff x.input_hash y.input_hash,
          ))
  ],
  key_is-IsSole-one n h a x ys v s.1,
)

-- a lookup meets at most one row
pub key_is-IsSole :
    (n : Names) (h a : String) (xs : List Entry)
    → IsNames n
    → IsSorted other_key xs
    → IsSole (key_is n h a) xs
key_is-IsSole n h a [] v s = tt
key_is-IsSole n h a (x ∷ xs) v s =
    (key_is-IsSole-one n h a x xs v s.0, key_is-IsSole n h a xs v s.1)
