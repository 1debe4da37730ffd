-- ===== src/Db/VersionedConfig/Laws/Carry.antt =====
-- The row that append_version of src/pf_core/db/versioned_config.py inserts: its columns, before the
-- database fills the rest.
use mathlib.Core.List.{Memᴰ}
use pf_core.Prelude.{
  String, Bool, true, false, not, ◌&&◌, ◌||◌, some, List, [], ◌∷◌, str_eq, eq_iff, elem,
  if◌then◌else◌, All, All-mem, ◌≡◌, refl, sym, ap, ◌∙◌, subst, inl, inr, arith, Bool-cases,
}
use pf_core.Result.{ok, ◌>>=◌}
use pf_core.Dict.{Dict, lookup, put, lookup-put}
use pf_core.Sql.Sorted.{IsSorted}
use pf_core.Db.VersionedConfig.{
  Value, Row, is_ident, check_idents, items, merge, has_key, carry, known_columns,
}

-- no key occurs twice, as in a dict
abbrev pub IsDict : Dict Value → Type 0
IsDict = IsSorted (λ x y. not (str_eq x.0 y.0))

pub lookup-merge_other :
    (k : String) (d d' : Dict Value) → has_key k d' ≡ false → lookup k (merge d d') ≡ lookup k d
unfolding merge
lookup-merge_other k d [] h = refl
lookup-merge_other k d ((j, v) ∷ d') h =
    lookup-merge_other k (put j v d) d' (ground (arith, h))
    ∙ lookup-put j k v d
    ∙ ground (arith, h, eq_iff k j, eq_iff j k)

absent :
    (j : String) (v : Value) (d : Dict Value)
    → All (λ y. not (str_eq j y.0) ≡ true) d
    → has_key j d ≡ false
absent j v [] h = refl
absent j v (x ∷ xs) h = ground (arith, h.0, absent j v xs h.1)

pub lookup-merge :
    (k : String) (v : Value) (d d' : Dict Value)
    → IsDict d'
    → Memᴰ (k, v) d'
    → lookup k (merge d d') ≡ some v
unfolding merge
lookup-merge k v d [] s m = elim m [ ]
lookup-merge k v d ((j, w) ∷ d') s (Memᴰ.head e) =
    subst (λ (p : String × Value). lookup p.0 (merge (put j w d) d') ≡ some p.1) (sym e)
      (lookup-merge_other j (put j w d) d' (absent j w d' s.0)
        ∙ lookup-put j j w d
        ∙ ground (arith, eq_iff j j))
lookup-merge k v d ((j, w) ∷ d') s (Memᴰ.tail m) = lookup-merge k v (put j w d) d' s.1 m

pub lookup_mem :
    (k : String) (v : Value) (d : Dict Value) → IsDict d → Memᴰ (k, v) d → lookup k d ≡ some v
unfolding lookup
lookup_mem k v [] s m = elim m [ ]
lookup_mem k v ((j, w) ∷ d) s (Memᴰ.head e) =
    subst (λ (p : String × Value). (if str_eq j p.0 then some w else lookup p.0 d) ≡ some p.1)
      (sym e) (ground (arith, eq_iff j j))
lookup_mem k v ((j, w) ∷ d) s (Memᴰ.tail m) =
    let other = All-mem (λ (y : String × Value). not (str_eq j y.0) ≡ true) d s.0 m in
    ground (arith, other, lookup_mem k v d s.1 m)

pub ident_of_known :
    (k : String) (cols : List String)
    → All (λ c. is_ident c ≡ true) cols
    → elem k cols ≡ true
    → is_ident k ≡ true
ident_of_known k [] h e = absurd (cc)
ident_of_known k (c ∷ cs) h e = elim (Bool-cases (str_eq k c)) [
  | inl q ↦
      subst (λ (s : String). is_ident s ≡ true) (ground (arith, eq_iff c k, eq_iff k c, q)) h.0
  | inr q ↦ ident_of_known k cs h.1 (ground (arith, e, q))
]

pub check_idents_ok :
    (cols : List String) (d : Dict Value)
    → All (λ c. is_ident c ≡ true) cols
    → known_columns cols d ≡ true
    → check_idents d ≡ ok tt
unfolding check_idents ◌>>=◌
check_idents_ok cols [] h k = refl
check_idents_ok cols ((c, v) ∷ d) h k = elim (Bool-cases (elem c cols)) [
  | inl q ↦ rw (ident_of_known c cols h q) (check_idents_ok cols d h (rw q at k))
  | inr q ↦ absurd (ground (arith, q, k))
]

pub known-put :
    (cols : List String) (k : String) (v : Value) (d : Dict Value)
    → elem k cols ≡ true
    → known_columns cols d ≡ true
    → known_columns cols (put k v d) ≡ true
unfolding put
known-put cols k v [] e h = ground (arith, e)
known-put cols k v ((j, w) ∷ d) e h = ground (arith, e, h, known-put cols k v d e)

pub known-merge :
    (cols : List String) (d d' : Dict Value)
    → known_columns cols d ≡ true
    → known_columns cols d' ≡ true
    → known_columns cols (merge d d') ≡ true
unfolding merge
known-merge cols d [] h h' = h
known-merge cols d ((k, v) ∷ d') h h' = elim (Bool-cases (elem k cols)) [
  | inl q ↦ known-merge cols (put k v d) d' (known-put cols k v d q h) (rw q at h')
  | inr q ↦ absurd (ground (arith, q, h'))
]

-- Columns that are neither given nor excluded come from the prior row.
abbrev pub comes_over : List String → Dict Value → String → Bool
comes_over exclude given k = not (has_key k given || elem k exclude)

same_column : (k c : String) → str_eq k c ≡ true → k ≡ c
same_column k c h = ground (arith, eq_iff k c)

module _ (exclude : List String) (given : Dict Value) where
  skipped :
      (k c : String) (r : Row) (cs : List String) (row : Dict Value)
      → (has_key c given || elem c exclude) ≡ true
      → (if comes_over exclude given k && elem k cs then some (r k) else lookup k row)
        ≡ (if comes_over exclude given k && elem k (c ∷ cs) then some (r k) else lookup k row)
  skipped k c r cs row q = elim (Bool-cases (str_eq k c)) [
    | inr e ↦ ground (arith, e)
    | inl e ↦
        let out = ap (comes_over exclude given) (same_column k c e) ∙ ap not q in
        ground (arith, out)
  ]

  placed :
      (k c : String) (r : Row) (cs : List String) (row : Dict Value)
      → (has_key c given || elem c exclude) ≡ false
      → (if comes_over exclude given k && elem k cs then some (r k) else lookup k (put c (r c) row))
        ≡ (if comes_over exclude given k && elem k (c ∷ cs) then some (r k) else lookup k row)
  placed k c r cs row q = elim (Bool-cases (str_eq k c)) [
    | inr e ↦ ground (arith, e, lookup-put c k (r c) row, eq_iff k c, eq_iff c k)
    | inl e ↦
        let kc = same_column k c e in
        let inn = ap (comes_over exclude given) kc ∙ ap not q in
        let same = ap (λ (z : String). some (r z)) kc in
        ground (arith, e, inn, same, lookup-put c k (r c) row, eq_iff k c, eq_iff c k)
  ]

pub carry-lookup :
    (exclude all : List String) (given : Dict Value) (r : Row) (cols : List String)
    (row : Dict Value)
    → All (λ c. (is_ident c ≡ true) × (elem c all ≡ true)) cols
    → known_columns all row ≡ true
    → (row' : Dict Value) × (carry exclude given (items cols r) row ≡ ok row')
      × (known_columns all row' ≡ true)
      × ((k : String)
          → lookup k row'
            ≡ (if comes_over exclude given k && elem k cols then some (r k) else lookup k row))
unfolding carry ◌>>=◌
carry-lookup exclude all given r [] row h known = (row, refl, known, λ k. ground arith)
carry-lookup exclude all given r (c ∷ cs) row h known =
    elim (Bool-cases (has_key c given || elem c exclude)) [
      | inl q ↦
          let (row', e, known', l) = carry-lookup exclude all given r cs row h.1 known in
          (row', rw q e, known', λ k. l k ∙ skipped exclude given k c r cs row q)
      | inr q ↦
          let (row', e, known', l) =
            carry-lookup exclude all given r cs (put c (r c) row) h.1
              (known-put all c (r c) row h.0.1 known) in
          (row', rw (q, h.0.0) e, known', λ k. l k ∙ placed exclude given k c r cs row q)
    ]
