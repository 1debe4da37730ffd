-- ===== src/Llm/Names/Laws.antt =====
-- Laws of the id resolvers of src/pf_core/llm/tracking/_resolvers.py.
use mathlib.Core.List.{Memᴰ}
use mathlib.Core.Option.{some-injective}
use pf_core.Prelude.{
  ℕ, String, Bool, true, false, not, none, some, List, [], ◌∷◌, str_eq, eq_iff, ◌==◌, ◌≡◌, refl,
  sym, subst, ap, ◌∙◌, ◌⊎◌, inl, inr, arith, All, All-mem, Bool-cases, Option-cases,
}
use pf_core.Result.{ok, err, value_error}
use pf_core.Dict.{lookup, put, lookup-put}
use pf_core.Sql.{first}
use pf_core.Sql.Rows.{first_holds, mem-first, first_found, first-append}
use pf_core.Sql.Sorted.{IsSorted}
use pf_core.Sql.Keys.{IsKeyed, IsKeyed-append, IsSorted-append, key_unique}
use pf_core.Llm.Names.{NameRow, Names, insert_name, resolve, name_of}

abbrev apart : NameRow → NameRow → Bool
apart x y = not (str_eq x.name y.name)

-- ids and names are unique, and what the process remembers stands in the table
pub record IsNames (n : Names) : Type 0 where
  pub ids : IsKeyed (λ r. r.id) n.next n.rows
  pub names : IsSorted apart n.rows
  pub remembered : (s : String) (i : ℕ) → lookup s n.known ≡ some i → name_of i n ≡ some s

abbrev named : String → NameRow → Bool
named s r = str_eq r.name s

-- the row behind an id
pub name_of_row :
    (i : ℕ) (n : Names) {s : String}
    → name_of i n ≡ some s
    → (r : NameRow) × Memᴰ r n.rows × (r.id ≡ i) × (r.name ≡ s)
unfolding name_of first
name_of_row i n {s} h = elim (Option-cases (first (λ (r : NameRow). r.id == i) n.rows)) [
  | inl e ↦ absurd (cc (e, h))
  | inr (r, e) ↦ (
    r,
    mem-first (λ (r : NameRow). r.id == i) n.rows e,
    ground (arith, first_holds (λ (r : NameRow). r.id == i) n.rows e),
    some-injective r.name s (rw e at h),
  )
]

pub row_name_of :
    (n : Names) (r : NameRow) → IsNames n → Memᴰ r n.rows → name_of r.id n ≡ some r.name
unfolding name_of
row_name_of n r v m =
    let (y, e) = first_found (λ (x : NameRow). x.id == r.id) n.rows m (ground arith) in
    let same =
      key_unique (λ r. r.id) n.rows v.ids.0 (mem-first (λ (x : NameRow). x.id == r.id) n.rows e) m
        (ground (arith, first_holds (λ (x : NameRow). x.id == r.id) n.rows e)) in
    rw e (ap (λ (z : NameRow). some z.name) same)

same_row :
    (xs : List NameRow) {x y : NameRow}
    → IsSorted apart xs
    → Memᴰ x xs
    → Memᴰ y xs
    → x.name ≡ y.name
    → x ≡ y
same_row [] s m m' e = elim m [ ]
same_row (z ∷ zs) s (Memᴰ.head p) (Memᴰ.head q) e = p ∙ sym q
same_row (z ∷ zs) {x} {y} s (Memᴰ.head p) (Memᴰ.tail m) e = absurd (
    ground (
      arith,
      eq_iff z.name y.name,
      ap (λ (r : NameRow). r.name) p,
      All-mem (λ w. apart z w ≡ true) zs s.0 m,
    ))
same_row (z ∷ zs) {x} {y} s (Memᴰ.tail m) (Memᴰ.head q) e = absurd (
    ground (
      arith,
      eq_iff z.name x.name,
      ap (λ (r : NameRow). r.name) q,
      All-mem (λ w. apart z w ≡ true) zs s.0 m,
    ))
same_row (z ∷ zs) s (Memᴰ.tail m) (Memᴰ.tail m') e = same_row zs s.1 m m' e

-- a name has one id
pub name_of_injective :
    (n : Names) (i j : ℕ) {s : String}
    → IsNames n
    → name_of i n ≡ some s
    → name_of j n ≡ some s
    → i ≡ j
name_of_injective n i j v h g =
    let (x, mx, ix, sx) = name_of_row i n h in
    let (y, my, iy, sy) = name_of_row j n g in
    sym ix ∙ ap (λ (r : NameRow). r.id) (same_row n.rows v.names mx my (sx ∙ sym sy)) ∙ iy

-- a name that is there keeps its id
abbrev pub Keeps : Names → Names → Type 0
Keeps n n' = (j : ℕ) (t : String) → name_of j n ≡ some t → name_of j n' ≡ some t

insert_name-Keeps : (s : String) (n : Names) → Keeps n (insert_name s n)
unfolding insert_name name_of
insert_name-Keeps s n j t h =
    elim (Option-cases (first (λ (r : NameRow). str_eq r.name s) n.rows)) [
      | inr (r, e) ↦ rw (insert_name, e) h
      | inl e ↦ elim (Option-cases (first (λ (r : NameRow). r.id == j) n.rows)) [
        | inl q ↦ absurd (cc (q, h))
        | inr (r, q) ↦
            rw
              (
                insert_name,
                e,
                name_of,
                first-append (λ (r : NameRow). r.id == j) n.rows
                    (record { id = n.next; name = s } ∷ []),
                q,
              )
              (rw q at h)
      ]
    ]

-- no row of the table has the name
All-unnamed :
    (s : String) (i : ℕ) (xs : List NameRow)
    → first (λ r. str_eq r.name s) xs ≡ none
    → All (λ x. apart x (record { id = i; name = s }) ≡ true) xs
unfolding first
All-unnamed s i [] h = tt
All-unnamed s i (x ∷ xs) h = elim (Bool-cases (str_eq x.name s)) [
  | inl e ↦ absurd (ground (arith, e, h))
  | inr e ↦ (rw e refl, All-unnamed s i xs (rw e at h))
]

insert_name-IsNames : (s : String) (n : Names) → IsNames n → IsNames (insert_name s n)
unfolding insert_name
insert_name-IsNames s n v = elim (Option-cases (first (λ (r : NameRow). str_eq r.name s) n.rows)) [
  | inr (r, e) ↦ rw (insert_name, e) v
  | inl e ↦
      rw (insert_name, e)
        (record {
          ids =
              IsKeyed-append (λ r. r.id) n.next n.rows (record { id = n.next; name = s }) refl
                v.ids;
          names =
              IsSorted-append apart n.rows (record { id = n.next; name = s }) v.names
                (All-unnamed s n.next n.rows e);
          remembered = λ t i h.
              subst (λ (m : Names). name_of i m ≡ some t) (ground (arith, e))
                (insert_name-Keeps s n i t (v.remembered t i h));
        })
]

-- What the resolver answers for a name, and the table and the memory it leaves.
pub record Resolved (s : String) (n : Names) (i : ℕ) (n' : Names) : Type 0 where
  pub name : name_of i n' ≡ some s
  pub keeps : Keeps n n'
  pub valid : IsNames n'

read_id-Resolved :
    (s : String) (n : Names) (r : NameRow)
    → IsNames n
    → first (λ x. str_eq x.name s) n.rows ≡ some r
    → Resolved s n r.id (record n { known = put s r.id n.known })
unfolding name_of
read_id-Resolved s n r v e = record {
  name = found;
  keeps = λ j t h. h;
  valid = record {
    ids = v.ids;
    names = v.names;
    remembered = λ t i h. elim (Bool-cases (str_eq s t)) [
      | inl q ↦
          subst (λ (k : ℕ). name_of k n ≡ some t)
            (some-injective r.id i (rw (lookup-put s t r.id n.known, q) at h))
            (found ∙ ap some (ground (arith, eq_iff s t, q)))
      | inr q ↦ v.remembered t i (rw (lookup-put s t r.id n.known, q) at h)
    ];
  };
}
  where
    found : name_of r.id n ≡ some s
    found =
        row_name_of n r v (mem-first (λ x. str_eq x.name s) n.rows e)
        ∙ ap some (
            ground
              (arith, eq_iff r.name s, first_holds (λ (x : NameRow). str_eq x.name s) n.rows e))

insert_name_found :
    (s : String) (n : Names)
    → (r : NameRow) × (first (λ x. str_eq x.name s) (insert_name s n).rows ≡ some r)
unfolding insert_name first
insert_name_found s n = elim (Option-cases (first (λ (r : NameRow). str_eq r.name s) n.rows)) [
  | inr (r, e) ↦ (r, rw (insert_name, e) e)
  | inl e ↦ (
    record { id = n.next; name = s },
    rw
        (
          insert_name,
          e,
          first-append (λ x. str_eq x.name s) n.rows (record { id = n.next; name = s } ∷ []),
          e,
        )
        (ground (arith, eq_iff s s)),
  )
]

-- a name has an id, and only the empty one is refused
pub resolve_cases :
    (s : String) (n : Names)
    → IsNames n
    → ((str_eq s "" ≡ true) × (resolve s n ≡ (err value_error, n)))
      ⊎ ((str_eq s "" ≡ false)
          × ((i : ℕ) × (n' : Names) × (resolve s n ≡ (ok i, n')) × Resolved s n i n'))
unfolding resolve
resolve_cases s n v = elim (Bool-cases (str_eq s "")) [
  | inl e ↦ inl (e, rw e refl)
  | inr e ↦ inr (
    e,
    elim (Option-cases (lookup s n.known)) [
      | inr (i, q) ↦ (
        i,
        n,
        rw (e, q) refl,
        record { name = v.remembered s i q; keeps = λ j t h. h; valid = v },
      )
      | inl q ↦
          let (r, f) = insert_name_found s n in
          let done = read_id-Resolved s (insert_name s n) r (insert_name-IsNames s n v) f in
          (
            r.id,
            record (insert_name s n) { known = put s r.id (insert_name s n).known },
            rw (e, q, f) refl,
            record {
              name = done.name;
              keeps = λ j t h. done.keeps j t (insert_name-Keeps s n j t h);
              valid = done.valid;
            },
          )
    ],
  )
]
