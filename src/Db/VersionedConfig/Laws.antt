-- ===== src/Db/VersionedConfig/Laws.antt =====
-- What append_version of src/pf_core/db/versioned_config.py stores and get_latest then reads.
pub mod Carry
pub mod Append
use mathlib.Core.List.{Memᴰ}
use mathlib.Core.Option.{some-injective}
use pf_core.Prelude.{
  ℕ, ◌+◌, ◌≤◌, max, String, Bool, true, false, not, ◌&&◌, ◌||◌, Option, none, some, List, [], ◌∷◌,
  ◌++◌, str_eq, eq_iff, ◌==◌, leb, elem, if◌then◌else◌, length, All, All-mem, All-append,
  All-of_mem, ◌≡◌, refl, sym, ap, ◌∙◌, subst, ◌⊎◌, inl, inr, arith, Bool-cases, Option-cases, map,
}
use pf_core.Result.{Result, ok, err, ◌>>=◌, ◌>>◌}
use pf_core.Dict.{Dict, lookup, put, lookup-put}
use pf_core.Sql.{select, first, order_by}
use pf_core.Sql.Rows.{All-select, All-first, mem-select}
use pf_core.Sql.Sorted.{IsSorted, All-order_by, first-order_by_least, first-order_by-none}
use pf_core.Db.VersionedConfig.{
  Value, null, int, text, Row, Table, is_ident, check_idents, satisfies, clause, sql_eq, version_of,
  max_version, latest_version, newer, latest_row, get_latest, items, merge, has_key, carry, carried,
  known_columns, or_fill, insert, append_version,
}
use pf_core.Db.VersionedConfig.Laws.Carry.{
  IsDict, lookup-merge, lookup-merge_other, carry-lookup, check_idents_ok, ident_of_known,
  known-put, known-merge,
}

-- The arguments of an append that the table can take: the names are identifiers and columns, no column
-- is written twice, and the scope does not hold the version.
pub record IsAppendable (version_col : String) (scope values : Dict Value) (t : Table)
    : Type 0 where
  pub name : is_ident t.name ≡ true
  pub columns : All (λ c. is_ident c ≡ true) t.columns
  pub version : elem version_col t.columns ≡ true
  pub scope_known : known_columns t.columns scope ≡ true
  pub values_known : known_columns t.columns values ≡ true
  pub scope_keys : IsDict scope
  pub values_keys : IsDict values
  pub scope_apart : All (λ p. (has_key p.0 values ≡ false) × (str_eq version_col p.0 ≡ false)) scope
  pub values_apart : All (λ p. str_eq version_col p.0 ≡ false) values

-- the columns that the call names
abbrev pub given_row : String → Dict Value → Dict Value → ℕ → Dict Value
given_row version_col scope values n = put version_col (int n) (merge scope values)

-- the inserted row
abbrev pub stored_row : Table → Dict Value → Row
stored_row t d col = or_fill (t.fill col (length t.rows)) (lookup col d)

clause_self : (v : Value) → clause v v ≡ true
clause_self null = refl
clause_self (int n) = ground arith
clause_self (text s) = ground (arith, eq_iff s s)

-- a row that holds the values of a scope is in the scope
pub satisfies_of :
    (scope : Dict Value) (r : Row) → All (λ p. r p.0 ≡ p.1) scope → satisfies scope r ≡ true
unfolding satisfies
satisfies_of [] r h = refl
satisfies_of ((col, v) ∷ scope) r h = rw (h.0, clause_self v) (satisfies_of scope r h.1)

All-max_version :
    (col : String) (rs : List Row) → All (λ r. version_of (r col) ≤ max_version col rs) rs
unfolding max_version
All-max_version col [] = tt
All-max_version col (r ∷ rs) = (
  omega arith,
  All-of_mem (λ x. version_of (x col) ≤ max (version_of (r col)) (max_version col rs)) rs
      (λ x m. omega (
        arith,
        All-mem (λ x. version_of (x col) ≤ max_version col rs) rs (All-max_version col rs) m,
      )),
)

select-append :
    (p : Row → Bool) (xs : List Row) (r : Row)
    → p r ≡ true
    → select p (xs ++ r ∷ []) ≡ select p xs ++ r ∷ []
unfolding select
select-append p [] r h = rw h refl
select-append p (x ∷ xs) r h = elim (Bool-cases (p x)) [
  | inl e ↦ rw e (ap (λ (ys : List Row). x ∷ ys) (select-append p xs r h))
  | inr e ↦ rw e (select-append p xs r h)
]

mem_last : (xs : List Row) (r : Row) → Memᴰ r (xs ++ r ∷ [])
mem_last [] r = Memᴰ.head refl
mem_last (x ∷ xs) r = Memᴰ.tail (mem_last xs r)

module _ (col : String) (r : Row) where
  -- the row itself, or one of the versions so far
  Former : ℕ → Row → Type 0
  Former n x = (x ≡ r) ⊎ (version_of (x col) ≤ n)

  All-Former : (rs : List Row) → All (Former (max_version col rs)) (rs ++ r ∷ [])
  unfolding Former
  All-Former rs =
      All-append (Former (max_version col rs)) rs (r ∷ [])
        (All-of_mem (Former (max_version col rs)) rs (λ x m.
          inr
            (All-mem (λ x. version_of (x col) ≤ max_version col rs) rs (All-max_version col rs) m)))
        (inl refl, tt)

  first-order_by-newest :
      (rs : List Row)
      → version_of (r col) ≡ max_version col rs + 1
      → first (λ x. true) (order_by (newer col) (rs ++ r ∷ [])) ≡ some r
  unfolding Former
  first-order_by-newest rs v =
      let ys = rs ++ r ∷ [] in
      elim (Option-cases (first (λ x. true) (order_by (newer col) ys))) [
        | inl e ↦ absurd (first-order_by-none (newer col) ys e (mem_last rs r))
        | inr (x, e) ↦
            let former =
              All-first (Former (max_version col rs)) (λ x. true) (order_by (newer col) ys)
                (All-order_by (Former (max_version col rs)) (newer col) ys (All-Former rs)) e in
            let least =
              first-order_by_least (newer col) (λ x y h. ground (arith, h))
                (λ x y z h g. ground (arith, h, g)) ys e (mem_last rs r) in
            elim former [ inl p ↦ e ∙ ap some p | inr le ↦ absurd (ground (arith, v, le, least)) ]
      ]

-- the row with the highest version is the latest
pub latest_row-append :
    (col : String) (scope : Dict Value) (t : Table) (r : Row)
    → satisfies scope r ≡ true
    → version_of (r col) ≡ max_version col (select (satisfies scope) t.rows) + 1
    → latest_row col scope (record t { rows = t.rows ++ r ∷ [] }) ≡ some r
unfolding latest_row
latest_row-append col scope t r m v =
    rw (select-append (satisfies scope) t.rows r m)
      (first-order_by-newest col r (select (satisfies scope) t.rows) v)
