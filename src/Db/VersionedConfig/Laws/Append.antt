-- ===== src/Db/VersionedConfig/Laws/Append.antt =====
-- append_version of src/pf_core/db/versioned_config.py from its arguments to its result.
use mathlib.Core.List.{Memᴰ}
use mathlib.Core.Option.{some-injective}
use pf_core.Prelude.{
  ℕ, ◌+◌, String, Bool, true, false, Option, none, some, List, [], ◌∷◌, ◌++◌, str_eq, eq_iff, elem,
  length, All, All-mem, All-of_mem, ◌≡◌, refl, ap, ◌∙◌, inl, inr, arith, Bool-cases,
}
use pf_core.Result.{ok, ◌>>=◌}
use pf_core.Dict.{Dict, lookup, lookup-put}
use pf_core.Sql.{select}
use pf_core.Db.VersionedConfig.{
  Value, int, Row, Table, is_ident, satisfies, version_of, max_version, latest_version, latest_row,
  get_latest, merge, has_key, carried, known_columns, or_fill, insert, append_version,
}
use pf_core.Db.VersionedConfig.Laws.{
  IsAppendable, given_row, stored_row, satisfies_of, latest_row-append,
}
use pf_core.Db.VersionedConfig.Laws.Carry.{
  lookup-merge, lookup_mem, lookup-merge_other, carry-lookup, check_idents_ok, ident_of_known,
  known-put, known-merge, comes_over,
}

-- the row after the carry forward: what was given stays, the rest comes from the prior row
record IsMerged (cf : Bool) (exclude cols : List String) (prior : Option Row)
    (given row : Dict Value) : Type 0 where
  done : carried cf exclude cols prior given ≡ ok row
  known : known_columns cols row ≡ true
  stays : (k : String) → has_key k given ≡ true → lookup k row ≡ lookup k given
  comes :
      cf ≡ true
      → (p : Row) → prior ≡ some p
      → (k : String) → elem k cols ≡ true
      → comes_over exclude given k ≡ true
      → lookup k row ≡ some (p k)

elem-mem : (c : String) (cols : List String) → Memᴰ c cols → elem c cols ≡ true
elem-mem c [] m = elim m [ ]
elem-mem c (d ∷ ds) (Memᴰ.head e) = ground (arith, e, eq_iff c d)
elem-mem c (d ∷ ds) (Memᴰ.tail m) = ground (arith, elem-mem c ds m)

carried-IsMerged :
    (cf : Bool) (exclude cols : List String) (prior : Option Row) (given : Dict Value)
    → All (λ c. is_ident c ≡ true) cols
    → known_columns cols given ≡ true
    → (row : Dict Value) × IsMerged cf exclude cols prior given row
carried-IsMerged false exclude cols prior given h k =
    (given, record { done = refl; known = k; stays = λ c e. refl; comes = λ e. absurd (cc) })
carried-IsMerged true exclude cols none given h k =
    (given, record { done = refl; known = k; stays = λ c e. refl; comes = λ e p q. absurd (cc) })
carried-IsMerged true exclude cols (some r) given h k =
    let (row, e, known, l) =
      carry-lookup exclude cols given r cols given
        (All-of_mem (λ c. (is_ident c ≡ true) × (elem c cols ≡ true)) cols
          (λ c m. (All-mem (λ c. is_ident c ≡ true) cols h m, elem-mem c cols m)))
        k in
    (
      row,
      record {
        done = e;
        known = known;
        stays = λ c g. l c ∙ ground (arith, g);
        comes = λ t p q c i w.
            l c ∙ ground (arith, w, i, ap (λ (z : Row). some (z c)) (some-injective r p q));
      },
    )

-- What an append leaves.
pub record Appended (col : String) (scope values : Dict Value) (cf : Bool) (exclude : List String)
    (t : Table) (n : ℕ) (t' : Table) : Type 0 where
  pub row : Row
  pub next : n ≡ max_version col (select (satisfies scope) t.rows) + 1
  pub kept : t' ≡ record t { rows = t.rows ++ row ∷ [] }
  pub read : get_latest col scope t' ≡ ok (some row)
  pub version : row col ≡ int n
  pub scope_held : All (λ p. row p.0 ≡ p.1) scope
  pub holds : All (λ p. row p.0 ≡ p.1) values
  pub carries :
      cf ≡ true
      → (p : Row) → latest_row col scope t ≡ some p
      → (k : String) → elem k t.columns ≡ true
      → comes_over exclude (given_row col scope values n) k ≡ true
      → row k ≡ p k

module _ (col : String) (scope values : Dict Value) (t : Table) (n : ℕ)
    (a : IsAppendable col scope values t) where
  given-known : known_columns t.columns (given_row col scope values n) ≡ true
  given-known =
      known-put t.columns col (int n) (merge scope values) a.version
        (known-merge t.columns scope values a.scope_known a.values_known)

  given-version : lookup col (given_row col scope values n) ≡ some (int n)
  given-version = lookup-put col col (int n) (merge scope values) ∙ ground (arith, eq_iff col col)

  given-values : All (λ p. lookup p.0 (given_row col scope values n) ≡ some p.1) values
  given-values =
      All-of_mem (λ p. lookup p.0 (given_row col scope values n) ≡ some p.1) values
        (λ p m.
          lookup-put col p.0 (int n) (merge scope values)
          ∙ ground (
            arith,
            All-mem (λ p. str_eq col p.0 ≡ false) values a.values_apart m,
            lookup-merge p.0 p.1 scope values a.values_keys m,
          ))

  given-scope : All (λ p. lookup p.0 (given_row col scope values n) ≡ some p.1) scope
  given-scope =
      All-of_mem (λ p. lookup p.0 (given_row col scope values n) ≡ some p.1) scope
        (λ p m.
          let apart =
            All-mem (λ p. (has_key p.0 values ≡ false) × (str_eq col p.0 ≡ false)) scope
              a.scope_apart m in
          lookup-put col p.0 (int n) (merge scope values)
          ∙ ground (
            arith,
            apart.1,
            lookup-merge_other p.0 scope values apart.0,
            lookup_mem p.0 p.1 scope a.scope_keys m,
          ))

has_key_of : (k : String) (v : Value) (d : Dict Value) → lookup k d ≡ some v → has_key k d ≡ true
unfolding lookup
has_key_of k v [] h = absurd (cc)
has_key_of k v ((j, w) ∷ d) h = elim (Bool-cases (str_eq j k)) [
  | inl e ↦ ground (arith, e, eq_iff j k, eq_iff k j)
  | inr e ↦ ground (arith, has_key_of k v d (rw e at h))
]

-- a column that was given reads as given in the stored row
stored-given :
    (col : String) (scope values : Dict Value) (t : Table) (n : ℕ) (cf : Bool)
    (exclude : List String) (prior : Option Row) (row : Dict Value)
    → IsMerged cf exclude t.columns prior (given_row col scope values n) row
    → (k : String) (v : Value) → lookup k (given_row col scope values n) ≡ some v
    → stored_row t row k ≡ v
stored-given col scope values t n cf exclude prior row c k v e =
    ap (or_fill (t.fill k (length t.rows)))
      (c.stays k (has_key_of k v (given_row col scope values n) e) ∙ e)

-- For arguments that the table can take, append_version returns one more than the highest version of
-- the scope and keeps all rows; get_latest then reads the appended row, with that version, the values
-- of the scope and of the call, and with carry_forward those of the prior latest row in the columns
-- that are neither given nor excluded.
pub append_version-Appended :
    (col : String) (scope values : Dict Value) (cf : Bool) (exclude : List String) (t : Table)
    → IsAppendable col scope values t
    → (n : ℕ) × (t' : Table) × (append_version col scope values cf exclude t ≡ ok (n, t'))
      × Appended col scope values cf exclude t n t'
unfolding append_version latest_version get_latest insert ◌>>=◌
append_version-Appended col scope values cf exclude t a =
    let n = max_version col (select (satisfies scope) t.rows) + 1 in
    let given = given_row col scope values n in
    let prior = latest_row col scope t in
    let (row, c) =
      carried-IsMerged cf exclude t.columns prior given a.columns
        (given-known col scope values t n a) in
    let r = stored_row t row in
    let t' = record t { rows = t.rows ++ r ∷ [] } in
    let is = stored-given col scope values t n cf exclude prior row c in
    let ident = ident_of_known col t.columns a.columns a.version in
    let scope_ok = check_idents_ok t.columns scope a.columns a.scope_known in
    let values_ok = check_idents_ok t.columns values a.columns a.values_known in
    let scope_held =
      All-of_mem (λ p. r p.0 ≡ p.1) scope
        (λ p m. is p.0 p.1 (
          All-mem (λ p. lookup p.0 given ≡ some p.1) scope (given-scope col scope values t n a)
            m)) in
    let version = is col (int n) (given-version col scope values t n a) in
    (
      n,
      t',
      rw (a.name, ident, scope_ok, values_ok, c.done, c.known) refl,
      record {
        row = r;
        next = refl;
        kept = refl;
        read =
            rw (a.name, ident, scope_ok)
              (ap ok (
                latest_row-append col scope t r (satisfies_of scope r scope_held)
                  (ap version_of version)));
        version = version;
        scope_held = scope_held;
        holds =
            All-of_mem (λ p. r p.0 ≡ p.1) values
              (λ p m. is p.0 p.1 (
                All-mem (λ p. lookup p.0 given ≡ some p.1) values
                  (given-values col scope values t n a) m));
        carries = λ f p q k i w. ap (or_fill (t.fill k (length t.rows))) (c.comes f p q k i w);
      },
    )
