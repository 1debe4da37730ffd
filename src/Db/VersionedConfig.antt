-- ===== src/Db/VersionedConfig.antt =====
-- src/pf_core/db/versioned_config.py: configuration rows that are appended, never updated. A row gives
-- each column a value; `fill` is what the database puts in a column that an INSERT does not name. The
-- version column is an integer column.
pub mod Laws
use Prim.Native.Char.{Char, code}
use pf_core.Prelude.{
  ℕ, ◌+◌, max, String, Bool, true, false, not, ◌&&◌, ◌||◌, Option, none, some, List, [], ◌∷◌, ◌++◌,
  str_eq, ◌==◌, leb, elem, if◌then◌else◌, length, map,
}
use pf_core.Result.{Result, ok, err, Exn, invalid_input_error, raised, require, ◌>>=◌, ◌>>◌}
use pf_core.Dict.{Dict, lookup, put}
use pf_core.Sql.{select, first, order_by}

pub data Value : Type 0 where
  null : Value
  int : ℕ → Value
  text : String → Value

abbrev pub Row : Type 0
Row = String → Value

pub record Table : Type 0 where
  pub name : String
  pub columns : List String
  pub fill : String → ℕ → Value
  pub rows : List Row

-- [A-Za-z_] and [A-Za-z0-9_]
abbrev pub is_start : ℕ → Bool
is_start n = (leb 65 n && leb n 90) || (leb 97 n && leb n 122) || n == 95

abbrev pub is_word : ℕ → Bool
is_word n = is_start n || (leb 48 n && leb n 57)

-- `[A-Za-z0-9_]*$`, where `$` also satisfies in front of a last newline
unfoldable pub is_rest : String → Bool
is_rest String.[] = true
is_rest (String.◌∷◌ c s) =
    let rest = is_rest s in if is_word (code c) then rest else code c == 10 && str_eq s ""

unfoldable pub is_ident : String → Bool
unfolding is_rest
is_ident String.[] = false
is_ident (String.◌∷◌ c s) = is_start (code c) && is_rest s

-- _check_ident
abbrev pub check_ident : String → Result (Unit {0})
check_ident name = require (is_ident name) invalid_input_error

unfoldable pub check_idents : {V : Type 0} → Dict V → Result (Unit {0})
unfolding is_ident ◌>>=◌
check_idents [] = ok tt
check_idents ((col, v) ∷ d) = check_ident col >> check_idents d

-- SQL's `=`, which holds of no NULL
abbrev pub sql_eq : Value → Value → Bool
sql_eq (int m) (int n) = m == n
sql_eq (text s) (text t) = str_eq s t
sql_eq _ _ = false

abbrev pub is_null : Value → Bool
is_null null = true
is_null _ = false

-- `col IS NULL` or `col = :col`
abbrev pub clause : Value → Value → Bool
clause null v = is_null v
clause w v = sql_eq v w

-- _where: the condition of a scope
unfoldable pub satisfies : Dict Value → Row → Bool
satisfies [] r = true
satisfies ((col, v) ∷ scope) r = clause v (r col) && satisfies scope r

abbrev pub version_of : Value → ℕ
version_of (int n) = n
version_of _ = 0

-- SELECT MAX(version), 0 over no rows
unfoldable pub max_version : String → List Row → ℕ
max_version col [] = 0
max_version col (r ∷ rs) = max (version_of (r col)) (max_version col rs)

unfoldable pub latest_version : String → Dict Value → Table → Result ℕ
unfolding check_idents max_version select satisfies ◌>>=◌
latest_version version_col scope t =
    check_ident t.name
    >> (check_ident version_col
        >> (check_idents scope >> ok (max_version version_col (select (satisfies scope) t.rows))))

abbrev pub newer : String → Row → Row → Bool
newer col y x = leb (version_of (x col)) (version_of (y col))

-- the first row of the scope, by falling version
unfoldable pub latest_row : String → Dict Value → Table → Option Row
unfolding first order_by select satisfies
latest_row version_col scope t =
    first (λ r. true) (order_by (newer version_col) (select (satisfies scope) t.rows))

-- `dict(row)`
abbrev pub items : List String → Row → Dict Value
items cols r = map (λ col. (col, r col)) cols

unfoldable pub get_latest : String → Dict Value → Table → Result (Option Row)
unfolding check_idents latest_row ◌>>=◌
get_latest version_col scope t =
    check_ident t.name
    >> (check_ident version_col >> (check_idents scope >> ok (latest_row version_col scope t)))

abbrev pub or_fallback : Result (Option Row) → Result (Option Row) → Result (Option Row)
or_fallback other (err e) = err e
or_fallback other (ok none) = other
or_fallback other (ok (some r)) = ok (some r)

unfoldable pub get_latest_with_fallback :
    String → Dict Value → Dict Value → Table → Result (Option Row)
unfolding get_latest
get_latest_with_fallback version_col scope fallback_scope t =
    or_fallback (get_latest version_col fallback_scope t) (get_latest version_col scope t)

-- {**d, **d'}
unfoldable pub merge : Dict Value → Dict Value → Dict Value
unfolding put
merge d [] = d
merge d ((k, v) ∷ d') = merge (put k v d) d'

abbrev pub has_key : String → Dict Value → Bool
has_key k [] = false
has_key k ((j, v) ∷ d) = str_eq k j || has_key k d

-- the columns of the prior row that are not skipped, each checked
unfoldable pub carry : List String → Dict Value → Dict Value → Dict Value → Result (Dict Value)
unfolding is_ident put ◌>>=◌
carry exclude given [] row = ok row
carry exclude given ((col, v) ∷ prior) row =
    if has_key col given || elem col exclude
    then carry exclude given prior row
    else (check_ident col >> carry exclude given prior (put col v row))

abbrev pub carried :
    Bool → List String → List String → Option Row → Dict Value → Result (Dict Value)
carried false exclude cols prior row = ok row
carried true exclude cols none row = ok row
carried true exclude cols (some r) row = carry exclude row (items cols r) row

abbrev pub known_columns : List String → Dict Value → Bool
known_columns cols [] = true
known_columns cols ((col, v) ∷ d) = elem col cols && known_columns cols d

abbrev pub or_fill : Value → Option Value → Value
or_fill v none = v
or_fill v (some w) = w

-- INSERT INTO …
unfoldable pub insert : Dict Value → Table → Result Table
unfolding lookup ◌>>=◌
insert d t =
    require (known_columns t.columns d) (raised "OperationalError" "no such column")
    >> ok (record t {
      rows = t.rows ++ (λ col. or_fill (t.fill col (length t.rows)) (lookup col d)) ∷ [];
    })

unfoldable pub append_version :
    String → Dict Value → Dict Value → Bool → List String → Table → Result (ℕ × Table)
unfolding check_idents latest_version latest_row merge carry put insert ◌>>=◌
append_version version_col scope values carry_forward exclude t = do
  check_ident t.name
  check_ident version_col
  check_idents scope
  check_idents values
  latest ← latest_version version_col scope t
  let next_version = latest + 1
  let given = put version_col (int next_version) (merge scope values)
  row ← carried carry_forward exclude t.columns (latest_row version_col scope t) given
  t' ← insert row t
  ok (next_version, t')
