-- ===== src/Db/SoftDelete.antt =====
-- src/pf_core/db/soft_delete.py: marking a row deleted and restoring it. A row is its key, its two
-- columns of the convention and the rest, `reason_column=None` is `reasons = false`.
pub mod Laws
use pf_core.Prelude.{ℕ, String, Bool, true, false, not, ◌&&◌, Option, none, some, List, ◌==◌, leb}
use pf_core.Sql.{update, rowcount}

pub record Row : Type 0 where
  pub id : ℕ
  pub deleted_at : Option ℕ
  pub deleted_reason : Option String
  pub rest : String

abbrev pub is_some : Option ℕ → Bool
is_some none = false
is_some (some t) = true

abbrev pub active : ℕ → Row → Bool
active i r = r.id == i && not (is_some r.deleted_at)

abbrev pub deleted : ℕ → Row → Bool
deleted i r = r.id == i && is_some r.deleted_at

-- `.values(…)`: the reason is written where one is given and the table has the column
abbrev pub marked : ℕ → Bool → Option String → Row → Row
marked now reasons none r = record r { deleted_at = some now }
marked now true (some s) r = record r { deleted_at = some now; deleted_reason = some s }
marked now false (some s) r = record r { deleted_at = some now }

abbrev pub cleared : Bool → Row → Row
cleared true r = record r { deleted_at = none; deleted_reason = none }
cleared false r = record r { deleted_at = none }

abbrev pub some_row : ℕ → Bool
some_row n = leb 1 n

unfoldable pub soft_delete : ℕ → Bool → ℕ → Option String → List Row → Bool × List Row
unfolding update rowcount
soft_delete now reasons i reason rows =
    (some_row (rowcount (active i) rows), update (active i) (marked now reasons reason) rows)

unfoldable pub restore : Bool → ℕ → List Row → Bool × List Row
unfolding update rowcount
restore reasons i rows =
    (some_row (rowcount (deleted i) rows), update (deleted i) (cleared reasons) rows)
