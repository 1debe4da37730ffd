-- ===== src/Db/Tests.antt =====
-- Runs of the database helpers at concrete inputs.
use pf_core.Prelude.{ℕ, true, none, some, List, [], ◌∷◌, ◌≡◌, refl}
use pf_core.Result.{ok}
use pf_core.Dict.{Dict}
use pf_core.Db.VersionedConfig.{Value, int, text, Table, is_ident, append_version}
use pf_core.Db.VersionedConfig.Laws.{IsAppendable}
use pf_core.Db.VersionedConfig.Laws.Append.{Appended, append_version-Appended}
use pf_core.Db.SoftDelete

abbrev configs : Table
configs = record {
  name = "report_config";
  columns = "id" ∷ "report_id" ∷ "version" ∷ "query" ∷ [];
  fill = λ col n. int n;
  rows = (λ col. int 4) ∷ [];
}

abbrev report : Dict Value
report = ("report_id", int 4) ∷ []

abbrev query : Dict Value
query = ("query", text "q") ∷ []

report-IsAppendable : IsAppendable "version" report query configs
unfolding is_ident
report-IsAppendable = record {
  name = refl;
  columns = (refl, (refl, (refl, (refl, tt))));
  version = refl;
  scope_known = refl;
  values_known = refl;
  scope_keys = (tt, tt);
  values_keys = (tt, tt);
  scope_apart = ((refl, refl), tt);
  values_apart = (refl, tt);
}

append_version-Appended_example :
    (n : ℕ) × (t' : Table) × (append_version "version" report query true ("id" ∷ []) configs
      ≡ ok (n, t'))
    × Appended "version" report query true ("id" ∷ []) configs n t'
append_version-Appended_example =
    append_version-Appended "version" report query true ("id" ∷ []) configs report-IsAppendable

abbrev two_rows : List SoftDelete.Row
two_rows =
    record { id = 1; deleted_at = none; deleted_reason = none; rest = "a" }
    ∷ record { id = 2; deleted_at = some 3; deleted_reason = some "old"; rest = "b" }
    ∷ []
