-- ===== src/Budget/Sync.antt =====
-- `BudgetRepo.sync_from_desired` of src/pf_core/budget/repo.py: the rows of `llm_budgets` are made to
-- follow the configuration, in one transaction. Thresholds are a JSON text.
pub mod Upserts
pub mod Caps
use pf_core.Prelude.{
  ℕ, ◌+◌, String, Bool, true, false, not, ◌&&◌, ◌||◌, Option, none, some, List, [], ◌∷◌, ◌++◌,
  str_eq, ◌==◌, if◌then◌else◌,
}
use pf_core.Sql.{select, first, update}

-- what names a budget
pub record ScopeKey : Type 0 where
  pub scope_kind : String
  pub scope_value : Option String
  pub period : String

pub record Limits : Type 0 where
  pub limit_usd : Option ℕ
  pub limit_tokens : Option ℕ
  pub limit_calls : Option ℕ
  pub soft_thresholds : Option String
  pub action : String

pub record Desired : Type 0 where
  pub key : ScopeKey
  pub limits : Limits

pub record BudgetRow : Type 0 where
  pub id : ℕ
  pub key : ScopeKey
  pub limits : Limits
  pub enabled : Bool
  pub updated_at : ℕ

-- `IS NULL` for a missing value, `=` for a given one
abbrev pub value_eq : Option String → Option String → Bool
value_eq none none = true
value_eq (some a) (some b) = str_eq a b
value_eq _ _ = false

unfoldable pub key_eq : ScopeKey → ScopeKey → Bool
key_eq a b =
    str_eq a.scope_kind b.scope_kind
    && value_eq a.scope_value b.scope_value
    && str_eq a.period b.period

-- the table, its id counter, and the counts that the sync returns
pub record Synced : Type 0 where
  pub rows : List BudgetRow
  pub next_id : ℕ
  pub inserted : ℕ
  pub updated : ℕ
  pub disabled : ℕ

abbrev pub enforced : ℕ → Limits → BudgetRow → BudgetRow
enforced now l r = record r { limits = l; enabled = true; updated_at = now }

abbrev pub id_is : ℕ → BudgetRow → Bool
id_is i r = r.id == i

-- one round of the loop over the desired rows
unfoldable pub upsert_one : ℕ → Desired → Synced → Synced
unfolding first update key_eq
upsert_one now d s = elim (first (λ r. key_eq r.key d.key) s.rows) [
  | none ↦ record s {
    rows =
        s.rows
        ++ record {
          id = s.next_id;
          key = d.key;
          limits = d.limits;
          enabled = true;
          updated_at = now;
        }
          ∷ [];
    next_id = s.next_id + 1;
    inserted = s.inserted + 1;
  }
  | some e ↦ record s {
    rows = update (id_is e.id) (enforced now d.limits) s.rows;
    updated = s.updated + 1;
  }
]

unfoldable pub upsert_all : ℕ → List Desired → Synced → Synced
unfolding upsert_one
upsert_all now [] s = s
upsert_all now (d ∷ ds) s = upsert_all now ds (upsert_one now d s)

-- `key in desired_keys`
unfoldable pub wanted : List Desired → ScopeKey → Bool
unfolding key_eq
wanted [] k = false
wanted (d ∷ ds) k = key_eq k d.key || wanted ds k

abbrev pub switched_off : ℕ → BudgetRow → BudgetRow
switched_off now r = record r { enabled = false; updated_at = now }

-- the loop over `existing_rows`
unfoldable pub disable_each : ℕ → List Desired → List BudgetRow → Synced → Synced
unfolding update wanted
disable_each now desired [] s = s
disable_each now desired (r ∷ rs) s =
    if wanted desired r.key
    then disable_each now desired rs s
    else disable_each now desired rs (record s {
      rows = update (id_is r.id) (switched_off now) s.rows;
      disabled = s.disabled + 1;
    })

unfoldable pub disable_unwanted : ℕ → List Desired → Synced → Synced
unfolding disable_each select
disable_unwanted now [] s = s
disable_unwanted now (d ∷ ds) s = disable_each now (d ∷ ds) (select (λ r. r.enabled) s.rows) s

unfoldable pub sync_from_desired : ℕ → List Desired → List BudgetRow → ℕ → Synced
unfolding upsert_all disable_unwanted
sync_from_desired now desired rows next_id = disable_unwanted now desired (
    upsert_all now desired
      (record { rows = rows; next_id = next_id; inserted = 0; updated = 0; disabled = 0 }))
