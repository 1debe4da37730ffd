-- ===== src/Llm/Names.antt =====
-- src/pf_core/llm/tracking/_resolvers.py: the ids of agent slugs and model names, kept in a reference
-- table with a unique name and remembered for the life of the process.
pub mod Laws
use mathlib.Core.Option
use pf_core.Prelude.{
  ℕ, ◌+◌, String, Option, none, some, List, [], ◌∷◌, ◌++◌, str_eq, ◌==◌, if◌then◌else◌,
}
use pf_core.Result.{Result, ok, err, value_error, raised}
use pf_core.Dict.{Dict, lookup, put}
use pf_core.Sql.{first}

pub record NameRow : Type 0 where
  pub id : ℕ
  pub name : String

-- a reference table with its id counter, and the process cache of the ids read from it
pub record Names : Type 0 where
  pub rows : List NameRow
  pub next : ℕ
  pub known : Dict ℕ

-- INSERT OR IGNORE INTO … (name)
unfoldable pub insert_name : String → Names → Names
unfolding first
insert_name s n = elim (first (λ r. str_eq r.name s) n.rows) [
  | some r ↦ n
  | none ↦ record n { rows = n.rows ++ record { id = n.next; name = s } ∷ []; next = n.next + 1 }
]

abbrev pub read_id : String → Names → Option NameRow → Result ℕ × Names
read_id s n none = (err (raised "RuntimeError" s), n)
read_id s n (some r) = (ok r.id, record n { known = put s r.id n.known })

-- resolve_llm_model_id, resolve_agent_type_id
unfoldable pub resolve : String → Names → Result ℕ × Names
unfolding lookup insert_name first
resolve s n = if str_eq s "" then (err value_error, n) else elim (lookup s n.known) [
  | some i ↦ (ok i, n)
  | none ↦ read_id s (insert_name s n) (first (λ r. str_eq r.name s) (insert_name s n).rows)
]

-- the name behind an id, as a join sees it
unfoldable pub name_of : ℕ → Names → Option String
unfolding first
name_of i n = Option.map (λ r. r.name) (first (λ (r : NameRow). r.id == i) n.rows)
