-- ===== src/Llm/Prompts.antt =====
-- resolve_prompt_id of src/pf_core/llm/tracking/_resolvers.py: the version of a prompt that a run cites.
-- `cited` are the ids that runs refer to. The date column is left out, and `part` is one that the CHECK
-- constraint allows.
pub mod Cited
use pf_core.Prelude.{
  ℕ, ◌+◌, max, String, Bool, true, false, not, ◌&&◌, ◌||◌, Option, none, some, List, [], ◌∷◌, ◌++◌,
  str_eq, ◌==◌, elem, if◌then◌else◌,
}
use pf_core.Result.{Result, ok, err, value_error}
use pf_core.Sql.{first, update}

pub record PromptRow : Type 0 where
  pub id : ℕ
  pub agent_type_id : ℕ
  pub part : String
  pub version : ℕ
  pub content : String

pub record Prompts : Type 0 where
  pub rows : List PromptRow
  pub next : ℕ
  pub cited : List ℕ

abbrev pub of_part : ℕ → String → PromptRow → Bool
of_part agent part r = r.agent_type_id == agent && str_eq r.part part

abbrev pub key_is : ℕ → String → ℕ → PromptRow → Bool
key_is agent part version r = of_part agent part r && r.version == version

-- COALESCE(MAX(version), 0) over the rows of an agent and a part
unfoldable pub max_version : ℕ → String → List PromptRow → ℕ
max_version agent part [] = 0
max_version agent part (r ∷ rows) =
    let rest = max_version agent part rows in
    if of_part agent part r then max r.version rest else rest

abbrev pub row_id : Option PromptRow → Option ℕ
row_id none = none
row_id (some r) = some r.id

abbrev pub inserted : ℕ → String → ℕ → String → Prompts → Prompts
inserted agent part version content p = record p {
  rows =
      p.rows
      ++ record {
        id = p.next;
        agent_type_id = agent;
        part = part;
        version = version;
        content = content;
      }
        ∷ [];
  next = p.next + 1;
}

-- INSERT IGNORE of a version that is not there, and the id read back
unfoldable pub insert_prompt : ℕ → String → ℕ → String → Prompts → Option ℕ × Prompts
unfolding first
insert_prompt agent part version content p =
    let p' = inserted agent part version content p in
    (row_id (first (key_is agent part version) p'.rows), p')

abbrev pub is_cited : ℕ → List ℕ → Bool
is_cited i [] = false
is_cited i (j ∷ js) = i == j || is_cited i js

abbrev pub edited : ℕ → String → Prompts → Prompts
edited i content p = record p {
  rows = update (λ r. r.id == i) (λ r. record r { content = content }) p.rows;
}

abbrev pub ok_id : Option ℕ × Prompts → Result (Option ℕ) × Prompts
ok_id (i, p) = (ok i, p)

-- the policies for a row whose content differs
unfoldable pub on_conflict : String → PromptRow → String → Prompts → Result (Option ℕ) × Prompts
unfolding update insert_prompt max_version
on_conflict on_change r content p =
    if str_eq on_change "keep_first"
    then (ok (some r.id), p)
    else if str_eq on_change "error"
    then (err value_error, p)
    else if is_cited r.id p.cited
    then ok_id (
        insert_prompt r.agent_type_id r.part (max_version r.agent_type_id r.part p.rows + 1) content
          p)
    else (ok (some r.id), edited r.id content p)

abbrev pub with_row :
    ℕ → String → ℕ → String → String → Prompts → Option PromptRow → Result (Option ℕ) × Prompts
with_row agent part version content on_change p none =
    ok_id (insert_prompt agent part version content p)
with_row agent part version content on_change p (some r) =
    if str_eq r.content content then (ok (some r.id), p) else on_conflict on_change r content p

abbrev pub policies : List String
policies = "keep_first" ∷ "update_unused" ∷ "error" ∷ []

unfoldable pub resolve_prompt_id :
    ℕ → String → Option ℕ → String → String → Prompts → Result (Option ℕ) × Prompts
unfolding first on_conflict insert_prompt
resolve_prompt_id agent part none content on_change p = (ok none, p)
resolve_prompt_id agent part (some version) content on_change p =
    if str_eq content ""
    then (ok none, p)
    else if not (elem on_change policies)
    then (err value_error, p)
    else with_row agent part version content on_change p (first (key_is agent part version) p.rows)
