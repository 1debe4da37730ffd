-- ===== src/Llm/Cache.antt =====
-- The exact response cache: src/pf_core/llm/cache/exact.py, invalidate.py, the entry points of
-- __init__.py and the age tag of _recorder.py. A JSON value is its text, SHA256 keys are texts, the clock
-- a number of microseconds; `runs` are the ids of the run table, which the source run must be one of.
pub mod Laws
pub mod View
pub mod Refine
pub mod Policy
use mathlib.Core.Option
use pf_core.Prelude.{
  ℕ, zero, suc, ◌+◌, ◌-◌, ◌*◌, String, Bool, true, false, not, ◌&&◌, ◌||◌, Option, none, some, List,
  [], ◌∷◌, ◌++◌, str_eq, ◌==◌, ltb, leb, elem, ℤ, pos, negsuc, if◌then◌else◌,
}
use pf_core.Result.{Result, ok, err, integrity_error, raised}
use pf_core.Sql.{first, update, delete, rowcount}
use pf_core.Llm.Names.{Names, resolve, name_of}

-- a row of llm_cache_entries
pub record Entry : Type 0 where
  pub id : ℕ
  pub input_hash : String
  pub agent_type_id : ℕ
  pub model_id : ℕ
  pub source_run_id : ℕ
  pub parsed_output : Option String
  pub raw_response : Option String
  pub hit_count : ℕ
  pub last_hit_at : Option ℕ
  pub expires_at : Option ℕ
  pub created_at : ℕ

pub record Cache : Type 0 where
  pub agents : Names
  pub models : Names
  pub entries : List Entry
  pub next : ℕ
  pub runs : List ℕ
  pub now : ℕ

-- what `lookup` selects
pub record Row : Type 0 where
  pub id : ℕ
  pub parsed_output : Option String
  pub raw_response : Option String
  pub source_run_id : ℕ
  pub created_at : ℕ
  pub model : String
  pub agent_type : String

-- the arguments of `store`
pub record Response : Type 0 where
  pub input_hash : String
  pub agent_type : String
  pub model : String
  pub source_run_id : ℕ
  pub parsed_output : Option String
  pub raw_response : Option String
  pub ttl_seconds : ℤ

abbrev pub is_name : String → Option String → Bool
is_name s none = false
is_name s (some t) = str_eq t s

abbrev pub named : Names → String → ℕ → Bool
named n s i = is_name s (name_of i n)

abbrev pub is_live : ℕ → Option ℕ → Bool
is_live now none = true
is_live now (some t) = ltb now t

-- the row, joined to its model and its agent
abbrev pub joined : Entry → Option String → Option String → Option Row
joined r none agent_type = none
joined r (some model) none = none
joined r (some model) (some agent_type) = some (record {
  id = r.id;
  parsed_output = r.parsed_output;
  raw_response = r.raw_response;
  source_run_id = r.source_run_id;
  created_at = r.created_at;
  model = model;
  agent_type = agent_type;
})

abbrev pub selected : Cache → Option Entry → Option Row
selected c none = none
selected c (some r) = joined r (name_of r.model_id c.models) (name_of r.agent_type_id c.agents)

abbrev pub is_hit : Cache → String → String → Entry → Bool
is_hit c input_hash agent_type r =
    str_eq r.input_hash input_hash
    && named c.agents agent_type r.agent_type_id
    && is_live c.now r.expires_at

-- ExactCacheRepo.lookup
unfoldable pub lookup : String → String → Cache → Option Row
unfolding first
lookup input_hash agent_type c = selected c (first (is_hit c input_hash agent_type) c.entries)

abbrev pub expiry : ℕ → ℤ → Option ℕ
expiry now (pos zero) = none
expiry now (pos (suc n)) = some (now + suc n * 1000000)
expiry now (negsuc n) = none

-- the key that the upsert conflicts on
abbrev pub same_key : String → ℕ → Entry → Bool
same_key input_hash agent_type_id r =
    str_eq r.input_hash input_hash && r.agent_type_id == agent_type_id

abbrev pub new_entry : Response → ℕ → ℕ → Cache → Entry
new_entry e agent_type_id model_id c = record {
  id = c.next;
  input_hash = e.input_hash;
  agent_type_id = agent_type_id;
  model_id = model_id;
  source_run_id = e.source_run_id;
  parsed_output = e.parsed_output;
  raw_response = e.raw_response;
  hit_count = 0;
  last_hit_at = none;
  expires_at = expiry c.now e.ttl_seconds;
  created_at = c.now;
}

-- the columns that a conflict overwrites
abbrev pub refreshed : Response → ℕ → ℕ → Entry → Entry
refreshed e model_id now r = record r {
  model_id = model_id;
  source_run_id = e.source_run_id;
  parsed_output = e.parsed_output;
  raw_response = e.raw_response;
  expires_at = expiry now e.ttl_seconds;
}

-- the row that the constraint finds is refreshed, else one is inserted
unfoldable pub upsert_rows : Response → ℕ → ℕ → Cache → Option Entry → List Entry
unfolding update
upsert_rows e agent_type_id model_id c none = c.entries ++ new_entry e agent_type_id model_id c ∷ []
upsert_rows e agent_type_id model_id c (some r) =
    update (same_key e.input_hash agent_type_id) (refreshed e model_id c.now) c.entries

abbrev pub next_id : ℕ → Option Entry → ℕ
next_id n none = n + 1
next_id n (some r) = n

-- INSERT … ON CONFLICT (input_hash, agent_type_id) DO UPDATE
unfoldable pub upsert_entry : Response → ℕ → ℕ → Cache → Cache
unfolding first upsert_rows
upsert_entry e agent_type_id model_id c =
    let row = first (same_key e.input_hash agent_type_id) c.entries in
    record c { entries = upsert_rows e agent_type_id model_id c row; next = next_id c.next row }

abbrev pub read_back : Option Entry → Result ℕ
read_back none = err (raised "DataError" "cache entry missing after upsert")
read_back (some r) = ok r.id

abbrev pub has_run : ℕ → List ℕ → Bool
has_run i [] = false
has_run i (j ∷ js) = i == j || has_run i js

-- the transaction of `store`
unfoldable pub store_entry : Response → ℕ → ℕ → Cache → Result ℕ × Cache
unfolding upsert_entry first
store_entry e agent_type_id model_id c =
    if has_run e.source_run_id c.runs
    then (
      read_back (
          first (same_key e.input_hash agent_type_id)
            (upsert_entry e agent_type_id model_id c).entries),
      upsert_entry e agent_type_id model_id c,
    )
    else (err integrity_error, c)

abbrev pub store_model : Response → ℕ → Cache → Result ℕ × Names → Result ℕ × Cache
store_model e agent_type_id c (err x, models) = (err x, record c { models = models })
store_model e agent_type_id c (ok model_id, models) =
    store_entry e agent_type_id model_id (record c { models = models })

abbrev pub store_agent : Response → Cache → Result ℕ × Names → Result ℕ × Cache
store_agent e c (err x, agents) = (err x, record c { agents = agents })
store_agent e c (ok agent_type_id, agents) =
    store_model e agent_type_id (record c { agents = agents }) (resolve e.model c.models)

-- ExactCacheRepo.store. The resolvers commit before its transaction.
unfoldable pub store : Response → Cache → Result ℕ × Cache
unfolding resolve store_entry
store e c = store_agent e c (resolve e.agent_type c.agents)

-- ExactCacheRepo.bump_hit
unfoldable pub bump_hit : ℕ → Cache → Cache
unfolding update
bump_hit entry_id c = record c {
  entries =
      update (λ r. r.id == entry_id)
        (λ r. record r { hit_count = r.hit_count + 1; last_hit_at = some c.now }) c.entries;
}

unfoldable pub delete_entries : (Entry → Bool) → Cache → ℕ × Cache
unfolding delete rowcount
delete_entries p c = (rowcount p c.entries, record c { entries = delete p c.entries })

abbrev pub ok_count : ℕ × Cache → Result ℕ × Cache
ok_count (n, c) = (ok n, c)

abbrev pub agent_deleted : Cache → Result ℕ × Names → Result ℕ × Cache
agent_deleted c (err x, agents) = (err x, record c { agents = agents })
agent_deleted c (ok i, agents) =
    ok_count (delete_entries (λ r. r.agent_type_id == i) (record c { agents = agents }))

unfoldable pub by_agent : String → Cache → Result ℕ × Cache
unfolding resolve delete_entries
by_agent agent_type c = agent_deleted c (resolve agent_type c.agents)

abbrev pub others_deleted : ℕ → Cache → Result ℕ × Names → Result ℕ × Cache
others_deleted i c (err x, models) = (err x, record c { models = models })
others_deleted i c (ok j, models) = ok_count (
    delete_entries (λ r. r.agent_type_id == i && not (r.model_id == j))
      (record c { models = models }))

abbrev pub model_deleted : String → Cache → Result ℕ × Names → Result ℕ × Cache
model_deleted new_model c (err x, agents) = (err x, record c { agents = agents })
model_deleted new_model c (ok i, agents) =
    others_deleted i (record c { agents = agents }) (resolve new_model c.models)

unfoldable pub by_model : String → String → Cache → Result ℕ × Cache
unfolding resolve delete_entries
by_model agent_type new_model c = model_deleted new_model c (resolve agent_type c.agents)

unfoldable pub by_run : ℕ → Cache → ℕ × Cache
unfolding delete_entries
by_run run_id c = delete_entries (λ r. r.source_run_id == run_id) c

abbrev pub is_expired : ℕ → Option ℕ → Bool
is_expired now none = false
is_expired now (some t) = leb t now

unfoldable pub purge_expired : Cache → ℕ × Cache
unfolding delete_entries
purge_expired c = delete_entries (λ r. is_expired c.now r.expires_at) c
