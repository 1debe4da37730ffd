-- ===== src/Llm/Cache/Policy.antt =====
-- The entry points of src/pf_core/llm/cache/__init__.py under the policy of an agent (config.py), the
-- truncation flag of src/pf_core/llm/parse.py and the age tag of _recorder.py. The policy is given as
-- the function that answers for an agent; `normalise` is `str.strip` followed by `str.lower`.
pub mod Roundtrip
use mathlib.Core.Option
use pf_core.Prelude.{
  ℕ, ◌-◌, ◌*◌, ◌/◌, String, Bool, true, false, Option, none, some, List, [], ◌∷◌, ltb, elem, ℤ,
  if◌then◌else◌,
}
use pf_core.Result.{Result, ok, err}
use pf_core.Llm.Cache.{Cache, Row, Response, lookup, store}

pub record AgentCacheConfig : Type 0 where
  pub exact : Bool
  pub ttl_seconds : ℤ
  pub on_miss : String

-- its `similarity` is 1.0 on every exact hit
pub record CacheHit : Type 0 where
  pub entry_id : ℕ
  pub parsed_output : Option String
  pub raw_response : Option String
  pub source_run_id : ℕ
  pub model : String
  pub agent_type : String
  pub input_hash : String
  pub hit_type : String
  pub created_at : ℕ

abbrev pub truncated_reasons : List String
truncated_reasons = "length" ∷ "max_tokens" ∷ "model_context_window_exceeded" ∷ []

abbrev pub complete_reasons : List String
complete_reasons =
    "stop" ∷ "end_turn" ∷ "stop_sequence" ∷ "eos" ∷ "tool_use" ∷ "tool_calls" ∷ "function_call" ∷ []

-- `_TRUNCATED_REASONS` and `_COMPLETE_REASONS` read a finish reason
abbrev pub reason_flag : String → Option Bool
reason_flag s =
    if elem s truncated_reasons
    then some true
    else if elem s complete_reasons
    then some false
    else none

-- a usage dict is its finish reason, none when it is missing or no text
abbrev pub truncated_from_usage : (String → String) → Option String → Option Bool
truncated_from_usage normalise none = none
truncated_from_usage normalise (some s) = reason_flag (normalise s)

abbrev pub hit_of : String → Row → CacheHit
hit_of input_hash r = record {
  entry_id = r.id;
  parsed_output = r.parsed_output;
  raw_response = r.raw_response;
  source_run_id = r.source_run_id;
  model = r.model;
  agent_type = r.agent_type;
  input_hash = input_hash;
  hit_type = "exact";
  created_at = r.created_at;
}

unfoldable pub cache_lookup :
    (String → AgentCacheConfig) → String → String → Cache → Option CacheHit
unfolding lookup
cache_lookup policy agent_type input_hash c =
    if (policy agent_type).exact
    then Option.map (hit_of input_hash) (lookup input_hash agent_type c)
    else none

-- the explicit flag wins, else the usage decides
abbrev pub truncation : (String → String) → Option Bool → Option (Option String) → Option Bool
truncation normalise (some b) usage = some b
truncation normalise none none = none
truncation normalise none (some reason) = truncated_from_usage normalise reason

abbrev pub is_true : Option Bool → Bool
is_true none = false
is_true (some b) = b

abbrev pub unit_of : Result ℕ × Cache → Result (Unit {0}) × Cache
unit_of (ok i, c) = (ok tt, c)
unit_of (err e, c) = (err e, c)

-- the time to live of the response is the policy's
unfoldable pub cache_store :
    (String → AgentCacheConfig)
    → (String → String)
    → Response
    → Option (Option String)
    → Option Bool
    → Cache
    → Result (Unit {0}) × Cache
unfolding store
cache_store policy normalise e usage truncated c =
    let cfg = policy e.agent_type in
    if cfg.exact
    then if is_true (truncation normalise truncated usage)
      then (ok tt, c)
      else unit_of (store (record e { ttl_seconds = cfg.ttl_seconds }) c)
    else (ok tt, c)

-- `_age_bucket`, with whole hours, which the bounds compare alike
abbrev pub age_bucket : ℕ → Option ℕ → String
age_bucket now none = "cache_age:unknown"
age_bucket now (some created_at) =
    let hours = (now - created_at) / 3600000000 in
    if ltb hours 1
    then "cache_age:fresh"
    else if ltb hours 24
    then "cache_age:<1d"
    else if ltb hours 168
    then "cache_age:<7d"
    else "cache_age:>7d"
