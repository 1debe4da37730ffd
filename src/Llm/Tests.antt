-- ===== src/Llm/Tests.antt =====
-- Runs of the language model components at concrete inputs.
use mathlib.Core.Option
use pf_core.Prelude.{String, true, none, some, List, [], ◌∷◌, ◌≡◌, ◌≢◌, ◌⊎◌, refl, pos}
use pf_core.Result.{ok}
use pf_core.Llm.Names.{Names}
use pf_core.Llm.Cache.{Cache, Response, lookup}
use pf_core.Llm.Cache.View.{IsValid, view, content_of}
use pf_core.Llm.Cache.Refine.{
  Op, stores, hits, drops_models, drops_run, purges, waits, run, replay, seen,
}
use pf_core.Llm.Cache.Refine.Runs.{reply_row, reply, lookup-run_refines}
use pf_core.Llm.Cache.Policy.{AgentCacheConfig, cache_lookup, cache_store}
use pf_core.Llm.Cache.Policy.Roundtrip.{reply_hit, cache_lookup-cache_store}
use pf_core.Llm.SafeApply.{GatherResult, safe_apply}
use pf_core.Llm.SafeApply.Drift.{safe_apply_exact}
use pf_core.Llm.Prompts.{Prompts, resolve_prompt_id}
use pf_core.Llm.Prompts.Cited.{IsTable, IsResolved, resolve_prompt_id-IsResolved}
use pf_core.Prelude.{ℕ, arith, str_eq, ◌&&◌, ◌++◌, false, Option, Bool}
use pf_core.Llm.Validate.{
  ValidationSignal, ValidatorPipeline, ValidationResult, Store, Call, nothing, parse_and_validate,
}
use pf_core.Llm.Validate.Sound.{
  caution, IsSound, parse_and_validate-IsSound, parse_and_validate_misshapen,
}

abbrev no_names : Names
no_names = record { rows = []; next = 1; known = [] }

abbrev no_entries : Cache
no_entries = record {
  agents = no_names;
  models = no_names;
  entries = [];
  next = 1;
  runs = 7 ∷ 8 ∷ [];
  now = 100;
}

no_entries-IsValid : IsValid no_entries
unfolding pf_core.Dict.lookup
no_entries-IsValid = record {
  agents = record { ids = (tt, tt); names = tt; remembered = λ s i h. absurd (cc) };
  models = record { ids = (tt, tt); names = tt; remembered = λ s i h. absurd (cc) };
  keys = tt;
  rows = tt;
}

abbrev answer : Response
answer = record {
  input_hash = "a1";
  agent_type = "classifier";
  model = "small";
  source_run_id = 7;
  parsed_output = some "{}";
  raw_response = none;
  ttl_seconds = pos 60;
}

abbrev session : List Op
session =
    stores answer
    ∷ waits 5
    ∷ stores (record answer { input_hash = "b2"; model = "large" })
    ∷ hits 1
    ∷ drops_models "classifier" "large"
    ∷ waits 70000000
    ∷ purges
    ∷ stores answer
    ∷ drops_run 8
    ∷ []

lookup-run_refines_example :
    Option.map reply_row (lookup "a1" "classifier" (run session no_entries))
    ≡ Option.map reply (
        seen
          (run session no_entries).now
          (replay no_entries.runs no_entries.now session (view no_entries) "a1" "classifier"))
lookup-run_refines_example =
    lookup-run_refines session no_entries "a1" "classifier" no_entries-IsValid

-- the run ends with the answer in the cache
session_hit :
    Option.map reply_row (lookup "a1" "classifier" (run session no_entries))
    ≡ some (reply (content_of answer 0))
unfolding lookup run pf_core.Dict.put pf_core.Llm.Names.name_of
session_hit = refl

abbrev daily : String → AgentCacheConfig
daily a = record { exact = true; ttl_seconds = pos 86400; on_miss = "proceed" }

cache_lookup-cache_store_example :
    ((cache_store daily (λ s. s) answer (some (some "stop")) none no_entries).0 ≡ ok tt)
    × (Option.map reply_hit (
          cache_lookup daily "classifier" "a1"
            (record (cache_store daily (λ s. s) answer (some (some "stop")) none no_entries).1 {
              now = 500;
            }))
        ≡ some (reply (content_of answer 100)))
cache_lookup-cache_store_example =
    cache_lookup-cache_store daily (λ s. s) answer (some (some "stop")) none no_entries 500
      no_entries-IsValid (refl, refl, refl) refl refl (omega arith)

abbrev gathered : GatherResult String
gathered = record { target_count = 2; target_texts = "x" ∷ "y" ∷ []; plan = "swap" }

safe_apply_exact_example :
    ((gathered.target_texts ≡ "x" ∷ "z" ∷ [])
      × (safe_apply gathered ("x" ∷ "z" ∷ []) (λ p. p) ≡ some "swap"))
    ⊎ ((gathered.target_texts ≢ "x" ∷ "z" ∷ [])
        × (safe_apply gathered ("x" ∷ "z" ∷ []) (λ p. p) ≡ none))
safe_apply_exact_example = safe_apply_exact gathered ("x" ∷ "z" ∷ []) (λ p. p) refl

abbrev unparsed : Bool → Option String
unparsed t = none

abbrev length_signal : ValidationSignal
length_signal = record {
  validator = "digest_schema";
  severity = "error";
  passed = false;
  details = none;
}

abbrev refuse : String → Option String × ValidationSignal
refuse v = (none, length_signal)

abbrev digest : ValidatorPipeline String
digest = record {
  shape = some refuse;
  semantic = record { name = some "url_sanity"; run = λ v. ok nothing } ∷ [];
  cross_field = [];
  schema_version = 2;
}

abbrev digest_call : Call
digest_call = record {
  agent_type = "digest";
  run_id = some 7;
  stages = "shape" ∷ "semantic" ∷ "cross_field" ∷ [];
  missing_raises = true;
}

parse_and_validate-IsSound_example :
    (r : ValidationResult String) × (st' : Store) × (parse_and_validate
        (λ i s. true)
        (λ e. "e")
        (("digest", digest) ∷ [])
        unparsed
        true
        false
        digest_call
        []
      ≡ (ok r, st'))
    × IsSound (λ i s. true) (λ e. "e") digest_call [] r st'
    × (((true && false) ≡ true) ⊎ (unparsed true ≡ none) → (r.is_ok ≡ false) × (r.value ≡ none))
unfolding pf_core.Dict.lookup
parse_and_validate-IsSound_example =
    parse_and_validate-IsSound (λ i s. true) (λ e. "e") (("digest", digest) ∷ []) unparsed true
      false digest_call [] digest refl

parse_and_validate_misshapen_example :
    (r : ValidationResult String) × (st' : Store) × (parse_and_validate
        (λ i s. true)
        (λ e. "e")
        (("digest", digest) ∷ [])
        (λ t. some "x")
        true
        false
        digest_call
        []
      ≡ (ok r, st'))
    × (r.value ≡ none)
    × (r.signals ≡ caution "digest" true ++ length_signal ∷ [])
unfolding pf_core.Dict.lookup
parse_and_validate_misshapen_example =
    parse_and_validate_misshapen (λ i s. true) (λ e. "e") (("digest", digest) ∷ []) (λ t. some "x")
      true digest_call [] digest refuse "x" refl refl refl refl refl

abbrev one_prompt : Prompts
one_prompt = record {
  rows =
      record { id = 1; agent_type_id = 4; part = "system"; version = 1; content = "be brief" } ∷ [];
  next = 2;
  cited = 1 ∷ [];
}

one_prompt-IsTable : IsTable one_prompt
one_prompt-IsTable = ((tt, tt), (omega arith, tt))

resolve_prompt_id-IsResolved_example :
    IsResolved "update_unused" "be kind" one_prompt
      (resolve_prompt_id 4 "system" (some 1) "be kind" "update_unused" one_prompt).0
      (resolve_prompt_id 4 "system" (some 1) "be kind" "update_unused" one_prompt).1
    × (str_eq "update_unused" "error" ≡ false
        → (i : ℕ) × ((resolve_prompt_id 4 "system" (some 1) "be kind" "update_unused" one_prompt).0
            ≡ ok (some i)))
resolve_prompt_id-IsResolved_example =
    resolve_prompt_id-IsResolved 4 "system" 1 "be kind" "update_unused" one_prompt
      one_prompt-IsTable refl refl
