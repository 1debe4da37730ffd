-- ===== src/Jobs/Registry.antt =====
-- src/pf_core/jobs/registry.py: job kinds, their states and transitions. A schema class is its
-- identity and what pydantic's `model_validate` makes of a payload, which is a JSON text here.
pub mod Kinds
mod Tests
use pf_core.Prelude.{
  ℕ, String, Bool, true, false, not, ◌&&◌, Option, none, some, List, [], ◌∷◌, str_eq, ◌==◌, elem, ℤ,
  pos, negsuc, in_range, if◌then◌else◌,
}
use pf_core.Result.{
  Exn, Result, ok, err, configuration_error, invalid_input_error, require, fetch, ◌>>=◌, ◌>>◌,
}
use pf_core.Dict.{Dict, lookup, put}

-- the outcomes of `schema.model_validate(value)`: the parsed model, dumped; a ValidationError; one
-- that wraps a flow exception of a validator
pub data Validation : Type 0 where
  parsed : String → Validation
  invalid : Validation
  escaped : Exn → Validation

pub record Schema : Type 0 where
  pub class_id : ℕ
  -- a subclass of pydantic's BaseModel
  pub is_model : Bool
  pub model_validate : String → Validation

abbrev pub default_states : List String
default_states = "pending" ∷ "running" ∷ "succeeded" ∷ "failed" ∷ "canceled" ∷ "partial" ∷ []

abbrev pub default_transitions : Dict (List String)
default_transitions =
    ("pending", "running" ∷ "canceled" ∷ [])
    ∷ ("running", "succeeded" ∷ "failed" ∷ "partial" ∷ "canceled" ∷ [])
    ∷ ("partial", "running" ∷ "failed" ∷ "canceled" ∷ [])
    ∷ ("failed", "pending" ∷ [])
    ∷ ("canceled", [])
    ∷ ("succeeded", [])
    ∷ []

abbrev pub terminal_states : List String
terminal_states = "succeeded" ∷ "failed" ∷ "canceled" ∷ []

abbrev pub is_terminal : String → Bool
is_terminal s = elem s terminal_states

pub record JobKind : Type 0 where
  pub kind : String
  pub states : List String
  pub transitions : Dict (List String)
  pub description : Option String
  pub inputs_schema : Option Schema
  pub outputs_schema : Option Schema
  pub default_priority : ℤ
  pub auto_track_progress : Bool

-- dict.get(from, ())
abbrev pub targets : Option (List String) → List String
targets none = []
targets (some l) = l

unfoldable pub can_transition : JobKind → String → String → Bool
unfolding lookup
can_transition k from to = elem to (targets (lookup from k.transitions))

abbrev validated : Validation → Result String
validated (parsed v) = ok v
validated invalid = err invalid_input_error
validated (escaped e) = err e

unfoldable pub validate_against_schema : String → Option Schema → Result String
validate_against_schema value none = ok value
validate_against_schema value (some s) =
    if s.is_model then validated (s.model_validate value) else err configuration_error

abbrev pub validate_inputs : JobKind → String → Result String
validate_inputs k v = validate_against_schema v k.inputs_schema

abbrev pub validate_outputs : JobKind → String → Result String
validate_outputs k v = validate_against_schema v k.outputs_schema

abbrev pub Registry : Type 0
Registry = Dict JobKind

-- The arguments of `register_kind`.
pub record KindSpec : Type 0 where
  pub kind : String
  pub states : List String
  pub transitions : Option (Dict (List String))
  pub description : Option String
  pub inputs_schema : Option Schema
  pub outputs_schema : Option Schema
  pub default_priority : ℤ
  pub auto_track_progress : Bool

-- tuple(states) if states else DEFAULT_STATES
abbrev pub resolved_states : List String → List String
resolved_states [] = default_states
resolved_states (s ∷ ss) = s ∷ ss

abbrev pub resolved_dict : Option (Dict (List String)) → Dict (List String)
resolved_dict none = default_transitions
resolved_dict (some d) = d

-- [s for s in to_states if s not in states] is empty
unfoldable pub all_known : List String → List String → Bool
all_known states [] = true
all_known states (s ∷ ss) = elem s states && all_known states ss

-- the loop over the transitions' items
unfoldable pub resolve_transitions :
    List String → Dict (List String) → Dict (List String) → Result (Dict (List String))
unfolding all_known
resolve_transitions states [] acc = ok acc
resolve_transitions states ((from, to) ∷ items) acc =
    let rest = resolve_transitions states items (put from to acc) in
    if elem from states && all_known states to then rest else err configuration_error

-- `==` of the frozen dataclass; schema classes are compared by identity
texts_eq : List String → List String → Bool
texts_eq [] [] = true
texts_eq (a ∷ as') (b ∷ bs) = str_eq a b && texts_eq as' bs
texts_eq _ _ = false

has_all : Dict (List String) → Dict (List String) → Bool
unfolding texts_eq lookup
has_all [] e = true
has_all ((k, v) ∷ d) e = elim (lookup k e) [ none ↦ false | some w ↦ texts_eq v w ] && has_all d e

dict_eq : Dict (List String) → Dict (List String) → Bool
unfolding has_all
dict_eq d e = has_all d e && has_all e d

description_eq : Option String → Option String → Bool
description_eq none none = true
description_eq (some a) (some b) = str_eq a b
description_eq _ _ = false

schema_eq : Option Schema → Option Schema → Bool
schema_eq none none = true
schema_eq (some a) (some b) = a.class_id == b.class_id
schema_eq _ _ = false

int_eq : ℤ → ℤ → Bool
int_eq (pos a) (pos b) = a == b
int_eq (negsuc a) (negsuc b) = a == b
int_eq _ _ = false

flag_eq : Bool → Bool → Bool
flag_eq true b = b
flag_eq false b = not b

unfoldable pub kind_eq : JobKind → JobKind → Bool
unfolding texts_eq dict_eq description_eq schema_eq int_eq flag_eq
kind_eq a b =
    str_eq a.kind b.kind
    && texts_eq a.states b.states
    && dict_eq a.transitions b.transitions
    && description_eq a.description b.description
    && schema_eq a.inputs_schema b.inputs_schema
    && schema_eq a.outputs_schema b.outputs_schema
    && int_eq a.default_priority b.default_priority
    && flag_eq a.auto_track_progress b.auto_track_progress

unfoldable pub same_or_new : Option JobKind → JobKind → Bool
unfolding kind_eq
same_or_new none d = true
same_or_new (some e) d = kind_eq e d

unfoldable pub descriptor_of : KindSpec → Dict (List String) → JobKind
descriptor_of a transitions = record {
  kind = a.kind;
  states = resolved_states a.states;
  transitions = transitions;
  description = a.description;
  inputs_schema = a.inputs_schema;
  outputs_schema = a.outputs_schema;
  default_priority = a.default_priority;
  auto_track_progress = a.auto_track_progress;
}

unfoldable pub register_kind : KindSpec → Registry → Result (JobKind × Registry)
unfolding resolve_transitions descriptor_of same_or_new lookup put
register_kind a reg = do
  require (not (str_eq a.kind "")) configuration_error
  transitions ← resolve_transitions (resolved_states a.states) (resolved_dict a.transitions) []
  require (in_range 100 a.default_priority) configuration_error
  let d = descriptor_of a transitions
  require (same_or_new (lookup a.kind reg) d) configuration_error
  ok (d, put a.kind d reg)

unfoldable pub get_kind : Registry → String → Result JobKind
unfolding lookup
get_kind reg kind = fetch (lookup kind reg) configuration_error
