-- ===== src/Llm/Validate.antt =====
-- src/pf_core/llm/validate/_pipeline.py: the validation of a model's response in three stages, and the
-- signals that are kept for a run. Validators, the JSON parser, the recorder of a signal (which may fail)
-- and repr(exc) are parameters; a JSON value, a context and details are of types of the caller.
pub mod Sound
use Prim.Native.String.{String, ◌++◌ as join}
use pf_core.Prelude.{
  ℕ, Bool, true, false, not, ◌&&◌, ◌||◌, Option, none, some, List, [], ◌∷◌, ◌++◌, str_eq, elem,
  if◌then◌else◌,
}
use pf_core.Result.{Result, ok, err, Exn, raised}
use pf_core.Dict.{Dict, lookup}

pub record ValidationSignal : Type 0 where
  pub validator : String
  pub severity : String
  pub passed : Bool
  pub details : Option String

-- what a validator returns: None, a signal, a list with signals in it, or anything else
pub data Output : Type 0 where
  nothing other : Output
  one : ValidationSignal → Output
  many : List (Option ValidationSignal) → Output

pub record Validator {ℓ} (V : Type ℓ) : Type ℓ where
  pub name : Option String
  pub run : V → Result Output

pub record ValidatorPipeline {ℓ} (V : Type ℓ) : Type ℓ where
  pub shape : Option (V → Option V × ValidationSignal)
  pub semantic : List (Validator V)
  pub cross_field : List (Validator V)
  pub schema_version : ℕ

pub record ValidationResult {ℓ} (V : Type ℓ) : Type ℓ where
  pub is_ok : Bool
  pub value : Option V
  pub signals : List ValidationSignal
  pub schema_version : ℕ

-- the rows of llm_run_validations; the schema tag of the run is left out
abbrev pub Store : Type 0
Store = List (ℕ × ValidationSignal)

unfoldable pub signals_in : List (Option ValidationSignal) → List ValidationSignal
signals_in [] = []
signals_in (none ∷ outs) = signals_in outs
signals_in (some s ∷ outs) = s ∷ signals_in outs

abbrev pub coerce_signals : Output → List ValidationSignal
coerce_signals nothing = []
coerce_signals other = []
coerce_signals (one s) = s ∷ []
coerce_signals (many outs) = signals_in outs

abbrev pub blocks : ValidationSignal → Bool
blocks s = not s.passed && str_eq s.severity "error"

-- any(not s.passed and s.severity == "error")
unfoldable pub any_blocks : List ValidationSignal → Bool
any_blocks [] = false
any_blocks (s ∷ signals) = blocks s || any_blocks signals

abbrev pub failed : String → String → Option String → ValidationSignal
failed validator severity details = record {
  validator = validator;
  severity = severity;
  passed = false;
  details = details;
}

abbrev pub or_name : Option String → String → String
or_name none default = default
or_name (some s) default = s

module _ (recorded : ℕ → ValidationSignal → Bool) where
  -- repo.record of each signal; one that raises is logged and passed over
  unfoldable pub write_rows : ℕ → List ValidationSignal → List (ℕ × ValidationSignal)
  write_rows run_id [] = []
  write_rows run_id (s ∷ signals) =
      let rest = write_rows run_id signals in if recorded run_id s then (run_id, s) ∷ rest else rest

  -- _write_signals_to_db, where there is a run
  abbrev pub kept : Option ℕ → List ValidationSignal → Store → Store
  kept none signals st = st
  kept (some run_id) signals st = st ++ write_rows run_id signals

module _ (repr : Exn → String) where
  abbrev pub outcome : Option String → String → Result Output → List ValidationSignal
  outcome name default (ok out) = coerce_signals out
  outcome name default (err e) = failed (or_name name default) "error" (some (repr e)) ∷ []

module _ {ℓ} {V : Type ℓ} (repr : Exn → String) where
  -- one stage of validators over a value
  unfoldable pub run_validators : String → List (Validator V) → V → List ValidationSignal
  unfolding signals_in
  run_validators default [] v = []
  run_validators default (w ∷ ws) v =
      outcome repr w.name default (w.run v) ++ run_validators default ws v

  abbrev pub on_value : String → List (Validator V) → Option V → List ValidationSignal
  on_value default ws none = []
  on_value default ws (some v) = run_validators default ws v

abbrev pub value_if {ℓ} : {V : Type ℓ} → Bool → Option V → Option V
value_if true v = v
value_if false v = none

abbrev pub shaped {ℓ} :
    {V : Type ℓ}
    → Bool
    → Option (V → Option V × ValidationSignal)
    → V
    → Option V × List ValidationSignal
shaped false shape parsed = (some parsed, [])
shaped true none parsed = (some parsed, [])
shaped true (some shape) parsed =
    let (coerced, signal) = shape parsed in (value_if signal.passed coerced, signal ∷ [])

abbrev pub hit_limit : String → String → ValidationSignal
hit_limit agent_type severity =
    failed (join agent_type "_truncated") severity
      (some "provider reported the response hit the token limit")

-- the warning in front of the pipeline's signals
abbrev pub warned : String → Bool → List ValidationSignal
warned agent_type true = hit_limit agent_type "warn" ∷ []
warned agent_type false = []

-- the value and the signal of the shape stage
abbrev pub with_shape {ℓ} :
    {V : Type ℓ}
    → List ValidationSignal
    → Option V × List ValidationSignal
    → (Option V → List ValidationSignal)
    → Option V × List ValidationSignal
with_shape signals (v, shape_signals) stages = (v, signals ++ shape_signals ++ stages v)

abbrev pub if_stage : Bool → List ValidationSignal → List ValidationSignal
if_stage true signals = signals
if_stage false signals = []

-- the keyword arguments that do not name the response
pub record Call : Type 0 where
  pub agent_type : String
  pub run_id : Option ℕ
  pub stages : List String
  pub missing_raises : Bool

module _ {ℓ} {V : Type ℓ} (recorded : ℕ → ValidationSignal → Bool) (repr : Exn → String) where
  abbrev pub stage_signals : ValidatorPipeline V → Call → Option V → List ValidationSignal
  stage_signals p c v =
      if_stage (elem "semantic" c.stages) (on_value repr "semantic_unknown" p.semantic v)
      ++ if_stage (elem "cross_field" c.stages)
          (on_value repr "cross_field_unknown" p.cross_field v)

  abbrev pub finished :
      ValidatorPipeline V
      → Call
      → Option V × List ValidationSignal
      → Store
      → ValidationResult V × Store
  finished p c (v, signals) st = (
    record {
      is_ok = not (any_blocks signals);
      value = v;
      signals = signals;
      schema_version = p.schema_version;
    },
    kept recorded c.run_id signals st,
  )

  -- _run_stages
  unfoldable pub run_stages :
      ValidatorPipeline V → V → Call → List ValidationSignal → Store → ValidationResult V × Store
  unfolding any_blocks run_validators write_rows
  run_stages p parsed c signals st =
      finished p c
        (with_shape signals (shaped (elem "shape" c.stages) p.shape parsed) (stage_signals p c)) st

  abbrev pub refused : ValidatorPipeline V → List ValidationSignal → ValidationResult V
  refused p signals = record {
    is_ok = false;
    value = none;
    signals = signals;
    schema_version = p.schema_version;
  }

  -- the fallback result of _lookup_pipeline, or its exception
  abbrev pub no_pipeline : Call → Result (ValidationResult V)
  no_pipeline c =
      if c.missing_raises
      then err (raised "PipelineNotRegisteredError" c.agent_type)
      else ok (record {
        is_ok = false;
        value = none;
        signals = failed "no_pipeline_registered" "error" (some c.agent_type) ∷ [];
        schema_version = 1;
      })

  abbrev pub with_pipeline :
      Option (ValidatorPipeline V)
      → Call
      → (ValidatorPipeline V → ValidationResult V × Store)
      → Store
      → Result (ValidationResult V) × Store
  with_pipeline none c body st = (no_pipeline c, st)
  with_pipeline (some p) c body st = let (r, st') = body p in (ok r, st')

  unfoldable pub validate_value :
      Dict (ValidatorPipeline V) → V → Call → Store → Result (ValidationResult V) × Store
  unfolding lookup run_stages
  validate_value registry value c st =
      with_pipeline (lookup c.agent_type registry) c (λ p. run_stages p value c [] st) st

  abbrev pub on_parsed :
      ValidatorPipeline V
      → Call
      → List ValidationSignal
      → Option V
      → Store
      → ValidationResult V × Store
  on_parsed p c signals none st =
      let all =
        signals
        ++ failed (join c.agent_type "_parse") "error" (some "could not extract JSON from response")
          ∷ [] in
      (refused p all, kept recorded c.run_id all st)
  on_parsed p c signals (some parsed) st = run_stages p parsed c signals st

  -- `truncated` is the flag after the usage was asked, `fails` is on_truncation="fail"; the parser is
  -- given the flag
  unfoldable pub parse_and_validate :
      Dict (ValidatorPipeline V)
      → (Bool → Option V)
      → Bool
      → Bool
      → Call
      → Store
      → Result (ValidationResult V) × Store
  unfolding lookup run_stages
  parse_and_validate registry parse truncated fails c st =
      with_pipeline (lookup c.agent_type registry) c
        (λ p.
          if truncated && fails
          then (
            refused p (hit_limit c.agent_type "error" ∷ []),
            kept recorded c.run_id (hit_limit c.agent_type "error" ∷ []) st,
          )
          else on_parsed p c (warned c.agent_type truncated) (parse truncated) st)
        st
