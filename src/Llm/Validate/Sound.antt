-- ===== src/Llm/Validate/Sound.antt =====
-- What the results of src/pf_core/llm/validate/_pipeline.py say about their signals and their value.
use pf_core.Prelude.{
  ℕ, String, Bool, true, false, not, ◌&&◌, ◌||◌, Option, none, some, List, [], ◌∷◌, ◌++◌, elem, ◌≡◌,
  ◌⊎◌, ◌↔◌, ◌≢◌, All, str_eq, eq_iff, refl, ap, ◌∙◌, inl, inr, arith, Bool-cases,
}
use pf_core.Result.{ok, Exn}
use pf_core.Dict.{Dict, lookup}
use pf_core.Llm.Validate.{
  ValidationSignal, ValidatorPipeline, ValidationResult, Store, Call, any_blocks, failed, join,
  kept, shaped, finished, run_stages, write_rows, refused, warned, on_parsed, parse_and_validate,
  hit_limit, with_shape, stage_signals, if_stage, value_if,
}

append-nil : (ss : List ValidationSignal) → ss ++ [] ≡ ss
append-nil [] = refl
append-nil (s ∷ ss) = ap (λ (ts : List ValidationSignal). s ∷ ts) (append-nil ss)

any_blocks-append :
    (ss ts : List ValidationSignal) → any_blocks (ss ++ ts) ≡ (any_blocks ss || any_blocks ts)
unfolding any_blocks
any_blocks-append [] ts = refl
any_blocks-append (s ∷ ss) ts = ground (arith, any_blocks-append ss ts)

any_blocks_none :
    (signals : List ValidationSignal)
    → not (any_blocks signals) ≡ true
    → All (λ s. (s.passed ≡ true) ⊎ (s.severity ≢ "error")) signals
unfolding any_blocks
any_blocks_none [] h = tt
any_blocks_none (s ∷ signals) h = (
  elim (Bool-cases s.passed) [
    | inl p ↦ inl p
    | inr p ↦ inr (λ e. absurd (ground (arith, p, h, (eq_iff s.severity "error").1 e)))
  ],
  any_blocks_none signals (ground (arith, h)),
)

none_blocks :
    (signals : List ValidationSignal)
    → All (λ s. (s.passed ≡ true) ⊎ (s.severity ≢ "error")) signals
    → not (any_blocks signals) ≡ true
unfolding any_blocks
none_blocks [] h = refl
none_blocks (s ∷ signals) (a, h) =
    let rest = none_blocks signals h in
    elim a [
      | inl p ↦ rw p rest
      | inr n ↦ elim (Bool-cases (str_eq s.severity "error")) [
        | inl e ↦ absurd (n ((eq_iff s.severity "error").0 e))
        | inr e ↦ rw e (ground (arith, rest))
      ]
    ]

-- the warning of a truncated response
abbrev pub caution : String → Bool → List ValidationSignal
caution agent_type false = []
caution agent_type true =
    record {
      validator = join agent_type "_truncated";
      severity = "warn";
      passed = false;
      details = some "provider reported the response hit the token limit";
    }
    ∷ []

warned-caution : (agent_type : String) (b : Bool) → warned agent_type b ≡ caution agent_type b
warned-caution agent_type true = refl
warned-caution agent_type false = refl

module _ (recorded : ℕ → ValidationSignal → Bool) where
  -- the rows of the signals that the recorder takes, in their order
  abbrev pub IsWritten : ℕ → List ValidationSignal → Store → Type 0
  IsWritten run_id [] rows = rows ≡ []
  IsWritten run_id (s ∷ signals) rows =
      ((recorded run_id s ≡ true)
        × ((rest : Store) × (rows ≡ (run_id, s) ∷ rest) × IsWritten run_id signals rest))
      ⊎ ((recorded run_id s ≡ false) × IsWritten run_id signals rows)

  abbrev pub IsKept : Option ℕ → List ValidationSignal → Store → Store → Type 0
  IsKept none signals st st' = st' ≡ st
  IsKept (some run_id) signals st st' =
      (rows : Store) × (st' ≡ st ++ rows) × IsWritten run_id signals rows

  write_rows-IsWritten :
      (run_id : ℕ) (signals : List ValidationSignal)
      → IsWritten run_id signals (write_rows recorded run_id signals)
  unfolding write_rows
  write_rows-IsWritten run_id [] = refl
  write_rows-IsWritten run_id (s ∷ signals) = elim (Bool-cases (recorded run_id s)) [
    | inl e ↦ rw e (inl (refl, (_, refl, write_rows-IsWritten run_id signals)))
    | inr e ↦ rw e (inr (refl, write_rows-IsWritten run_id signals))
  ]

  kept-IsKept :
      (o : Option ℕ) (signals : List ValidationSignal) (st : Store)
      → IsKept o signals st (kept recorded o signals st)
  kept-IsKept none signals st = refl
  kept-IsKept (some run_id) signals st = (_, refl, write_rows-IsWritten run_id signals)

module _ {ℓ} {V : Type ℓ} (recorded : ℕ → ValidationSignal → Bool) (repr : Exn → String) where
  -- A result and the rows that were kept for it.
  pub record IsSound (c : Call) (st : Store) (r : ValidationResult V) (st' : Store) : Type ℓ where
    pub verdict : (r.is_ok ≡ true) ↔ All (λ s. (s.passed ≡ true) ⊎ (s.severity ≢ "error")) r.signals
    pub rows : IsKept recorded c.run_id r.signals st st'

  run_stages-IsSound :
      (p : ValidatorPipeline V) (v : V) (c : Call) (signals : List ValidationSignal) (st : Store)
      → IsSound c st
          (run_stages recorded repr p v c signals st).0
          (run_stages recorded repr p v c signals st).1
  unfolding run_stages
  run_stages-IsSound p v c signals st = go (
      with_shape signals (shaped (elem "shape" c.stages) p.shape v)
        (stage_signals recorded repr p c))
    where
      go :
          (x : Option V × List ValidationSignal)
          → IsSound c st (finished recorded repr p c x st).0 (finished recorded repr p c x st).1
      go (w, all) = record {
        verdict = (any_blocks_none all, none_blocks all);
        rows = kept-IsKept recorded c.run_id all st;
      }

  refused-IsSound :
      (p : ValidatorPipeline V) (c : Call) (signals : List ValidationSignal) (st : Store)
      → any_blocks signals ≡ true
      → IsSound c st (refused recorded repr p signals) (kept recorded c.run_id signals st)
  refused-IsSound p c signals st h = record {
    verdict = ((λ e. absurd (cc)), λ a. absurd (ground (arith, h, none_blocks signals a)));
    rows = kept-IsKept recorded c.run_id signals st;
  }

  on_parsed-IsSound :
      (p : ValidatorPipeline V) (c : Call) (signals : List ValidationSignal) (o : Option V)
      (st : Store)
      → IsSound c st
          (on_parsed recorded repr p c signals o st).0
          (on_parsed recorded repr p c signals o st).1
  unfolding any_blocks
  on_parsed-IsSound p c signals (some v) st = run_stages-IsSound p v c signals st
  on_parsed-IsSound p c signals none st =
      let parse =
        failed (join c.agent_type "_parse") "error" (some "could not extract JSON from response") in
      refused-IsSound p c (signals ++ parse ∷ []) st
        (any_blocks-append signals (parse ∷ []) ∙ ground arith)

  on_parsed-none :
      (p : ValidatorPipeline V) (c : Call) (signals : List ValidationSignal) (o : Option V)
      (st : Store)
      → o ≡ none
      → ((on_parsed recorded repr p c signals o st).0.is_ok ≡ false)
        × ((on_parsed recorded repr p c signals o st).0.value ≡ none)
  on_parsed-none p c signals none st e = (refl, refl)
  on_parsed-none p c signals (some v) st e = absurd (cc)

  -- For an agent with a pipeline, parse_and_validate returns: the verdict is ok exactly when no signal of
  -- the result is a failed one of severity error, and with a run id its signals, those that the recorder
  -- takes, are kept in their order; a response that cannot be parsed, or is truncated where that fails,
  -- is not ok and has no value.
  pub parse_and_validate-IsSound :
      (registry : Dict (ValidatorPipeline V)) (parse : Bool → Option V) (truncated fails : Bool)
      (c : Call) (st : Store) (p : ValidatorPipeline V)
      → lookup c.agent_type registry ≡ some p
      → (r : ValidationResult V) × (st' : Store) × (parse_and_validate recorded repr registry parse
            truncated fails c st
          ≡ (ok r, st'))
        × IsSound c st r st'
        × (((truncated && fails) ≡ true) ⊎ (parse truncated ≡ none)
            → (r.is_ok ≡ false) × (r.value ≡ none))
  unfolding parse_and_validate any_blocks
  parse_and_validate-IsSound registry parse truncated fails c st p found =
      elim (Bool-cases (truncated && fails)) [
        | inl t ↦
            let signals = hit_limit c.agent_type "error" ∷ [] in
            (
              refused recorded repr p signals,
              kept recorded c.run_id signals st,
              rw (found, t) refl,
              refused-IsSound p c signals st refl,
              λ h. (refl, refl),
            )
        | inr t ↦
            let signals = warned c.agent_type truncated in
            let r = on_parsed recorded repr p c signals (parse truncated) st in
            (
              r.0,
              r.1,
              rw (found, t) refl,
              on_parsed-IsSound p c signals (parse truncated) st,
              λ h. elim h [
                | inl q ↦ absurd (cc (t, q))
                | inr q ↦ on_parsed-none p c signals (parse truncated) st q
              ],
            )
      ]

  no_stages : (p : ValidatorPipeline V) (c : Call) → stage_signals recorded repr p c none ≡ []
  no_stages p c = nothing_run (elem "semantic" c.stages) (elem "cross_field" c.stages)
    where
      nothing_run : (a b : Bool) → if_stage a [] ++ if_stage b [] ≡ []
      nothing_run true true = refl
      nothing_run true false = refl
      nothing_run false true = refl
      nothing_run false false = refl

  -- A parsed response that the shape stage refuses has no value, and none of the later validators runs:
  -- its only signals are the refusal and, in front, the warning of a truncated response.
  pub parse_and_validate_misshapen :
      (registry : Dict (ValidatorPipeline V)) (parse : Bool → Option V) (truncated : Bool)
      (c : Call) (st : Store) (p : ValidatorPipeline V) (shape : V → Option V × ValidationSignal)
      (v : V)
      → lookup c.agent_type registry ≡ some p
      → p.shape ≡ some shape
      → elem "shape" c.stages ≡ true
      → parse truncated ≡ some v
      → (shape v).1.passed ≡ false
      → (r : ValidationResult V) × (st' : Store) × (parse_and_validate recorded repr registry parse
            truncated false c st
          ≡ (ok r, st'))
        × (r.value ≡ none)
        × (r.signals ≡ caution c.agent_type truncated ++ (shape v).1 ∷ [])
  unfolding parse_and_validate run_stages
  parse_and_validate_misshapen registry parse truncated c st p shape v found s on e bad =
      let r = on_parsed recorded repr p c (warned c.agent_type truncated) (some v) st in
      let turned_down =
        ap (λ (b : Bool). shaped b p.shape v) on
        ∙ ap (λ (o : Option (V → Option V × ValidationSignal)). shaped true o v) s
        ∙ ap (λ (b : Bool). (value_if b (shape v).0, (shape v).1 ∷ [])) bad in
      (
        r.0,
        r.1,
        rw (found, e, no_fail truncated) refl,
        ap (λ (z : Option V × List ValidationSignal). z.0) turned_down,
        ap
              (λ (z : Option V × List ValidationSignal).
                warned c.agent_type truncated ++ z.1 ++ stage_signals recorded repr p c z.0)
              turned_down
            ∙ ap
                (λ (rest : List ValidationSignal).
                  warned c.agent_type truncated ++ (shape v).1 ∷ [] ++ rest)
                (no_stages p c)
            ∙ append-nil (warned c.agent_type truncated ++ (shape v).1 ∷ [])
            ∙ ap (λ (ss : List ValidationSignal). ss ++ (shape v).1 ∷ [])
                (warned-caution c.agent_type truncated),
      )
    where
      no_fail : (b : Bool) → (b && false) ≡ false
      no_fail b = ground arith
