-- ===== src/Pipeline/Sequencer.antt =====
-- src/pf_core/pipeline/sequencer.py: which phases a run executes, and their execution in order. The
-- context is of any type, and a phase is a function on it that may raise.
pub mod Slice
mod Tests
use pf_core.Prelude.{
  ℕ, zero, suc, ◌+◌, ◌-◌, String, Bool, true, false, Option, none, some, List, [], ◌∷◌, str_eq, ltb,
  leb, length, take, drop, if◌then◌else◌,
}
use pf_core.Result.{Exn, Result, ok, err, value_error, unknown_stage_error, fetch, ◌>>=◌}

pub record Phase {ℓ} (C : Type ℓ) : Type ℓ where
  pub name : String
  pub run : C → Option Exn × C

-- `ran.append(phase.name)`
abbrev pub noted : String → Result (List String) → Result (List String)
noted s (ok ran) = ok (s ∷ ran)
noted s (err e) = err e

module _ {ℓ} {C : Type ℓ} where
  -- names.index(stage)
  unfoldable pub index_of : String → List (Phase C) → Option ℕ
  index_of s [] = none
  index_of s (p ∷ ps) =
      let rest = index_of s ps in
      if str_eq p.name s then some 0 else elim rest [ none ↦ none | some i ↦ some (suc i) ]

  -- _index
  abbrev pub index : List (Phase C) → Option String → Result (Option ℕ)
  index ps none = ok none
  index ps (some s) = do i ← fetch (index_of s ps) unknown_stage_error; ok (some i)

  -- the resume scan: the index of the first phase that is not fresh, or the number of phases
  unfoldable pub first_stale : (Phase C → Bool) → List (Phase C) → ℕ
  first_stale fresh [] = 0
  first_stale fresh (p ∷ ps) = let rest = first_stale fresh ps in if fresh p then suc rest else 0

  abbrev pub resume_at : List (Phase C) → Option (Phase C → Bool) → ℕ
  resume_at ps none = 0
  resume_at ps (some fresh) = first_stale fresh ps

  -- `start` before `rerun_from` before the scan
  abbrev pub begin_at : List (Phase C) → Option ℕ → Option ℕ → Option (Phase C → Bool) → ℕ
  begin_at ps (some i) rerun skip_fresh = i
  begin_at ps none (some i) skip_fresh = i
  begin_at ps none none skip_fresh = resume_at ps skip_fresh

  abbrev pub end_at : List (Phase C) → Option ℕ → ℕ
  end_at ps none = length ps - 1
  end_at ps (some i) = i

  -- the index of the first phase to run, and how many run
  unfoldable pub selection :
      List (Phase C)
      → Option String
      → Option String
      → Option String
      → Option (Phase C → Bool)
      → Result (ℕ × ℕ)
  unfolding index_of first_stale
  selection ps start stop_after rerun_from skip_fresh = do
    start_i ← index ps start
    stop_i ← index ps stop_after
    rerun_i ← index ps rerun_from
    let begin = begin_at ps start_i rerun_i skip_fresh
    if leb (length ps) begin
        then ok (begin, 0)
        else if ltb (end_at ps stop_i) begin
        then err value_error
        else ok (begin, end_at ps stop_i + 1 - begin)

  -- the loop: the names of the phases that ran, and the context; an exception ends it
  unfoldable pub execute : List (Phase C) → C → Result (List String) × C
  execute [] ctx = (ok [], ctx)
  execute (p ∷ ps) ctx = elim (p.run ctx).0 [
    | some e ↦ (err e, (p.run ctx).1)
    | none ↦ (noted p.name (execute ps (p.run ctx).1).0, (execute ps (p.run ctx).1).1)
  ]

  unfoldable pub run_pipeline :
      List (Phase C)
      → C
      → Option String
      → Option String
      → Option String
      → Option (Phase C → Bool)
      → Result (List String) × C
  unfolding selection execute
  run_pipeline ps ctx start stop_after rerun_from skip_fresh =
      elim (selection ps start stop_after rerun_from skip_fresh) [
        | err e ↦ (err e, ctx)
        | ok (begin, count) ↦ execute (take count (drop begin ps)) ctx
      ]
