-- ===== src/Jobs/Runtime/Resume.antt =====
-- `Job.step` of src/pf_core/jobs/runtime.py, run twice under one name.
use mathlib.Core.Option.{some-ne-none}
use pf_core.Prelude.{
  ℕ, ◌<◌, ◌≡◌, ◌∙◌, inl, inr, refl, subst, ap, String, true, false, Option, none, some, List, [],
  ◌∷◌, ◌++◌, arith, prefix, All,
}
use pf_core.Result.{Exn, Result, ok, err}
use pf_core.Result.Rules.{Returns, Returns-bind, Returns-ok, Result-cases}
use pf_core.Sql.{update}
use pf_core.Jobs.Registry.{Registry}
use pf_core.Jobs.Schema.{JobRow, StepRow, Db, step_is}
use pf_core.Jobs.Steps.{
  find_step, start_step, finish_step, close_step, track_progress, touch_job_lease,
}
use pf_core.Jobs.Steps.Index.{start_step-Started, find_step_newest}
use pf_core.Jobs.Invariant.{IsValid, step_key}
use pf_core.Jobs.Runtime.{World, StepBody, StepResult, with_db, step, closed, close, is_done}

-- an update by id of the last row of a table with ascending ids changes that row alone
update_last :
    (n : ℕ) (f : StepRow → StepRow) (xs : List StepRow) (y : StepRow)
    → All (λ x. step_key x < n) xs
    → y.id ≡ n
    → update (step_is n) f (xs ++ y ∷ []) ≡ xs ++ f y ∷ []
unfolding update
update_last n f [] y h e = rw e (ground arith)
update_last n f (x ∷ xs) y h e = ground (arith, update_last n f xs y h.1 e)

steps-track_progress :
    (reg : Registry) (status : String) (job : JobRow) (db : Db)
    → (track_progress reg status job db).steps ≡ db.steps
unfolding track_progress
steps-track_progress reg status job db = ground arith

finish_step-steps :
    (reg : Registry) (s : ℕ) (status : String) (o e : Option String) (db : Db)
    → Returns
        (λ db'. db'.steps ≡ update (step_is s) (close_step db.now status o e) db.steps)
        (finish_step reg s status o e db)
unfolding finish_step
finish_step-steps reg s status o e db = Returns-bind _ _ λ _ _. Returns-bind _ _ λ row _.
    Returns-bind _ _
      λ job _. Returns-ok _ (unfold touch_job_lease in steps-track_progress reg status job _)

-- the new step has the next index, which the old ones do not reach
module _ (reg : Registry) (i : ℕ) (name : String) (inputs : Option String) (w : World)
    (v : IsValid w.db) where
  done_found :
      (s : ℕ) (db db₁ db₂ : Db) (o : Option String)
      → start_step i name inputs w.db ≡ ok (s, db)
      → db₁.steps ≡ db.steps
      → finish_step reg s "succeeded" o none db₁ ≡ ok db₂
      → is_done (find_step i name db₂) ≡ true
  done_found s db db₁ db₂ o begun kept finished =
      let st = start_step-Started i name inputs w.db s db begun in
      let steps : db₂.steps ≡ w.db.steps ++ close_step db₁.now "succeeded" o none st.row ∷ [] =
        (finish_step-steps reg s "succeeded" o none db₁).at db₂ finished
        ∙ ap (update (step_is s) (close_step db₁.now "succeeded" o none)) (kept ∙ st.steps)
        ∙ update_last s (close_step db₁.now "succeeded" o none) w.db.steps st.row
            (rw st.id.1 v.step_ids.1) st.id.0 in
      rw
        (find_step_newest i name db₂ w.db.steps (close_step db₁.now "succeeded" o none st.row) steps
          (unfold close_step in st.job) (unfold close_step in st.named)
          (unfold close_step in st.index))
        (unfold close_step in refl)

  module _ (str class_name : Exn → String) (body : StepBody)
      (keeps : (w' : World) → (body false w').2.db.steps ≡ w'.db.steps)
      (well : (w' : World) → (body false w').1.error ≡ none) where
    closed_raises :
        (e : Exn) (o : Result Db) (w₁ w₂ : World) → closed (some e) o w₁ ≡ (none, w₂) → ⊥
    closed_raises e (ok db) w₁ w₂ q = some-ne-none e (ap (λ (p : Option Exn × World). p.0) q)
    closed_raises e (err e') w₁ w₂ q = some-ne-none e' (ap (λ (p : Option Exn × World). p.0) q)

    closed_returns :
        (o : Result Db) (w₁ w₂ : World)
        → closed none o w₁ ≡ (none, w₂)
        → (db : Db) × (o ≡ ok db) × (db ≡ w₂.db)
    closed_returns (ok db) w₁ w₂ q = (db, refl, ap (λ (p : Option Exn × World). p.1.db) q)
    closed_returns (err e) w₁ w₂ q =
        absurd (some-ne-none e (ap (λ (p : Option Exn × World). p.0) q))

    closed_done :
        (s : ℕ) (db : Db) (o : Option Exn × StepResult × World) (w₂ : World)
        → start_step i name inputs w.db ≡ ok (s, db)
        → o.2.db.steps ≡ db.steps
        → o.1.error ≡ none
        → close str class_name reg s o.0 o.1 o.2 ≡ (none, w₂)
        → is_done (find_step i name w₂.db) ≡ true
    closed_done s db (some e, r, w') w₂ begun kept no_error q = absurd (
        closed_raises e (finish_step reg s "failed" none (some (prefix 10000 (str e))) w'.db) w' w₂
          q)
    closed_done s db (none, r, w') w₂ begun kept no_error q =
        let (db₂, f, same) =
          closed_returns (finish_step reg s "succeeded" r.outputs none w'.db) w' w₂
            (rw no_error at q) in
        subst (λ d. is_done (find_step i name d) ≡ true) same
          (done_found s db w'.db db₂ r.outputs begun kept f)

    -- From a valid database, a step that was not done returned without an exception, its block having
    -- left the step table alone and no error on its handle. When the step is then run again, with any
    -- inputs and any block, the result is that of the block told that it is skipped: no step record is
    -- started or finished for it.
    pub step_resumes :
        (inputs₂ : Option String) (body₂ : StepBody) (w₂ : World)
        → is_done (find_step i name w.db) ≡ false
        → step str class_name reg i name inputs body w ≡ (none, w₂)
        → step str class_name reg i name inputs₂ body₂ w₂ ≡ ((body₂ true w₂).0, (body₂ true w₂).2)
    unfolding step
    step_resumes inputs₂ body₂ w₂ fresh ran = rw (done, step) refl
      where
        done : is_done (find_step i name w₂.db) ≡ true
        done = elim (Result-cases (start_step i name inputs w.db)) [
          | inl (e, q) ↦ absurd (
              some-ne-none e
                (ap (λ (p : Option Exn × World). p.0) (rw (fresh, step) at (rw (q, step) at ran))))
          | inr ((s, db), q) ↦
              closed_done s db (body false (with_db db w)) w₂ q (keeps (with_db db w))
                (well (with_db db w)) (rw (q, step) at (rw (fresh, step) at ran))
        ]
