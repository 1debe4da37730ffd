-- ===== src/Jobs/Repo/Moves.antt =====
-- `transition` and `retry` of src/pf_core/jobs/repo.py.
use pf_core.Prelude.{
  ℕ, ◌+◌, min, ◌≡◌, ◌≢◌, ◌∙◌, refl, String, true, false, Option, none, some, [], ◌∷◌, arith, str_eq,
  elem, ap, sym, inl, inr,
}
use pf_core.Result.{ok, precondition_error, fetch, ◌>>=◌}
use pf_core.Result.Rules.{
  Returns, Returns-bind, Returns-ok, fetch-eq-ok, require-eq-ok, ok_injective, Result-cases,
}
use pf_core.Sql.{first, update}
use pf_core.Jobs.Registry.{
  Registry, JobKind, get_kind, can_transition, is_terminal, validate_outputs,
}
use pf_core.Jobs.Schema.{JobRow, Db, job_is, or_keep}
use pf_core.Jobs.Steps.{touch_job_lease}
use pf_core.Jobs.Repo.{Details, get, transition, enter, checked_outputs, retry, retried}
use pf_core.Jobs.Repo.Rows.{touched, get-update_self, get-update_ne, get-touch_self, get-touch_ne}

-- the columns that neither a move nor a retry writes
pub record IsRetained (r s : JobRow) : Type 0 where
  pub id : s.id ≡ r.id
  pub kind : s.kind ≡ r.kind
  pub parent_job_id : s.parent_job_id ≡ r.parent_job_id
  pub progress_total : s.progress_total ≡ r.progress_total
  pub progress_current : s.progress_current ≡ r.progress_current
  pub current_step : s.current_step ≡ r.current_step
  pub inputs : s.inputs ≡ r.inputs
  pub created_by : s.created_by ≡ r.created_by
  pub created_at : s.created_at ≡ r.created_at

-- The row before and after an allowed move to `to`.
pub record IsMoved (now : ℕ) (to : String) (x : Details) (r s : JobRow) : Type 0 where
  pub status : s.status ≡ to
  pub finished : is_terminal to ≡ true → s.finished_at ≡ some now
  pub released : is_terminal to ≡ true → (s.claimed_by ≡ none) × (s.claimed_at ≡ none)
  pub finished_kept : is_terminal to ≡ false → s.finished_at ≡ r.finished_at
  pub claimant_kept : is_terminal to ≡ false → s.claimed_by ≡ r.claimed_by
  pub started_once : (t : ℕ) → r.started_at ≡ some t → s.started_at ≡ some t
  pub started_first : r.started_at ≡ none → str_eq to "pending" ≡ false → s.started_at ≡ some now
  pub started_pending : r.started_at ≡ none → str_eq to "pending" ≡ true → s.started_at ≡ none
  pub claimed_kept : is_terminal to ≡ false → r.claimed_by ≡ none → s.claimed_at ≡ r.claimed_at
  pub lease :
      (c : String) → is_terminal to ≡ false → r.claimed_by ≡ some c → s.claimed_at ≡ some now
  pub updated : s.updated_at ≡ now
  pub error_kept : x.error ≡ none → s.error ≡ r.error
  pub error_set : (e : String) → x.error ≡ some e → s.error ≡ some e
  pub class_kept : x.error_class ≡ none → s.error_class ≡ r.error_class
  pub class_set : (c : String) → x.error_class ≡ some c → s.error_class ≡ some c
  pub priority : s.priority ≡ r.priority
  pub retained : IsRetained r s

-- the outputs: kept where none are given, those given, or for `succeeded` what the schema makes of them
pub record IsPublished (d : JobKind) (to : String) (x : Details) (r s : JobRow) : Type 0 where
  pub kept : x.outputs ≡ none → s.outputs ≡ r.outputs
  pub given : (v : String) → x.outputs ≡ some v → str_eq to "succeeded" ≡ false → s.outputs ≡ some v
  pub parsed :
      (v : String)
      → x.outputs ≡ some v
      → str_eq to "succeeded" ≡ true
      → (p : String) × (validate_outputs d v ≡ ok p) × (s.outputs ≡ some p)

-- the other jobs, and the other tables
pub record IsAside (i : ℕ) (db db' : Db) : Type 0 where
  pub others : (j : ℕ) → i ≢ j → get j db' ≡ get j db
  pub steps : db'.steps ≡ db.steps
  pub events : db'.events ≡ db.events

enter-IsMoved :
    (now : ℕ) (to : String) (x : Details) (o : Option String) (r : JobRow)
    → IsMoved now to x r (touched now (enter now to x o r))
unfolding enter
enter-IsMoved now to x o r = record {
  status = ground arith;
  finished = λ h. ground arith;
  released = λ h. ground arith;
  finished_kept = λ h. ground arith;
  claimant_kept = λ h. ground arith;
  started_once = λ t h. ground arith;
  started_first = λ h k. ground arith;
  started_pending = λ h k. ground arith;
  claimed_kept = λ h k. ground arith;
  lease = λ c h k. ground arith;
  updated = ground arith;
  error_kept = λ h. ground arith;
  error_set = λ e h. ground arith;
  class_kept = λ h. ground arith;
  class_set = λ c h. ground arith;
  priority = ground arith;
  retained = record {
    id = ground arith;
    kind = ground arith;
    parent_job_id = ground arith;
    progress_total = ground arith;
    progress_current = ground arith;
    current_step = ground arith;
    inputs = ground arith;
    created_by = ground arith;
    created_at = ground arith;
  };
}

outputs-enter :
    (now : ℕ) (to : String) (x : Details) (o : Option String) (r : JobRow)
    → (touched now (enter now to x o r)).outputs ≡ or_keep o r.outputs
unfolding enter
outputs-enter now to x o r = ground arith

checked-IsPublished :
    (d : JobKind) (to : String) (x : Details) (o : Option String) (r s : JobRow)
    → checked_outputs d to x.outputs ≡ ok o
    → s.outputs ≡ or_keep o r.outputs
    → IsPublished d to x r s
unfolding ◌>>=◌
checked-IsPublished d to x o r s h e = record {
  kept =
      λ k. e ∙ ap (λ (p : Option String). or_keep p r.outputs) (sym (ok_injective _ _ (rw k at h)));
  given = λ v k n.
      e ∙ ap (λ (p : Option String). or_keep p r.outputs) (sym (ok_injective _ _ (rw (k, n) at h)));
  parsed = λ v k y. elim (Result-cases (validate_outputs d v)) [
    | inl (f, q) ↦ absurd (cc (rw (k, y, q) at h))
    | inr (p, q) ↦ (
      p,
      q,
      e
          ∙ ap (λ (p : Option String). or_keep p r.outputs)
              (sym (ok_injective _ _ (rw (k, y, q) at h))),
    )
  ];
}

enter_id :
    (now : ℕ) (to : String) (x : Details) (o : Option String) (r : JobRow)
    → (enter now to x o r).id ≡ r.id
unfolding enter
enter_id now to x o r = ground arith

-- the kind of the row allows the move, and the outputs fit its schema
abbrev pub IsAllowed : Registry → String → Details → JobRow → JobRow → Type 0
IsAllowed reg to x r s =
    (d : JobKind) × (get_kind reg r.kind ≡ ok d)
    × (can_transition d r.status to ≡ true)
    × IsPublished d to x r s

get-fetch :
    (i : ℕ) (db : Db) {r : JobRow}
    → fetch (first (job_is i) db.jobs) precondition_error ≡ ok r
    → get i db ≡ some r
unfolding get
get-fetch i db h = fetch-eq-ok (first (job_is i) db.jobs) precondition_error h

-- an allowed move of one job, and of nothing else
pub record Transitioned (reg : Registry) (i : ℕ) (to : String) (x : Details) (db db' : Db)
    : Type 0 where
  pub before : JobRow
  pub after : JobRow
  pub found : get i db ≡ some before
  pub allowed : IsAllowed reg to x before after
  pub stored : get i db' ≡ some after
  pub moved : IsMoved db.now to x before after
  pub aside : IsAside i db db'

module _ (reg : Registry) (i : ℕ) (to : String) (x : Details) (db : Db) where
  moved_to : Option String → Db
  moved_to o =
      touch_job_lease i (record db { jobs = update (job_is i) (enter db.now to x o) db.jobs })

  moved_to-Transitioned :
      (r : JobRow) (o : Option String)
      → get i db ≡ some r
      → IsAllowed reg to x r (touched db.now (enter db.now to x o r))
      → Transitioned reg i to x db (moved_to o)
  unfolding moved_to
  moved_to-Transitioned r o found allowed = record {
    before = r;
    after = touched db.now (enter db.now to x o r);
    found = found;
    allowed = allowed;
    stored =
        get-touch_self i _ _
          (get-update_self i db (enter db.now to x o) (enter_id db.now to x o) r found);
    moved = enter-IsMoved db.now to x o r;
    aside = record {
      others = λ j ne.
          get-touch_ne i j _ ne
          ∙ get-update_ne i db (enter db.now to x o) (enter_id db.now to x o) j ne;
      steps = unfold touch_job_lease in refl;
      events = unfold touch_job_lease in refl;
    };
  }

  transition_moves : Returns (Transitioned reg i to x db) (transition reg i to x db)
  unfolding transition moved_to
  transition_moves = Returns-bind _ _ λ r found. Returns-bind _ _ λ d kind.
      Returns-bind _ _ λ _ allowed. Returns-bind _ _ λ o checked. Returns-ok _ (
        moved_to-Transitioned r o (get-fetch i db found) (
          d,
          kind,
          require-eq-ok _ precondition_error allowed,
          checked-IsPublished d to x o r _ checked (outputs-enter db.now to x o r),
        ))

-- A transition that returns was allowed by the kind of the job and wrote that row as `IsMoved` and
-- `IsPublished` say: the status, times, claim, error columns and outputs that the move and its
-- arguments ask for, every other column kept; every other job, the steps and the events stay.
pub transition-Transitioned :
    (reg : Registry) (i : ℕ) (to : String) (x : Details) (db db' : Db)
    → transition reg i to x db ≡ ok db'
    → Transitioned reg i to x db db'
transition-Transitioned reg i to x db db' h = (transition_moves reg i to x db).at db' h

-- the database before and after a retry
pub record Retried (i : ℕ) (db db' : Db) : Type 0 where
  pub before : JobRow
  pub after : JobRow
  pub found : get i db ≡ some before
  pub status_in : elem before.status ("failed" ∷ "partial" ∷ "canceled" ∷ []) ≡ true
  pub stored : get i db' ≡ some after
  pub pending : after.status ≡ "pending"
  pub cleared : (after.error ≡ none) × (after.error_class ≡ none) × (after.finished_at ≡ none)
  pub unclaimed : (after.claimed_by ≡ none) × (after.claimed_at ≡ none)
  pub priority : after.priority ≡ min 100 (before.priority + 10)
  pub kept : (after.started_at ≡ before.started_at) × (after.outputs ≡ before.outputs)
  pub updated : after.updated_at ≡ db.now
  pub retained : IsRetained before after
  pub aside : IsAside i db db'

retry_moves : (i : ℕ) (db : Db) → Returns (Retried i db) (retry i db)
unfolding retry
retry_moves i db = Returns-bind _ _ λ r found. Returns-bind _ _ λ _ allowed. Returns-ok _ (
    let found' : get i db ≡ some r = get-fetch i db found in
    record {
      before = r;
      after = retried db.now r;
      found = found';
      status_in = require-eq-ok _ precondition_error allowed;
      stored = get-update_self i db (retried db.now) (λ z. refl) r found';
      pending = refl;
      cleared = (refl, refl, refl);
      unclaimed = (refl, refl);
      priority = refl;
      kept = (refl, refl);
      updated = refl;
      retained = record {
        id = refl;
        kind = refl;
        parent_job_id = refl;
        progress_total = refl;
        progress_current = refl;
        current_step = refl;
        inputs = refl;
        created_by = refl;
        created_at = refl;
      };
      aside = record {
        others = λ j ne. get-update_ne i db (retried db.now) (λ z. refl) j ne;
        steps = refl;
        events = refl;
      };
    })

-- A retry that returns found the job failed, partial or canceled, and made it pending, unclaimed and
-- without error or end, its priority ten higher up to 100 and updated_at the time of the retry; its other
-- columns, the other jobs, the steps and the events stay.
pub retry-Retried : (i : ℕ) (db db' : Db) → retry i db ≡ ok db' → Retried i db db'
retry-Retried i db db' h = (retry_moves i db).at db' h
