-- ===== src/Jobs/Runtime/Exit.antt =====
-- `Job.__enter__`, `Job.__exit__` and `_force_fail` of src/pf_core/jobs/runtime.py.
use Prim.Native.String.{◌++◌ as join}
use pf_core.Prelude.{
  ℕ, ◌≡◌, ◌≢◌, ◌⊎◌, inl, inr, refl, String, true, false, Option, none, some, [], ◌∷◌, ◌++◌, prefix,
  Option-cases, Bool-cases, if◌then◌else◌,
}
use pf_core.Result.{Exn, ok, err}
use pf_core.Result.Rules.{Result-cases}
use pf_core.Sql.{first}
use pf_core.Jobs.Registry.{Registry, is_terminal}
use pf_core.Jobs.Schema.{JobRow, EventRow, Db, job_is}
use pf_core.Jobs.Repo.{Details, get, transition}
use pf_core.Jobs.Repo.Rows.{get-update_self}
use pf_core.Jobs.Runtime.{
  World, Handle, Body, with_db, enter_job, exit_job, with_job, force_fail, failed_row, with_outputs,
  job_transition,
}

-- what `_force_fail` makes of the row
abbrev pub forced : ℕ → String → String → JobRow → JobRow
forced now error error_class r =
    if is_terminal r.status then r else failed_row now error error_class r

abbrev pub exception_event : ℕ → String → String → Db → EventRow
exception_event i error error_class db = record {
  id = db.next_event;
  job_id = i;
  event_type = "exception";
  message = error;
  context = some (join "{\"error_class\": \"" (join error_class "\"}"));
  created_at = db.now;
}

module _ (i : ℕ) (error error_class : String) (db : Db) (r : JobRow)
    (found : get i db ≡ some r) where
  found_first : first (job_is i) db.jobs ≡ some r
  found_first = unfold get in found

  pub get-force_fail :
      get i (force_fail i error error_class db) ≡ some (forced db.now error error_class r)
  unfolding force_fail get
  get-force_fail =
      rw (found_first, force_fail)
        (elim (Bool-cases (is_terminal r.status)) [
          | inl t ↦ rw t found
          | inr t ↦
              rw t (get-update_self i db (failed_row db.now error error_class) (λ z. refl) r found)
        ])

  pub events-force_fail :
      (force_fail i error error_class db).events
      ≡ db.events ++ exception_event i error error_class db ∷ []
  unfolding force_fail
  events-force_fail = rw (found_first, force_fail) refl

pub force_fail_terminal :
    (i : ℕ) (error error_class : String) (db : Db)
    → get i db ≢ none
    → (r : JobRow) × (get i (force_fail i error error_class db) ≡ some r)
      × (is_terminal r.status ≡ true)
force_fail_terminal i error error_class db there = elim (Option-cases (get i db)) [
  | inl e ↦ absurd (there e)
  | inr (r, e) ↦ (
    forced db.now error error_class r,
    get-force_fail i error error_class db r e,
    ended r (Bool-cases (is_terminal r.status)),
  )
]
  where
    ended :
        (r : JobRow)
        → (is_terminal r.status ≡ true) ⊎ (is_terminal r.status ≡ false)
        → is_terminal (forced db.now error error_class r).status ≡ true
    ended r (inl t) = rw t t
    ended r (inr t) = rw t refl

-- The row after the exception: a terminal row stays, any other is failed with the text and the class.
pub record IsForced (now : ℕ) (error error_class : String) (r s : JobRow) : Type 0 where
  pub ended : is_terminal r.status ≡ true → s ≡ r
  pub failed :
      is_terminal r.status ≡ false
      → s ≡ record r {
        status = "failed";
        error = some error;
        error_class = some error_class;
        finished_at = some now;
        claimed_by = none;
        claimed_at = none;
        updated_at = now;
      }

forced-IsForced :
    (now : ℕ) (error error_class : String) (r : JobRow)
    → IsForced now error error_class r (forced now error error_class r)
forced-IsForced now error error_class r = record { ended = λ h. rw h refl; failed = λ h. rw h refl }

abbrev pub opened : ℕ → JobRow → Handle
opened i r = record { job_id = i; row = some r; outputs = none }

abbrev pub inside : ℕ → World → World
inside i w = record w { current_job_id = some i }

enter_job_found :
    (i : ℕ) (w : World) (r : JobRow)
    → get i w.db ≡ some r
    → enter_job i w ≡ ok (opened i r, w.current_job_id, inside i w)
unfolding enter_job
enter_job_found i w r found = rw (found, enter_job) refl

module _ (str class_name : Exn → String) where
  abbrev pub leave : Option ℕ → Option Exn × Handle × World → Option Exn × World
  leave token (e, h, w) = (e, exit_job str class_name e h token w)

  pub with_job_entered :
      (i : ℕ) (body : Body) (w : World) (r : JobRow)
      → get i w.db ≡ some r
      → with_job str class_name i body w ≡ leave w.current_job_id (body (opened i r) (inside i w))
  unfolding with_job
  with_job_entered i body w r found = rw (enter_job_found i w r found, with_job) refl

  -- A block that raises, with the job's row in place before and after it: the exception goes on, the
  -- context variable is as before the block, the row has status `failed` with the exception's text (its
  -- first 10000 characters) and class, its end and no claim, unless it was terminal, in which case it
  -- stays, and an `exception` event is appended either way.
  pub with_job_raises :
      (i : ℕ) (body : Body) (w w' : World) (h : Handle) (e : Exn) (r₀ r : JobRow)
      → get i w.db ≡ some r₀
      → body (opened i r₀) (inside i w) ≡ (some e, record h { job_id = i }, w')
      → get i w'.db ≡ some r
      → let text = prefix 10000 (str e) in
        let (raised, after) = with_job str class_name i body w in
        (raised ≡ some e)
        × (after.current_job_id ≡ w.current_job_id)
        × ((s : JobRow) × (get i after.db ≡ some s) × IsForced w'.db.now text (class_name e) r s)
        × (after.db.events ≡ w'.db.events ++ exception_event i text (class_name e) w'.db ∷ [])
  unfolding exit_job
  with_job_raises i body w w' h e r₀ r found ran stays =
      rw (with_job_entered i body w r₀ found, ran)
        (
          refl,
          refl,
          (
            forced w'.db.now (prefix 10000 (str e)) (class_name e) r,
            get-force_fail i (prefix 10000 (str e)) (class_name e) w'.db r stays,
            forced-IsForced w'.db.now (prefix 10000 (str e)) (class_name e) r,
          ),
          events-force_fail i (prefix 10000 (str e)) (class_name e) w'.db r stays,
        )

-- a transition through the handle
pub job_transition-cases :
    (reg : Registry) (to : String) (x : Details) (h : Handle) (w : World)
    → ((e : Exn) × (transition reg h.job_id to (with_outputs to h.outputs x) w.db ≡ err e)
        × (job_transition reg to x h w ≡ (some e, h, w)))
      ⊎ ((db : Db) × (transition reg h.job_id to (with_outputs to h.outputs x) w.db ≡ ok db)
          × (job_transition reg to x h w
              ≡ (none, record h { row = get h.job_id db }, with_db db w)))
unfolding job_transition
job_transition-cases reg to x h w =
    elim (Result-cases (transition reg h.job_id to (with_outputs to h.outputs x) w.db)) [
      | inl (e, q) ↦ inl (e, q, rw (q, job_transition) refl)
      | inr (db, q) ↦ inr (db, q, rw (q, job_transition) refl)
    ]
