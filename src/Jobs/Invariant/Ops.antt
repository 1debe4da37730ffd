-- ===== src/Jobs/Invariant/Ops.antt =====
-- The predicate on the tables, operation by operation (repo.py, _repo_steps.py, _repo_worker.py and
-- runtime.py of src/pf_core/jobs).
use pf_core.Prelude.{
  ℕ, ◌≡◌, refl, true, false, ◌&&◌, Option, none, some, List, [], ◌∷◌, String, arith, ◌==◌, elem,
  str_eq, eq_iff, ℤ, in_range, pos, negsuc, Bool-cases, inl, inr, Option-cases,
}
use pf_core.Result.{Result, invalid_input_error}
use pf_core.Result.Rules.{
  Returns, Returns-ok, Returns-err, Returns-if, Returns-bind, fetch-eq-ok, require-eq-ok,
}
use pf_core.Sql.{first, rowcount}
use pf_core.Sql.Keys.{has, has-update}
use pf_core.Jobs.Registry.{Registry, is_terminal}
use pf_core.Jobs.Schema.{JobRow, Db, job_is, is_null}
use pf_core.Jobs.Steps.{
  touch_job_lease, start_step, finish_step, track_progress, tracks, close_step, add_event,
}
use pf_core.Jobs.Repo.{
  NewJob, Details, Progress, create, new_row, resolved_priority, transition, enter, set_progress,
  progress_row, cancel, retry, retried, get,
}
use pf_core.Jobs.Worker.{
  claimable, claim_select, claim_take, claim_next, reclaim_stale, is_stale, renew_lease, purge,
  orphan,
}
use pf_core.Jobs.Runtime.{force_fail, apply_outputs, failed_row}
use pf_core.Jobs.Invariant.{IsValid, RowIsValid, job_key}
use pf_core.Jobs.Invariant.Pieces.{
  IsValid-update, IsValid-insert_job, IsValid-insert_step, IsValid-insert_event,
  IsValid-update_steps, IsValid-delete,
}

-- A result that carries a database carries a valid one.
abbrev pub ReturnsValid : Result Db → Type 0
ReturnsValid = Returns IsValid

abbrev pub ReturnsValid₁ : Result (ℕ × Db) → Type 0
ReturnsValid₁ = Returns (λ (p : ℕ × Db). IsValid p.1)

not_terminal_pending : (s : String) → str_eq s "pending" ≡ true → is_terminal s ≡ false
not_terminal_pending s e = rw ((eq_iff s "pending").0 e) refl

has_of_first :
    (i : ℕ) (rows : List JobRow) (r : JobRow)
    → first (job_is i) rows ≡ some r
    → has job_key i rows ≡ true
has_of_first i rows r e = rw (e, has) refl

touch_job_lease-IsValid : (i : ℕ) (db : Db) → IsValid db → IsValid (touch_job_lease i db)
unfolding touch_job_lease
touch_job_lease-IsValid i db v = IsValid-update db _ _ (λ r. refl) (λ r p h. ground arith) v

enter-RowIsValid :
    (now : ℕ) (to : String) (x : Details) (o : Option String) (r : JobRow)
    → RowIsValid r
    → RowIsValid (enter now to x o r)
unfolding enter
enter-RowIsValid now to x o r h = ground arith

enter_id :
    (now : ℕ) (to : String) (x : Details) (o : Option String) (r : JobRow)
    → (enter now to x o r).id ≡ r.id
unfolding enter
enter_id now to x o r = ground arith

retried-RowIsValid : (now : ℕ) (r : JobRow) → RowIsValid r → RowIsValid (retried now r)
unfolding retried
retried-RowIsValid now r h = ground arith

new_row-RowIsValid :
    (a : NewJob) (inputs : Option String) (priority : ℤ) (db : Db)
    → in_range 100 priority ≡ true
    → RowIsValid (new_row a inputs priority db)
new_row-RowIsValid a inputs (pos n) db h = ground arith
new_row-RowIsValid a inputs (negsuc n) db h = absurd (cc)

pub create-IsValid :
    (reg : Registry) (a : NewJob) (db : Db) → IsValid db → ReturnsValid₁ (create reg a db)
unfolding create
create-IsValid reg a db v = Returns-bind _ _ λ d _. Returns-bind _ _ λ inputs _.
    Returns-bind _ _ λ _ in_bounds. Returns-bind _ _ λ _ _. Returns-ok _ (
      IsValid-insert_job db (new_row a inputs (resolved_priority a.priority d.default_priority) db)
        refl
        (new_row-RowIsValid a inputs (resolved_priority a.priority d.default_priority) db
          (require-eq-ok _ invalid_input_error in_bounds))
        v)

pub transition-IsValid :
    (reg : Registry) (i : ℕ) (to : String) (x : Details) (db : Db)
    → IsValid db
    → ReturnsValid (transition reg i to x db)
unfolding transition
transition-IsValid reg i to x db v = Returns-bind _ _ λ row _. Returns-bind _ _ λ d _.
    Returns-bind _ _ λ _ _. Returns-bind _ _ λ outputs _. Returns-ok _ (
      touch_job_lease-IsValid i _ (
        IsValid-update db (job_is i) (enter db.now to x outputs) (enter_id db.now to x outputs)
          (λ r _. enter-RowIsValid db.now to x outputs r) v))

pub set_progress-IsValid :
    (i : ℕ) (p : Progress) (db : Db) → IsValid db → ReturnsValid (set_progress i p db)
unfolding set_progress
set_progress-IsValid i p db v = Returns-bind _ _ λ _ _. Returns-bind _ _ λ _ _.
    Returns-if _ _ _ (λ _. Returns-ok db v)
      λ _. Returns-ok _ (
        touch_job_lease-IsValid i _ (
          IsValid-update db (job_is i) (progress_row db.now p) (λ r. refl) (λ r _ h. ground arith)
            v))

pub retry-IsValid : (i : ℕ) (db : Db) → IsValid db → ReturnsValid (retry i db)
unfolding retry
retry-IsValid i db v = Returns-bind _ _ λ row _. Returns-bind _ _ λ _ _. Returns-ok _ (
    IsValid-update db (job_is i) (retried db.now) (λ r. refl) (λ r _. retried-RowIsValid db.now r)
      v)

pub add_event-IsValid :
    (i : ℕ) (type message : String) (context : Option String) (db : Db)
    → IsValid db
    → ReturnsValid₁ (add_event i type message context db)
unfolding add_event
add_event-IsValid i type message context db v = Returns-bind _ _ λ job found. Returns-ok _ (
    touch_job_lease-IsValid i _
      (IsValid-insert_event db _ refl (has_of_first i db.jobs job (fetch-eq-ok _ _ found)) v))

pub cancel-IsValid :
    (reg : Registry) (i : ℕ) (reason : Option String) (db : Db)
    → IsValid db
    → ReturnsValid (cancel reg i reason db)
unfolding cancel
cancel-IsValid reg i reason db v = Returns-bind _ _ λ db' moved. Returns-bind _ _ λ p logged.
    Returns-ok p.1 (
      (add_event-IsValid i _ _ none db'
          ((transition-IsValid reg i "canceled" _ db v).at db' moved)).at
        p logged)

pub start_step-IsValid :
    (i : ℕ) (name : String) (inputs : Option String) (db : Db)
    → IsValid db
    → ReturnsValid₁ (start_step i name inputs db)
unfolding start_step
start_step-IsValid i name inputs db v = Returns-bind _ _ λ job found. Returns-ok _ (
    touch_job_lease-IsValid i _
      (IsValid-insert_step db _ refl refl (has_of_first i db.jobs job (fetch-eq-ok _ _ found)) v))

track_progress-IsValid :
    (reg : Registry) (status : String) (job : JobRow) (db : Db)
    → IsValid db
    → IsValid (track_progress reg status job db)
unfolding track_progress
track_progress-IsValid reg status job db v =
    elim (Bool-cases (elem status ("succeeded" ∷ "failed" ∷ []) && tracks reg job.kind)) [
      | inl e ↦ rw e (IsValid-update db (job_is job.id) _ (λ r. refl) (λ r _ h. ground arith) v)
      | inr e ↦ rw e v
    ]

pub finish_step-IsValid :
    (reg : Registry) (s : ℕ) (status : String) (outputs error : Option String) (db : Db)
    → IsValid db
    → ReturnsValid (finish_step reg s status outputs error db)
unfolding finish_step
finish_step-IsValid reg s status outputs error db v = Returns-bind _ _ λ _ _.
    Returns-bind _ _ λ row _. Returns-bind _ _ λ job _. Returns-ok _ (
      touch_job_lease-IsValid row.job_id _ (
        track_progress-IsValid reg status job _ (
          IsValid-update_steps db _ (close_step db.now status outputs error)
            (λ r. unfold close_step in (refl, refl, refl)) v)))

pub claim_take-IsValid :
    (i lease : ℕ) (worker : String) (db : Db)
    → IsValid db
    → IsValid (claim_take i lease worker db).1
unfolding claim_take
claim_take-IsValid i lease worker db v =
    elim (Bool-cases
      (rowcount (λ (r : JobRow). job_is i r && claimable db.now lease r) db.jobs == 0)) [
        | inl e ↦ rw e v
        | inr e ↦ rw e (
            IsValid-update db _ _ (λ r. refl)
              (λ r p h. ground (arith, not_terminal_pending r.status)) v)
      ]

pub claim_next-IsValid :
    (kinds : List String) (worker : String) (lease : ℕ) (db : Db)
    → IsValid db
    → IsValid (claim_next kinds worker lease db).1
unfolding claim_next
claim_next-IsValid kinds worker lease db v = elim (Option-cases (claim_select kinds lease db)) [
  | inl e ↦ rw (e, claim_next) v
  | inr (r, e) ↦ rw (e, claim_next) (claim_take-IsValid r.id lease worker db v)
]

pub reclaim_stale-IsValid : (lease : ℕ) (db : Db) → IsValid db → IsValid (reclaim_stale lease db).1
unfolding reclaim_stale
reclaim_stale-IsValid lease db v =
    IsValid-update db (is_stale db.now lease) _ (λ r. refl) (λ r _ h. ground arith) v

pub renew_lease-IsValid : (i : ℕ) (db : Db) → IsValid db → IsValid (renew_lease i db).1
unfolding renew_lease
renew_lease-IsValid i db v = IsValid-update db _ _ (λ r. refl) (λ r p h. ground arith) v

pub purge-IsValid :
    (seconds : ℤ) (status : Option (List String)) (db : Db)
    → IsValid db
    → ReturnsValid₁ (purge seconds status db)
unfolding purge
purge-IsValid (negsuc n) status db v = Returns-err _
purge-IsValid (pos n) status db v = Returns-ok _ (
    IsValid-update _ (λ r. true) (orphan _) (λ r. unfold orphan in refl)
      (λ r _ h. unfold orphan in ground arith) (IsValid-delete db _ v))

pub force_fail-IsValid :
    (i : ℕ) (error error_class : String) (db : Db)
    → IsValid db
    → IsValid (force_fail i error error_class db)
unfolding force_fail
force_fail-IsValid i error error_class db v = elim (Option-cases (first (job_is i) db.jobs)) [
  | inl e ↦ rw (e, force_fail) v
  | inr (row, e) ↦
      rw (e, force_fail)
        (elim (Bool-cases (is_terminal row.status)) [
          | inl t ↦ rw t (IsValid-insert_event db _ refl (has_of_first i db.jobs row e) v)
          | inr t ↦ rw t (
              IsValid-insert_event _ _ refl (rw has-update (has_of_first i db.jobs row e)) (
                IsValid-update db (job_is i) (failed_row db.now error error_class) (λ r. refl)
                  (λ r _ h. ground arith) v))
        ])
]

pub apply_outputs-IsValid :
    (i : ℕ) (o : Option String) (db : Db) → IsValid db → IsValid (apply_outputs i o db)
unfolding apply_outputs
apply_outputs-IsValid i none db v = v
apply_outputs-IsValid i (some o) db v = elim (Option-cases (get i db)) [
  | inl e ↦ rw (e, apply_outputs) v
  | inr (row, e) ↦
      rw (e, apply_outputs)
        (elim (Bool-cases (is_null row.outputs)) [
          | inl t ↦ rw t (IsValid-update db (job_is i) _ (λ r. refl) (λ r _ h. ground arith) v)
          | inr t ↦ rw t v
        ])
]
