-- ===== src/Jobs/Invariant/Pieces.antt =====
-- The predicate on the tables under the writes that operations share: updates of job rows, new rows,
-- the end of a step, the purge.
use pf_core.Prelude.{
  ℕ, ◌+◌, ◌≤◌, ◌≡◌, refl, Bool, true, not, List, [], ◌∷◌, ◌++◌, arith, All, All-append, Bool-cases,
  inl, inr,
}
use pf_core.Sql.{select, update, delete}
use pf_core.Sql.Rows.{All-update, All-delete}
use pf_core.Sql.Keys.{
  IsKeyed-append, IsKeyed-update, IsKeyed-select, IsSorted-append, IsSorted-update, IsSorted-select,
  has, has-update, has-append, has-split,
}
use pf_core.Jobs.Schema.{JobRow, StepRow, EventRow, Db}
use pf_core.Jobs.Steps.{next_index}
use pf_core.Jobs.Invariant.{RowIsValid, index_before, job_key, step_key, event_key, IsValid}

module _ {ℓ} {A : Type ℓ} (job_of : A → ℕ) where
  jobs_kept :
      (p : JobRow → Bool) (f : JobRow → JobRow) (jobs : List JobRow) (xs : List A)
      → ((r : JobRow) → job_key (f r) ≡ job_key r)
      → All (λ x. has job_key (job_of x) jobs ≡ true) xs
      → All (λ x. has job_key (job_of x) (update p f jobs) ≡ true) xs
  jobs_kept p f jobs [] same h = tt
  jobs_kept p f jobs (x ∷ xs) same h =
      (rw (has-update job_key (job_of x) p f jobs same) h.0, jobs_kept p f jobs xs same h.1)

  jobs_added :
      (jobs new : List JobRow) (xs : List A)
      → All (λ x. has job_key (job_of x) jobs ≡ true) xs
      → All (λ x. has job_key (job_of x) (jobs ++ new) ≡ true) xs
  jobs_added jobs new [] h = tt
  jobs_added jobs new (x ∷ xs) h =
      (has-append job_key (job_of x) jobs new h.0, jobs_added jobs new xs h.1)

  jobs_purged :
      (p : JobRow → Bool) (jobs : List JobRow) (xs : List A)
      → All (λ x. has job_key (job_of x) jobs ≡ true) xs
      → All
          (λ x. has job_key (job_of x) (delete p jobs) ≡ true)
          (delete (λ x. has job_key (job_of x) (select p jobs)) xs)
  unfolding select delete
  jobs_purged p jobs [] h = tt
  jobs_purged p jobs (x ∷ xs) h = elim (Bool-cases (has job_key (job_of x) (select p jobs))) [
    | inl e ↦ rw e (jobs_purged p jobs xs h.1)
    | inr e ↦ rw e (has-split job_key (job_of x) p jobs h.0 e, jobs_purged p jobs xs h.1)
  ]

-- UPDATE jobs, by a change that keeps ids and valid rows
pub IsValid-update :
    (db : Db) (p : JobRow → Bool) (f : JobRow → JobRow)
    → ((r : JobRow) → job_key (f r) ≡ job_key r)
    → ((r : JobRow) → p r ≡ true → RowIsValid r → RowIsValid (f r))
    → IsValid db
    → IsValid (record db { jobs = update p f db.jobs })
IsValid-update db p f same keep v = record {
  rows = All-update RowIsValid p f db.jobs keep v.rows;
  job_ids = IsKeyed-update job_key db.next_job p f db.jobs same v.job_ids;
  step_ids = v.step_ids;
  event_ids = v.event_ids;
  step_order = v.step_order;
  step_jobs = jobs_kept (λ (s : StepRow). s.job_id) p f db.jobs db.steps same v.step_jobs;
  event_jobs = jobs_kept (λ (e : EventRow). e.job_id) p f db.jobs db.events same v.event_jobs;
}

pub IsValid-insert_job :
    (db : Db) (r : JobRow)
    → job_key r ≡ db.next_job
    → RowIsValid r
    → IsValid db
    → IsValid (record db { next_job = db.next_job + 1; jobs = db.jobs ++ r ∷ [] })
IsValid-insert_job db r e h v = record {
  rows = All-append RowIsValid db.jobs (r ∷ []) v.rows (h, tt);
  job_ids = IsKeyed-append job_key db.next_job db.jobs r e v.job_ids;
  step_ids = v.step_ids;
  event_ids = v.event_ids;
  step_order = v.step_order;
  step_jobs = jobs_added (λ (s : StepRow). s.job_id) db.jobs (r ∷ []) db.steps v.step_jobs;
  event_jobs = jobs_added (λ (e : EventRow). e.job_id) db.jobs (r ∷ []) db.events v.event_jobs;
}

-- the new index is above those of the job's other steps
index_above :
    (m : ℕ) (s : StepRow) (xs : List StepRow)
    → next_index s.job_id xs ≤ m
    → m ≡ s.step_index
    → All (λ x. index_before x s ≡ true) xs
unfolding next_index
index_above m s [] h e = tt
index_above m s (x ∷ xs) h e = (ground (arith), index_above m s xs (ground arith) e)

pub IsValid-insert_step :
    (db : Db) (s : StepRow)
    → step_key s ≡ db.next_step
    → s.step_index ≡ next_index s.job_id db.steps
    → has job_key s.job_id db.jobs ≡ true
    → IsValid db
    → IsValid (record db { next_step = db.next_step + 1; steps = db.steps ++ s ∷ [] })
IsValid-insert_step db s e i there v = record {
  rows = v.rows;
  job_ids = v.job_ids;
  step_ids = IsKeyed-append step_key db.next_step db.steps s e v.step_ids;
  event_ids = v.event_ids;
  step_order =
      IsSorted-append index_before db.steps s v.step_order
        (index_above s.step_index s db.steps (omega (arith, i)) refl);
  step_jobs =
      All-append (λ (x : StepRow). has job_key x.job_id db.jobs ≡ true) db.steps (s ∷ [])
        v.step_jobs (there, tt);
  event_jobs = v.event_jobs;
}

pub IsValid-insert_event :
    (db : Db) (x : EventRow)
    → event_key x ≡ db.next_event
    → has job_key x.job_id db.jobs ≡ true
    → IsValid db
    → IsValid (record db { next_event = db.next_event + 1; events = db.events ++ x ∷ [] })
IsValid-insert_event db x e there v = record {
  rows = v.rows;
  job_ids = v.job_ids;
  step_ids = v.step_ids;
  event_ids = IsKeyed-append event_key db.next_event db.events x e v.event_ids;
  step_order = v.step_order;
  step_jobs = v.step_jobs;
  event_jobs =
      All-append (λ (y : EventRow). has job_key y.job_id db.jobs ≡ true) db.events (x ∷ [])
        v.event_jobs (there, tt);
}

-- UPDATE job_steps, by a change that keeps id, job and index
pub IsValid-update_steps :
    (db : Db) (p : StepRow → Bool) (f : StepRow → StepRow)
    → ((r : StepRow)
        → (step_key (f r) ≡ step_key r)
          × ((f r).job_id ≡ r.job_id)
          × ((f r).step_index ≡ r.step_index))
    → IsValid db
    → IsValid (record db { steps = update p f db.steps })
IsValid-update_steps db p f same v = record {
  rows = v.rows;
  job_ids = v.job_ids;
  step_ids = IsKeyed-update step_key db.next_step p f db.steps (λ r. (same r).0) v.step_ids;
  event_ids = v.event_ids;
  step_order =
      IsSorted-update index_before p f db.steps (λ x y. rw ((same x).1, (same x).2))
        (λ x y. rw ((same y).1, (same y).2)) v.step_order;
  step_jobs =
      All-update (λ (s : StepRow). has job_key s.job_id db.jobs ≡ true) p f db.steps
        (λ x _ h. rw (same x).1 h) v.step_jobs;
  event_jobs = v.event_jobs;
}

-- DELETE FROM jobs, with its cascades
pub IsValid-delete :
    (db : Db) (p : JobRow → Bool)
    → IsValid db
    → IsValid (record db {
      jobs = delete p db.jobs;
      steps = delete (λ (s : StepRow). has job_key s.job_id (select p db.jobs)) db.steps;
      events = delete (λ (e : EventRow). has job_key e.job_id (select p db.jobs)) db.events;
    })
unfolding delete
IsValid-delete db p v = record {
  rows = All-delete RowIsValid p db.jobs v.rows;
  job_ids = IsKeyed-select job_key db.next_job (λ x. not (p x)) db.jobs v.job_ids;
  step_ids = IsKeyed-select step_key db.next_step _ db.steps v.step_ids;
  event_ids = IsKeyed-select event_key db.next_event _ db.events v.event_ids;
  step_order = IsSorted-select index_before _ db.steps v.step_order;
  step_jobs = jobs_purged (λ (s : StepRow). s.job_id) p db.jobs db.steps v.step_jobs;
  event_jobs = jobs_purged (λ (e : EventRow). e.job_id) p db.jobs db.events v.event_jobs;
}
