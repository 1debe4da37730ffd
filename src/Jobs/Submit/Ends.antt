-- ===== src/Jobs/Submit/Ends.antt =====
-- The thread of `submit_tracked` (src/pf_core/jobs/submit.py) from its start to its end.
use pf_core.Prelude.{
  ℕ, ◌≡◌, ◌≢◌, ◌∙◌, inl, inr, refl, subst, String, true, false, Option, none, some, [], ◌∷◌, ◌++◌,
  prefix, Option-cases,
}
use pf_core.Result.{Exn, ok, err}
use pf_core.Jobs.Registry.{Registry, is_terminal}
use pf_core.Jobs.Schema.{JobRow, Db}
use pf_core.Jobs.Repo.{Details, get, transition, no_details}
use pf_core.Jobs.Repo.Moves.{transition-Transitioned}
use pf_core.Jobs.Runtime.{World, Handle, with_db, exit_job, job_transition, cached_status}
use pf_core.Jobs.Runtime.Exit.{
  force_fail_terminal, exception_event, get-force_fail, events-force_fail, with_job_entered, opened,
  inside, leave, job_transition-cases,
}
use pf_core.Jobs.Submit.{tracked_block, tracked_thread, finish_run, after_run}

-- the row is there
abbrev pub IsStored : ℕ → Db → Type 0
IsStored i db = get i db ≢ none

-- the row is there and terminal
abbrev pub IsEnded : ℕ → Db → Type 0
IsEnded i db = (r : JobRow) × (get i db ≡ some r) × (is_terminal r.status ≡ true)

-- the outcome of the block: it raised with the row in place, or the job ended
abbrev Outcome : ℕ → Option Exn × Handle × World → Type 0
Outcome i (some e, h, w) = (h.job_id ≡ i) × IsStored i w.db
Outcome i (none, h, w) = (h.job_id ≡ i) × (h.outputs ≡ none) × IsEnded i w.db

pub get-IsStored : (i : ℕ) (db : Db) {r : JobRow} → get i db ≡ some r → IsStored i db
get-IsStored i db e n = cc

pub stored_after :
    (reg : Registry) (i : ℕ) (to : String) (x : Details) (db db' : Db)
    → transition reg i to x db ≡ ok db'
    → (s : JobRow) × (get i db' ≡ some s) × (s.status ≡ to)
stored_after reg i to x db db' q =
    let t = transition-Transitioned reg i to x db db' q in (t.after, t.stored, t.moved.status)

module _ (reg : Registry) (i : ℕ) where
  finish_run-Outcome :
      (h : Handle) (w : World)
      → h.job_id ≡ i
      → h.outputs ≡ none
      → is_terminal (cached_status h.row) ≡ false
      → IsStored i w.db
      → Outcome i (finish_run reg h w)
  unfolding finish_run
  finish_run-Outcome h w same no_out still there =
      rw still (elim (job_transition-cases reg "succeeded" no_details h w) [
        | inl (e, q, eq) ↦ rw eq (same, there)
        | inr (db, q, eq) ↦
            let (s, stored, status) = stored_after reg h.job_id "succeeded" _ w.db db q in
            rw eq (same, no_out, (s, subst (λ j. get j db ≡ some s) same stored, rw status refl))
      ])

  after_run-Outcome :
      (h : Handle) (o : Option Exn × World)
      → h.job_id ≡ i
      → h.outputs ≡ none
      → is_terminal (cached_status h.row) ≡ false
      → IsStored i o.1.db
      → Outcome i (after_run reg h o)
  after_run-Outcome h (some e, w) same no_out still there = (same, there)
  after_run-Outcome h (none, w) same no_out still there =
      finish_run-Outcome h w same no_out still there

  -- the block of the thread, for any work that keeps the row
  tracked_block-Outcome :
      (run : World → Option Exn × World) (w : World) (r : JobRow)
      → ((w' : World) → IsStored i w'.db → IsStored i (run w').1.db)
      → get i w.db ≡ some r
      → Outcome i (tracked_block reg run (opened i r) w)
  unfolding tracked_block
  tracked_block-Outcome run w r keeps found =
      elim (job_transition-cases reg "running" no_details (opened i r) w) [
        | inl (e, q, eq) ↦ rw eq (refl, get-IsStored i w.db found)
        | inr (db, q, eq) ↦
            let (s, stored, status) = stored_after reg i "running" _ w.db db q in
            rw eq (
              after_run-Outcome (record (opened i r) { row = get i db }) (run (with_db db w)) refl
                refl (rw stored (rw status refl)) (keeps (with_db db w) (get-IsStored i db stored)))
      ]

  left-IsEnded :
      (str class_name : Exn → String) (token : Option ℕ) (o : Option Exn × Handle × World)
      → Outcome i o
      → IsEnded i (leave str class_name token o).1.db
        × ((leave str class_name token o).1.current_job_id ≡ token)
  unfolding exit_job
  left-IsEnded str class_name token (some e, h, w) g =
      (rw g.0 (force_fail_terminal i (prefix 10000 (str e)) (class_name e) w.db g.1), refl)
  left-IsEnded str class_name token (none, h, w) g = (rw (g.0, g.1) g.2, refl)

module _ (str class_name : Exn → String) where
  -- Whatever the kind of the job allows, and whether the work raises, cancels or finishes the job or does
  -- nothing to it: as long as it does not delete the row, the job is terminal when the thread is done,
  -- and the thread's context variable is as before.
  pub tracked_thread-IsEnded :
      (reg : Registry) (i : ℕ) (run : World → Option Exn × World) (w : World)
      → ((w' : World) → IsStored i w'.db → IsStored i (run w').1.db)
      → IsStored i w.db
      → IsEnded i (tracked_thread str class_name reg i run w).db
        × ((tracked_thread str class_name reg i run w).current_job_id ≡ w.current_job_id)
  unfolding tracked_thread
  tracked_thread-IsEnded reg i run w keeps there = elim (Option-cases (get i w.db)) [
    | inl e ↦ absurd (there e)
    | inr (r, e) ↦
        rw (with_job_entered str class_name i (tracked_block reg run) w r e, tracked_thread)
          (left-IsEnded reg i str class_name w.current_job_id _
            (tracked_block-Outcome reg i run (inside i w) r keeps e))
  ]

  -- The job was moved to running, and the work returned with the row terminal. The test for that reads
  -- the row as it was before the work, so the thread still asks for `succeeded`; where the transition is
  -- refused, the row stays as the work left it, but an `exception` event is appended to the job's log.
  pub tracked_thread_ended_by_work :
      (reg : Registry) (i : ℕ) (run : World → Option Exn × World) (w w' : World) (db : Db)
      (r s : JobRow) (e : Exn)
      → get i w.db ≡ some r
      → transition reg i "running" no_details w.db ≡ ok db
      → run (with_db db (inside i w)) ≡ (none, w')
      → get i w'.db ≡ some s
      → is_terminal s.status ≡ true
      → transition reg i "succeeded" no_details w'.db ≡ err e
      → let after = tracked_thread str class_name reg i run w in
        (get i after.db ≡ some s)
        × (after.db.events
            ≡ w'.db.events ++ exception_event i (prefix 10000 (str e)) (class_name e) w'.db ∷ [])
  unfolding tracked_thread tracked_block finish_run job_transition exit_job
  tracked_thread_ended_by_work reg i run w w' db r s e found begun ran stored ended refused =
      let (m, stored', status) = stored_after reg i "running" no_details w.db db begun in
      rw (with_job_entered str class_name i (tracked_block reg run) w r found, tracked_thread)
        (rw (begun, tracked_block, job_transition)
          (rw (ran, after_run)
            (rw (stored', status, finish_run)
              (rw (refused, job_transition)
                (
                  get-force_fail i (prefix 10000 (str e)) (class_name e) w'.db s stored
                      ∙ rw ended refl,
                  events-force_fail i (prefix 10000 (str e)) (class_name e) w'.db s stored,
                )))))
