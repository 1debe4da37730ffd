-- ===== src/Jobs/Workers/Ends.antt =====
-- `run_subprocess_job` of src/pf_core/jobs/workers.py from its start to its end.
use pf_core.Prelude.{
  ℕ, ◌≡◌, ◌∙◌, ◌⊎◌, inl, inr, refl, subst, String, true, Option, none, some, List, [], ◌∷◌, prefix,
  eq_iff, ℤ, All, Option-cases, Bool-cases,
}
use pf_core.Result.{Exn, Result, ok, err, fetch, integrity_error}
use pf_core.Result.Rules.{Returns, Returns-bind, Returns-ok, Result-cases, fetch-eq-ok}
use pf_core.Sql.{first}
use pf_core.Jobs.Registry.{Registry, is_terminal}
use pf_core.Jobs.Schema.{JobRow, EventRow, Db, job_is, is_null}
use pf_core.Jobs.Steps.{add_event, touch_job_lease}
use pf_core.Jobs.Repo.{Details, get, no_details}
use pf_core.Jobs.Repo.Rows.{get-update_self, get-touch_self}
use pf_core.Jobs.Worker.{renew_lease}
use pf_core.Jobs.Worker.Lease.{get-renew_lease}
use pf_core.Jobs.Runtime.{World, Handle, with_db, exit_job, apply_outputs, job_transition}
use pf_core.Jobs.Runtime.Exit.{
  force_fail_terminal, with_job_entered, opened, inside, leave, job_transition-cases,
}
use pf_core.Jobs.Submit.Ends.{IsStored, IsEnded, stored_after, get-IsStored}
use pf_core.Jobs.Workers.{
  SubprocessJobSpec, Child, wait_renewing_lease, is_canceled, is_success, outputs_for, succeed,
  settle, after_spawn, after_event, subprocess_block, run_subprocess_job,
}

-- what happens outside keeps the row
abbrev pub IsKept : ℕ → (Db → Db) → Type 0
IsKept i f = (db : Db) → IsStored i db → IsStored i (f db)

abbrev pub IsTame : ℕ → Result Child → Type 0
IsTame i (err e) = Unit
IsTame i (ok c) = All (IsKept i) c.ticks × IsKept i c.last

-- the block raised with the row in place, or the job ended
abbrev Outcome : ℕ → Option Exn × Handle × World → Type 0
Outcome i (some e, h, w) = (h.job_id ≡ i) × IsStored i w.db
Outcome i (none, h, w) = (h.job_id ≡ i) × IsEnded i w.db

renew_lease-IsStored : (i : ℕ) (db : Db) → IsStored i db → IsStored i (renew_lease i db).1
renew_lease-IsStored i db there e = elim (Option-cases (get i db)) [
  | inl n ↦ there n
  | inr (r, s) ↦ absurd (cc (rw (get-renew_lease, s) at e))
]

wait-IsStored :
    (i : ℕ) (ts : List (Db → Db)) (last : Db → Db) (db : Db)
    → All (IsKept i) ts
    → IsKept i last
    → IsStored i db
    → IsStored i (wait_renewing_lease i ts last db)
unfolding wait_renewing_lease
wait-IsStored i [] last db ks k there = k db there
wait-IsStored i (t ∷ ts) last db ks k there =
    wait-IsStored i ts last (renew_lease i (t db)).1 ks.1 k
      (renew_lease-IsStored i (t db) (ks.0 db there))

logged-IsStored :
    (i : ℕ) (db : Db) (events : List EventRow) (n : ℕ) (job : JobRow)
    → fetch (first (job_is i) db.jobs) integrity_error ≡ ok job
    → IsStored i (touch_job_lease i (record db { events = events; next_event = n }))
unfolding get
logged-IsStored i db events n job found =
    get-IsStored i (touch_job_lease i (record db { events = events; next_event = n })) (
      get-touch_self i (record db { events = events; next_event = n }) job
        (fetch-eq-ok (first (job_is i) db.jobs) integrity_error found))

add_event-Returns :
    (i : ℕ) (type m : String) (c : Option String) (db : Db)
    → Returns (λ (p : ℕ × Db). IsStored i p.1) (add_event i type m c db)
unfolding add_event
add_event-Returns i type m c db =
    Returns-bind _ _ λ job found. Returns-ok _ (logged-IsStored i db _ _ job found)

apply_outputs-IsEnded :
    (i : ℕ) (o : Option String) (db : Db) → IsEnded i db → IsEnded i (apply_outputs i o db)
unfolding apply_outputs
apply_outputs-IsEnded i none db h = h
apply_outputs-IsEnded i (some v) db (r, found, ended) = elim (Bool-cases (is_null r.outputs)) [
  | inl n ↦
      rw (found, apply_outputs)
        (rw n (
          record r { outputs = some v },
          get-update_self i db (λ z. record z { outputs = some v }) (λ z. refl) r found,
          ended,
        ))
  | inr n ↦ rw (found, apply_outputs) (rw n (r, found, ended))
]

module _ (reg : Registry) (i : ℕ) where
  job_transition-Outcome :
      (to : String) (x : Details) (h : Handle) (w : World)
      → is_terminal to ≡ true
      → h.job_id ≡ i
      → IsStored i w.db
      → Outcome i (job_transition reg to x h w)
  job_transition-Outcome to x h w ends same there = elim (job_transition-cases reg to x h w) [
    | inl (e, q, eq) ↦ rw eq (same, there)
    | inr (db, q, eq) ↦
        let (s, stored, status) = stored_after reg h.job_id to _ w.db db q in
        rw eq (same, (s, subst (λ j. get j db ≡ some s) same stored, rw status ends))
  ]

  module _ (spec : SubprocessJobSpec) (row : JobRow) (lp : String) where
    succeed-Outcome :
        (r : Result Handle) (h : Handle) (w : World)
        → ((h' : Handle) → r ≡ ok h' → h'.job_id ≡ i)
        → h.job_id ≡ i
        → IsStored i w.db
        → Outcome i (succeed reg r h w)
    succeed-Outcome (err e) h w hs same there = (same, there)
    succeed-Outcome (ok h') h w hs same there =
        job_transition-Outcome "succeeded" no_details h' w refl (hs h' refl) there

    outputs_for-id :
        (f : Option (JobRow → ℤ → Result String)) (code : ℤ) (h h' : Handle)
        → outputs_for f row code h ≡ ok h'
        → h'.job_id ≡ h.job_id
    outputs_for-id none code h h' e = cc
    outputs_for-id (some f) code h h' e = elim (Result-cases (f row code)) [
      | inl (x, q) ↦ absurd (cc (rw q at e))
      | inr (v, q) ↦ cc (rw q at e)
    ]

    canceled-IsEnded : (db : Db) → is_canceled (get i db) ≡ true → IsEnded i db
    canceled-IsEnded db c = elim (Option-cases (get i db)) [
      | inl e ↦ absurd (cc (rw e at c))
      | inr (r, e) ↦ (r, e, rw ((eq_iff r.status "canceled").0 (rw e at c)) refl)
    ]

    settle-Outcome :
        (code : ℤ) (h : Handle) (w : World)
        → h.job_id ≡ i
        → IsStored i w.db
        → Outcome i (settle reg spec row lp code h w)
    unfolding settle
    settle-Outcome code h w same there = elim (Bool-cases (is_canceled (get h.job_id w.db))) [
      | inl c ↦
          rw (c, settle)
            (same, canceled-IsEnded w.db (subst (λ j. is_canceled (get j w.db) ≡ true) same c))
      | inr c ↦ elim (Bool-cases (is_success code)) [
        | inl s ↦
            rw (c, s, settle)
              (succeed-Outcome (outputs_for spec.outputs row code h) h w
                (λ h' q. outputs_for-id spec.outputs code h h' q ∙ same) same there)
        | inr s ↦ rw (c, s, settle) (job_transition-Outcome "failed" _ h w refl same there)
      ]
    ]

    block-Outcome :
        (cmd : String) (child : Result Child) (r : JobRow) (w : World)
        → IsTame i child
        → get i w.db ≡ some r
        → Outcome i (subprocess_block reg spec row lp cmd child (opened i r) w)
    unfolding subprocess_block
    block-Outcome cmd child r w tame found =
        elim (job_transition-cases reg "running" no_details (opened i r) w) [
          | inl (e, q, eq) ↦ rw eq (refl, get-IsStored i w.db found)
          | inr (db, q, eq) ↦
              let (s, stored, status) = stored_after reg i "running" _ w.db db q in
              rw eq (
                noted (record (opened i r) { row = get i db }) (with_db db w) refl
                  (get-IsStored i db stored) (Result-cases (add_event i "started" cmd none db)))
        ]
      where
        spawned :
            (o : Result Child) (h : Handle) (v : World)
            → IsTame i o
            → h.job_id ≡ i
            → IsStored i v.db
            → Outcome i (after_spawn reg spec row lp o h v)
        spawned (err e) h v t same there = (same, there)
        spawned (ok c) h v t same there =
            settle-Outcome c.code h (with_db (wait_renewing_lease h.job_id c.ticks c.last v.db) v)
              same (rw same (wait-IsStored i c.ticks c.last v.db t.0 t.1 there))

        noted :
            (h : Handle) (v : World)
            → h.job_id ≡ i
            → IsStored i v.db
            → ((e : Exn) × (add_event i "started" cmd none v.db ≡ err e))
              ⊎ ((p : ℕ × Db) × (add_event i "started" cmd none v.db ≡ ok p))
            → Outcome i
                (after_event reg spec row lp child h v (add_event h.job_id "started" cmd none v.db))
        noted h v same there (inl (e, q)) = rw (same, q) (refl, there)
        noted h v same there (inr ((n, db), q)) =
            rw (same, q)
              (spawned child (record h { job_id = i }) (with_db db v) tame refl
                ((add_event-Returns i "started" cmd none v.db).at (n, db) q))

left-Outcome :
    (str class_name : Exn → String) (i : ℕ) (token : Option ℕ) (o : Option Exn × Handle × World)
    → Outcome i o
    → IsEnded i (leave str class_name token o).1.db
      × ((leave str class_name token o).1.current_job_id ≡ token)
unfolding exit_job
left-Outcome str class_name i token (some e, h, w) g =
    (rw g.0 (force_fail_terminal i (prefix 10000 (str e)) (class_name e) w.db g.1), refl)
left-Outcome str class_name i token (none, h, w) g =
    (rw g.0 (apply_outputs-IsEnded i h.outputs w.db g.1), refl)

module _ (str class_name : Exn → String) where
  -- `run_subprocess_job` on a stored job whose log path and command line can be computed: whether the
  -- kind allows the moves, the child can be spawned, is canceled meanwhile, fails or succeeds, and its
  -- outputs pass the schema or not, the job is terminal afterwards and the context variable as before,
  -- as long as nothing deletes the row.
  pub run_subprocess_job-IsEnded :
      (reg : Registry) (spec : SubprocessJobSpec) (child : Result Child) (row : JobRow) (w : World)
      (lp cmd : String)
      → spec.log_path row ≡ ok lp
      → spec.argv row ≡ ok cmd
      → IsTame row.id child
      → IsStored row.id w.db
      → let after = (run_subprocess_job str class_name reg spec child row w).1 in
        IsEnded row.id after.db × (after.current_job_id ≡ w.current_job_id)
  unfolding run_subprocess_job
  run_subprocess_job-IsEnded reg spec child row w lp cmd hl hc tame there =
      elim (Option-cases (get row.id w.db)) [
        | inl e ↦ absurd (there e)
        | inr (r, e) ↦
            rw (hl, hc, run_subprocess_job)
              (rw
                (with_job_entered str class_name row.id (subprocess_block reg spec row lp cmd child)
                  w r e)
                (left-Outcome str class_name row.id w.current_job_id _
                  (block-Outcome reg row.id spec row lp cmd child r (inside row.id w) tame e)))
      ]
