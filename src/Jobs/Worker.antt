-- ===== src/Jobs/Worker.antt =====
-- src/pf_core/jobs/_repo_worker.py: claiming a job, lease renewal and recovery, retention.
pub mod Claim
pub mod Lease
use pf_core.Prelude.{
  ℕ, String, Bool, true, false, not, ◌&&◌, ◌||◌, Option, none, some, List, [], ◌∷◌, str_eq, ◌==◌,
  ltb, leb, elem, ℤ, pos, negsuc, if◌then◌else◌,
}
use pf_core.Result.{Result, ok, err, invalid_input_error}
use pf_core.Sql.{select, first, update, rowcount, delete, order_by}
use pf_core.Jobs.Schema.{JobRow, StepRow, EventRow, Db, job_is, is_null, older_than}

-- status = 'pending' AND (claimed_by IS NULL OR claimed_at < now - lease)
abbrev pub claimable : ℕ → ℕ → JobRow → Bool
claimable now lease r =
    str_eq r.status "pending" && (is_null r.claimed_by || older_than now lease r.claimed_at)

-- `if kinds:` restricts the query, so an empty list is no restriction
abbrev pub kind_in : List String → JobRow → Bool
kind_in [] r = true
kind_in (k ∷ ks) r = elem r.kind (k ∷ ks)

-- ORDER BY priority DESC, created_at ASC
abbrev pub claims_before : JobRow → JobRow → Bool
claims_before y x =
    ltb x.priority y.priority || x.priority == y.priority && leb y.created_at x.created_at

-- the SELECT of `claim_next`
unfoldable pub claim_select : List String → ℕ → Db → Option JobRow
unfolding first select order_by
claim_select kinds lease db =
    first (λ r. true)
      (order_by claims_before (select (λ r. claimable db.now lease r && kind_in kinds r) db.jobs))

-- its UPDATE and the row read back; `none` when no row matched
unfoldable pub claim_take : ℕ → ℕ → String → Db → Option JobRow × Db
unfolding first update rowcount
claim_take i lease worker db =
    let takes = λ (r : JobRow). job_is i r && claimable db.now lease r in
    let rows =
      update takes
        (λ r. record r { claimed_by = some worker; claimed_at = some db.now; updated_at = db.now })
        db.jobs in
    if rowcount takes db.jobs == 0
    then (none, db)
    else (first (job_is i) rows, record db { jobs = rows })

unfoldable pub claim_next : List String → String → ℕ → Db → Option JobRow × Db
claim_next kinds worker lease db = elim (claim_select kinds lease db) [
  | none ↦ (none, db)
  | some row ↦ claim_take row.id lease worker db
]

abbrev pub is_stale : ℕ → ℕ → JobRow → Bool
is_stale now lease r = str_eq r.status "running" && older_than now lease r.claimed_at

unfoldable pub reclaim_stale : ℕ → Db → ℕ × Db
unfolding update rowcount
reclaim_stale lease db = (
  rowcount (is_stale db.now lease) db.jobs,
  record db {
    jobs =
        update (is_stale db.now lease)
          (λ r. record r {
            claimed_by = none;
            claimed_at = none;
            status = "pending";
            updated_at = db.now;
          })
          db.jobs;
  },
)

unfoldable pub renew_lease : ℕ → Db → Bool × Db
unfolding update rowcount
renew_lease i db =
    let held = λ (r : JobRow). job_is i r && not (is_null r.claimed_by) in
    (
      not (rowcount held db.jobs == 0),
      record db { jobs = update held (λ r. record r { claimed_at = some db.now }) db.jobs },
    )

-- `status`: no restriction, or a list of statuses (a single one is a list of one)
abbrev pub status_in : Option (List String) → JobRow → Bool
status_in none r = true
status_in (some l) r = elem r.status l

abbrev pub purged : ℕ → ℕ → Option (List String) → JobRow → Bool
purged now seconds status r = older_than now seconds r.finished_at && status_in status r

-- ON DELETE SET NULL of `parent_job_id`
abbrev forget_parent : Option ℕ → List JobRow → Option ℕ
forget_parent none gone = none
forget_parent (some i) gone = elim (first (job_is i) gone) [ none ↦ some i | some _ ↦ none ]

unfoldable pub orphan : List JobRow → JobRow → JobRow
unfolding first
orphan gone r = record r { parent_job_id = forget_parent r.parent_job_id gone }

unfoldable pub is_gone : ℕ → List JobRow → Bool
unfolding first
is_gone i gone = elim (first (job_is i) gone) [ none ↦ false | some _ ↦ true ]

-- the DELETE, with the cascades to steps and events
unfoldable pub purge : ℤ → Option (List String) → Db → Result (ℕ × Db)
unfolding select delete update rowcount orphan is_gone
purge (negsuc _) status db = err invalid_input_error
purge (pos seconds) status db =
    let goes = purged db.now seconds status in
    let gone = select goes db.jobs in
    ok (
      rowcount goes db.jobs,
      record db {
        jobs = update (λ r. true) (orphan gone) (delete goes db.jobs);
        steps = delete (λ (r : StepRow). is_gone r.job_id gone) db.steps;
        events = delete (λ (r : EventRow). is_gone r.job_id gone) db.events;
      },
    )
