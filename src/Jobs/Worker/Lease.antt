-- ===== src/Jobs/Worker/Lease.antt =====
-- `renew_lease` and `reclaim_stale` of src/pf_core/jobs/_repo_worker.py.
use mathlib.Core.List.{Memᴰ}
use mathlib.Core.Option
use mathlib.Core.Option.{none-ne-some}
use pf_core.Prelude.{
  ℕ, ◌+◌, ◌*◌, ◌≤◌, ◌≡◌, ◌≢◌, refl, ◌∙◌, true, false, not, ◌&&◌, none, some, [], arith,
  Option-cases, inl, inr, if◌then◌else◌,
}
use pf_core.Sql.Rows.{first-update, mem-update, first_holds}
use pf_core.Jobs.Schema.{JobRow, Db, job_is, is_null}
use pf_core.Jobs.Repo.{get}
use pf_core.Jobs.Worker.{claimable, claim_select, is_stale, reclaim_stale, renew_lease}
use pf_core.Jobs.Worker.Claim.{later, claim_select-none}

abbrev pub reclaimed : ℕ → JobRow → JobRow
reclaimed now r = record r {
  claimed_by = none;
  claimed_at = none;
  status = "pending";
  updated_at = now;
}

-- what `reclaim_stale` does to the row of one job
get-reclaim_stale :
    (i lease : ℕ) (db : Db)
    → get i (reclaim_stale lease db).1
      ≡ Option.map (λ r. if is_stale db.now lease r then reclaimed db.now r else r) (get i db)
unfolding get reclaim_stale
get-reclaim_stale i lease db = first-update (job_is i) (is_stale db.now lease) _ db.jobs (λ r. refl)

pub get-renew_lease :
    (i : ℕ) (db : Db)
    → get i (renew_lease i db).1
      ≡ Option.map
          (λ r.
            if job_is i r && not (is_null r.claimed_by)
            then (record r { claimed_at = some db.now })
            else r)
          (get i db)
unfolding get renew_lease
get-renew_lease i db = first-update (job_is i) _ _ db.jobs (λ r. refl)

not_stale :
    (now lease n : ℕ) (r : JobRow)
    → n ≤ lease * 1000000
    → r.claimed_at ≡ some now
    → is_stale (now + n) lease r ≡ false
not_stale now lease n r soon e = rw e (ground arith)

get_is : (i : ℕ) (db : Db) (o : JobRow) → get i db ≡ some o → job_is i o ≡ true
unfolding get
get_is i db o e = first_holds (job_is i) db.jobs e

renewed_at :
    (i : ℕ) (db : Db) (r : JobRow)
    → get i (renew_lease i db).1 ≡ some r
    → is_null r.claimed_by ≡ false
    → r.claimed_at ≡ some db.now
renewed_at i db r found held = elim (Option-cases (get i db)) [
  | inl e ↦ absurd (none-ne-some r (rw (get-renew_lease, e) at found))
  | inr (o, e) ↦ renewed o e (rw (get-renew_lease, e) at found)
]
  where
    renewed :
        (o : JobRow)
        → get i db ≡ some o
        → Option.map
            (λ r.
              if job_is i r && not (is_null r.claimed_by)
              then (record r { claimed_at = some db.now })
              else r)
            (some o)
          ≡ some r
        → r.claimed_at ≡ some db.now
    renewed o e f = ground (arith, get_is i db o e)

-- A claimed job whose lease has just been renewed keeps its row through `reclaim_stale` for as long as
-- the lease runs.
pub reclaim_stale-renew_lease :
    (i lease n : ℕ) (db : Db) (r : JobRow)
    → n ≤ lease * 1000000
    → get i (renew_lease i db).1 ≡ some r
    → is_null r.claimed_by ≡ false
    → get i (reclaim_stale lease (later n (renew_lease i db).1)).1 ≡ some r
reclaim_stale-renew_lease i lease n db r soon found held =
    get-reclaim_stale i lease (later n (renew_lease i db).1)
    ∙ (rw (get-later i n (renew_lease i db).1, found)
        (rw
          (not_stale (renew_lease i db).1.now lease n r soon
            (unfold renew_lease in renewed_at i db r found held))
          refl))
  where
    get-later : (i n : ℕ) (db : Db) → get i (later n db) ≡ get i db
    get-later i n db = unfold get in refl

offered_again : (now lease : ℕ) (r : JobRow) → claimable now lease (reclaimed now r) ≡ true
offered_again now lease r = refl

-- After `reclaim_stale`, a job that was running with a lapsed lease is in the queue again: its row is
-- pending and unclaimed, a worker that takes any kind is offered some job.
pub reclaim_stale_offers :
    (lease : ℕ) (db : Db) (r : JobRow)
    → Memᴰ r db.jobs
    → is_stale db.now lease r ≡ true
    → Memᴰ (reclaimed db.now r) (reclaim_stale lease db).1.jobs
      × (claim_select [] lease (reclaim_stale lease db).1 ≢ none)
reclaim_stale_offers lease db r m stale = (
  there,
  λ e.
      claim_select-none [] lease (reclaim_stale lease db).1 e (reclaimed db.now r)
        (there, unfold reclaim_stale in offered_again db.now lease r, refl),
)
  where
    there : Memᴰ (reclaimed db.now r) (reclaim_stale lease db).1.jobs
    there =
        unfold reclaim_stale in
        (rw stale at (mem-update (is_stale db.now lease) (reclaimed db.now) db.jobs m))
