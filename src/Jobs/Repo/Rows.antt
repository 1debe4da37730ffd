-- ===== src/Jobs/Repo/Rows.antt =====
-- The row of one job after a write: found through its id.
use mathlib.Core.Option
use pf_core.Prelude.{
  ℕ, ◌≡◌, ◌≢◌, refl, Bool, true, not, ◌&&◌, Option, none, some, arith, ◌==◌, if◌then◌else◌,
}
use pf_core.Sql.{first, update}
use pf_core.Sql.Rows.{first-update, first_holds}
use pf_core.Jobs.Schema.{JobRow, Db, job_is, is_null}
use pf_core.Jobs.Steps.{touch_job_lease}
use pf_core.Jobs.Repo.{get}

pub get_is : (i : ℕ) (db : Db) (o : JobRow) → get i db ≡ some o → job_is i o ≡ true
unfolding get
get_is i db o e = first_holds (job_is i) db.jobs e

-- a claimed row gets a new claim time
abbrev pub touched : ℕ → JobRow → JobRow
touched now r =
    if is_null r.claimed_by then r else record r { claimed_at = some now; updated_at = now }

same_id : (i j k : ℕ) → (k == j) ≡ true → (k == i) ≡ (j == i)
same_id i j k h = ground arith

module _ (i : ℕ) (db : Db) (f : JobRow → JobRow) (same : (r : JobRow) → (f r).id ≡ r.id) where
  pub get-update_self :
      (o : JobRow)
      → get i db ≡ some o
      → get i (record db { jobs = update (job_is i) f db.jobs }) ≡ some (f o)
  unfolding get
  get-update_self o e =
      rw (first-update (job_is i) (job_is i) f db.jobs (λ x. rw (same x)), e)
        (rw (first_holds (job_is i) db.jobs e) refl)

  pub get-update_ne :
      (j : ℕ) → i ≢ j → get j (record db { jobs = update (job_is i) f db.jobs }) ≡ get j db
  unfolding get
  get-update_ne j ne =
      rw (first-update (job_is j) (job_is i) f db.jobs (λ x. rw (same x)))
        (other (first (job_is j) db.jobs) (λ o e. first_holds (job_is j) db.jobs e))
    where
      other :
          (o : Option JobRow)
          → ((x : JobRow) → o ≡ some x → job_is j x ≡ true)
          → Option.map (λ x. if job_is i x then f x else x) o ≡ o
      other none h = refl
      other (some x) h = ground (arith, h x refl)

abbrev held_by : ℕ → JobRow → Bool
held_by i r = job_is i r && not (is_null r.claimed_by)

abbrev stamped : ℕ → JobRow → JobRow
stamped now r = record r { claimed_at = some now; updated_at = now }

pub get-touch_self :
    (i : ℕ) (db : Db) (o : JobRow)
    → get i db ≡ some o
    → get i (touch_job_lease i db) ≡ some (touched db.now o)
unfolding get touch_job_lease
get-touch_self i db o e =
    rw (first-update (job_is i) (held_by i) (stamped db.now) db.jobs (λ x. refl), e)
      (ground (arith, first_holds (job_is i) db.jobs e))

pub get-touch_ne : (i j : ℕ) (db : Db) → i ≢ j → get j (touch_job_lease i db) ≡ get j db
unfolding get touch_job_lease
get-touch_ne i j db ne =
    rw (first-update (job_is j) (held_by i) (stamped db.now) db.jobs (λ x. refl))
      (other (first (job_is j) db.jobs) (λ o e. first_holds (job_is j) db.jobs e))
  where
    other :
        (o : Option JobRow)
        → ((x : JobRow) → o ≡ some x → job_is j x ≡ true)
        → Option.map (λ x. if held_by i x then stamped db.now x else x) o ≡ o
    other none h = refl
    other (some x) h = ground (arith, h x refl)
