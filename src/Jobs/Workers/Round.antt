-- ===== src/Jobs/Workers/Round.antt =====
-- A round of `_loop` of src/pf_core/jobs/workers.py.
use mathlib.Core.Option.{none-ne-some}
use pf_core.Prelude.{
  ℕ, ◌≡◌, ◌≢◌, ◌∙◌, ◌⊎◌, inl, inr, refl, sym, subst, ap, String, ◌&&◌, Option, none, some, List,
  ◌==◌, ==_iff, Option-cases, Bool-cases,
}
use pf_core.Result.{Exn}
use pf_core.Sql.{first, rowcount}
use pf_core.Sql.Rows.{first_holds}
use pf_core.Jobs.Schema.{JobRow, Db, job_is}
use pf_core.Jobs.Repo.{get}
use pf_core.Jobs.Worker.{claim_next, claim_take, claim_select, claimable}
use pf_core.Jobs.Worker.Claim.{IsOffered, taken, claim_next_lem, claim_select-IsOffered}
use pf_core.Jobs.Invariant.{IsValid}
use pf_core.Jobs.Runtime.{World, with_db}
use pf_core.Jobs.Submit.Ends.{IsStored, IsEnded}
use pf_core.Jobs.Workers.{loop_round}

-- the row that `claim_next` returns is stored under its id
claim_take-IsStored :
    (i lease : ℕ) (worker : String) (db : Db) (r : JobRow)
    → (claim_take i lease worker db).0 ≡ some r
    → IsStored r.id (claim_take i lease worker db).1
unfolding claim_take get
claim_take-IsStored i lease worker db r e =
    elim (Bool-cases (rowcount (λ x. job_is i x && claimable db.now lease x) db.jobs == 0)) [
      | inl z ↦ absurd (none-ne-some r (rw (z, claim_take) at e))
      | inr z ↦ rw (z, claim_take) (found _ (rw (z, claim_take) at e))
    ]
  where
    found : (rows : List JobRow) → first (job_is i) rows ≡ some r → first (job_is r.id) rows ≢ none
    found rows f n =
        let same : r.id ≡ i = (==_iff r.id i).0 (first_holds (job_is i) rows f) in
        none-ne-some r (sym (subst (λ j. first (job_is j) rows ≡ none) same n) ∙ f)

claim_next-IsStored :
    (kinds : List String) (worker : String) (lease : ℕ) (db : Db) (r : JobRow)
    → (claim_next kinds worker lease db).0 ≡ some r
    → IsStored r.id (claim_next kinds worker lease db).1
unfolding claim_next
claim_next-IsStored kinds worker lease db r e = elim (Option-cases (claim_select kinds lease db)) [
  | inl n ↦ absurd (none-ne-some r (rw (n, claim_next) at e))
  | inr (row, s) ↦
      rw (s, claim_next) (claim_take-IsStored row.id lease worker db r (rw (s, claim_next) at e))
]

claim_next-none :
    (kinds : List String) (worker : String) (lease : ℕ) (db : Db)
    → ((x : JobRow) → ¬ IsOffered kinds lease db x)
    → (claim_next kinds worker lease db).1 ≡ db
unfolding claim_next
claim_next-none kinds worker lease db nobody = elim (Option-cases (claim_select kinds lease db)) [
  | inl n ↦ rw (n, claim_next) refl
  | inr (row, s) ↦ absurd (nobody row (claim_select-IsOffered kinds lease db row s).0)
]

-- One round of the claim loop from a valid database, for a `run` that ends each stored job it is given:
-- either no job was offered, and nothing changed, or a job that was offered is terminal afterwards.
pub loop_round-IsEnded :
    (kinds : List String) (worker : String) (lease : ℕ) (run : JobRow → World → Option Exn × World)
    (w : World)
    → IsValid w.db
    → ((row : JobRow) (v : World) → IsStored row.id v.db → IsEnded row.id (run row v).1.db)
    → ((loop_round kinds worker lease run w ≡ w) × ((x : JobRow) → ¬ IsOffered kinds lease w.db x))
      ⊎ ((r : JobRow) × IsOffered kinds lease w.db r
          × IsEnded r.id (loop_round kinds worker lease run w).db)
unfolding loop_round
loop_round-IsEnded kinds worker lease run w v ends =
    elim (claim_next_lem kinds worker lease w.db v) [
      | inl (n, nobody) ↦ inl (
        rw (n, loop_round) (ap (λ d. with_db d w) (claim_next-none kinds worker lease w.db nobody)),
        nobody,
      )
      | inr (r, e, o, best) ↦ inr (
        r,
        o,
        rw (e, loop_round)
            (ends (taken worker w.db r) (with_db (claim_next kinds worker lease w.db).1 w)
              (claim_next-IsStored kinds worker lease w.db (taken worker w.db r) e)),
      )
    ]
