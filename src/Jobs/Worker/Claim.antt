-- ===== src/Jobs/Worker/Claim.antt =====
-- `claim_next` of src/pf_core/jobs/_repo_worker.py: which job it takes, and two workers at once.
use mathlib.Core.List.{Memᴰ}
use mathlib.Core.Option.{none-ne-some}
use pf_core.Prelude.{
  ℕ, ◌+◌, ◌*◌, ◌≤◌, ◌<◌, ◌≡◌, ◌≢◌, ◌⊎◌, refl, sym, subst, ap, ◌∙◌, String, Bool, true, false, ◌&&◌,
  none, some, List, arith, ◌==◌, ==_iff, All, All-of_mem, Bool-cases, Option-cases, &&_parts, inl,
  inr, if◌then◌else◌,
}
use pf_core.Sql.{first, update, rowcount}
use pf_core.Sql.Rows.{
  All-first, mem-select, mem-first, first_holds, first-update, rowcount_none, rowcount_some,
  rowcount_found, All-updated, All-of_select, first_found,
}
use pf_core.Sql.Sorted.{All-order_by, first-order_by_least, first-order_by-none}
use pf_core.Sql.Keys.{key_unique}
use pf_core.Jobs.Schema.{JobRow, Db, job_is}
use pf_core.Jobs.Invariant.{IsValid, job_key}
use pf_core.Jobs.Worker.{claimable, kind_in, claims_before, claim_select, claim_take, claim_next}

-- what a worker of these kinds may take now
abbrev pub IsOffered : List String → ℕ → Db → JobRow → Type 0
IsOffered kinds lease db r =
    Memᴰ r db.jobs × (claimable db.now lease r ≡ true) × (kind_in kinds r ≡ true)

-- at least as urgent: a higher priority, or the same one and not younger
abbrev pub IsUrgent : JobRow → JobRow → Type 0
IsUrgent r x =
    (x.priority < r.priority) ⊎ ((x.priority ≡ r.priority) × (r.created_at ≤ x.created_at))

claims_before_total : (x y : JobRow) → claims_before x y ≡ false → claims_before y x ≡ true
claims_before_total x y h = ground arith

claims_before_trans :
    (x y z : JobRow)
    → claims_before x y ≡ true
    → claims_before y z ≡ true
    → claims_before x z ≡ true
claims_before_trans x y z h k = ground arith

claims_before-IsUrgent : (r x : JobRow) → claims_before r x ≡ true → IsUrgent r x
claims_before-IsUrgent r x h = ground arith

abbrev offer_test : List String → ℕ → Db → JobRow → Bool
offer_test kinds lease db r = claimable db.now lease r && kind_in kinds r

both : (a b : Bool) → a ≡ true → b ≡ true → (a && b) ≡ true
both a b h k = ground arith

-- The selected job is offered, and no offered job is more urgent.
pub claim_select-IsOffered :
    (kinds : List String) (lease : ℕ) (db : Db) (r : JobRow)
    → claim_select kinds lease db ≡ some r
    → IsOffered kinds lease db r × ((x : JobRow) → IsOffered kinds lease db x → IsUrgent r x)
unfolding claim_select
claim_select-IsOffered kinds lease db r e =
    let found : Memᴰ r db.jobs × (offer_test kinds lease db r ≡ true) =
      All-first (λ x. Memᴰ x db.jobs × (offer_test kinds lease db x ≡ true)) (λ x. true) _
        (All-order_by _ claims_before _ (All-of_select (offer_test kinds lease db) db.jobs)) e in
    let parts = &&_parts (claimable db.now lease r) (kind_in kinds r) found.1 in
    (
      (found.0, parts.0, parts.1),
      λ x o. claims_before-IsUrgent r x (
          first-order_by_least claims_before claims_before_total claims_before_trans _ e
            (mem-select (offer_test kinds lease db) db.jobs o.0 (both _ _ o.1 o.2))),
    )

-- If no job is selected, none is offered.
pub claim_select-none :
    (kinds : List String) (lease : ℕ) (db : Db)
    → claim_select kinds lease db ≡ none
    → (x : JobRow) → ¬ IsOffered kinds lease db x
unfolding claim_select
claim_select-none kinds lease db e x o =
    first-order_by-none claims_before _ e
      (mem-select (offer_test kinds lease db) db.jobs o.0 (both _ _ o.1 o.2))

abbrev pub taken : String → Db → JobRow → JobRow
taken worker db r = record r {
  claimed_by = some worker;
  claimed_at = some db.now;
  updated_at = db.now;
}

abbrev take_test : ℕ → ℕ → Db → JobRow → Bool
take_test i lease db r = job_is i r && claimable db.now lease r

not_zero : (n : ℕ) → n ≢ 0 → (n == 0) ≡ false
not_zero n h = ground arith

zero_of : (n : ℕ) → (n == 0) ≡ true → n ≡ 0
zero_of n h = ground arith

self_is : (n : ℕ) → (n == n) ≡ true
self_is n = ground arith

-- a row of a valid table is what its id finds
pub first-job_is :
    (db : Db) (r : JobRow) → IsValid db → Memᴰ r db.jobs → first (job_is r.id) db.jobs ≡ some r
first-job_is db r v m =
    let (y, e) = first_found (job_is r.id) db.jobs m (self_is r.id) in
    e
    ∙ ap (λ z. some z)
        (key_unique job_key db.jobs v.job_ids.0 (mem-first (job_is r.id) db.jobs e) m
          ((==_iff y.id r.id).0 (first_holds (job_is r.id) db.jobs e)))

-- Taking an offered job succeeds: the row comes back with the claim on it.
claim_take_offered :
    (lease : ℕ) (worker : String) (db : Db) (r : JobRow)
    → IsValid db
    → Memᴰ r db.jobs
    → claimable db.now lease r ≡ true
    → (claim_take r.id lease worker db).0 ≡ some (taken worker db r)
unfolding claim_take
claim_take_offered lease worker db r v m c =
    let test = both (job_is r.id r) (claimable db.now lease r) (self_is r.id) c in
    rw (not_zero _ (rowcount_some (take_test r.id lease db) db.jobs m test), claim_take)
      (rw
        (
          first-update (job_is r.id) (take_test r.id lease db) (taken worker db) db.jobs
              (λ x. refl),
          first-job_is db r v m,
          test,
        )
        refl)

-- `claim_next` from a valid database: it returns nothing exactly when no job is offered, and else an
-- offered job, claimed now by the caller, such that no offered job is more urgent.
pub claim_next_lem :
    (kinds : List String) (worker : String) (lease : ℕ) (db : Db)
    → IsValid db
    → ((claim_next kinds worker lease db).0 ≡ none) × ((x : JobRow) → ¬ IsOffered kinds lease db x)
      ⊎ ((r : JobRow) × ((claim_next kinds worker lease db).0 ≡ some (taken worker db r))
          × IsOffered kinds lease db r
          × ((x : JobRow) → IsOffered kinds lease db x → IsUrgent r x))
unfolding claim_next
claim_next_lem kinds worker lease db v = elim (Option-cases (claim_select kinds lease db)) [
  | inl e ↦ inl (rw (e, claim_next) refl, claim_select-none kinds lease db e)
  | inr (r, e) ↦
      let best = claim_select-IsOffered kinds lease db r e in
      inr (
        r,
        rw (e, claim_next) (claim_take_offered lease worker db r v best.0.0 best.0.1),
        best.0,
        best.1,
      )
]

-- after a take, no row of that id is claimable until the lease has passed
module _ (i lease : ℕ) (w : String) (db : Db) (v : IsValid db) (n : ℕ)
    (soon : n ≤ lease * 1000000) where
  taken_test :
      (x : JobRow)
      → Memᴰ x db.jobs
      → rowcount (take_test i lease db) db.jobs ≢ 0
      → job_is i x ≡ true
      → take_test i lease db x ≡ true
  taken_test x m some_taken is_i =
      let (y, my, ty) = rowcount_found (take_test i lease db) db.jobs some_taken in
      let py = &&_parts (job_is i y) (claimable db.now lease y) ty in
      subst (λ z. take_test i lease db z ≡ true)
        (key_unique job_key db.jobs v.job_ids.0 my m
          ((==_iff y.id i).0 py.0 ∙ sym ((==_iff x.id i).0 is_i)))
        ty

  blocked_row :
      (x : JobRow)
      → (job_is i x ≡ true → take_test i lease db x ≡ true)
      → (job_is i (if take_test i lease db x then taken w db x else x)
          && claimable (db.now + n) lease (if take_test i lease db x then taken w db x else x))
        ≡ false
  blocked_row x h = elim (Bool-cases (take_test i lease db x)) [
    | inl t ↦ rw t (ground arith)
    | inr t ↦
        rw t (elim (Bool-cases (job_is i x)) [ inl s ↦ absurd (cc (h s, t)) | inr s ↦ rw s refl ])
  ]

  pub blocked_rows :
      rowcount (take_test i lease db) db.jobs ≢ 0
      → All
          (λ x. (job_is i x && claimable (db.now + n) lease x) ≡ false)
          (update (take_test i lease db) (taken w db) db.jobs)
  blocked_rows some_taken =
      All-updated _ (take_test i lease db) (taken w db) db.jobs
        (All-of_mem _ db.jobs (λ x m. blocked_row x (taken_test x m some_taken)))

abbrev pub later : ℕ → Db → Db
later n db = record db { now = db.now + n }

-- Two workers whose SELECTs found the same job of a valid database: once one UPDATE has taken it, the other matches no row
-- and changes nothing, as long as no more than the lease has passed in between.
pub claim_take_exclusive :
    (i lease n : ℕ) (w₁ w₂ : String) (db : Db) (r : JobRow)
    → IsValid db
    → n ≤ lease * 1000000
    → (claim_take i lease w₁ db).0 ≡ some r
    → claim_take i lease w₂ (later n (claim_take i lease w₁ db).1)
      ≡ (none, later n (claim_take i lease w₁ db).1)
unfolding claim_take
claim_take_exclusive i lease n w₁ w₂ db r v soon won =
    elim (Bool-cases (rowcount (take_test i lease db) db.jobs == 0)) [
      | inl e ↦ absurd (none-ne-some r (rw (e, claim_take) at won))
      | inr e ↦
          rw (e, claim_take)
            (rw (rowcount_none _ _ (blocked_rows i lease w₁ db v n soon (of_false _ e))) refl)
    ]
  where
    of_false : (m : ℕ) → (m == 0) ≡ false → m ≢ 0
    of_false m h = ground arith
