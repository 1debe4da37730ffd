-- ===== src/Budget/Sync/Upserts.antt =====
-- `sync_from_desired` of src/pf_core/budget/repo.py: its first loop, over the desired rows.
use mathlib.Core.List.{Memᴰ}
use pf_core.Prelude.{
  ℕ, ◌≡◌, inl, inr, refl, ap, String, Bool, true, false, ◌&&◌, Option, none, some, List, [], ◌∷◌,
  ◌++◌, str_eq, eq_iff, ==_iff, arith, Bool-cases, Option-cases, &&_parts,
}
use pf_core.Sql.{first, update}
use pf_core.Sql.Rows.{first_holds, mem-first, mem-update}
use pf_core.Sql.Keys.{IsKeyed, IsKeyed-append, IsKeyed-update, key_unique}
use pf_core.Budget.Sync.{
  ScopeKey, Desired, BudgetRow, Synced, value_eq, key_eq, enforced, id_is, upsert_one, upsert_all,
  wanted,
}

abbrev pub row_key : BudgetRow → ℕ
row_key r = r.id

-- ids ascend below the counter
abbrev pub IsTable : Synced → Type 0
IsTable s = IsKeyed row_key s.next_id s.rows

value_eq_path : (a b : Option String) → value_eq a b ≡ true → a ≡ b
value_eq_path none none h = refl
value_eq_path none (some b) h = absurd (cc)
value_eq_path (some a) none h = absurd (cc)
value_eq_path (some a) (some b) h = ap (λ z. some z) ((eq_iff a b).0 h)

pub key_eq_path : (a b : ScopeKey) → key_eq a b ≡ true → a ≡ b
unfolding key_eq
key_eq_path a b h =
    let q =
      &&_parts (str_eq a.scope_kind b.scope_kind && value_eq a.scope_value b.scope_value)
        (str_eq a.period b.period) h in
    let p =
      &&_parts (str_eq a.scope_kind b.scope_kind) (value_eq a.scope_value b.scope_value) q.0 in
    λ i. record {
      scope_kind = (eq_iff a.scope_kind b.scope_kind).0 p.0 i;
      scope_value = value_eq_path a.scope_value b.scope_value p.1 i;
      period = (eq_iff a.period b.period).0 q.1 i;
    }

mem-append_left : (xs ys : List BudgetRow) {x : BudgetRow} → Memᴰ x xs → Memᴰ x (xs ++ ys)
mem-append_left [] ys m = elim m [ ]
mem-append_left (x ∷ xs) ys (Memᴰ.head e) = Memᴰ.head e
mem-append_left (x ∷ xs) ys (Memᴰ.tail m) = Memᴰ.tail (mem-append_left xs ys m)

mem-append_last : (xs : List BudgetRow) (x : BudgetRow) → Memᴰ x (xs ++ x ∷ [])
mem-append_last [] x = Memᴰ.head refl
mem-append_last (y ∷ ys) x = Memᴰ.tail (mem-append_last ys x)

-- an update by id leaves the rows of other ids
pub mem-update_other :
    (i : ℕ) (f : BudgetRow → BudgetRow) (xs : List BudgetRow) {r : BudgetRow}
    → id_is i r ≡ false
    → Memᴰ r xs
    → Memᴰ r (update (id_is i) f xs)
mem-update_other i f xs {r} h m = rw h at (mem-update (id_is i) f xs m)

mem-update_this :
    (i : ℕ) (f : BudgetRow → BudgetRow) (xs : List BudgetRow) {r : BudgetRow}
    → id_is i r ≡ true
    → Memᴰ r xs
    → Memᴰ (f r) (update (id_is i) f xs)
mem-update_this i f xs {r} h m = rw h at (mem-update (id_is i) f xs m)

-- rows of different keys have different ids
pub ids_differ :
    (n : ℕ) (xs : List BudgetRow) (e r : BudgetRow) (k : BudgetRow → Bool)
    → IsKeyed row_key n xs
    → Memᴰ e xs
    → Memᴰ r xs
    → k e ≡ true
    → k r ≡ false
    → id_is e.id r ≡ false
ids_differ n xs e r k v me mr ke kr = elim (Bool-cases (id_is e.id r)) [
  | inl h ↦
      let same : r ≡ e = key_unique row_key xs v.0 mr me ((==_iff r.id e.id).0 h) in
      absurd (cc (ap k same, ke, kr))
  | inr h ↦ h
]

upsert_one-IsTable : (now : ℕ) (d : Desired) (s : Synced) → IsTable s → IsTable (upsert_one now d s)
unfolding upsert_one
upsert_one-IsTable now d s v = elim (Option-cases (first (λ r. key_eq r.key d.key) s.rows)) [
  | inl e ↦ rw (e, upsert_one) (IsKeyed-append row_key s.next_id s.rows _ refl v)
  | inr (r, e) ↦
      rw (e, upsert_one)
        (IsKeyed-update row_key s.next_id (id_is r.id) (enforced now d.limits) s.rows (λ x. refl) v)
]

-- the row that enforces a desired one
pub record Enforces (d : Desired) (rows : List BudgetRow) : Type 0 where
  pub row : BudgetRow
  pub stored : Memᴰ row rows
  pub key : row.key ≡ d.key
  pub limits : row.limits ≡ d.limits
  pub enabled : row.enabled ≡ true

upsert_one-Enforces : (now : ℕ) (d : Desired) (s : Synced) → Enforces d (upsert_one now d s).rows
unfolding upsert_one
upsert_one-Enforces now d s = elim (Option-cases (first (λ r. key_eq r.key d.key) s.rows)) [
  | inl e ↦
      rw (e, upsert_one)
        (record {
          row = record {
            id = s.next_id;
            key = d.key;
            limits = d.limits;
            enabled = true;
            updated_at = now;
          };
          stored = mem-append_last s.rows _;
          key = refl;
          limits = refl;
          enabled = refl;
        })
  | inr (r, e) ↦
      rw (e, upsert_one)
        (record {
          row = enforced now d.limits r;
          stored =
              mem-update_this r.id (enforced now d.limits) s.rows ((==_iff r.id r.id).1 refl)
                (mem-first _ s.rows e);
          key = key_eq_path r.key d.key (first_holds (λ x. key_eq x.key d.key) s.rows e);
          limits = refl;
          enabled = refl;
        })
]

-- a row of another key stays
mem-upsert_one :
    (now : ℕ) (d : Desired) (s : Synced) {r : BudgetRow}
    → IsTable s
    → key_eq r.key d.key ≡ false
    → Memᴰ r s.rows
    → Memᴰ r (upsert_one now d s).rows
unfolding upsert_one
mem-upsert_one now d s {r} v other m =
    elim (Option-cases (first (λ r. key_eq r.key d.key) s.rows)) [
      | inl e ↦ rw (e, upsert_one) (mem-append_left s.rows _ m)
      | inr (x, e) ↦
          rw (e, upsert_one)
            (mem-update_other x.id (enforced now d.limits) s.rows
              (ids_differ s.next_id s.rows x r (λ y. key_eq y.key d.key) v (mem-first _ s.rows e) m
                (first_holds (λ y. key_eq y.key d.key) s.rows e) other)
              m)
    ]

not_first :
    (d : Desired) (ds : List Desired) (k : ScopeKey)
    → wanted (d ∷ ds) k ≡ false
    → (key_eq k d.key ≡ false) × (wanted ds k ≡ false)
unfolding wanted
not_first d ds k h = ground arith

pub upsert_all-IsTable :
    (now : ℕ) (ds : List Desired) (s : Synced) → IsTable s → IsTable (upsert_all now ds s)
unfolding upsert_all
upsert_all-IsTable now [] s v = v
upsert_all-IsTable now (d ∷ ds) s v =
    upsert_all-IsTable now ds (upsert_one now d s) (upsert_one-IsTable now d s v)

mem-upsert_all :
    (now : ℕ) (ds : List Desired) (s : Synced) {r : BudgetRow}
    → IsTable s
    → wanted ds r.key ≡ false
    → Memᴰ r s.rows
    → Memᴰ r (upsert_all now ds s).rows
unfolding upsert_all
mem-upsert_all now [] s v other m = m
mem-upsert_all now (d ∷ ds) s {r} v other m =
    let (now_other, then_other) = not_first d ds r.key other in
    mem-upsert_all now ds (upsert_one now d s) (upsert_one-IsTable now d s v) then_other
      (mem-upsert_one now d s v now_other m)

-- each desired entry that no later one replaces is enforced
abbrev pub InForce : List Desired → List BudgetRow → Type 0
InForce [] rows = Unit
InForce (d ∷ ds) rows = (wanted ds d.key ≡ false → Enforces d rows) × InForce ds rows

pub upsert_all-InForce :
    (now : ℕ) (ds : List Desired) (s : Synced) → IsTable s → InForce ds (upsert_all now ds s).rows
unfolding upsert_all
upsert_all-InForce now [] s v = tt
upsert_all-InForce now (d ∷ ds) s v = (
  λ last.
      let e = upsert_one-Enforces now d s in
      record {
        row = e.row;
        stored =
            mem-upsert_all now ds (upsert_one now d s) (upsert_one-IsTable now d s v)
              (rw e.key last) e.stored;
        key = e.key;
        limits = e.limits;
        enabled = e.enabled;
      },
  upsert_all-InForce now ds (upsert_one now d s) (upsert_one-IsTable now d s v),
)
