-- ===== src/Budget/Sync/Caps.antt =====
-- `sync_from_desired` of src/pf_core/budget/repo.py: its second loop, and the whole sync.
use mathlib.Core.List.{Memᴰ}
use pf_core.Prelude.{
  ℕ, ◌≡◌, ◌⊎◌, inl, inr, refl, ap, String, true, false, not, Option, none, some, List, [], ◌∷◌,
  eq_iff, arith, All, All-of_mem, All-mem, Bool-cases, if◌then◌else◌,
}
use pf_core.Sql.{select}
use pf_core.Sql.Rows.{mem-select, All-of_select, All-updated}
use pf_core.Sql.Keys.{IsKeyed}
use pf_core.Budget.Sync.{
  ScopeKey, Desired, BudgetRow, Synced, value_eq, key_eq, id_is, upsert_all, wanted, switched_off,
  disable_each, disable_unwanted, sync_from_desired,
}
use pf_core.Budget.Sync.Upserts.{
  row_key, IsTable, ids_differ, mem-update_other, Enforces, InForce, upsert_all-IsTable,
  upsert_all-InForce,
}

module _ (now : ℕ) (desired : List Desired) where
  -- a row of a desired key is not switched off
  mem-disable_each :
      (n : ℕ) (base todo : List BudgetRow) (s : Synced) {r : BudgetRow}
      → IsKeyed row_key n base
      → All (λ x. Memᴰ x base) todo
      → Memᴰ r base
      → wanted desired r.key ≡ true
      → Memᴰ r s.rows
      → Memᴰ r (disable_each now desired todo s).rows
  unfolding disable_each
  mem-disable_each n base [] s v from mb w m = m
  mem-disable_each n base (x ∷ xs) s {r} v from mb w m = elim (Bool-cases (wanted desired x.key)) [
    | inl e ↦ rw (e, disable_each) (mem-disable_each n base xs s v from.1 mb w m)
    | inr e ↦
        rw (e, disable_each)
          (mem-disable_each n base xs _ v from.1 mb w (
            mem-update_other x.id (switched_off now) s.rows
              (ids_differ n base x r (λ y. not (wanted desired y.key)) v from.0 mb (rw e refl)
                (rw w refl))
              m))
  ]

  -- what is enabled without being desired is still to come
  abbrev Pending : List BudgetRow → BudgetRow → Type 0
  Pending todo x = x.enabled ≡ true → wanted desired x.key ≡ false → Memᴰ x todo

  Pending-after :
      (x : BudgetRow) (xs : List BudgetRow) (y : BudgetRow)
      → Pending (x ∷ xs) y
      → Pending xs (if id_is x.id y then switched_off now y else y)
  Pending-after x xs y h = elim (Bool-cases (id_is x.id y)) [
    | inl e ↦ rw e (λ on off. absurd (cc on))
    | inr e ↦ rw e (λ on off. later e (h on off))
  ]
    where
      later : id_is x.id y ≡ false → Memᴰ y (x ∷ xs) → Memᴰ y xs
      later e (Memᴰ.head q) = absurd (ground (arith, ap row_key q))
      later e (Memᴰ.tail m) = m

  Pending-skip :
      (x : BudgetRow) (xs : List BudgetRow) (y : BudgetRow)
      → wanted desired x.key ≡ true
      → Pending (x ∷ xs) y
      → Pending xs y
  Pending-skip x xs y w h on off = elim (h on off) [
    | Memᴰ.head q ↦ absurd (cc (ap (λ (z : BudgetRow). wanted desired z.key) q, w, off))
    | Memᴰ.tail m ↦ m
  ]

  disable_each_done :
      (todo : List BudgetRow) (s : Synced)
      → All (Pending todo) s.rows
      → All (Pending []) (disable_each now desired todo s).rows
  unfolding disable_each
  disable_each_done [] s h = h
  disable_each_done (x ∷ xs) s h = elim (Bool-cases (wanted desired x.key)) [
    | inl e ↦
        rw (e, disable_each)
          (disable_each_done xs s (
            All-of_mem _ s.rows
              (λ y m. Pending-skip x xs y e (All-mem (Pending (x ∷ xs)) s.rows h m))))
    | inr e ↦
        rw (e, disable_each)
          (disable_each_done xs _ (
            All-updated (Pending xs) (id_is x.id) (switched_off now) s.rows (
              All-of_mem _ s.rows
                (λ y m. Pending-after x xs y (All-mem (Pending (x ∷ xs)) s.rows h m)))))
  ]

value_eq_self : (a : Option String) → value_eq a a ≡ true
value_eq_self none = refl
value_eq_self (some a) = (eq_iff a a).1 refl

key_eq_self : (a : ScopeKey) → key_eq a a ≡ true
unfolding key_eq
key_eq_self a =
    rw ((eq_iff a.scope_kind a.scope_kind).1 refl, value_eq_self a.scope_value)
      ((eq_iff a.period a.period).1 refl)

mem-wanted : (ds : List Desired) (d : Desired) → Memᴰ d ds → wanted ds d.key ≡ true
unfolding wanted
mem-wanted [] d m = elim m [ ]
mem-wanted (x ∷ xs) d (Memᴰ.head e) =
    ground (arith, key_eq_self d.key, ap (λ (z : Desired). key_eq d.key z.key) e)
mem-wanted (x ∷ xs) d (Memᴰ.tail m) = ground (arith, mem-wanted xs d m)

-- the state before the loops
abbrev start : List BudgetRow → ℕ → Synced
start rows n = record { rows = rows; next_id = n; inserted = 0; updated = 0; disabled = 0 }

module _ (now : ℕ) (desired : List Desired) (t : Synced) (v : IsTable t) where
  abbrev swept : Synced
  swept = disable_each now desired (select (λ r. r.enabled) t.rows) t

  selected_mem : All (λ x. Memᴰ x t.rows) (select (λ r. r.enabled) t.rows)
  selected_mem = All-of_mem _ _ λ x m.
      (All-mem (λ y. Memᴰ y t.rows × (y.enabled ≡ true)) _
        (All-of_select (λ (r : BudgetRow). r.enabled) t.rows) m).0

  swept-Enforces :
      (d : Desired) → wanted desired d.key ≡ true → Enforces d t.rows → Enforces d swept.rows
  swept-Enforces d w e = record {
    row = e.row;
    stored =
        mem-disable_each now desired t.next_id t.rows _ t v selected_mem e.stored (rw e.key w)
          e.stored;
    key = e.key;
    limits = e.limits;
    enabled = e.enabled;
  }

  swept-InForce :
      (ds : List Desired)
      → All (λ d. wanted desired d.key ≡ true) ds
      → InForce ds t.rows
      → InForce ds swept.rows
  swept-InForce [] w h = tt
  swept-InForce (d ∷ ds) w h = (λ last. swept-Enforces d w.0 (h.0 last), swept-InForce ds w.1 h.1)

  swept_wanted : All (λ r. r.enabled ≡ true → wanted desired r.key ≡ true) swept.rows
  swept_wanted = All-of_mem _ swept.rows λ x m on. elim (Bool-cases (wanted desired x.key)) [
    | inl w ↦ w
    | inr w ↦ elim (none_left x m on w) [ ]
  ]
    where
      none_left :
          (x : BudgetRow)
          → Memᴰ x swept.rows
          → x.enabled ≡ true
          → wanted desired x.key ≡ false
          → Memᴰ x []
      none_left x m =
          All-mem (Pending now desired []) swept.rows
            (disable_each_done now desired (select (λ r. r.enabled) t.rows) t
              (All-of_mem _ t.rows (λ y my on off. mem-select (λ r. r.enabled) t.rows my on)))
            m

-- A sync from a table with ascending ids: each desired entry that no later entry of the same key
-- replaces has an enabled row with its limits; and either nothing was desired, and the table is as
-- before, or every row that is still enabled has a desired key.
pub sync_from_desired-InForce :
    (now : ℕ) (desired : List Desired) (rows : List BudgetRow) (n : ℕ)
    → IsKeyed row_key n rows
    → let after = (sync_from_desired now desired rows n).rows in
      InForce desired after
      × ((desired ≡ []) × (after ≡ rows)
          ⊎ All (λ r. r.enabled ≡ true → wanted desired r.key ≡ true) after)
unfolding sync_from_desired disable_unwanted
sync_from_desired-InForce now [] rows n v = (tt, inl (refl, unfold upsert_all in refl))
sync_from_desired-InForce now (d ∷ ds) rows n v =
    let t = upsert_all now (d ∷ ds) (start rows n) in
    let w = upsert_all-IsTable now (d ∷ ds) (start rows n) v in
    (
      swept-InForce now (d ∷ ds) t w (d ∷ ds)
          (All-of_mem _ (d ∷ ds) (λ e m. mem-wanted (d ∷ ds) e m))
          (upsert_all-InForce now (d ∷ ds) (start rows n) v),
      inr (swept_wanted now (d ∷ ds) t w),
    )
