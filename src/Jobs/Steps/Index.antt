-- ===== src/Jobs/Steps/Index.antt =====
-- `find_step` and `start_step` of src/pf_core/jobs/_repo_steps.py: step indices.
use mathlib.Core.List.{Memᴰ}
use pf_core.Prelude.{
  ℕ, ◌≤◌, ◌<◌, ◌≡◌, ◌∙◌, ◌⊎◌, refl, sym, subst, ap, String, Bool, true, false, ◌&&◌, Option, none,
  some, List, [], ◌∷◌, ◌++◌, arith, str_eq, eq_iff, ◌==◌, ==_iff, leb, Option-cases, &&_parts, inl,
  inr,
}
use pf_core.Result.{ok}
use pf_core.Result.Rules.{Returns, Returns-bind, Returns-ok}
use pf_core.Sql.Rows.{All-first, All-of_select, mem-select}
use pf_core.Sql.Sorted.{first-order_by_least, first-order_by-none, All-order_by}
use pf_core.Jobs.Schema.{StepRow, Db}
use pf_core.Jobs.Steps.{find_step, next_index, start_step}

abbrev named : ℕ → String → StepRow → Bool
named i name r = r.job_id == i && str_eq r.name name

abbrev later_first : StepRow → StepRow → Bool
later_first y x = leb x.step_index y.step_index

later_first_total : (x y : StepRow) → later_first x y ≡ false → later_first y x ≡ true
later_first_total x y h = ground arith

later_first_trans :
    (x y z : StepRow) → later_first x y ≡ true → later_first y z ≡ true → later_first x z ≡ true
later_first_trans x y z h k = ground arith

-- the steps that a search by name considers
abbrev pub IsNamed : ℕ → String → Db → StepRow → Type 0
IsNamed i name db r = Memᴰ r db.steps × (r.job_id ≡ i) × (r.name ≡ name)

named_iff :
    (i : ℕ) (name : String) (r : StepRow) → named i name r ≡ true → (r.job_id ≡ i) × (r.name ≡ name)
named_iff i name r h =
    let p = &&_parts (r.job_id == i) (str_eq r.name name) h in
    ((==_iff r.job_id i).0 p.0, (eq_iff r.name name).0 p.1)

named_of :
    (i : ℕ) (name : String) (r : StepRow) → r.job_id ≡ i → r.name ≡ name → named i name r ≡ true
named_of i name r h k = ground (arith, (==_iff r.job_id i).1 h, (eq_iff r.name name).1 k)

-- `find_step` returns a step of that job and name such that none of them has a higher index, and
-- nothing only if there is none.
pub find_step-latest :
    (i : ℕ) (name : String) (db : Db)
    → (find_step i name db ≡ none) × ((x : StepRow) → ¬ IsNamed i name db x)
      ⊎ ((r : StepRow) × (find_step i name db ≡ some r)
          × IsNamed i name db r
          × ((x : StepRow) → IsNamed i name db x → x.step_index ≤ r.step_index))
unfolding find_step
find_step-latest i name db = elim (Option-cases (find_step i name db)) [
  | inl e ↦ inl (
    e,
    λ x n.
        first-order_by-none later_first _ e
          (mem-select (named i name) db.steps n.0 (named_of i name x n.1 n.2)),
  )
  | inr (r, e) ↦
      let found : Memᴰ r db.steps × (named i name r ≡ true) =
        All-first (λ x. Memᴰ x db.steps × (named i name x ≡ true)) (λ x. true) _
          (All-order_by _ later_first _ (All-of_select (named i name) db.steps)) e in
      inr (
        r,
        e,
        (found.0, (named_iff i name r found.1).0, (named_iff i name r found.1).1),
        λ x n. below r x (
            first-order_by_least later_first later_first_total later_first_trans _ e
              (mem-select (named i name) db.steps n.0 (named_of i name x n.1 n.2))),
      )
]
  where
    below : (r x : StepRow) → later_first r x ≡ true → x.step_index ≤ r.step_index
    below r x h = ground arith

next_index-above :
    (i : ℕ) (xs : List StepRow) (x : StepRow)
    → Memᴰ x xs
    → x.job_id ≡ i
    → x.step_index < next_index i xs
unfolding next_index
next_index-above i [] x m e = elim m [ ]
next_index-above i (y ∷ ys) x (Memᴰ.head q) e =
    ground (arith, ap (λ z. z.step_index) q, ap (λ z. z.job_id) q)
next_index-above i (y ∷ ys) x (Memᴰ.tail m) e = ground (arith, next_index-above i ys x m e)

mem-snoc :
    (xs : List StepRow) (y : StepRow) {x : StepRow} → Memᴰ x (xs ++ y ∷ []) → Memᴰ x xs ⊎ (x ≡ y)
mem-snoc [] y (Memᴰ.head e) = inr e
mem-snoc [] y (Memᴰ.tail m) = elim m [ ]
mem-snoc (z ∷ zs) y (Memᴰ.head e) = inl (Memᴰ.head e)
mem-snoc (z ∷ zs) y (Memᴰ.tail m) = elim (mem-snoc zs y m) [
  | inl n ↦ inl (Memᴰ.tail n)
  | inr e ↦ inr e
]

mem-last : (xs : List StepRow) (y : StepRow) → Memᴰ y (xs ++ y ∷ [])
mem-last [] y = Memᴰ.head refl
mem-last (x ∷ xs) y = Memᴰ.tail (mem-last xs y)

-- a step with the next index is the one found by its name
pub find_step_newest :
    (i : ℕ) (name : String) (db : Db) (old : List StepRow) (row : StepRow)
    → db.steps ≡ old ++ row ∷ []
    → row.job_id ≡ i
    → row.name ≡ name
    → row.step_index ≡ next_index i old
    → find_step i name db ≡ some row
find_step_newest i name db old row steps job nm index = elim (find_step-latest i name db) [
  | inl (e, nowhere) ↦ absurd (nowhere row (there, job, nm))
  | inr (r, e, n, top) ↦ elim (mem-snoc old row (subst (λ l. Memᴰ r l) steps n.0)) [
    | inl m ↦
        absurd (omega (arith, top row (there, job, nm), index, next_index-above i old r m n.1))
    | inr q ↦ e ∙ ap (λ z. some z) q
  ]
]
  where
    there : Memᴰ row db.steps
    there = subst (λ l. Memᴰ row l) (sym steps) (mem-last old row)

-- the database before and after a step is started
pub record Started (i : ℕ) (name : String) (db : Db) (s : ℕ) (db' : Db) : Type 0 where
  pub row : StepRow
  pub steps : db'.steps ≡ db.steps ++ row ∷ []
  pub id : (row.id ≡ s) × (s ≡ db.next_step)
  pub job : row.job_id ≡ i
  pub named : row.name ≡ name
  pub index : row.step_index ≡ next_index i db.steps
  pub running : row.status ≡ "running"
  pub fresh_index : (x : StepRow) → Memᴰ x db.steps → x.job_id ≡ i → x.step_index < row.step_index
  pub found : find_step i name db' ≡ some row
  pub events : db'.events ≡ db.events

start_step_starts :
    (i : ℕ) (name : String) (inputs : Option String) (db : Db)
    → Returns (λ (p : ℕ × Db). Started i name db p.0 p.1) (start_step i name inputs db)
unfolding start_step
start_step_starts i name inputs db = Returns-bind _ _ λ job _. Returns-ok _ (record {
  row = record {
    id = db.next_step;
    job_id = i;
    step_index = next_index i db.steps;
    name = name;
    status = "running";
    inputs = inputs;
    outputs = none;
    error = none;
    started_at = db.now;
    finished_at = none;
    duration_ms = none;
  };
  steps = refl;
  id = (refl, refl);
  job = refl;
  named = refl;
  index = refl;
  running = refl;
  fresh_index = λ x m e. next_index-above i db.steps x m e;
  found = find_step_newest i name _ db.steps _ refl refl refl refl;
  events = refl;
})

-- A `start_step` that returns adds one running step of that name at the end of the table, its index
-- above those of the job's other steps; it is then what `find_step` finds, and the events stay.
pub start_step-Started :
    (i : ℕ) (name : String) (inputs : Option String) (db : Db) (s : ℕ) (db' : Db)
    → start_step i name inputs db ≡ ok (s, db')
    → Started i name db s db'
start_step-Started i name inputs db s db' h = (start_step_starts i name inputs db).at (s, db') h
