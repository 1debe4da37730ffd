-- ===== src/Llm/Cache/Refine/Steps.antt =====
-- The operations of the response cache (src/pf_core/llm/cache/exact.py, invalidate.py), one by one:
-- the tables they leave, and what the view shows after them.
use pf_core.Prelude.{
  ℕ, ◌+◌, Bool, true, false, not, none, some, List, [], ◌∷◌, str_eq, ◌==◌, ◌≡◌, refl, ap, ◌∙◌, inl,
  inr, arith, All, Bool-cases, Option-cases, if◌then◌else◌, fun_ext,
}
use pf_core.Sql.{first, update, delete}
use pf_core.Sql.Rows.{All-update, All-select, first-update}
use pf_core.Sql.Sorted.{IsSorted}
use pf_core.Sql.Keys.{IsSorted-append, IsSorted-select, IsSorted-update}
use pf_core.Prelude.{All-append}
use pf_core.Llm.Names.{Names, name_of}
use pf_core.Llm.Names.Laws.{IsNames, Keeps, Resolved, resolve_cases}
use pf_core.Llm.Cache.{
  Entry, Cache, Response, has_run, store, bump_hit, upsert_entry, upsert_rows, store_entry,
  same_key, new_entry, refreshed,
}
use pf_core.Llm.Cache.Laws.{other_key, key_is}
use pf_core.Llm.Cache.Refine.{Spec, stores, replay_one, stored}
use pf_core.Llm.Cache.View.{
  content, view, IsNamed, IsValid, view_grow, view-upsert_entry, All-IsNamed-grow,
}

-- growth of the reference tables
pub grown-IsValid :
    (c : Cache) (n m : Names)
    → IsNames n
    → IsNames m
    → Keeps c.agents n
    → Keeps c.models m
    → IsValid c
    → IsValid (record c { agents = n; models = m })
grown-IsValid c n m vn vm k l v = record {
  agents = vn;
  models = vm;
  keys = v.keys;
  rows = All-IsNamed-grow c.agents c.models n m c.entries k l v.rows;
}

pub deleted-IsValid :
    (d : Entry → Bool) (c : Cache) → IsValid c → IsValid (record c { entries = delete d c.entries })
unfolding delete
deleted-IsValid d c v = record {
  agents = v.agents;
  models = v.models;
  keys = IsSorted-select other_key (λ x. not (d x)) c.entries v.keys;
  rows = All-select (IsNamed c.agents c.models) (λ x. not (d x)) c.entries v.rows;
}

-- an update that keeps the key and names a known model
updated-rows :
    (p : Entry → Bool) (f : Entry → Entry) (c : Cache)
    → ((x : Entry) → (f x).input_hash ≡ x.input_hash)
    → ((x : Entry) → (f x).agent_type_id ≡ x.agent_type_id)
    → ((x : Entry) → IsNamed c.agents c.models x → IsNamed c.agents c.models (f x))
    → IsValid c
    → IsSorted other_key (update p f c.entries)
      × All (IsNamed c.agents c.models) (update p f c.entries)
updated-rows p f c hs ids names v = (
  IsSorted-update other_key p f c.entries (λ x y. rw (hs x, ids x) refl)
      (λ x y. rw (hs y, ids y) refl) v.keys,
  All-update (IsNamed c.agents c.models) p f c.entries (λ x e h. names x h) v.rows,
)

pub bump_hit-IsValid : (i : ℕ) (c : Cache) → IsValid c → IsValid (bump_hit i c)
unfolding bump_hit
bump_hit-IsValid i c v =
    let u =
      updated-rows (λ r. r.id == i)
        (λ r. record r { hit_count = r.hit_count + 1; last_hit_at = some c.now }) c (λ x. refl)
        (λ x. refl)
        (λ x h. record {
          agent = h.agent;
          agent_eq = h.agent_eq;
          model = h.model;
          model_eq = h.model_eq;
        })
        v in
    record { agents = v.agents; models = v.models; keys = u.0; rows = u.1 }

All-other_key :
    (e : Response) (i j : ℕ) (c : Cache) (xs : List Entry)
    → first (same_key e.input_hash i) xs ≡ none
    → All (λ x. other_key x (new_entry e i j c) ≡ true) xs
unfolding first
All-other_key e i j c [] h = tt
All-other_key e i j c (x ∷ xs) h = elim (Bool-cases (same_key e.input_hash i x)) [
  | inl q ↦ absurd (ground (arith, q, h))
  | inr q ↦ (rw q refl, All-other_key e i j c xs (rw q at h))
]

pub upsert_entry-IsValid :
    (e : Response) (i j : ℕ) (c : Cache)
    → name_of i c.agents ≡ some e.agent_type
    → name_of j c.models ≡ some e.model
    → IsValid c
    → IsValid (upsert_entry e i j c)
unfolding upsert_entry upsert_rows
upsert_entry-IsValid e i j c ni nj v =
    elim (Option-cases (first (same_key e.input_hash i) c.entries)) [
      | inl q ↦ record {
        agents = v.agents;
        models = v.models;
        keys =
            rw (q, upsert_rows)
              (IsSorted-append other_key c.entries (new_entry e i j c) v.keys
                (All-other_key e i j c c.entries q));
        rows =
            rw (q, upsert_rows)
              (All-append (IsNamed c.agents c.models) c.entries (new_entry e i j c ∷ []) v.rows (
                record { agent = e.agent_type; agent_eq = ni; model = e.model; model_eq = nj },
                tt,
              ));
      }
      | inr (r, q) ↦
          let u =
            updated-rows (same_key e.input_hash i) (refreshed e j c.now) c (λ x. refl) (λ x. refl)
              (λ x h. record {
                agent = h.agent;
                agent_eq = h.agent_eq;
                model = e.model;
                model_eq = nj;
              })
              v in
          record {
            agents = v.agents;
            models = v.models;
            keys = rw (q, upsert_rows) u.0;
            rows = rw (q, upsert_rows) u.1;
          }
    ]

bumped : ℕ → ℕ → Entry → Entry
bumped i now r =
    if r.id == i then (record r { hit_count = r.hit_count + 1; last_hit_at = some now }) else r

content-bumped :
    (i now : ℕ) (c : Cache) (r : Entry)
    → content (bumped i now r) (name_of (bumped i now r).model_id c.models)
      ≡ content r (name_of r.model_id c.models)
unfolding bumped
content-bumped i now c r = elim (Bool-cases (r.id == i)) [
  | inl e ↦ elim (Option-cases (name_of r.model_id c.models)) [
    | inl n ↦ rw (e, n) refl
    | inr (m, n) ↦ rw (e, n) refl
  ]
  | inr e ↦ rw e refl
]

-- a hit is not seen
pub view-bump_hit : (i : ℕ) (c : Cache) → view (bump_hit i c) ≡ view c
unfolding view bump_hit bumped
view-bump_hit i c = fun_ext (λ h. fun_ext (λ a.
    let seen =
      first-update (key_is c.agents h a) (λ r. r.id == i)
        (λ r. record r { hit_count = r.hit_count + 1; last_hit_at = some c.now }) c.entries
        (λ r. refl) in
    elim (Option-cases (first (key_is c.agents h a) c.entries)) [
      | inl e ↦ rw (seen, e) refl
      | inr (r, e) ↦ rw (seen, e) (content-bumped i c.now c r)
    ]))

-- What a store leaves: it is refused before the upsert, with the response's names known or not, or
-- the upsert is done over tables that know them.
pub record Stored (e : Response) (c c' : Cache) : Type 0 where
  pub valid : IsValid c'
  pub runs : c'.runs ≡ c.runs
  pub now : c'.now ≡ c.now
  pub shows : view c' ≡ replay_one c.runs c.now (stores e) (view c)

store_entry-Stored :
    (e : Response) (n m : Names) (i j : ℕ) (c : Cache)
    → Resolved e.agent_type c.agents i n
    → Resolved e.model c.models j m
    → str_eq e.agent_type "" ≡ false
    → str_eq e.model "" ≡ false
    → IsValid c
    → Stored e c (store_entry e i j (record c { agents = n; models = m })).1
unfolding store_entry upsert_entry replay_one
store_entry-Stored e n m i j c rn rm ha hm v =
    let v' = grown-IsValid c n m rn.valid rm.valid rn.keeps rm.keeps v in
    let c' = record c { agents = n; models = m } in
    let grow = view_grow c n m rn.keeps rm.keeps v in
    elim (Bool-cases (has_run e.source_run_id c.runs)) [
      | inr q ↦ record {
        valid = rw q v';
        runs = rw q refl;
        now = rw q refl;
        shows = rw (q, ha, hm) grow;
      }
      | inl q ↦ record {
        valid = rw q (upsert_entry-IsValid e i j c' rn.name rm.name v');
        runs = rw q refl;
        now = rw q refl;
        shows =
            rw (q, ha, hm)
              (fun_ext (λ h. fun_ext (λ a.
                view-upsert_entry e i j c' h a v' rn.name rm.name
                ∙ ap (λ (s : Spec). stored e c.now s h a) grow)));
      }
    ]

pub store-Stored : (e : Response) (c : Cache) → IsValid c → Stored e c (store e c).1
unfolding store replay_one
store-Stored e c v = elim (resolve_cases e.agent_type c.agents v.agents) [
  | inl (ha, ra) ↦ rw ra (record { valid = v; runs = refl; now = refl; shows = rw ha refl })
  | inr (ha, (i, n, ra, rn)) ↦ elim (resolve_cases e.model c.models v.models) [
    | inl (hm, rm) ↦
        rw (ra, rm)
          (record {
            valid = grown-IsValid c n c.models rn.valid v.models rn.keeps (λ j t h. h) v;
            runs = refl;
            now = refl;
            shows = rw (ha, hm) (view_grow c n c.models rn.keeps (λ j t h. h) v);
          })
    | inr (hm, (j, m, rm, rn')) ↦ rw (ra, rm) (store_entry-Stored e n m i j c rn rn' ha hm v)
  ]
]
