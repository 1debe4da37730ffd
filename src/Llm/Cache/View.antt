-- ===== src/Llm/Cache/View.antt =====
-- The abstract view of the response cache (src/pf_core/llm/cache/exact.py): what is stored for a hash
-- and an agent, without ids, counters and ages; and how an upsert or a deletion changes it.
use pf_core.Prelude.{
  ℕ, String, Bool, true, false, not, ◌&&◌, Option, none, some, List, [], ◌∷◌, str_eq, eq_iff, ◌==◌,
  ◌≡◌, refl, sym, ap, ◌∙◌, inl, inr, arith, All, Bool-cases, Option-cases, if◌then◌else◌, fun_ext,
  &&_parts,
}
use pf_core.Sql.{first, delete}
use pf_core.Sql.Rows.{first_holds, first-update, first-append, All-first}
use pf_core.Sql.Sorted.{IsSorted}
use pf_core.Llm.Names.{Names, name_of}
use pf_core.Llm.Names.Laws.{IsNames, Keeps}
use pf_core.Llm.Cache.{
  Entry, Cache, Response, is_name, named, same_key, new_entry, refreshed, upsert_rows, upsert_entry,
  expiry,
}
use pf_core.Llm.Cache.Laws.{
  keep, first_cong, first-delete, key_is, key_is-IsSole, other_key, named_id,
}

pub record Content : Type 0 where
  pub parsed_output : Option String
  pub raw_response : Option String
  pub source_run_id : ℕ
  pub model : String
  pub expires_at : Option ℕ

abbrev pub content_of : Response → ℕ → Content
content_of e now = record {
  parsed_output = e.parsed_output;
  raw_response = e.raw_response;
  source_run_id = e.source_run_id;
  model = e.model;
  expires_at = expiry now e.ttl_seconds;
}

abbrev pub with_model : Entry → String → Content
with_model r model = record {
  parsed_output = r.parsed_output;
  raw_response = r.raw_response;
  source_run_id = r.source_run_id;
  model = model;
  expires_at = r.expires_at;
}

abbrev pub content : Entry → Option String → Option Content
content r none = none
content r (some model) = some (with_model r model)

abbrev pub content? : Names → Option Entry → Option Content
content? models none = none
content? models (some r) = content r (name_of r.model_id models)

-- what is stored for a hash and an agent, live or not
unfoldable pub view : Cache → String → String → Option Content
unfolding first
view c h a = content? c.models (first (key_is c.agents h a) c.entries)

-- the names behind the foreign keys of a row
pub record IsNamed (agents models : Names) (r : Entry) : Type 0 where
  pub agent : String
  pub agent_eq : name_of r.agent_type_id agents ≡ some agent
  pub model : String
  pub model_eq : name_of r.model_id models ≡ some model

pub record IsValid (c : Cache) : Type 0 where
  pub agents : IsNames c.agents
  pub models : IsNames c.models
  pub keys : IsSorted other_key c.entries
  pub rows : All (IsNamed c.agents c.models) c.entries

pub All-IsNamed-grow :
    (n m n' m' : Names) (xs : List Entry)
    → Keeps n n'
    → Keeps m m'
    → All (IsNamed n m) xs
    → All (IsNamed n' m') xs
All-IsNamed-grow n m n' m' [] k l h = tt
All-IsNamed-grow n m n' m' (x ∷ xs) k l h = (
  record {
    agent = h.0.agent;
    agent_eq = k x.agent_type_id h.0.agent h.0.agent_eq;
    model = h.0.model;
    model_eq = l x.model_id h.0.model h.0.model_eq;
  },
  All-IsNamed-grow n m n' m' xs k l h.1,
)

key_is_grow :
    (n m n' : Names) (h a : String) (xs : List Entry)
    → Keeps n n'
    → All (IsNamed n m) xs
    → All (λ x. key_is n' h a x ≡ key_is n h a x) xs
key_is_grow n m n' h a [] k s = tt
key_is_grow n m n' h a (x ∷ xs) k s = (
  rw (s.0.agent_eq, k x.agent_type_id s.0.agent s.0.agent_eq) refl,
  key_is_grow n m n' h a xs k s.1,
)

-- new names leave what is stored alone
pub view_grow :
    (c : Cache) (n' m' : Names)
    → Keeps c.agents n'
    → Keeps c.models m'
    → IsValid c
    → view (record c { agents = n'; models = m' }) ≡ view c
unfolding view
view_grow c n' m' k l v = fun_ext (λ h. fun_ext (λ a.
    let same =
      first_cong (key_is n' h a) (key_is c.agents h a) c.entries
        (key_is_grow c.agents c.models n' h a c.entries k v.rows) in
    elim (Option-cases (first (key_is c.agents h a) c.entries)) [
      | inl e ↦ rw (same, e) refl
      | inr (r, e) ↦
          let w = All-first (IsNamed c.agents c.models) (key_is c.agents h a) c.entries v.rows e in
          rw (same, e, w.model_eq, l r.model_id w.model w.model_eq) refl
    ]))

-- a deletion whose test can be read off the contents
pub view-delete :
    (c : Cache) (d : Entry → Bool) (h a : String) (test : Content → Bool)
    → IsValid c
    → ((r : Entry) (k : Content)
        → key_is c.agents h a r ≡ true
        → content r (name_of r.model_id c.models) ≡ some k
        → d r ≡ test k)
    → view (record c { entries = delete d c.entries }) h a ≡ keep (λ k. not (test k)) (view c h a)
unfolding view keep
view-delete c d h a test v agree =
    let gone =
      first-delete (key_is c.agents h a) d c.entries
        (key_is-IsSole c.agents h a c.entries v.agents v.keys) in
    elim (Option-cases (first (key_is c.agents h a) c.entries)) [
      | inl e ↦ rw (gone, e) refl
      | inr (r, e) ↦
          let w = All-first (IsNamed c.agents c.models) (key_is c.agents h a) c.entries v.rows e in
          let t =
            agree r (with_model r w.model) (first_holds (key_is c.agents h a) c.entries e)
              (ap (content r) w.model_eq) in
          elim (Bool-cases (d r)) [
            | inl q ↦ rw (gone, e, keep, q, w.model_eq, sym t, q) refl
            | inr q ↦ rw (gone, e, keep, q, w.model_eq, sym t, q) refl
          ]
    ]

other_false : (a b : Bool) → (a && b) ≡ false → a ≡ true → b ≡ false
other_false true b h e = h
other_false false b h e = absurd (cc)

-- a lookup of another key meets the row it met before
first-upsert_entry-away :
    (q : Entry → Bool) (e : Response) (i j : ℕ) (c : Cache)
    → ((r : Entry) → (q r && same_key e.input_hash i r) ≡ false)
    → ((r : Entry) → q (refreshed e j c.now r) ≡ q r)
    → q (new_entry e i j c) ≡ false
    → first q (upsert_entry e i j c).entries ≡ first q c.entries
unfolding upsert_entry upsert_rows first
first-upsert_entry-away q e i j c off same new =
    elim (Option-cases (first (same_key e.input_hash i) c.entries)) [
      | inl n ↦ elim (Option-cases (first q c.entries)) [
        | inl m ↦
            rw (upsert_rows, n, first-append q c.entries (new_entry e i j c ∷ []), m, new) refl
        | inr (r, m) ↦
            rw (upsert_rows, n, first-append q c.entries (new_entry e i j c ∷ []), m) refl
      ]
      | inr (x, n) ↦
          let seen =
            first-update q (same_key e.input_hash i) (refreshed e j c.now) c.entries same in
          elim (Option-cases (first q c.entries)) [
            | inl m ↦ rw (upsert_rows, n, seen, m) refl
            | inr (r, m) ↦
                let t =
                  other_false (q r) (same_key e.input_hash i r) (off r)
                    (first_holds q c.entries m) in
                rw (upsert_rows, n, seen, m, t) refl
          ]
    ]

-- the lookup of the key meets the response
pub first-upsert_entry-hit :
    (e : Response) (i j : ℕ) (c : Cache)
    → (r : Entry) × (first (same_key e.input_hash i) (upsert_entry e i j c).entries ≡ some r)
      × (with_model r e.model ≡ content_of e c.now)
      × (r.model_id ≡ j)
unfolding upsert_entry upsert_rows first
first-upsert_entry-hit e i j c = elim (Option-cases (first (same_key e.input_hash i) c.entries)) [
  | inl n ↦ (
    new_entry e i j c,
    rw
        (
          upsert_rows,
          n,
          first-append (same_key e.input_hash i) c.entries (new_entry e i j c ∷ []),
          n,
        )
        (ground (arith, eq_iff e.input_hash e.input_hash)),
    refl,
    refl,
  )
  | inr (x, n) ↦ (
    refreshed e j c.now x,
    rw
        (
          upsert_rows,
          n,
          first-update (same_key e.input_hash i) (same_key e.input_hash i) (refreshed e j c.now)
              c.entries (λ r. refl),
          n,
          first_holds (same_key e.input_hash i) c.entries n,
        )
        refl,
    refl,
    refl,
  )
]

eq_id : (i j : ℕ) → (i == j) ≡ true → i ≡ j
eq_id i j h = ground arith

key_is_off :
    (e : Response) (i : ℕ) (c : Cache) (h a : String)
    → name_of i c.agents ≡ some e.agent_type
    → (str_eq e.input_hash h && str_eq e.agent_type a) ≡ false
    → (r : Entry) → (key_is c.agents h a r && same_key e.input_hash i r) ≡ false
key_is_off e i c h a ni q r = elim (Bool-cases (r.agent_type_id == i)) [
  | inr t ↦ ground (arith, t)
  | inl t ↦
      let agent =
        ap (λ (k : ℕ). named c.agents a k) (eq_id r.agent_type_id i t) ∙ ap (is_name a) ni in
      ground (arith, agent, q, eq_iff r.input_hash e.input_hash)
]

key_is_on :
    (e : Response) (i : ℕ) (c : Cache) (h a : String)
    → IsValid c
    → name_of i c.agents ≡ some e.agent_type
    → (str_eq e.input_hash h && str_eq e.agent_type a) ≡ true
    → (r : Entry) → key_is c.agents h a r ≡ same_key e.input_hash i r
key_is_on e i c h a v ni q r =
    let (qh, qa) = &&_parts (str_eq e.input_hash h) (str_eq e.agent_type a) q in
    let agent =
      named_id c.agents a i r.agent_type_id v.agents
        (ni ∙ ap some (ground (arith, eq_iff e.agent_type a, qa))) in
    ground (arith, agent, qh, eq_iff e.input_hash h, eq_iff r.input_hash e.input_hash)

-- The upsert, seen through the view: the key of the response holds it, all else is as before.
pub view-upsert_entry :
    (e : Response) (i j : ℕ) (c : Cache) (h a : String)
    → IsValid c
    → name_of i c.agents ≡ some e.agent_type
    → name_of j c.models ≡ some e.model
    → view (upsert_entry e i j c) h a ≡ (
        if str_eq e.input_hash h && str_eq e.agent_type a
        then some (content_of e c.now)
        else view c h a)
unfolding view upsert_entry
view-upsert_entry e i j c h a v ni nj =
    elim (Bool-cases (str_eq e.input_hash h && str_eq e.agent_type a)) [
      | inr q ↦
          let away =
            first-upsert_entry-away (key_is c.agents h a) e i j c (key_is_off e i c h a ni q)
              (λ r. refl) (rw ni q) in
          rw (q, away) refl
      | inl q ↦
          let (r, f, k, m) = first-upsert_entry-hit e i j c in
          let same = fun_ext (λ (x : Entry). key_is_on e i c h a v ni q x) in
          rw (q, same, f, m, nj, k) refl
    ]
