-- ===== src/Llm/Cache/Refine/Runs.antt =====
-- Any sequence of operations of the response cache (src/pf_core/llm/cache), read back by `lookup`.
use mathlib.Core.Option
use pf_core.Prelude.{
  ℕ, ◌≤◌, String, Bool, true, false, not, ◌&&◌, ◌||◌, Option, none, some, List, [], ◌∷◌, str_eq,
  ◌==◌, ◌≡◌, refl, sym, ap, ◌∙◌, inl, inr, arith, Bool-cases, Option-cases, leb, ltb,
}
use pf_core.Sql.{first}
use pf_core.Sql.Rows.{All-first}
use pf_core.Llm.Cache.{
  Entry, Cache, Row, is_live, is_expired, lookup, has_run, bump_hit, purge_expired, delete_entries,
}
use pf_core.Llm.Cache.Laws.{first_and, keep, keep_comm, key_is, key_is-IsSole}
use pf_core.Llm.Cache.View.{Content, view, IsNamed, IsValid}
use pf_core.Llm.Cache.Refine.{
  Spec, Op, stores, hits, drops_agent, drops_models, drops_run, purges, waits, exec, replay_one,
  seen, clock, run, replay,
}
use pf_core.Llm.Cache.Refine.Steps.{store-Stored, bump_hit-IsValid, view-bump_hit}
use pf_core.Llm.Cache.Refine.Drops.{
  by_run-Dropped, by_agent-Dropped, by_model-Dropped, purge_expired-view, purge_expired-IsValid,
}

-- two functions that answer alike from now on
abbrev pub Agree : ℕ → Spec → Spec → Type 0
Agree now s s' = (h a : String) (t : ℕ) → now ≤ t → seen t (s h a) ≡ seen t (s' h a)

past : (t y now : ℕ) → leb y now ≡ true → now ≤ t → ltb t y ≡ false
past t y now q le = ground arith

seen_live :
    (now t : ℕ) (o : Option Content)
    → now ≤ t
    → seen t (keep (λ k. not (is_expired now k.expires_at)) o) ≡ seen t o
unfolding keep
seen_live now t none le = refl
seen_live now t (some k) le = go k.expires_at refl
  where
    go :
        (x : Option ℕ)
        → k.expires_at ≡ x
        → seen t (keep (λ z. not (is_expired now z.expires_at)) (some k)) ≡ seen t (some k)
    go none e = rw (keep, e) refl
    go (some y) e = elim (Bool-cases (leb y now)) [
      | inl q ↦ rw (keep, e, q, past t y now q le) refl
      | inr q ↦ rw (keep, e, q) refl
    ]

-- An operation and its counterpart on the function.
record Stepped (o : Op) (c : Cache) : Type 0 where
  valid : IsValid (exec o c)
  runs : (exec o c).runs ≡ c.runs
  now : (exec o c).now ≡ clock o c.now
  agrees : Agree (clock o c.now) (view (exec o c)) (replay_one c.runs c.now o (view c))

Agree-eq : (now : ℕ) (s s' : Spec) → s ≡ s' → Agree now s s'
Agree-eq now s s' e h a t le = ap (λ (z : Spec). seen t (z h a)) e

exec-Stepped : (o : Op) (c : Cache) → IsValid c → Stepped o c
unfolding exec replay_one bump_hit purge_expired delete_entries view
exec-Stepped (stores e) c v =
    let s = store-Stored e c v in
    record { valid = s.valid; runs = s.runs; now = s.now; agrees = Agree-eq c.now _ _ s.shows }
exec-Stepped (hits i) c v = record {
  valid = bump_hit-IsValid i c v;
  runs = refl;
  now = refl;
  agrees = Agree-eq c.now _ _ (view-bump_hit i c);
}
exec-Stepped (drops_agent a) c v =
    let s = by_agent-Dropped a c v in
    record { valid = s.valid; runs = s.runs; now = s.now; agrees = Agree-eq c.now _ _ s.shows }
exec-Stepped (drops_models a m) c v =
    let s = by_model-Dropped a m c v in
    record { valid = s.valid; runs = s.runs; now = s.now; agrees = Agree-eq c.now _ _ s.shows }
exec-Stepped (drops_run i) c v =
    let s = by_run-Dropped i c v in
    record { valid = s.valid; runs = s.runs; now = s.now; agrees = Agree-eq c.now _ _ s.shows }
exec-Stepped purges c v = record {
  valid = purge_expired-IsValid c v;
  runs = refl;
  now = refl;
  agrees = λ h a t le. ap (seen t) (purge_expired-view c h a v) ∙ seen_live c.now t (view c h a) le;
}
exec-Stepped (waits n) c v = record {
  valid = record { agents = v.agents; models = v.models; keys = v.keys; rows = v.rows };
  runs = refl;
  now = refl;
  agrees = λ h a t le. refl;
}

now_after : List Op → ℕ → ℕ
now_after [] now = now
now_after (o ∷ os) now = now_after os (clock o now)

seen-keep :
    (p : Content → Bool) (t : ℕ) (x y : Option Content)
    → seen t x ≡ seen t y
    → seen t (keep p x) ≡ seen t (keep p y)
seen-keep p t x y e =
    keep_comm (λ k. is_live t k.expires_at) p x
    ∙ ap (keep p) e
    ∙ sym (keep_comm (λ k. is_live t k.expires_at) p y)

-- the operations on functions keep agreement
replay_one-Agree :
    (runs : List ℕ) (now : ℕ) (o : Op) (s s' : Spec)
    → Agree now s s'
    → Agree (clock o now) (replay_one runs now o s) (replay_one runs now o s')
unfolding replay_one
replay_one-Agree runs now (stores e) s s' g h a t le =
    elim (Bool-cases
      (not (str_eq e.agent_type "") && not (str_eq e.model "") && has_run e.source_run_id runs)) [
        | inr q ↦ rw q (g h a t le)
        | inl q ↦ elim (Bool-cases (str_eq e.input_hash h && str_eq e.agent_type a)) [
          | inl k ↦ rw (q, k) refl
          | inr k ↦ rw (q, k) (g h a t le)
        ]
      ]
replay_one-Agree runs now (hits i) s s' g h a t le = g h a t le
replay_one-Agree runs now (drops_agent x) s s' g h a t le = elim (Bool-cases (str_eq x "")) [
  | inl q ↦ rw q (g h a t le)
  | inr q ↦ rw q (seen-keep (λ k. not (str_eq a x && true)) t (s h a) (s' h a) (g h a t le))
]
replay_one-Agree runs now (drops_models x m) s s' g h a t le =
    elim (Bool-cases (str_eq x "" || str_eq m "")) [
      | inl q ↦ rw q (g h a t le)
      | inr q ↦ rw q (
          seen-keep (λ k. not (str_eq a x && not (str_eq k.model m))) t (s h a) (s' h a)
            (g h a t le))
    ]
replay_one-Agree runs now (drops_run i) s s' g h a t le =
    seen-keep (λ k. not (k.source_run_id == i)) t (s h a) (s' h a) (g h a t le)
replay_one-Agree runs now purges s s' g h a t le = g h a t le
replay_one-Agree runs now (waits n) s s' g h a t le = g h a t (omega (arith, le))

replay-Agree :
    (runs : List ℕ) (now : ℕ) (os : List Op) (s s' : Spec)
    → Agree now s s'
    → Agree (now_after os now) (replay runs now os s) (replay runs now os s')
unfolding replay now_after
replay-Agree runs now [] s s' g = g
replay-Agree runs now (o ∷ os) s s' g =
    replay-Agree runs (clock o now) os (replay_one runs now o s) (replay_one runs now o s')
      (replay_one-Agree runs now o s s' g)

-- after a run from valid tables the tables are valid, and read alike
record Ran (os : List Op) (c : Cache) : Type 0 where
  valid : IsValid (run os c)
  now : (run os c).now ≡ now_after os c.now
  agrees : Agree (now_after os c.now) (view (run os c)) (replay c.runs c.now os (view c))

run-Ran : (os : List Op) (c : Cache) → IsValid c → Ran os c
unfolding run replay now_after
run-Ran [] c v = record { valid = v; now = refl; agrees = λ h a t le. refl }
run-Ran (o ∷ os) c v =
    let s = exec-Stepped o c v in
    let r = run-Ran os (exec o c) s.valid in
    record {
      valid = r.valid;
      now = r.now ∙ ap (now_after os) s.now;
      agrees = λ h a t le.
          (rw (s.runs, s.now) at r.agrees) h a t le
          ∙ replay-Agree c.runs (clock o c.now) os (view (exec o c))
              (replay_one c.runs c.now o (view c)) s.agrees h a t le;
    }

-- what a caller of the cache is given
pub record Reply : Type 0 where
  pub parsed_output : Option String
  pub raw_response : Option String
  pub source_run_id : ℕ
  pub model : String

abbrev pub reply_row : Row → Reply
reply_row r = record {
  parsed_output = r.parsed_output;
  raw_response = r.raw_response;
  source_run_id = r.source_run_id;
  model = r.model;
}

abbrev pub reply : Content → Reply
reply k = record {
  parsed_output = k.parsed_output;
  raw_response = k.raw_response;
  source_run_id = k.source_run_id;
  model = k.model;
}

-- `lookup` reads the view
pub lookup-view :
    (h a : String) (c : Cache)
    → IsValid c
    → Option.map reply_row (lookup h a c) ≡ Option.map reply (seen c.now (view c h a))
unfolding lookup view keep
lookup-view h a c v =
    let q = key_is c.agents h a in
    let live = λ (r : Entry). is_live c.now r.expires_at in
    let met = first_and q live c.entries (key_is-IsSole c.agents h a c.entries v.agents v.keys) in
    elim (Option-cases (first q c.entries)) [
      | inl e ↦ rw (met, e, keep) refl
      | inr (r, e) ↦
          let w = All-first (IsNamed c.agents c.models) q c.entries v.rows e in
          elim (Bool-cases (is_live c.now r.expires_at)) [
            | inr l ↦ rw (met, e, keep, l, w.model_eq, l) refl
            | inl l ↦ rw (met, e, keep, l, w.model_eq, w.agent_eq, l) refl
          ]
    ]

-- From valid tables, after any sequence of stores, hits, invalidations, purges and waits, a lookup
-- gives what the function gives on which the same operations were replayed, hits and purges left out:
-- the last response stored for the hash and the agent unless an invalidation that applies to it came
-- later or it has expired.
pub lookup-run_refines :
    (os : List Op) (c : Cache) (h a : String)
    → IsValid c
    → Option.map reply_row (lookup h a (run os c))
      ≡ Option.map reply (seen (run os c).now (replay c.runs c.now os (view c) h a))
lookup-run_refines os c h a v =
    let r = run-Ran os c v in
    lookup-view h a (run os c) r.valid
    ∙ ap (Option.map reply) (r.agrees h a (run os c).now (omega (arith, r.now)))
