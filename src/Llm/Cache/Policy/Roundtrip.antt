-- ===== src/Llm/Cache/Policy/Roundtrip.antt =====
-- What `cache_store` and `cache_lookup` of src/pf_core/llm/cache/__init__.py make of each other.
use mathlib.Core.Option
use pf_core.Prelude.{
  ℕ, zero, suc, ◌+◌, ◌*◌, ◌<◌, ℤ, pos, negsuc, String, Bool, true, false, Option, none, some,
  str_eq, eq_iff, ◌≡◌, refl, ap, ◌∙◌, inl, inr, arith,
}
use pf_core.Result.{Result, ok, err}
use pf_core.Llm.Names.Laws.{resolve_cases}
use pf_core.Llm.Cache.{Cache, Row, Response, has_run, expiry, is_live, lookup, store, store_entry}
use pf_core.Llm.Cache.Laws.{keep}
use pf_core.Llm.Cache.View.{Content, content_of, view, IsValid, first-upsert_entry-hit}
use pf_core.Llm.Cache.Refine.{Spec, replay_one, seen}
use pf_core.Llm.Cache.Refine.Steps.{store-Stored}
use pf_core.Llm.Cache.Refine.Runs.{reply_row, reply, Reply, lookup-view}
use pf_core.Llm.Cache.Policy.{
  AgentCacheConfig, CacheHit, cache_lookup, cache_store, truncation, is_true, hit_of, unit_of,
}

-- The agent and the model have names, and the source run exists.
abbrev pub IsStorable : Response → Cache → Type 0
IsStorable e c =
    (str_eq e.agent_type "" ≡ false)
    × (str_eq e.model "" ≡ false)
    × (has_run e.source_run_id c.runs ≡ true)

pub store_total :
    (e : Response) (c : Cache) → IsValid c → IsStorable e c → (i : ℕ) × ((store e c).0 ≡ ok i)
unfolding store store_entry
store_total e c v (ha, hm, hr) = elim (resolve_cases e.agent_type c.agents v.agents) [
  | inl (h, r) ↦ absurd (cc (h, ha))
  | inr (h, (i, n, ra, rn)) ↦ elim (resolve_cases e.model c.models v.models) [
    | inl (h', r) ↦ absurd (cc (h', hm))
    | inr (h', (j, m, rm, rn')) ↦
        let (r, f, k, l) = first-upsert_entry-hit e i j (record c { agents = n; models = m }) in
        (r.id, rw (ra, rm, hr, f) refl)
  ]
]

same_text : (s : String) → str_eq s s ≡ true
same_text s = ground (arith, eq_iff s s)

-- what is stored is read back for as long as it lives
pub lookup-store :
    (e : Response) (c : Cache) (t : ℕ)
    → IsValid c
    → IsStorable e c
    → is_live t (expiry c.now e.ttl_seconds) ≡ true
    → Option.map reply_row (lookup e.input_hash e.agent_type (record (store e c).1 { now = t }))
      ≡ some (reply (content_of e c.now))
unfolding view replay_one keep
lookup-store e c t v (ha, hm, hr) live =
    let s = store-Stored e c v in
    let w = s.valid in
    let shown = ap (λ (z : Spec). z e.input_hash e.agent_type) s.shows in
    lookup-view e.input_hash e.agent_type (record (store e c).1 { now = t })
      (record { agents = w.agents; models = w.models; keys = w.keys; rows = w.rows })
    ∙ ap (λ (o : Option Content). Option.map reply (seen t o)) shown
    ∙ rw (ha, hm, hr, same_text e.input_hash, same_text e.agent_type, keep, live) refl

abbrev pub reply_hit : CacheHit → Reply
reply_hit r = record {
  parsed_output = r.parsed_output;
  raw_response = r.raw_response;
  source_run_id = r.source_run_id;
  model = r.model;
}

reply_of_hit :
    (h : String) (o : Option Row)
    → Option.map reply_hit (Option.map (hit_of h) o) ≡ Option.map reply_row o
reply_of_hit h none = refl
reply_of_hit h (some r) = refl

unit_of-ok : (p : Result ℕ × Cache) (i : ℕ) → p.0 ≡ ok i → (unit_of p).0 ≡ ok tt
unit_of-ok (ok j, c) i h = refl
unit_of-ok (err e, c) i h = absurd (cc)

unit_of-cache : (p : Result ℕ × Cache) → (unit_of p).1 ≡ p.1
unit_of-cache (ok j, c) = refl
unit_of-cache (err e, c) = refl

-- within the time to live, which is without end unless it is a positive number of seconds
abbrev pub IsInTime : ℕ → ℕ → ℤ → Type 0
IsInTime t stored (pos zero) = Unit
IsInTime t stored (pos (suc n)) = t < stored + suc n * 1000000
IsInTime t stored (negsuc n) = Unit

in_time_live : (t stored : ℕ) (z : ℤ) → IsInTime t stored z → is_live t (expiry stored z) ≡ true
in_time_live t stored (pos zero) h = refl
in_time_live t stored (pos (suc n)) h = ground (arith, h)
in_time_live t stored (negsuc n) h = refl

-- With exact caching on for the agent and the response not known to be truncated, over valid tables in
-- which the source run exists and with an agent and a model that have names: cache_store returns, and
-- until the seconds of the policy are over, or for ever if they are not positive, cache_lookup finds the outputs, the run and the model
-- that were stored, whatever was stored under the key before.
pub cache_lookup-cache_store :
    (policy : String → AgentCacheConfig) (normalise : String → String) (e : Response)
    (usage : Option (Option String)) (truncated : Option Bool) (c : Cache) (t : ℕ)
    → IsValid c
    → IsStorable e c
    → (policy e.agent_type).exact ≡ true
    → is_true (truncation normalise truncated usage) ≡ false
    → IsInTime t c.now (policy e.agent_type).ttl_seconds
    → ((cache_store policy normalise e usage truncated c).0 ≡ ok tt)
      × (Option.map reply_hit (
            cache_lookup policy e.agent_type e.input_hash
              (record (cache_store policy normalise e usage truncated c).1 { now = t }))
          ≡ some (reply (content_of e c.now)))
unfolding cache_lookup cache_store
cache_lookup-cache_store policy normalise e usage truncated c t v s x y live =
    let e' = record e { ttl_seconds = (policy e.agent_type).ttl_seconds } in
    let (i, q) = store_total e' c v s in
    let read =
      lookup-store e' c t v s (in_time_live t c.now (policy e.agent_type).ttl_seconds live) in
    rw (x, y)
      (
        unit_of-ok (store e' c) i q,
        rw (unit_of-cache (store e' c)) (reply_of_hit e.input_hash _ ∙ read),
      )
