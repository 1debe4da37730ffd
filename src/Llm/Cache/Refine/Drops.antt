-- ===== src/Llm/Cache/Refine/Drops.antt =====
-- The invalidations of the response cache (src/pf_core/llm/cache/invalidate.py), one by one: the
-- tables they leave, and what the view shows after them.
use pf_core.Prelude.{
  ℕ, String, Bool, true, not, ◌&&◌, Option, none, some, str_eq, ◌==◌, ◌≡◌, refl, sym, ap, ◌∙◌, inl,
  inr, arith, fun_ext, &&_parts,
}
use pf_core.Llm.Names.{Names, name_of}
use pf_core.Llm.Names.Laws.{IsNames, resolve_cases}
use pf_core.Llm.Cache.{
  Entry, Cache, is_name, named, is_expired, by_agent, by_model, by_run, purge_expired,
  delete_entries,
}
use mathlib.Core.Option.{some-injective}
use pf_core.Llm.Cache.Laws.{keep, key_is, named_id, named_iff}
use pf_core.Llm.Cache.View.{Content, with_model, content, view, IsValid, view_grow, view-delete}
use pf_core.Llm.Cache.Refine.{Spec, Op, drops_agent, drops_models, drops_run, replay_one, dropped}
use pf_core.Llm.Cache.Refine.Steps.{grown-IsValid, deleted-IsValid}

-- What an invalidation leaves.
pub record Dropped (o : Op) (c c' : Cache) : Type 0 where
  pub valid : IsValid c'
  pub runs : c'.runs ≡ c.runs
  pub now : c'.now ≡ c.now
  pub shows : view c' ≡ replay_one c.runs c.now o (view c)

and_true : (b : Bool) → b ≡ (b && true)
and_true b = ground arith

-- the agent of a row is the one that it is found under
agent_test :
    (n : Names) (a : String) (i : ℕ) (h b : String) (r : Entry)
    → IsNames n
    → name_of i n ≡ some a
    → key_is n h b r ≡ true
    → (r.agent_type_id == i) ≡ str_eq b a
agent_test n a i h b r v e k =
    let (kh, kb) = &&_parts (str_eq r.input_hash h) (named n b r.agent_type_id) k in
    sym (named_id n a i r.agent_type_id v e) ∙ ap (is_name a) (named_iff n b r.agent_type_id kb)

content_parts :
    (r : Entry) (o : Option String) (k : Content)
    → content r o ≡ some k
    → (o ≡ some k.model) × (r.source_run_id ≡ k.source_run_id) × (r.expires_at ≡ k.expires_at)
content_parts r none k h = absurd (cc)
content_parts r (some m) k h =
    let e = some-injective (with_model r m) k h in
    (
      ap (λ (x : Content). some x.model) e,
      ap (λ (x : Content). x.source_run_id) e,
      ap (λ (x : Content). x.expires_at) e,
    )

model_test :
    (m : Names) (s : String) (j : ℕ) (r : Entry) (k : Content)
    → IsNames m
    → name_of j m ≡ some s
    → content r (name_of r.model_id m) ≡ some k
    → (r.model_id == j) ≡ str_eq k.model s
model_test m s j r k v e h =
    sym (named_id m s j r.model_id v e)
    ∙ ap (is_name s) (content_parts r (name_of r.model_id m) k h).0

pub by_run-Dropped : (i : ℕ) (c : Cache) → IsValid c → Dropped (drops_run i) c (by_run i c).1
unfolding by_run delete_entries replay_one
by_run-Dropped i c v = record {
  valid = deleted-IsValid (λ r. r.source_run_id == i) c v;
  runs = refl;
  now = refl;
  shows = fun_ext (λ h. fun_ext (λ b.
      view-delete c (λ r. r.source_run_id == i) h b (λ k. k.source_run_id == i) v
        (λ r k q e. ap (λ (x : ℕ). x == i) (content_parts r (name_of r.model_id c.models) k e).1)));
}

pub by_agent-Dropped :
    (a : String) (c : Cache) → IsValid c → Dropped (drops_agent a) c (by_agent a c).1
unfolding by_agent delete_entries replay_one
by_agent-Dropped a c v = elim (resolve_cases a c.agents v.agents) [
  | inl (ha, ra) ↦ rw ra (record { valid = v; runs = refl; now = refl; shows = rw ha refl })
  | inr (ha, (i, n, ra, rn)) ↦
      let v' = grown-IsValid c n c.models rn.valid v.models rn.keeps (λ j t h. h) v in
      let grow = view_grow c n c.models rn.keeps (λ j t h. h) v in
      rw ra (record {
        valid = deleted-IsValid (λ r. r.agent_type_id == i) (record c { agents = n }) v';
        runs = refl;
        now = refl;
        shows = rw ha (
            fun_ext (λ h. fun_ext (λ b.
              view-delete (record c { agents = n }) (λ r. r.agent_type_id == i) h b
                (λ k. str_eq b a && true) v'
                (λ r k q e. agent_test n a i h b r rn.valid rn.name q ∙ and_true (str_eq b a))
              ∙ ap (λ (s : Spec). dropped a (λ k. true) s h b) grow)));
      })
]

pub by_model-Dropped :
    (a s : String) (c : Cache) → IsValid c → Dropped (drops_models a s) c (by_model a s c).1
unfolding by_model delete_entries replay_one
by_model-Dropped a s c v = elim (resolve_cases a c.agents v.agents) [
  | inl (ha, ra) ↦ rw ra (record { valid = v; runs = refl; now = refl; shows = rw ha refl })
  | inr (ha, (i, n, ra, rn)) ↦ elim (resolve_cases s c.models v.models) [
    | inl (hm, rm) ↦
        rw (ra, rm)
          (record {
            valid = grown-IsValid c n c.models rn.valid v.models rn.keeps (λ j t h. h) v;
            runs = refl;
            now = refl;
            shows = rw (ha, hm) (view_grow c n c.models rn.keeps (λ j t h. h) v);
          })
    | inr (hm, (j, m, rm, rn')) ↦
        let c' = record c { agents = n; models = m } in
        let v' = grown-IsValid c n m rn.valid rn'.valid rn.keeps rn'.keeps v in
        let grow = view_grow c n m rn.keeps rn'.keeps v in
        let d = λ (r : Entry). r.agent_type_id == i && not (r.model_id == j) in
        rw (ra, rm)
          (record {
            valid = deleted-IsValid d c' v';
            runs = refl;
            now = refl;
            shows =
                rw (ha, hm)
                  (fun_ext (λ h. fun_ext (λ b.
                    view-delete c' d h b (λ k. str_eq b a && not (str_eq k.model s)) v'
                      (λ r k q e.
                        rw
                          (
                            agent_test n a i h b r rn.valid rn.name q,
                            model_test m s j r k rn'.valid rn'.name e,
                          )
                          refl)
                    ∙ ap (λ (z : Spec). dropped a (λ k. not (str_eq k.model s)) z h b) grow)));
          })
  ]
]

-- what a purge deletes no reader is given any more
pub purge_expired-view :
    (c : Cache) (h b : String)
    → IsValid c
    → view (purge_expired c).1 h b ≡ keep (λ k. not (is_expired c.now k.expires_at)) (view c h b)
unfolding purge_expired delete_entries
purge_expired-view c h b v =
    view-delete c (λ r. is_expired c.now r.expires_at) h b (λ k. is_expired c.now k.expires_at) v
      (λ r k q e. ap (is_expired c.now) (content_parts r (name_of r.model_id c.models) k e).2)

pub purge_expired-IsValid : (c : Cache) → IsValid c → IsValid (purge_expired c).1
unfolding purge_expired delete_entries
purge_expired-IsValid c v = deleted-IsValid (λ r. is_expired c.now r.expires_at) c v
