-- ===== src/Llm/Cache/Refine.antt =====
-- The response cache (src/pf_core/llm/cache/exact.py, invalidate.py) against its specification: a
-- function from a hash and an agent to a content, whose answers end when the content expires.
pub mod Steps
pub mod Drops
pub mod Runs
use mathlib.Core.Option
use pf_core.Prelude.{
  ℕ, ◌+◌, ◌≤◌, String, Bool, true, false, not, ◌&&◌, ◌||◌, Option, none, some, List, [], ◌∷◌,
  str_eq, eq_iff, ◌==◌, ◌≡◌, refl, sym, ap, ◌∙◌, ◌⊎◌, inl, inr, arith, All, Bool-cases,
  Option-cases, if◌then◌else◌, fun_ext, leb, ltb,
}
use pf_core.Result.{ok, err, value_error}
use pf_core.Sql.{first, update, delete}
use pf_core.Sql.Rows.{All-update, All-select, All-delete, first-update, first_holds, All-first}
use pf_core.Sql.Sorted.{IsSorted}
use pf_core.Sql.Keys.{IsSorted-append, IsSorted-select, IsSorted-update}
use pf_core.Llm.Names.{Names, resolve, name_of}
use pf_core.Llm.Names.Laws.{IsNames, Keeps, Resolved, resolve_cases, name_of_injective}
use pf_core.Llm.Cache.{
  Entry, Cache, Response, Row, is_live, is_expired, has_run, lookup, store, bump_hit, by_agent,
  by_model, by_run, purge_expired, upsert_entry, store_entry,
}
use pf_core.Llm.Cache.Laws.{keep, keep_comm, other_key}
use pf_core.Llm.Cache.View.{
  Content, content_of, content, view, IsNamed, IsValid, view_grow, view-delete, view-upsert_entry,
}

abbrev pub Spec : Type 0
Spec = String → String → Option Content

-- The operations of the cache; time passes in between.
pub data Op : Type 0 where
  stores : Response → Op
  hits : ℕ → Op
  drops_agent : String → Op
  drops_models : String → String → Op
  drops_run : ℕ → Op
  purges : Op
  waits : ℕ → Op

unfoldable pub exec : Op → Cache → Cache
unfolding store bump_hit by_agent by_model by_run purge_expired
exec (stores e) c = (store e c).1
exec (hits i) c = bump_hit i c
exec (drops_agent a) c = (by_agent a c).1
exec (drops_models a m) c = (by_model a m c).1
exec (drops_run i) c = (by_run i c).1
exec purges c = (purge_expired c).1
exec (waits n) c = record c { now = c.now + n }

abbrev pub stored : Response → ℕ → Spec → Spec
stored e now s h a =
    if str_eq e.input_hash h && str_eq e.agent_type a then some (content_of e now) else s h a

abbrev pub dropped : String → (Content → Bool) → Spec → Spec
dropped a test s h b = keep (λ k. not (str_eq b a && test k)) (s h b)

-- the same operations on the function; a hit and a purge do nothing
unfoldable pub replay_one : List ℕ → ℕ → Op → Spec → Spec
unfolding keep
replay_one runs now (stores e) s =
    if not (str_eq e.agent_type "") && not (str_eq e.model "") && has_run e.source_run_id runs
    then stored e now s
    else s
replay_one runs now (hits i) s = s
replay_one runs now (drops_agent a) s = if str_eq a "" then s else dropped a (λ k. true) s
replay_one runs now (drops_models a m) s =
    if str_eq a "" || str_eq m "" then s else dropped a (λ k. not (str_eq k.model m)) s
replay_one runs now (drops_run i) s = λ h b. keep (λ k. not (k.source_run_id == i)) (s h b)
replay_one runs now purges s = s
replay_one runs now (waits n) s = s

abbrev pub clock : Op → ℕ → ℕ
clock (waits n) now = now + n
clock _ now = now

unfoldable pub run : List Op → Cache → Cache
unfolding exec
run [] c = c
run (o ∷ os) c = run os (exec o c)

unfoldable pub replay : List ℕ → ℕ → List Op → Spec → Spec
unfolding replay_one
replay runs now [] s = s
replay runs now (o ∷ os) s = replay runs (clock o now) os (replay_one runs now o s)

-- what a reader may still be given at a time
abbrev pub seen : ℕ → Option Content → Option Content
seen t o = keep (λ k. is_live t k.expires_at) o
