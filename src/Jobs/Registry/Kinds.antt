-- ===== src/Jobs/Registry/Kinds.antt =====
-- `register_kind` of src/pf_core/jobs/registry.py: the registry before and after.
use pf_core.Prelude.{
  ◌≡◌, ◌≢◌, inl, inr, refl, sym, subst, String, Bool, true, false, not, ◌&&◌, Option, none, some,
  List, [], ◌∷◌, arith, str_eq, eq_iff, elem, in_range, Bool-cases, &&_parts,
}
use pf_core.Result.{ok, configuration_error, fetch}
use pf_core.Result.Rules.{Returns, Returns-ok, Returns-err, Returns-if, Returns-bind, require-eq-ok}
use pf_core.Dict.{Dict, lookup, put, lookup-put}
use pf_core.Jobs.Registry.{
  JobKind, KindSpec, Registry, targets, can_transition, all_known, resolve_transitions,
  resolved_states, resolved_dict, same_or_new, kind_eq, descriptor_of, register_kind, get_kind,
}

-- the table moves between declared states only
abbrev pub IsDeclared : List String → Dict (List String) → Type 0
IsDeclared states d =
    (from to : String)
    → elem to (targets (lookup from d)) ≡ true
    → (elem from states ≡ true) × (elem to states ≡ true)

elem-all_known :
    (states ss : List String) (s : String)
    → all_known states ss ≡ true
    → elem s ss ≡ true
    → elem s states ≡ true
unfolding all_known
elem-all_known states [] s h m = absurd (cc)
elem-all_known states (t ∷ ts) s h m =
    let p = &&_parts (elem t states) (all_known states ts) h in
    elim (Bool-cases (str_eq s t)) [
      | inl e ↦ subst (λ z. elem z states ≡ true) (sym ((eq_iff s t).0 e)) p.0
      | inr e ↦ elem-all_known states ts s p.1 (rw e at m)
    ]

put-IsDeclared :
    (states : List String) (from : String) (to : List String) (d : Dict (List String))
    → elem from states ≡ true
    → all_known states to ≡ true
    → IsDeclared states d
    → IsDeclared states (put from to d)
put-IsDeclared states from to d hf ht v f t m = elim (Bool-cases (str_eq from f)) [
  | inl e ↦ (
    subst (λ z. elem z states ≡ true) ((eq_iff from f).0 e) hf,
    elem-all_known states to t ht (rw (lookup-put from f to d, e) at m),
  )
  | inr e ↦ v f t (rw (lookup-put from f to d, e) at m)
]

resolve_transitions-IsDeclared :
    (states : List String) (items acc : Dict (List String))
    → IsDeclared states acc
    → Returns (IsDeclared states) (resolve_transitions states items acc)
unfolding resolve_transitions
resolve_transitions-IsDeclared states [] acc v = Returns-ok acc v
resolve_transitions-IsDeclared states ((from, to) ∷ items) acc v =
    Returns-if (elem from states && all_known states to) _ _
      (λ h.
        let p = &&_parts (elem from states) (all_known states to) h in
        resolve_transitions-IsDeclared states items (put from to acc)
          (put-IsDeclared states from to acc p.0 p.1 v))
      (λ h. Returns-err configuration_error)

-- the registry before and after a registration
pub record Registered (a : KindSpec) (reg : Registry) (d : JobKind) (reg' : Registry) : Type 0 where
  pub found : get_kind reg' a.kind ≡ ok d
  pub named : str_eq a.kind "" ≡ false
  pub declared :
      (from to : String)
      → can_transition d from to ≡ true
      → (elem from d.states ≡ true) × (elem to d.states ≡ true)
  pub priority : in_range 100 d.default_priority ≡ true
  pub same : (e : JobKind) → get_kind reg a.kind ≡ ok e → kind_eq e d ≡ true
  pub others : (k : String) → a.kind ≢ k → get_kind reg' k ≡ get_kind reg k

differ : (a b : String) → a ≢ b → str_eq a b ≡ false
differ a b ne = elim (Bool-cases (str_eq a b)) [
  | inl e ↦ absurd (ne ((eq_iff a b).0 e))
  | inr e ↦ e
]

same_before :
    (o : Option JobKind) (d e : JobKind)
    → same_or_new o d ≡ true
    → fetch o configuration_error ≡ ok e
    → kind_eq e d ≡ true
unfolding same_or_new
same_before none d e h q = absurd (cc)
same_before (some x) d e h q = cc

register_kind-Returns :
    (a : KindSpec) (reg : Registry)
    → Returns (λ (p : JobKind × Registry). Registered a reg p.0 p.1) (register_kind a reg)
unfolding register_kind descriptor_of get_kind can_transition
register_kind-Returns a reg = Returns-bind _ _ λ _ named. Returns-bind _ _ λ ts resolved.
    Returns-bind _ _ λ _ ranged. Returns-bind _ _ λ _ agreed. Returns-ok _ (record {
      found =
          rw (lookup-put a.kind a.kind (descriptor_of a ts) reg, (eq_iff a.kind a.kind).1 refl)
            refl;
      named = not_true _ (require-eq-ok _ configuration_error named);
      declared =
          (resolve_transitions-IsDeclared (resolved_states a.states) (resolved_dict a.transitions)
              [] (λ f t m. absurd (cc m))).at
            ts resolved;
      priority = require-eq-ok _ configuration_error ranged;
      same = λ e q.
          same_before (lookup a.kind reg) (descriptor_of a ts) e
            (require-eq-ok _ configuration_error agreed) q;
      others = λ k ne. rw (lookup-put a.kind k (descriptor_of a ts) reg, differ a.kind k ne) refl;
    })
  where
    not_true : (b : Bool) → not b ≡ true → b ≡ false
    not_true b h = ground arith

-- A registration that returns: the kind has a name and is found under it, its moves are between its
-- declared states, its default priority is from 0 to 100, an earlier registration of the name was equal
-- to it, and every other kind is as before.
pub register_kind-Registered :
    (a : KindSpec) (reg : Registry) (d : JobKind) (reg' : Registry)
    → register_kind a reg ≡ ok (d, reg')
    → Registered a reg d reg'
register_kind-Registered a reg d reg' h = (register_kind-Returns a reg).at (d, reg') h
