-- ===== src/Llm/Prompts/Cited.antt =====
-- What resolve_prompt_id of src/pf_core/llm/tracking/_resolvers.py keeps for the runs that cite a prompt.
use mathlib.Core.Option
use mathlib.Core.Option.{some-injective}
use mathlib.Core.List.{Memᴰ}
use pf_core.Prelude.{
  ℕ, ◌+◌, ◌<◌, String, Bool, true, false, Option, none, some, List, [], ◌∷◌, str_eq, eq_iff, ◌==◌,
  elem, if◌then◌else◌, ◌≡◌, refl, ap, ◌∙◌, subst, inl, inr, arith, All, Bool-cases, Option-cases,
}
use pf_core.Result.{Result, ok}
use pf_core.Result.Rules.{ok_injective}
use pf_core.Sql.{first}
use pf_core.Sql.Rows.{first-append, first-update, first_holds, mem-first, first_found}
use pf_core.Sql.Keys.{IsKeyed, key_unique}
use pf_core.Llm.Prompts.{
  PromptRow, Prompts, of_part, key_is, max_version, inserted, insert_prompt, is_cited, edited,
  on_conflict, ok_id, policies, resolve_prompt_id,
}

abbrev id_is : ℕ → PromptRow → Bool
id_is i r = r.id == i

-- the text behind an id
unfoldable pub text_of : ℕ → Prompts → Option String
unfolding first
text_of i p = Option.map (λ r. r.content) (first (id_is i) p.rows)

abbrev pub IsTable : Prompts → Type 0
IsTable p = IsKeyed (λ r. r.id) p.next p.rows

-- an insertion keeps every text
inserted_keeps :
    (agent : ℕ) (part : String) (version : ℕ) (content : String) (p : Prompts) (i : ℕ) {t : String}
    → text_of i p ≡ some t
    → text_of i (inserted agent part version content p) ≡ some t
unfolding text_of
inserted_keeps agent part version content p i h = elim (Option-cases (first (id_is i) p.rows)) [
  | inl e ↦ absurd (cc (rw e at h))
  | inr (r, e) ↦ rw (first-append (id_is i) p.rows _, e) (rw e at h)
]

first-below : (n : ℕ) (xs : List PromptRow) → All (λ r. r.id < n) xs → first (id_is n) xs ≡ none
unfolding first
first-below n [] h = refl
first-below n (x ∷ xs) h = ground (arith, h.0, first-below n xs h.1)

-- the new row is read back, with its text
insert_prompt-text :
    (agent : ℕ) (part : String) (version : ℕ) (content : String) (p : Prompts)
    → IsTable p
    → first (key_is agent part version) p.rows ≡ none
    → ((insert_prompt agent part version content p).0 ≡ some p.next)
      × (text_of p.next (insert_prompt agent part version content p).1 ≡ some content)
unfolding insert_prompt text_of
insert_prompt-text agent part version content p v e = (
  rw (first-append (key_is agent part version) p.rows _, e) (ground (arith, eq_iff part part)),
  rw (first-append (id_is p.next) p.rows _, first-below p.next p.rows v.1) (ground arith),
)

same_text : (s t : String) → str_eq s t ≡ true → s ≡ t
same_text s t e = ground (arith, eq_iff s t)

-- an edit of one row
edited-text :
    (i : ℕ) (content : String) (p : Prompts) (j : ℕ) {t : String}
    → text_of j p ≡ some t
    → text_of j (edited i content p) ≡ some (if j == i then content else t)
unfolding text_of
edited-text i content p j {t} h = elim (Option-cases (first (id_is j) p.rows)) [
  | inl e ↦ absurd (cc (rw e at h))
  | inr (r, e) ↦
      let seen =
        first-update (id_is j) (id_is i) (λ r. record r { content = content }) p.rows (λ r. refl) in
      let same = same_id r.id j (first_holds (id_is j) p.rows e) in
      let text = some-injective r.content t (rw e at h) in
      elim (Bool-cases (j == i)) [
        | inl q ↦ rw (seen, e, ap (λ (k : ℕ). k == i) same, q) refl
        | inr q ↦ rw (seen, e, ap (λ (k : ℕ). k == i) same, q) (ap some text)
      ]
]
  where
    same_id : (a b : ℕ) → (a == b) ≡ true → a ≡ b
    same_id a b h = ground arith

-- the row behind its id
text_of_row :
    (p : Prompts) (r : PromptRow) → IsTable p → Memᴰ r p.rows → text_of r.id p ≡ some r.content
unfolding text_of
text_of_row p r v m =
    let (y, e) = first_found (id_is r.id) p.rows m (ground arith) in
    let same =
      key_unique (λ r. r.id) p.rows v.0 (mem-first (id_is r.id) p.rows e) m
        (ground (arith, first_holds (id_is r.id) p.rows e)) in
    rw e (ap (λ (z : PromptRow). some z.content) same)

-- no row has a version above the highest
first-above :
    (agent : ℕ) (part : String) (v : ℕ) (xs : List PromptRow)
    → max_version agent part xs < v
    → first (key_is agent part v) xs ≡ none
unfolding first max_version
first-above agent part v [] h = refl
first-above agent part v (x ∷ xs) h = elim (Bool-cases (of_part agent part x)) [
  | inl e ↦ ground (arith, e, rw e at h, first-above agent part v xs)
  | inr e ↦ ground (arith, e, rw e at h, first-above agent part v xs)
]

-- What the resolver leaves: what runs cite is as it was, and, unless the first text is to be kept, the id
-- that is returned stands for the text that was asked for.
pub record IsResolved (on_change content : String) (p : Prompts) (o : Result (Option ℕ))
    (p' : Prompts) : Type 0 where
  pub cites :
      (j : ℕ) (t : String)
      → is_cited j p.cited ≡ true
      → text_of j p ≡ some t
      → text_of j p' ≡ some t
  pub stands :
      str_eq on_change "keep_first" ≡ false
      → (i : ℕ) → o ≡ ok (some i)
      → text_of i p' ≡ some content

IsResolved-at :
    (on_change content : String) (p : Prompts) (i : ℕ) (p' : Prompts)
    → ((j : ℕ) (t : String)
        → is_cited j p.cited ≡ true
        → text_of j p ≡ some t
        → text_of j p' ≡ some t)
    → text_of i p' ≡ some content
    → IsResolved on_change content p (ok (some i)) p'
IsResolved-at on_change content p i p' keeps h = record {
  cites = keeps;
  stands = λ k j e.
      subst (λ (n : ℕ). text_of n p' ≡ some content)
        (some-injective i j (ok_injective (some i) (some j) e)) h;
}

-- the outcome where an id is returned unless the policy refuses
abbrev Outcome : String → String → Prompts → Result (Option ℕ) × Prompts → Type 0
Outcome on_change content p x =
    IsResolved on_change content p x.0 x.1
    × (str_eq on_change "error" ≡ false → (i : ℕ) × (x.0 ≡ ok (some i)))

insert_prompt-Outcome :
    (on_change content : String) (agent : ℕ) (part : String) (version : ℕ) (p : Prompts)
    → IsTable p
    → first (key_is agent part version) p.rows ≡ none
    → Outcome on_change content p (ok_id (insert_prompt agent part version content p))
unfolding insert_prompt
insert_prompt-Outcome on_change content agent part version p v e =
    let (i, t) = insert_prompt-text agent part version content p v e in
    rw i (
      IsResolved-at on_change content p p.next (inserted agent part version content p)
          (λ j t c h. inserted_keeps agent part version content p j h) t,
      λ k. (p.next, refl),
    )

on_conflict-Outcome :
    (on_change content : String) (r : PromptRow) (p : Prompts)
    → IsTable p
    → Memᴰ r p.rows
    → Outcome on_change content p (on_conflict on_change r content p)
unfolding on_conflict
on_conflict-Outcome on_change content r p v m = elim (Bool-cases (str_eq on_change "keep_first")) [
  | inl k ↦
      rw k (record { cites = λ j t c h. h; stands = λ k'. absurd (cc (k, k')) }, λ e. (r.id, refl))
  | inr k ↦ elim (Bool-cases (str_eq on_change "error")) [
    | inl q ↦
        rw (k, q)
          (record { cites = λ j t c h. h; stands = λ k' i e. absurd (cc) }, λ e. absurd (cc (q, e)))
    | inr q ↦ elim (Bool-cases (is_cited r.id p.cited)) [
      | inl c ↦
          let version = max_version r.agent_type_id r.part p.rows + 1 in
          let w =
            insert_prompt-Outcome on_change content r.agent_type_id r.part version p v
              (first-above r.agent_type_id r.part version p.rows (omega arith)) in
          rw (k, q, c) (w.0, λ e. w.1 q)
      | inr c ↦
          rw (k, q, c)
            (
              IsResolved-at on_change content p r.id (edited r.id content p)
                  (λ j t d h.
                    edited-text r.id content p j h ∙ ap some (other j r.id content t p.cited d c))
                  (edited-text r.id content p r.id (text_of_row p r v m)
                    ∙ ap some (self r.id content r.content)),
              λ e. (r.id, refl),
            )
    ]
  ]
]
  where
    self : (i : ℕ) (s t : String) → (if i == i then s else t) ≡ s
    self i s t = ground arith

    eq_id : (a b : ℕ) → (a == b) ≡ true → a ≡ b
    eq_id a b h = ground arith

    other :
        (j i : ℕ) (s t : String) (js : List ℕ)
        → is_cited j js ≡ true
        → is_cited i js ≡ false
        → (if j == i then s else t) ≡ t
    other j i s t js d c = elim (Bool-cases (j == i)) [
      | inr e ↦ rw e refl
      | inl e ↦ absurd (cc (ap (λ (n : ℕ). is_cited n js) (eq_id j i e), d, c))
    ]

-- For a text that is not empty and a known policy, over rows whose ids are unique: the text that any
-- cited prompt has is never changed; unless the policy keeps the first text, the returned id stands for
-- the text that was asked for; and only the policy `error` can refuse.
pub resolve_prompt_id-IsResolved :
    (agent : ℕ) (part : String) (version : ℕ) (content on_change : String) (p : Prompts)
    → IsTable p
    → str_eq content "" ≡ false
    → elem on_change policies ≡ true
    → IsResolved on_change content p
        (resolve_prompt_id agent part (some version) content on_change p).0
        (resolve_prompt_id agent part (some version) content on_change p).1
      × (str_eq on_change "error" ≡ false
          → (i : ℕ) × ((resolve_prompt_id agent part (some version) content on_change p).0
              ≡ ok (some i)))
unfolding resolve_prompt_id
resolve_prompt_id-IsResolved agent part version content on_change p v full known =
    elim (Option-cases (first (key_is agent part version) p.rows)) [
      | inl e ↦
          rw (full, known, e) (insert_prompt-Outcome on_change content agent part version p v e)
      | inr (r, e) ↦
          let m = mem-first (key_is agent part version) p.rows e in
          elim (Bool-cases (str_eq r.content content)) [
            | inr d ↦ rw (full, known, e, d) (on_conflict-Outcome on_change content r p v m)
            | inl d ↦
                rw (full, known, e, d)
                  (
                    IsResolved-at on_change content p r.id p (λ j t c h. h)
                        (text_of_row p r v m ∙ ap some (same_text r.content content d)),
                    λ k. (r.id, refl),
                  )
          ]
    ]
