-- ===== src/Pipeline/Baseline/Pairs.antt =====
-- The pairs that _detect_renames of src/pf_core/pipeline/baseline_diff.py makes.
use mathlib.Core.List.{Memᴰ}
use mathlib.Core.Option.{some-injective}
use pf_core.Prelude.{
  ℕ, ◌≤◌, String, Bool, sym, true, false, not, ◌&&◌, ◌||◌, Option, none, some, List, [], ◌∷◌, ◌++◌,
  map, str_eq, eq_iff, leb, leb→le, elem, All, All-append, All-of_mem, ◌≡◌, refl, ap, ◌∙◌, ◌⊎◌, inl,
  inr, arith, Bool-cases, Option-cases, &&_parts, subst,
}
use pf_core.Sql.{select, first}
use pf_core.Sql.Rows.{first_holds, mem-first}
use pf_core.Sql.Sorted.{IsSorted, All-order_by}
use pf_core.Pipeline.Baseline.Ordering.{
  IsDistinct, elem-order_by, order_by-IsDistinct, renamed-IsSorted,
}
use pf_core.Pipeline.Baseline.{
  old_path_le, no_pairs, Files, Pairing, SectionRename, SectionSetDelta, levenshtein, paired,
  same_body, pass_hash, is_near, is_better, best, pass_near, detect_renames, section_delta,
}

same_text : (s t : String) → str_eq s t ≡ true → s ≡ t
same_text s t e = ground (arith, eq_iff s t)

elem-append : (x : String) (xs ys : List String) → elem x (xs ++ ys) ≡ (elem x xs || elem x ys)
elem-append x [] ys = refl
elem-append x (z ∷ zs) ys = ground (arith, elem-append x zs ys)

append-IsDistinct :
    (xs : List String) (z : String) → IsDistinct xs → elem z xs ≡ false → IsDistinct (xs ++ z ∷ [])
append-IsDistinct [] z d h = (refl, tt)
append-IsDistinct (x ∷ xs) z d h = (
  ground (arith, elem-append x xs (z ∷ []), d.0, h, eq_iff x z, eq_iff z x),
  append-IsDistinct xs z d.1 (ground (arith, h)),
)

module _ (f : Files) (added removed : List String) where
  -- why a pair was made
  pub record IsRename (r : SectionRename) : Type 0 where
    pub old : Memᴰ r.old_path removed
    pub new : Memᴰ r.new_path added
    pub reason :
        (f.baseline_hash r.old_path ≡ f.current_hash r.new_path)
        ⊎ ((f.parent r.new_path ≡ f.parent r.old_path)
            × (levenshtein (f.name r.old_path) (f.name r.new_path) ≤ 4)
            × (800 ≤ f.similarity r.old_path r.new_path))

  record IsPairing (p : Pairing) : Type 0 where
    removed_eq : p.removed_paired ≡ map (λ r. r.old_path) p.renames
    added_eq : p.added_paired ≡ map (λ r. r.new_path) p.renames
    removed_distinct : IsDistinct p.removed_paired
    added_distinct : IsDistinct p.added_paired
    reasons : All IsRename p.renames

  map-append :
      (g : SectionRename → String) (rs : List SectionRename) (r : SectionRename)
      → map g rs ++ g r ∷ [] ≡ map g (rs ++ r ∷ [])
  map-append g [] r = refl
  map-append g (x ∷ rs) r = ap (λ (ys : List String). g x ∷ ys) (map-append g rs r)

  paired-IsPairing :
      (old new : String) (s : ℕ) (p : Pairing)
      → IsPairing p
      → elem old p.removed_paired ≡ false
      → elem new p.added_paired ≡ false
      → IsRename (record { old_path = old; new_path = new; similarity = s })
      → IsPairing (paired old new s p)
  paired-IsPairing old new s p v eo en r = record {
    removed_eq =
        ap (λ (xs : List String). xs ++ old ∷ []) v.removed_eq
        ∙ map-append (λ r. r.old_path) p.renames
            (record { old_path = old; new_path = new; similarity = s });
    added_eq =
        ap (λ (xs : List String). xs ++ new ∷ []) v.added_eq
        ∙ map-append (λ r. r.new_path) p.renames
            (record { old_path = old; new_path = new; similarity = s });
    removed_distinct = append-IsDistinct p.removed_paired old v.removed_distinct eo;
    added_distinct = append-IsDistinct p.added_paired new v.added_distinct en;
    reasons =
        All-append IsRename p.renames
          (record { old_path = old; new_path = new; similarity = s } ∷ []) v.reasons (r, tt);
  }

  unpaired :
      (old : String) (ps rs : List String)
      → elem old rs ≡ false
      → All (λ r. Memᴰ r removed × (elem r ps ≡ false)) rs
      → All (λ r. Memᴰ r removed × (elem r (ps ++ old ∷ []) ≡ false)) rs
  unpaired old ps [] e h = tt
  unpaired old ps (r ∷ rs) e h = (
    (h.0.0, ground (arith, elem-append r ps (old ∷ []), h.0.1, e, eq_iff old r, eq_iff r old)),
    unpaired old ps rs (ground (arith, e)) h.1,
  )

  -- pass 1 over removed paths that are not paired yet
  pass_hash-IsPairing :
      (rs : List String) (p : Pairing)
      → IsDistinct rs
      → All (λ r. Memᴰ r removed × (elem r p.removed_paired ≡ false)) rs
      → IsPairing p
      → IsPairing (pass_hash f added rs p)
  unfolding pass_hash
  pass_hash-IsPairing [] p d h v = v
  pass_hash-IsPairing (old ∷ rs) p d h v = elim (Option-cases (first (same_body f old p) added)) [
    | inl e ↦ rw e (pass_hash-IsPairing rs p d.1 h.1 v)
    | inr (new, e) ↦
        let (en, eh) =
          &&_parts (not (elem new p.added_paired))
            (str_eq (f.baseline_hash old) (f.current_hash new))
            (first_holds (same_body f old p) added e) in
        rw e (
          pass_hash-IsPairing rs (paired old new 1000 p) d.1
            (unpaired old p.removed_paired rs d.0 h.1)
            (paired-IsPairing old new 1000 p v h.0.1 (ground (arith, en)) (record {
              old = h.0.0;
              new = mem-first (same_body f old p) added e;
              reason = inl (same_text (f.baseline_hash old) (f.current_hash new) eh);
            })))
  ]

  -- what pass 2 finds is near
  record IsCandidate (old : String) (p : Pairing) (c : String × ℕ) : Type 0 where
    there : Memᴰ c.0 added
    near : is_near f old p c.0 ≡ true

  best-IsCandidate :
      (old : String) (p : Pairing) (news : List String) (acc : Option (String × ℕ)) {c : String × ℕ}
      → ((n : String) → Memᴰ n news → Memᴰ n added)
      → ((a : String × ℕ) → acc ≡ some a → IsCandidate old p a)
      → best f old p news acc ≡ some c
      → IsCandidate old p c
  unfolding best
  best-IsCandidate old p [] acc {c} sub h e = h c e
  best-IsCandidate old p (n ∷ news) acc {c} sub h e =
      elim (Bool-cases (is_near f old p n && is_better (f.similarity old n) acc)) [
        | inr q ↦ best-IsCandidate old p news acc (λ m t. sub m (Memᴰ.tail t)) h (rw q at e)
        | inl q ↦
            best-IsCandidate old p news (some (n, f.similarity old n)) (λ m t. sub m (Memᴰ.tail t))
              (λ a g.
                subst (IsCandidate old p) (some-injective (n, f.similarity old n) a g) (record {
                  there = sub n (Memᴰ.head refl);
                  near = (&&_parts (is_near f old p n) (is_better (f.similarity old n) acc) q).0;
                }))
              (rw q at e)
      ]

  near-IsRename :
      (old new : String) (s : ℕ) (p : Pairing)
      → Memᴰ old removed
      → IsCandidate old p (new, s)
      → IsRename (record { old_path = old; new_path = new; similarity = s })
        × (elem new p.added_paired ≡ false)
  near-IsRename old new s p m c =
      let near = leb (levenshtein (f.name old) (f.name new)) 4 in
      let similar = leb 800 (f.similarity old new) in
      let free = not (elem new p.added_paired) in
      let folder = str_eq (f.parent new) (f.parent old) in
      let (a, d) = &&_parts (free && folder && near) similar c.near in
      let (b, e) = &&_parts (free && folder) near a in
      let (g, h) = &&_parts free folder b in
      (
        record {
          old = m;
          new = c.there;
          reason = inr (
            same_text (f.parent new) (f.parent old) h,
            leb→le (levenshtein (f.name old) (f.name new)) 4 e,
            leb→le 800 (f.similarity old new) d,
          );
        },
        ground (arith, g),
      )

  pass_near-IsPairing :
      (rs : List String) (p : Pairing)
      → All (λ r. Memᴰ r removed) rs
      → IsPairing p
      → IsPairing (pass_near f added rs p)
  unfolding pass_near
  pass_near-IsPairing [] p h v = v
  pass_near-IsPairing (old ∷ rs) p h v = elim (Bool-cases (elem old p.removed_paired)) [
    | inl q ↦ rw q (pass_near-IsPairing rs p h.1 v)
    | inr q ↦ elim (Option-cases (best f old p added none)) [
      | inl e ↦ rw (q, e) (pass_near-IsPairing rs p h.1 v)
      | inr ((new, s), e) ↦
          let c = best-IsCandidate old p added none (λ n t. t) (λ a g. absurd (cc)) e in
          let (r, n) = near-IsRename old new s p h.0 c in
          rw (q, e)
            (pass_near-IsPairing rs (paired old new s p) h.1 (paired-IsPairing old new s p v q n r))
    ]
  ]

elem-select :
    (x : String) (ps xs : List String)
    → elem x (select (λ y. not (elem y ps)) xs) ≡ (elem x xs && not (elem x ps))
unfolding select
elem-select x ps [] = refl
elem-select x ps (y ∷ ys) = elim (Bool-cases (str_eq x y)) [
  | inl e ↦
      let same = ap (λ (s : String). elem s ps) (same_text x y e) in
      ground (arith, e, same, elem-select x ps ys)
  | inr e ↦ ground (arith, e, elem-select x ps ys)
]

-- The section sets of a diff.
pub record IsDelta (f : Files) (added removed : List String) (d : SectionSetDelta) : Type 0 where
  pub old_once : IsDistinct (map (λ r. r.old_path) d.renamed)
  pub new_once : IsDistinct (map (λ r. r.new_path) d.renamed)
  pub reasons : All (IsRename f added removed) d.renamed
  pub sorted : IsSorted old_path_le d.renamed
  pub removed_rest :
      (x : String)
      → elem x d.removed ≡ (elem x removed && not (elem x (map (λ r. r.old_path) d.renamed)))
  pub added_rest :
      (x : String)
      → elem x d.added ≡ (elem x added && not (elem x (map (λ r. r.new_path) d.renamed)))

-- Where no removed path is listed twice, the renames of a diff use each removed and each added path at
-- most once, each with equal bodies or, in one folder, with names at distance at most 4 and similar
-- bodies, and are sorted by the old path; and the paths that are in no rename, and only these, stay
-- removed and added.
pub section_delta-IsDelta :
    (f : Files) (added removed : List String)
    → IsDistinct removed
    → IsDelta f added removed (section_delta f added removed)
unfolding section_delta detect_renames
section_delta-IsDelta f added removed d =
    let v =
      pass_near-IsPairing f added removed removed (pass_hash f added removed no_pairs)
        (All-of_mem (λ r. Memᴰ r removed) removed (λ r m. m))
        (pass_hash-IsPairing f added removed removed no_pairs d
          (All-of_mem (λ r. Memᴰ r removed × (elem r [] ≡ false)) removed (λ r m. (m, refl)))
          (record {
            removed_eq = refl;
            added_eq = refl;
            removed_distinct = tt;
            added_distinct = tt;
            reasons = tt;
          })) in
    let p = detect_renames f added removed in
    record {
      old_once =
          order_by-IsDistinct (λ r. r.old_path) old_path_le p.renames
            (subst IsDistinct v.removed_eq v.removed_distinct);
      new_once =
          order_by-IsDistinct (λ r. r.new_path) old_path_le p.renames
            (subst IsDistinct v.added_eq v.added_distinct);
      reasons = All-order_by (IsRename f added removed) old_path_le p.renames v.reasons;
      sorted = renamed-IsSorted p.renames;
      removed_rest = λ x.
          elem-select x p.removed_paired removed
          ∙ ap (λ (xs : List String). elem x removed && not (elem x xs)) v.removed_eq
          ∙ ap (λ (b : Bool). elem x removed && not b)
              (sym (elem-order_by (λ r. r.old_path) old_path_le x p.renames));
      added_rest = λ x.
          elem-select x p.added_paired added
          ∙ ap (λ (xs : List String). elem x added && not (elem x xs)) v.added_eq
          ∙ ap (λ (b : Bool). elem x added && not b)
              (sym (elem-order_by (λ r. r.new_path) old_path_le x p.renames));
    }
