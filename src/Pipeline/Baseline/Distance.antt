-- ===== src/Pipeline/Baseline/Distance.antt =====
-- The edit distance of src/pf_core/pipeline/baseline_diff.py as a recursion on the last characters.
use pf_core.Prelude.{
  ℕ, suc, ◌+◌, min, String, true, List, [], ◌∷◌, length, str_eq, eq_iff, ◌≡◌, refl, sym, ap, ◌∙◌,
  arith, inl, inr, Bool-cases,
}
use pf_core.Pipeline.Baseline.{
  codes, cost, first_row, row_from, next_row, rows, last_entry, is_empty, levenshtein,
}

-- one more character `a` of the first text, given the distances of the rest of it
unfoldable pub one_more : (List ℕ → ℕ) → ℕ → List ℕ → ℕ
one_more rest a [] = rest [] + 1
one_more rest a (b ∷ bs) =
    min (min (rest (b ∷ bs) + 1) (one_more rest a bs + 1)) (rest bs + cost a b)

-- the least number of insertions, deletions and substitutions; both texts begin with their last character
unfoldable pub distance : List ℕ → List ℕ → ℕ
unfolding one_more
distance [] bs = length bs
distance (a ∷ as_) bs = one_more (distance as_) a bs

unfoldable pub reversed_onto : List ℕ → List ℕ → List ℕ
reversed_onto [] ys = ys
reversed_onto (x ∷ xs) ys = reversed_onto xs (x ∷ ys)

-- the distances to the longer and longer beginnings of a text
tail_entries : List ℕ → List ℕ → List ℕ → List ℕ
tail_entries r rb [] = []
tail_entries r rb (b ∷ bs) = distance r (b ∷ rb) ∷ tail_entries r (b ∷ rb) bs

entries : List ℕ → List ℕ → List ℕ → List ℕ
entries r rb bs = distance r rb ∷ tail_entries r rb bs

distance-empty : (r : List ℕ) → distance r [] ≡ length r
unfolding distance one_more
distance-empty [] = refl
distance-empty (a ∷ r) = omega (arith, distance-empty r)

first_row-entries : (rb bs : List ℕ) → first_row (length rb) bs ≡ entries [] rb bs
unfolding first_row entries tail_entries distance
first_row-entries rb [] = refl
first_row-entries rb (b ∷ bs) = ap (λ (xs : List ℕ). length rb ∷ xs) (first_row-entries (b ∷ rb) bs)

row_from-entries :
    (a : ℕ) (r rb bs : List ℕ)
    → row_from a bs (distance r rb) (tail_entries r rb bs) (distance (a ∷ r) rb)
      ≡ tail_entries (a ∷ r) rb bs
unfolding row_from tail_entries distance one_more
row_from-entries a r rb [] = refl
row_from-entries a r rb (b ∷ bs) =
    ap (λ (xs : List ℕ). distance (a ∷ r) (b ∷ rb) ∷ xs) (row_from-entries a r (b ∷ rb) bs)

next_row-entries :
    (a : ℕ) (r bs : List ℕ) (i : ℕ)
    → i ≡ suc (length r)
    → next_row a bs i (entries r [] bs) ≡ entries (a ∷ r) [] bs
unfolding entries
next_row-entries a r bs i e =
    let start = e ∙ sym (distance-empty (a ∷ r)) in
    ap (λ (k : ℕ). k ∷ row_from a bs (distance r []) (tail_entries r [] bs) k) start
    ∙ ap (λ (xs : List ℕ). distance (a ∷ r) [] ∷ xs) (row_from-entries a r [] bs)

rows-entries :
    (xs r bs : List ℕ) (i : ℕ)
    → i ≡ length r
    → rows xs bs i (entries r [] bs) ≡ entries (reversed_onto xs r) [] bs
unfolding rows reversed_onto
rows-entries [] r bs i e = refl
rows-entries (a ∷ xs) r bs i e =
    ap (rows xs bs (suc i)) (next_row-entries a r bs (suc i) (omega (arith, e)))
    ∙ rows-entries xs (a ∷ r) bs (suc i) (omega (arith, e))

last_entry-entries :
    (r rb bs : List ℕ) → last_entry (entries r rb bs) ≡ distance r (reversed_onto bs rb)
unfolding entries tail_entries reversed_onto
last_entry-entries r rb [] = refl
last_entry-entries r rb (b ∷ bs) = last_entry-entries r (b ∷ rb) bs

distance_self : (r : List ℕ) → distance r r ≡ 0
unfolding distance one_more
distance_self [] = refl
distance_self (a ∷ r) = ground (arith, distance_self r)

length-reversed_onto : (xs ys : List ℕ) → length (reversed_onto xs ys) ≡ length xs + length ys
unfolding reversed_onto
length-reversed_onto [] ys = omega arith
length-reversed_onto (x ∷ xs) ys = omega (arith, length-reversed_onto xs (x ∷ ys))

distance-empty_left :
    (xs ys : List ℕ)
    → is_empty xs ≡ true
    → length ys ≡ distance (reversed_onto xs []) (reversed_onto ys [])
unfolding reversed_onto distance
distance-empty_left [] ys h = omega (arith, length-reversed_onto ys [])
distance-empty_left (x ∷ xs) ys h = absurd (cc)

distance-empty_right :
    (xs ys : List ℕ)
    → is_empty ys ≡ true
    → length xs ≡ distance (reversed_onto xs []) (reversed_onto ys [])
unfolding reversed_onto
distance-empty_right xs [] h =
    omega (arith, length-reversed_onto xs [], distance-empty (reversed_onto xs []))
distance-empty_right xs (y ∷ ys) h = absurd (cc)

-- The rolling rows and the shortcuts of _levenshtein compute the edit distance of the two texts.
pub levenshtein-distance :
    (a b : String)
    → levenshtein a b ≡ distance (reversed_onto (codes a) []) (reversed_onto (codes b) [])
unfolding levenshtein
levenshtein-distance a b = elim (Bool-cases (str_eq a b)) [
  | inl e ↦ rw e (
      sym (
        ap (λ (s : String). distance (reversed_onto (codes a) []) (reversed_onto (codes s) []))
          (sym (same_text a b e))
        ∙ distance_self (reversed_onto (codes a) [])))
  | inr e ↦ elim (Bool-cases (is_empty (codes a))) [
    | inl q ↦ rw (e, q) (distance-empty_left (codes a) (codes b) q)
    | inr q ↦ elim (Bool-cases (is_empty (codes b))) [
      | inl s ↦ rw (e, q, s) (distance-empty_right (codes a) (codes b) s)
      | inr s ↦
          rw (e, q, s)
            (ap (λ (prev : List ℕ). last_entry (rows (codes a) (codes b) 0 prev))
                (first_row-entries [] (codes b))
              ∙ ap last_entry (rows-entries (codes a) [] (codes b) 0 refl)
              ∙ last_entry-entries (reversed_onto (codes a) []) [] (codes b))
    ]
  ]
]
  where
    same_text : (a b : String) → str_eq a b ≡ true → a ≡ b
    same_text a b e = ground (arith, eq_iff a b)
