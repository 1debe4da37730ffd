-- ===== src/Pipeline/Baseline/Ordering.antt =====
-- The order of the renames in diff_baseline of src/pf_core/pipeline/baseline_diff.py: sorting by the old
-- path keeps the pairs.
use pf_core.Prelude.{
  ℕ, String, Bool, true, false, ◌&&◌, ◌||◌, List, [], ◌∷◌, map, str_eq, eq_iff, elem, ◌≡◌, refl,
  ◌∙◌, inl, inr, arith, Bool-cases,
}
use pf_core.Sql.{place, order_by}
use pf_core.Sql.Sorted.{IsSorted, order_by-IsSorted}
use pf_core.Pipeline.Baseline.{SectionRename, codes, codes_le, old_path_le}

-- no path occurs twice
abbrev pub IsDistinct : List String → Type 0
IsDistinct [] = Unit
IsDistinct (x ∷ xs) = (elem x xs ≡ false) × IsDistinct xs

module _ (g : SectionRename → String) (before : SectionRename → SectionRename → Bool) where
  elem-place :
      (s : String) (x : SectionRename) (xs : List SectionRename)
      → elem s (map g (place before x xs)) ≡ (str_eq s (g x) || elem s (map g xs))
  unfolding place
  elem-place s x [] = refl
  elem-place s x (y ∷ ys) = elim (Bool-cases (before y x)) [
    | inl e ↦ rw e (ground (arith, elem-place s x ys))
    | inr e ↦ rw e refl
  ]

  pub elem-order_by :
      (s : String) (xs : List SectionRename)
      → elem s (map g (order_by before xs)) ≡ elem s (map g xs)
  unfolding order_by
  elem-order_by s [] = refl
  elem-order_by s (x ∷ xs) =
      elem-place s x (order_by before xs) ∙ ground (arith, elem-order_by s xs)

  place-IsDistinct :
      (x : SectionRename) (xs : List SectionRename)
      → elem (g x) (map g xs) ≡ false
      → IsDistinct (map g xs)
      → IsDistinct (map g (place before x xs))
  unfolding place
  place-IsDistinct x [] h d = (refl, tt)
  place-IsDistinct x (y ∷ ys) h d = elim (Bool-cases (before y x)) [
    | inl e ↦ rw e (
      elem-place (g y) x ys ∙ ground (arith, h, d.0, eq_iff (g x) (g y), eq_iff (g y) (g x)),
      place-IsDistinct x ys (ground (arith, h)) d.1,
    )
    | inr e ↦ rw e (h, d)
  ]

  pub order_by-IsDistinct :
      (xs : List SectionRename) → IsDistinct (map g xs) → IsDistinct (map g (order_by before xs))
  unfolding order_by
  order_by-IsDistinct [] d = tt
  order_by-IsDistinct (x ∷ xs) d =
      place-IsDistinct x (order_by before xs) (elem-order_by (g x) xs ∙ d.0)
        (order_by-IsDistinct xs d.1)

codes_le_total : (xs ys : List ℕ) → codes_le xs ys ≡ false → codes_le ys xs ≡ true
unfolding codes_le
codes_le_total [] ys h = absurd (cc)
codes_le_total (x ∷ xs) [] h = refl
codes_le_total (x ∷ xs) (y ∷ ys) h = elim (Bool-cases (codes_le xs ys)) [
  | inl e ↦ ground (arith, h, e)
  | inr e ↦ ground (arith, h, e, codes_le_total xs ys e)
]

codes_le_trans :
    (xs ys zs : List ℕ) → codes_le xs ys ≡ true → codes_le ys zs ≡ true → codes_le xs zs ≡ true
unfolding codes_le
codes_le_trans [] ys zs h k = refl
codes_le_trans (x ∷ xs) [] zs h k = absurd (cc)
codes_le_trans (x ∷ xs) (y ∷ ys) [] h k = absurd (cc)
codes_le_trans (x ∷ xs) (y ∷ ys) (z ∷ zs) h k =
    elim (Bool-cases (codes_le xs ys && codes_le ys zs)) [
      | inl e ↦
          ground (arith, h, k, e, codes_le_trans xs ys zs (ground (arith, e)) (ground (arith, e)))
      | inr e ↦ ground (arith, h, k, e)
    ]

pub renamed-IsSorted : (xs : List SectionRename) → IsSorted old_path_le (order_by old_path_le xs)
renamed-IsSorted xs =
    order_by-IsSorted old_path_le (λ x y h. codes_le_total (codes x.old_path) (codes y.old_path) h)
      (λ x y z h k. codes_le_trans (codes x.old_path) (codes y.old_path) (codes z.old_path) h k) xs
