-- ===== src/Web/Pagination/Pages.antt =====
-- The pages that paginate_params and paginate_result of src/pf_core/web/pagination.py cut a table into.
use native.Mathlib.Nat.{div-lt_iff_lt-mul}
use pf_core.Prelude.{
  ℕ, zero, suc, ◌+◌, ◌-◌, ◌*◌, ◌/◌, ◌≤◌, ◌<◌, max, min, String, Option, List, [], ◌∷◌, ◌++◌, length,
  take, drop, length-take, length-drop, ltb, ℤ, pos, pos_part, ◌≡◌, refl, sym, ap, ◌∙◌, arith,
  Bool-cases, inl, inr,
}
use pf_core.Web.Pagination.{PageParams, PageResult, paginate_params, paginate_result}

module _ {ℓ} {A : Type ℓ} where
  -- the rows that a query reads under OFFSET and LIMIT, and their page
  unfoldable pub shown : PageParams → List A → PageResult A
  unfolding paginate_result
  shown p rows = paginate_result (take p.limit (drop p.offset rows)) (length rows) p.page p.per_page

  take-take : (m n : ℕ) (xs : List A) → m ≤ n → take m (take n xs) ≡ take m xs
  take-take zero n xs h = refl
  take-take (suc m) zero xs h = absurd (omega (arith, h))
  take-take (suc m) (suc n) [] h = refl
  take-take (suc m) (suc n) (x ∷ xs) h =
      ap (λ (ys : List A). x ∷ ys) (take-take m n xs (omega (arith, h)))

  take_none : (n : ℕ) → take {A = A} n [] ≡ []
  take_none zero = refl
  take_none (suc n) = refl

  take_more : (m n k : ℕ) (xs : List A) → k ≡ m + n → take m xs ++ take n (drop m xs) ≡ take k xs
  take_more zero n k xs h = ap (λ (j : ℕ). take j xs) (omega (arith, h))
  take_more (suc m) n zero xs h = absurd (omega (arith, h))
  take_more (suc m) n (suc k) [] h = take_none n
  take_more (suc m) n (suc k) (x ∷ xs) h =
      ap (λ (ys : List A). x ∷ ys) (take_more m n k xs (omega (arith, h)))

  take_all : (n : ℕ) (xs : List A) → length xs ≤ n → take n xs ≡ xs
  take_all zero [] h = refl
  take_all zero (x ∷ xs) h = absurd (omega (arith, h))
  take_all (suc n) [] h = refl
  take_all (suc n) (x ∷ xs) h = ap (λ (ys : List A). x ∷ ys) (take_all n xs (omega (arith, h)))

  shown-items :
      (p : PageParams) (rows : List A)
      → p.limit ≡ p.per_page + 1
      → (shown p rows).items ≡ take p.per_page (drop p.offset rows)
  unfolding shown paginate_result
  shown-items p rows l = take-take p.per_page p.limit (drop p.offset rows) (omega (arith, l))

  shown-has_next :
      (p : PageParams) (rows : List A)
      → p.limit ≡ p.per_page + 1
      → (shown p rows).has_next ≡ ltb (p.offset + p.per_page) (length rows)
  unfolding shown paginate_result
  shown-has_next p rows l =
      let cut = length-take p.limit (drop p.offset rows) in
      let rest = length-drop p.offset rows in ground (arith, cut, rest, l)

ceil_from :
    (t p m d mp : ℕ)
    → 0 < p
    → (d < suc (suc m) → t + p - 1 < mp + p + p)
    → (t + p - 1 < mp + p + p → d < suc (suc m))
    → ltb (mp + p) t ≡ ltb (suc m) (max 1 d)
ceil_from t p m d mp h to fro = elim (Bool-cases (ltb d (suc (suc m)))) [
  | inl e ↦ ground (arith, h, e, to (ground (arith, e)))
  | inr e ↦ elim (Bool-cases (ltb (mp + p) t)) [
    | inl q ↦ ground (arith, q, e)
    | inr q ↦ absurd (ground (arith, e, q, h, fro (ground (arith, q, h))))
  ]
]

-- a page before the last one ends before the rows do
ceil : (t p m : ℕ) → 0 < p → ltb (m * p + p) t ≡ ltb (suc m) (max 1 ((t + p - 1) / p))
ceil t p m h =
    let (to, fro) = div-lt_iff_lt-mul {k = p} {x = t + p - 1} {y = suc (suc m)} h in
    ceil_from t p m ((t + p - 1) / p) (m * p) h (λ l. omega (arith, to l))
      (λ l. fro (omega (arith, l)))

last_page : (t p : ℕ) → 0 < p → t ≤ max 1 ((t + p - 1) / p) * p
last_page t p h =
    shut t p (max 1 ((t + p - 1) / p)) (max 1 ((t + p - 1) / p) - 1) (omega arith)
      (ceil t p (max 1 ((t + p - 1) / p) - 1) h) refl
  where
    shut :
        (t p d k : ℕ)
        → suc k ≡ d
        → ltb (k * p + p) t ≡ ltb (suc k) (max 1 ((t + p - 1) / p))
        → max 1 ((t + p - 1) / p) ≡ d
        → t ≤ d * p
    shut t p d k e q r = rw (sym e) (ground (arith, q, r, e))

-- page `m + 1` for any other parameters
module _ (normalise : String → String) (per_page : ℤ) (sort dir : Option String)
    (allowed_sorts : List String) (default_sort default_dir : String) (max_per_page : ℤ) where
  abbrev pub params : ℕ → PageParams
  params m =
      paginate_params normalise (pos (suc m)) per_page sort dir allowed_sorts default_sort
        default_dir max_per_page

  abbrev pub size : ℕ
  size = max 1 (min (pos_part per_page) (pos_part max_per_page))

  params_lem :
      (m : ℕ)
      → ((params m).per_page ≡ size)
        × ((params m).offset ≡ m * size)
        × ((params m).limit ≡ (params m).per_page + 1)
  unfolding paginate_params
  params_lem m = (refl, ap (λ (k : ℕ). k * size) (pred m), refl)
    where
      pred : (m : ℕ) → max 1 (suc m) - 1 ≡ m
      pred m = omega arith

  module _ {ℓ} {A : Type ℓ} where
    -- the items of the first pages, one page after the other
    unfoldable pub first_pages : ℕ → List A → List A
    unfolding paginate_params shown
    first_pages zero rows = []
    first_pages (suc m) rows = first_pages m rows ++ (shown (params m) rows).items

    first_pages-take : (n : ℕ) (rows : List A) → first_pages n rows ≡ take (n * size) rows
    unfolding first_pages
    first_pages-take zero rows = none (zero * size) rows (omega arith)
      where
        none : (k : ℕ) (xs : List A) → k ≡ 0 → [] ≡ take k xs
        none zero xs h = refl
        none (suc k) xs h = absurd (omega (arith, h))
    first_pages-take (suc m) rows =
        let (p, o, l) = params_lem m in
        let items = shown-items (params m) rows l in
        ap (λ (xs : List A). xs ++ (shown (params m) rows).items) (first_pages-take m rows)
        ∙ ap (λ (ys : List A). take (m * size) rows ++ ys)
            (items ∙ ap (λ (k : ℕ). take size (drop k rows)) o)
        ∙ take_more (m * size) size (suc m * size) rows (omega arith)

    -- For any requested size: the items of all the pages in their order are the rows, each once, no page
    -- has more than the bounded size, and has_next is set on a page exactly when it is not the last one.
    pub first_pages_all :
        (rows : List A) (m : ℕ)
        → let page = shown (params m) rows in
          (first_pages page.total_pages rows ≡ rows)
          × (length page.items ≤ size)
          × (page.has_next ≡ ltb page.page page.total_pages)
    unfolding paginate_params shown paginate_result
    first_pages_all rows m =
        let (p, o, l) = params_lem m in
        let total = max 1 ((length rows + size - 1) / size) in
        (
          first_pages-take total rows
              ∙ take_all (total * size) rows (last_page (length rows) size (omega arith)),
          rw (shown-items (params m) rows l)
              (omega (arith, length-take size (drop (params m).offset rows))),
          shown-has_next (params m) rows l
              ∙ ap (λ (k : ℕ). ltb (k + size) (length rows)) o
              ∙ ceil (length rows) size m (omega arith)
              ∙ ap (λ (k : ℕ). ltb k total) (top m),
        )
      where
        top : (m : ℕ) → suc m ≡ max 1 (suc m)
        top m = omega arith
