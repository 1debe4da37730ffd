-- ===== src/Web/Tests.antt =====
-- Runs of the web helpers at concrete inputs.
use pf_core.Prelude.{ℕ, ◌≤◌, some, none, List, [], ◌∷◌, ◌≡◌, pos, length, ltb}
use pf_core.Web.Pagination.Pages.{shown, first_pages, params, size, first_pages_all}

abbrev five : List ℕ
five = 1 ∷ 2 ∷ 3 ∷ 4 ∷ 5 ∷ []

first_pages_all_example :
    let page = shown (params (λ s. s) (pos 2) none (some "asc") [] "id" "desc" (pos 200) 1) five in
    (first_pages (λ s. s) (pos 2) none (some "asc") [] "id" "desc" (pos 200) page.total_pages five
      ≡ five)
    × (length page.items ≤ size (λ s. s) (pos 2) none (some "asc") [] "id" "desc" (pos 200))
    × (page.has_next ≡ ltb page.page page.total_pages)
first_pages_all_example =
    first_pages_all (λ s. s) (pos 2) none (some "asc") [] "id" "desc" (pos 200) five 1
