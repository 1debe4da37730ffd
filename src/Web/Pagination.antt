-- ===== src/Web/Pagination.antt =====
-- src/pf_core/web/pagination.py: page parameters and page metadata. `normalise` is `str.strip` followed
-- by `str.lower`; `max_per_page` is the resolved bound, and a set of allowed sorts is a list.
pub mod Pages
use pf_core.Prelude.{
  ℕ, zero, suc, ◌+◌, ◌-◌, ◌*◌, ◌/◌, max, min, String, Bool, true, false, not, ◌&&◌, Option, none,
  some, List, [], ◌∷◌, length, take, drop, ltb, elem, str_eq, ℤ, pos, pos_part, if◌then◌else◌,
}

pub record PageParams : Type 0 where
  pub page : ℕ
  pub per_page : ℕ
  pub offset : ℕ
  pub limit : ℕ
  pub sort : String
  pub dir : String

-- `text or other`
abbrev pub or_text : Option String → String → String
or_text none other = other
or_text (some s) other = if str_eq s "" then other else s

abbrev pub is_allowed : List String → String → Bool
is_allowed [] s = true
is_allowed (a ∷ allowed) s = elem s (a ∷ allowed)

unfoldable pub paginate_params :
    (String → String)
    → ℤ
    → ℤ
    → Option String
    → Option String
    → List String
    → String
    → String
    → ℤ
    → PageParams
paginate_params normalise page per_page sort dir allowed_sorts default_sort default_dir
      max_per_page =
    let page' = max 1 (pos_part page) in
    let per_page' = max 1 (min (pos_part per_page) (pos_part max_per_page)) in
    let sort_key = normalise (or_text sort default_sort) in
    record {
      page = page';
      per_page = per_page';
      offset = (page' - 1) * per_page';
      limit = per_page' + 1;
      sort = if is_allowed allowed_sorts sort_key then sort_key else default_sort;
      dir = if str_eq (normalise (or_text dir "")) "asc" then "asc" else default_dir;
    }

pub record PageResult {ℓ} (A : Type ℓ) : Type ℓ where
  pub items : List A
  pub page : ℕ
  pub per_page : ℕ
  pub total : ℕ
  pub total_pages : ℕ
  pub has_prev : Bool
  pub has_next : Bool

-- for a `per_page` from 1 on
unfoldable pub paginate_result {ℓ} : {A : Type ℓ} → List A → ℕ → ℕ → ℕ → PageResult A
paginate_result items total page per_page = record {
  items = take per_page items;
  page = page;
  per_page = per_page;
  total = total;
  total_pages = max 1 ((total + per_page - 1) / per_page);
  has_prev = ltb 1 page;
  has_next = ltb per_page (length items);
}
