-- ===== src/Pipeline/Baseline.antt =====
-- src/pf_core/pipeline/baseline_diff.py: the distance of names, the detection of renamed sections and the
-- section sets of a diff. A text is compared by its code points; hashes of the two files, the similarity
-- of their bodies (in thousandths), and the folder and the name of a path are parameters.
pub mod Distance
pub mod Ordering
pub mod Pairs
mod Tests
use Prim.Native.Char.{Char, code}
use pf_core.Prelude.{
  ℕ, zero, suc, ◌+◌, min, String, Bool, true, false, not, ◌&&◌, ◌||◌, Option, none, some, List, [],
  ◌∷◌, ◌++◌, str_eq, ◌==◌, ltb, leb, elem, length, if◌then◌else◌,
}
use pf_core.Sql.{select, first, order_by}

-- the code points of a text
unfoldable pub codes : String → List ℕ
codes String.[] = []
codes (String.◌∷◌ c s) = code c ∷ codes s

abbrev pub cost : ℕ → ℕ → ℕ
cost a b = if a == b then 0 else 1

-- range(i, i + n + 1), as long as the text plus one
unfoldable pub first_row : ℕ → List ℕ → List ℕ
first_row i [] = i ∷ []
first_row i (b ∷ bs) = i ∷ first_row (suc i) bs

-- the entries of the next row behind `left`, under `diag` and the rest of the row before
unfoldable pub row_from : ℕ → List ℕ → ℕ → List ℕ → ℕ → List ℕ
row_from a (b ∷ bs) diag (up ∷ ups) left =
    let entry = min (min (up + 1) (left + 1)) (diag + cost a b) in
    entry ∷ row_from a bs up ups entry
row_from a _ diag _ left = []

abbrev pub next_row : ℕ → List ℕ → ℕ → List ℕ → List ℕ
next_row a bs i [] = []
next_row a bs i (p ∷ prev) = i ∷ row_from a bs p prev i

-- the rows for the rest of the first text
unfoldable pub rows : List ℕ → List ℕ → ℕ → List ℕ → List ℕ
unfolding row_from
rows [] bs i prev = prev
rows (a ∷ as_) bs i prev = rows as_ bs (suc i) (next_row a bs (suc i) prev)

-- `prev[-1]`
abbrev pub last_entry : List ℕ → ℕ
last_entry [] = 0
last_entry (x ∷ []) = x
last_entry (x ∷ y ∷ xs) = last_entry (y ∷ xs)

abbrev pub is_empty : List ℕ → Bool
is_empty [] = true
is_empty (x ∷ xs) = false

unfoldable pub levenshtein : String → String → ℕ
unfolding codes first_row rows
levenshtein a b =
    if str_eq a b
    then 0
    else if is_empty (codes a)
    then length (codes b)
    else if is_empty (codes b)
    then length (codes a)
    else last_entry (rows (codes a) (codes b) 0 (first_row 0 (codes b)))

pub record SectionRename : Type 0 where
  pub old_path : String
  pub new_path : String
  pub similarity : ℕ

-- the lists that _detect_renames fills
pub record Pairing : Type 0 where
  pub renames : List SectionRename
  pub removed_paired : List String
  pub added_paired : List String

-- What the detection asks of the files.
pub record Files : Type 0 where
  pub baseline_hash : String → String
  pub current_hash : String → String
  pub similarity : String → String → ℕ
  pub parent : String → String
  pub name : String → String

abbrev pub paired : String → String → ℕ → Pairing → Pairing
paired old new similarity p = record {
  renames = p.renames ++ record { old_path = old; new_path = new; similarity = similarity } ∷ [];
  removed_paired = p.removed_paired ++ old ∷ [];
  added_paired = p.added_paired ++ new ∷ [];
}

abbrev pub same_body : Files → String → Pairing → String → Bool
same_body f old p new =
    not (elem new p.added_paired) && str_eq (f.baseline_hash old) (f.current_hash new)

abbrev pub pair_found : String → Pairing → Option String → Pairing
pair_found old p none = p
pair_found old p (some new) = paired old new 1000 p

-- pass 1: exact body-hash match
unfoldable pub pass_hash : Files → List String → List String → Pairing → Pairing
unfolding first
pass_hash f added [] p = p
pass_hash f added (old ∷ removed) p =
    pass_hash f added removed (pair_found old p (first (same_body f old p) added))

-- a candidate of pass 2, with its similarity still to compare
abbrev pub is_near : Files → String → Pairing → String → Bool
is_near f old p new =
    not (elem new p.added_paired)
    && str_eq (f.parent new) (f.parent old)
    && leb (levenshtein (f.name old) (f.name new)) 4
    && leb 800 (f.similarity old new)

abbrev pub is_better : ℕ → Option (String × ℕ) → Bool
is_better s none = true
is_better s (some (new, t)) = ltb t s

-- the most similar candidate, the first of several
unfoldable pub best :
    Files → String → Pairing → List String → Option (String × ℕ) → Option (String × ℕ)
unfolding levenshtein
best f old p [] acc = acc
best f old p (new ∷ added) acc = best f old p added (
    if is_near f old p new && is_better (f.similarity old new) acc
    then some (new, f.similarity old new)
    else acc)

abbrev pub pair_best : String → Pairing → Option (String × ℕ) → Pairing
pair_best old p none = p
pair_best old p (some (new, s)) = paired old new s p

-- pass 2: same folder, close basename, similar body
unfoldable pub pass_near : Files → List String → List String → Pairing → Pairing
unfolding best
pass_near f added [] p = p
pass_near f added (old ∷ removed) p =
    pass_near f added removed
      (if elem old p.removed_paired then p else pair_best old p (best f old p added none))

abbrev pub no_pairs : Pairing
no_pairs = record { renames = []; removed_paired = []; added_paired = [] }

-- _detect_renames
unfoldable pub detect_renames : Files → List String → List String → Pairing
unfolding pass_hash pass_near
detect_renames f added removed = pass_near f added removed (pass_hash f added removed no_pairs)

pub record SectionSetDelta : Type 0 where
  pub added : List String
  pub removed : List String
  pub renamed : List SectionRename

-- the order of texts, by code points
unfoldable pub codes_le : List ℕ → List ℕ → Bool
codes_le [] ys = true
codes_le (x ∷ xs) [] = false
codes_le (x ∷ xs) (y ∷ ys) = let rest = codes_le xs ys in ltb x y || x == y && rest

-- key=lambda r: r.old_path
abbrev pub old_path_le : SectionRename → SectionRename → Bool
old_path_le a b = codes_le (codes a.old_path) (codes b.old_path)

-- the section sets of diff_baseline
unfoldable pub section_delta : Files → List String → List String → SectionSetDelta
unfolding detect_renames select order_by codes codes_le
section_delta f added removed =
    let p = detect_renames f added removed in
    record {
      added = select (λ x. not (elem x p.added_paired)) added;
      removed = select (λ x. not (elem x p.removed_paired)) removed;
      renamed = order_by old_path_le p.renames;
    }
