-- ===== src/Pipeline/Cascade.antt =====
-- src/pf_core/pipeline/cache.py: which files a re-run from a stage invalidates, and their deletion. The
-- file system is a parameter: whether a path exists, and what removing it leaves, none for an OSError;
-- `resolve` is _resolve_path for the output folder and the stem of the source.
pub mod Deletion
mod Tests
use pf_core.Prelude.{
  String, Bool, true, false, not, ◌||◌, Option, none, some, List, [], ◌∷◌, ◌++◌, map, str_eq, elem,
  if◌then◌else◌,
}
use pf_core.Result.{Result, ok, err, value_error, require, ◌>>=◌, ◌>>◌}

pub record StageDefinition : Type 0 where
  pub name : String
  pub structural_files : List String
  pub content_keyed_files : List String

abbrev pub names : List StageDefinition → List String
names stages = map (λ s. s.name) stages

unfoldable pub has_duplicate : List String → Bool
has_duplicate [] = false
has_duplicate (n ∷ ns) = elem n ns || has_duplicate ns

-- StageRegistry, with the check of __post_init__
unfoldable pub new_registry : List StageDefinition → Result (List StageDefinition)
unfolding has_duplicate ◌>>=◌
new_registry stages = require (not (has_duplicate (names stages))) value_error >> ok stages

unfoldable pub find_stage : String → List StageDefinition → Result StageDefinition
find_stage name [] = err value_error
find_stage name (s ∷ stages) =
    let rest = find_stage name stages in if str_eq s.name name then ok s else rest

unfoldable pub downstream : String → List StageDefinition → Result (List StageDefinition)
downstream name [] = err value_error
downstream name (s ∷ stages) =
    let rest = downstream name stages in if str_eq s.name name then ok (s ∷ stages) else rest

module _ {ℓ} {P : Type ℓ} (resolve : String → P) where
  unfoldable pub structural_paths : List StageDefinition → List P
  structural_paths [] = []
  structural_paths (s ∷ stages) = map resolve s.structural_files ++ structural_paths stages

  unfoldable pub files_to_invalidate : String → List StageDefinition → Result (List P)
  unfolding find_stage downstream structural_paths ◌>>=◌
  files_to_invalidate stage registry = do
    target ← find_stage stage registry
    later ← downstream stage registry
    ok (map resolve target.content_keyed_files ++ structural_paths later)

module _ {ℓ κ} {P : Type ℓ} {Fs : Type κ} (is_there : Fs → P → Bool)
    (remove : Fs → P → Bool × Fs) where
  -- `remove` tells whether rmtree or unlink returned; one that raised may have removed a part of a tree
  abbrev pub deleted_one : P → Bool × Fs → (Fs → List P × Fs) → List P × Fs
  deleted_one p (false, fs') rest = rest fs'
  deleted_one p (true, fs') rest = let (deleted, end) = rest fs' in (p ∷ deleted, end)

  -- the loop of invalidate_caches; a path that cannot be removed is logged and passed over
  unfoldable pub delete_each : List P → Fs → List P × Fs
  delete_each [] fs = ([], fs)
  delete_each (p ∷ ps) fs =
      if not (is_there fs p)
      then delete_each ps fs
      else deleted_one p (remove fs p) (delete_each ps)

  unfoldable pub invalidate_caches :
      (String → P) → String → List StageDefinition → Fs → Result (List P × Fs)
  unfolding files_to_invalidate delete_each ◌>>=◌
  invalidate_caches resolve stage registry fs = do
    targets ← files_to_invalidate resolve stage registry
    ok (delete_each targets fs)
