-- ===== src/Pipeline/Cascade/Tests.antt =====
-- Runs of the stage cascade at concrete inputs.
use pf_core.Prelude.{
  String, Bool, true, false, not, List, [], ◌∷◌, ◌++◌, map, ◌≡◌, refl, All, str_eq, arith, eq_iff,
  ◌&&◌, ◌||◌,
}
use pf_core.Result.{ok}
use pf_core.Pipeline.Cascade.{
  StageDefinition, new_registry, structural_paths, files_to_invalidate, invalidate_caches,
}
use pf_core.Pipeline.Cascade.Deletion.{
  Handled, files_to_invalidate_split, invalidate_caches-Handled,
}

abbrev convert : StageDefinition
convert = record { name = "convert"; structural_files = "raw.md" ∷ []; content_keyed_files = [] }

abbrev split : StageDefinition
split = record {
  name = "split";
  structural_files = "sections" ∷ [];
  content_keyed_files = "phash.json" ∷ [];
}

abbrev index_stage : StageDefinition
index_stage = record {
  name = "index";
  structural_files = "index.json" ∷ [];
  content_keyed_files = "hashes.json" ∷ [];
}

stages_accepted :
    new_registry (convert ∷ split ∷ index_stage ∷ []) ≡ ok (convert ∷ split ∷ index_stage ∷ [])
unfolding new_registry
stages_accepted = refl

files_to_invalidate_split_example :
    files_to_invalidate (λ s. s) "split" (convert ∷ split ∷ index_stage ∷ [])
    ≡ ok (
        map (λ s. s) ("phash.json" ∷ [])
        ++ (map (λ s. s) ("sections" ∷ []) ++ structural_paths (λ s. s) (index_stage ∷ [])))
files_to_invalidate_split_example =
    files_to_invalidate_split (λ s. s) (convert ∷ []) split (index_stage ∷ []) stages_accepted

-- a file system is the set of the paths that are there
abbrev there : (String → Bool) → String → Bool
there fs p = fs p

-- one path is write protected, and its removal raises
abbrev unlink : (String → Bool) → String → Bool × (String → Bool)
unlink fs p = (not (str_eq p "sections"), λ q. (str_eq p "sections" || not (str_eq p q)) && fs q)

clears_one :
    (fs : String → Bool) (p : String) → (unlink fs p).0 ≡ true → there (unlink fs p).1 p ≡ false
clears_one fs p h = ground (arith, h, eq_iff p p)

creates_none :
    (fs : String → Bool) (p q : String) → there fs q ≡ false → there (unlink fs p).1 q ≡ false
creates_none fs p q h = ground (arith, h)

invalidate_caches-Handled_example :
    (deleted : List String) × (fs' : String → Bool) × (invalidate_caches there unlink
        (λ s. s)
        "split"
        (convert ∷ split ∷ index_stage ∷ [])
        (λ p. true)
      ≡ ok (deleted, fs'))
    × All
        (Handled there unlink ("phash.json" ∷ "sections" ∷ "index.json" ∷ []) (λ p. true) fs')
        ("phash.json" ∷ "sections" ∷ "index.json" ∷ [])
unfolding structural_paths
invalidate_caches-Handled_example =
    invalidate_caches-Handled there unlink clears_one creates_none (λ s. s) (convert ∷ []) split
      (index_stage ∷ []) (λ p. true) stages_accepted
