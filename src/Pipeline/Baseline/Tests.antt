-- ===== src/Pipeline/Baseline/Tests.antt =====
-- Runs of the baseline diff at concrete inputs.
use pf_core.Prelude.{[], ◌∷◌, ◌≡◌, refl}
use pf_core.Pipeline.Baseline.{Files, codes, levenshtein, section_delta}
use pf_core.Pipeline.Baseline.Distance.{distance, reversed_onto, levenshtein-distance}
use pf_core.Pipeline.Baseline.Pairs.{IsDelta, section_delta-IsDelta}

levenshtein-distance_example :
    levenshtein "intro.md" "outro.md"
    ≡ distance (reversed_onto (codes "intro.md") []) (reversed_onto (codes "outro.md") [])
levenshtein-distance_example = levenshtein-distance "intro.md" "outro.md"

two_edits : levenshtein "intro.md" "outro.md" ≡ 2
unfolding levenshtein
two_edits = refl

abbrev files : Files
files = record {
  baseline_hash = λ p. "b";
  current_hash = λ p. p;
  similarity = λ p q. 900;
  parent = λ p. "";
  name = λ p. p;
}

section_delta-IsDelta_example :
    IsDelta files
      ("outro" ∷ "b" ∷ [])
      ("intro" ∷ "x" ∷ [])
      (section_delta files ("outro" ∷ "b" ∷ []) ("intro" ∷ "x" ∷ []))
section_delta-IsDelta_example =
    section_delta-IsDelta files ("outro" ∷ "b" ∷ []) ("intro" ∷ "x" ∷ []) (refl, (refl, tt))
