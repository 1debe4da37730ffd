-- ===== src/Pipeline/Sequencer/Tests.antt =====
-- A pipeline of three phases on a counter.
use pf_core.Prelude.{ℕ, ◌+◌, String, Bool, none, some, List, [], ◌∷◌, ◌≡◌, refl, take, drop, str_eq}
use pf_core.Result.{ok, ◌>>=◌}
use pf_core.Pipeline.Sequencer.{Phase, run_pipeline, selection, execute, index_of, first_stale}
use pf_core.Pipeline.Sequencer.Slice.{
  IsSelected, IsRun, names, run_pipeline-IsSelected, run_pipeline_total,
}

abbrev adds : String → ℕ → Phase ℕ
adds s n = record { name = s; run = λ c. (none, c + n) }

abbrev three : List (Phase ℕ)
three = adds "fetch" 1 ∷ adds "parse" 2 ∷ adds "store" 3 ∷ []

abbrev fetched : Phase ℕ → Bool
fetched p = str_eq p.name "fetch"

run_pipeline-IsSelected_example :
    (b n : ℕ) × IsSelected three (some "parse") (some "parse") none none (b, n)
    × (("parse" ∷ []) ≡ names (take n (drop b three)))
    × IsRun
        (take n (drop b three))
        0
        (run_pipeline three 0 (some "parse") (some "parse") none none).1
unfolding run_pipeline selection execute index_of ◌>>=◌
run_pipeline-IsSelected_example =
    run_pipeline-IsSelected three 0 (some "parse") (some "parse") none none ("parse" ∷ []) refl

run_pipeline_total_example :
    ((run_pipeline three 0 none none none (some fetched)).0 ≡ ok ("parse" ∷ "store" ∷ []))
    × IsRun
        (adds "parse" 2 ∷ adds "store" 3 ∷ [])
        0
        (run_pipeline three 0 none none none (some fetched)).1
unfolding first_stale
run_pipeline_total_example =
    run_pipeline_total three 0 (some fetched) ((λ c. refl), ((λ c. refl), ((λ c. refl), tt)))
