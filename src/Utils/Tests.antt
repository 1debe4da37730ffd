-- ===== src/Utils/Tests.antt =====
-- Runs of the general helpers at concrete inputs.
use pf_core.Prelude.{◌+◌, ◌*◌, ◌≤◌, [], ◌∷◌, refl, pos, arith}
use pf_core.Utils.Throttle.{new, grants}
use pf_core.Utils.Throttle.Spacing.{grants_spaced}

grants_spaced_example : 5 + 2 * (new (pos 10)).min_interval ≤ 25
unfolding grants
grants_spaced_example =
    grants_spaced (5 ∷ 6 ∷ 7 ∷ []) (new (pos 10)) 0 2 2 (omega arith) refl refl refl
