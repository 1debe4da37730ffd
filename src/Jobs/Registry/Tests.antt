-- ===== src/Jobs/Registry/Tests.antt =====
-- A registration of a kind with states of its own.
use pf_core.Prelude.{none, some, [], ◌∷◌, refl, pos, false}
use pf_core.Result.{◌>>=◌}
use pf_core.Jobs.Registry.{JobKind, KindSpec, register_kind}
use pf_core.Jobs.Registry.Kinds.{Registered, register_kind-Registered}

abbrev review_spec : KindSpec
review_spec = record {
  kind = "review";
  states = "pending" ∷ "running" ∷ "approved" ∷ [];
  transitions = some (("pending", "running" ∷ []) ∷ ("running", "approved" ∷ []) ∷ []);
  description = none;
  inputs_schema = none;
  outputs_schema = none;
  default_priority = pos 10;
  auto_track_progress = false;
}

abbrev review_kind : JobKind
review_kind = record {
  kind = "review";
  states = "pending" ∷ "running" ∷ "approved" ∷ [];
  transitions = ("pending", "running" ∷ []) ∷ ("running", "approved" ∷ []) ∷ [];
  description = none;
  inputs_schema = none;
  outputs_schema = none;
  default_priority = pos 10;
  auto_track_progress = false;
}

register_kind-Registered_example :
    Registered review_spec [] review_kind (("review", review_kind) ∷ [])
unfolding register_kind ◌>>=◌
register_kind-Registered_example =
    register_kind-Registered review_spec [] review_kind (("review", review_kind) ∷ []) refl
