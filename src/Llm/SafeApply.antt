-- ===== src/Llm/SafeApply.antt =====
-- src/pf_core/llm/safe_apply.py: a plan is applied only to the targets that it was made for. The caller's
-- transform is a function `apply_fn`, whose result says how it ends.
pub mod Drift
use pf_core.Prelude.{
  ℕ, zero, suc, ◌+◌, String, Bool, true, false, not, ◌||◌, Option, none, some, List, [], ◌∷◌,
  str_eq, ◌==◌, length, if◌then◌else◌,
}

pub record GatherResult {ℓ} (T : Type ℓ) : Type ℓ where
  pub target_count : ℕ
  pub target_texts : List String
  -- the field `data`
  pub plan : T

pub record DriftReport : Type 0 where
  pub count_changed : Bool
  pub gathered_count : ℕ
  pub current_count : ℕ
  pub drifted_indices : List ℕ

abbrev pub has_drift : DriftReport → Bool
has_drift r = r.count_changed || not (length r.drifted_indices == 0)

-- the indices from `i` on at which two texts differ, up to the end of the shorter list (`zip`)
unfoldable pub drifted : ℕ → List String → List String → List ℕ
drifted i (g ∷ gs) (c ∷ cs) =
    let rest = drifted (suc i) gs cs in if str_eq g c then rest else i ∷ rest
drifted i _ _ = []

unfoldable pub detect_drift {ℓ} : {T : Type ℓ} → GatherResult T → List String → DriftReport
unfolding drifted
detect_drift gathered current_texts =
    let changed = not (length current_texts == gathered.target_count) in
    record {
      count_changed = changed;
      gathered_count = gathered.target_count;
      current_count = length current_texts;
      drifted_indices = if changed then [] else drifted 0 gathered.target_texts current_texts;
    }

unfoldable pub safe_apply {ℓ κ} :
    {T : Type ℓ} {R : Type κ} → GatherResult T → List String → (T → R) → Option R
unfolding detect_drift
safe_apply gathered current_texts apply_fn =
    if has_drift (detect_drift gathered current_texts) then none else some (apply_fn gathered.plan)
