-- ===== src/Llm/SafeApply/Drift.antt =====
-- When src/pf_core/llm/safe_apply.py reports drift, and where.
use pf_core.Prelude.{
  ℕ, suc, String, true, false, not, none, some, List, [], ◌∷◌, str_eq, eq_iff, ◌==◌, length, ◌≡◌,
  ◌≢◌, refl, ap, sym, ◌∙◌, ◌⊎◌, inl, inr, arith, Bool-cases,
}
use pf_core.Llm.SafeApply.{GatherResult, has_drift, drifted, detect_drift, safe_apply}

-- lists of one length without a difference are equal
drifted_none :
    (i : ℕ) (gs cs : List String) → length gs ≡ length cs → length (drifted i gs cs) ≡ 0 → gs ≡ cs
unfolding drifted
drifted_none i [] [] l h = refl
drifted_none i [] (c ∷ cs) l h = absurd (omega (arith, l))
drifted_none i (g ∷ gs) [] l h = absurd (omega (arith, l))
drifted_none i (g ∷ gs) (c ∷ cs) l h = elim (Bool-cases (str_eq g c)) [
  | inl e ↦
      let same = drifted_none (suc i) gs cs (omega (arith, l)) (rw e at h) in
      rw (same_text g c e, same) refl
  | inr e ↦ absurd (ground (arith, rw e at h))
]
  where
    same_text : (g c : String) → str_eq g c ≡ true → g ≡ c
    same_text g c e = ground (arith, eq_iff g c)

drifted_self : (i : ℕ) (gs : List String) → drifted i gs gs ≡ []
unfolding drifted
drifted_self i [] = refl
drifted_self i (g ∷ gs) = ground (arith, eq_iff g g, drifted_self (suc i) gs)

module _ {ℓ} {T : Type ℓ} (gathered : GatherResult T) (current : List String)
    (counted : gathered.target_count ≡ length gathered.target_texts) where
  detect_drift-none :
      gathered.target_texts ≡ current → has_drift (detect_drift gathered current) ≡ false
  unfolding detect_drift
  detect_drift-none e =
      let same = ap length e in
      let clean =
        ap (λ (cs : List String). drifted 0 gathered.target_texts cs) (sym e)
        ∙ drifted_self 0 gathered.target_texts in
      let n = same_count (length current) gathered.target_count (omega (arith, same, counted)) in
      rw (n, clean) refl
    where
      same_count : (a b : ℕ) → a ≡ b → not (a == b) ≡ false
      same_count a b h = ground (arith, h)

  detect_drift-some :
      has_drift (detect_drift gathered current) ≡ false → gathered.target_texts ≡ current
  unfolding detect_drift
  detect_drift-some h = elim (Bool-cases (length current == gathered.target_count)) [
    | inr e ↦ absurd (ground (arith, rw e at h))
    | inl e ↦
        drifted_none 0 gathered.target_texts current (ground (arith, e, counted))
          (ground (arith, rw e at h))
  ]

-- For a snapshot that same_count its texts, the transform runs on the plan exactly when the texts of now are
-- those of the snapshot, in their order; else nothing is applied.
pub safe_apply_exact {ℓ κ} :
    {T : Type ℓ} {R : Type κ} (gathered : GatherResult T) (current : List String) (apply_fn : T → R)
    → gathered.target_count ≡ length gathered.target_texts
    → ((gathered.target_texts ≡ current)
        × (safe_apply gathered current apply_fn ≡ some (apply_fn gathered.plan)))
      ⊎ ((gathered.target_texts ≢ current) × (safe_apply gathered current apply_fn ≡ none))
unfolding safe_apply
safe_apply_exact gathered current apply_fn n =
    elim (Bool-cases (has_drift (detect_drift gathered current))) [
      | inl e ↦ inr (λ same. cc (e, detect_drift-none gathered current n same), rw e refl)
      | inr e ↦ inl (detect_drift-some gathered current n e, rw e refl)
    ]
