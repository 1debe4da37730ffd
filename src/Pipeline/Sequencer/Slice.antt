-- ===== src/Pipeline/Sequencer/Slice.antt =====
-- The slice of the phases that `run_pipeline` (src/pf_core/pipeline/sequencer.py) executes.
use pf_core.Prelude.{
  ℕ, zero, suc, ◌+◌, ◌-◌, ◌≤◌, ◌<◌, ◌≡◌, ◌⊎◌, ◌∙◌, inl, inr, refl, ap, String, Bool, true, false,
  Option, none, some, List, [], ◌∷◌, str_eq, eq_iff, ltb, leb, length, take, drop, get_elem?, All,
  arith, Bool-cases, Option-cases,
}
use pf_core.Result.{Result, ok, err, value_error, ◌>>=◌}
use pf_core.Result.Rules.{Returns, Returns-ok, Returns-err, Returns-if, Returns-bind, Result-cases}
use pf_core.Pipeline.Sequencer.{
  Phase, index_of, index, first_stale, resume_at, begin_at, end_at, selection, noted, execute,
  run_pipeline,
}

noted-eq-ok :
    (s : String) (r : Result (List String)) {ran : List String}
    → noted s r ≡ ok ran
    → (rest : List String) × (r ≡ ok rest) × (ran ≡ s ∷ rest)
noted-eq-ok s (ok rest) h = (rest, refl, cc)
noted-eq-ok s (err e) h = absurd (cc)

module _ {ℓ} {C : Type ℓ} where
  -- the phase at an index has this name
  abbrev pub IsNamedAt : List (Phase C) → ℕ → String → Type ℓ
  IsNamedAt ps i s = (p : Phase C) × (get_elem? ps i ≡ some p) × (p.name ≡ s)

  abbrev pub names : List (Phase C) → List String
  names [] = []
  names (p ∷ ps) = p.name ∷ names ps

  index_of-IsNamedAt :
      (s : String) (ps : List (Phase C)) {i : ℕ}
      → index_of s ps ≡ some i
      → (i < length ps) × IsNamedAt ps i s
  unfolding index_of
  index_of-IsNamedAt s [] e = absurd (cc)
  index_of-IsNamedAt s (p ∷ ps) {i} e = elim (Bool-cases (str_eq p.name s)) [
    | inl q ↦
        let zero_i : i ≡ 0 = ground (arith, q) in
        rw zero_i (omega arith, (p, refl, (eq_iff p.name s).0 q))
    | inr q ↦ elim (Option-cases (index_of s ps)) [
      | inl n ↦ absurd (cc (rw (q, n, index_of) at e))
      | inr (k, n) ↦
          let (below, (x, at_k, nm)) = index_of-IsNamedAt s ps n in
          let suc_i : i ≡ suc k = ground (arith, q, n) in rw suc_i (omega arith, (x, at_k, nm))
    ]
  ]

  -- where the scan stops
  abbrev pub IsResumedAt : (Phase C → Bool) → List (Phase C) → ℕ → Type ℓ
  IsResumedAt fresh ps b =
      All (λ p. fresh p ≡ true) (take b ps)
      × ((b ≡ length ps) ⊎ ((p : Phase C) × (get_elem? ps b ≡ some p) × (fresh p ≡ false)))

  first_stale-IsResumedAt :
      (fresh : Phase C → Bool) (ps : List (Phase C)) → IsResumedAt fresh ps (first_stale fresh ps)
  unfolding first_stale
  first_stale-IsResumedAt fresh [] = (tt, inl refl)
  first_stale-IsResumedAt fresh (p ∷ ps) = elim (Bool-cases (fresh p)) [
    | inl e ↦ rw e (
      (e, (first_stale-IsResumedAt fresh ps).0),
      elim (first_stale-IsResumedAt fresh ps).1 [ inl q ↦ inl (omega (arith, q)) | inr x ↦ inr x ],
    )
    | inr e ↦ rw e (tt, inr (p, refl, e))
  ]

  first_stale-le : (fresh : Phase C → Bool) (ps : List (Phase C)) → first_stale fresh ps ≤ length ps
  unfolding first_stale
  first_stale-le fresh [] = omega arith
  first_stale-le fresh (p ∷ ps) = ground (arith, first_stale-le fresh ps)

  -- where a run begins: `start` before `rerun_from` before the scan
  abbrev pub IsBegin :
      List (Phase C) → Option String → Option String → Option (Phase C → Bool) → ℕ → Type ℓ
  IsBegin ps (some s) rerun skip_fresh b = IsNamedAt ps b s
  IsBegin ps none (some s) skip_fresh b = IsNamedAt ps b s
  IsBegin ps none none (some fresh) b = IsResumedAt fresh ps b
  IsBegin ps none none none b = (b ≡ 0) × Unit {ℓ}

  -- where it ends: after the phase of that name, or after the last one
  abbrev pub IsEnd : List (Phase C) → Option String → ℕ → ℕ → Type ℓ
  IsEnd ps none b n = (b + n ≡ length ps) × Unit {ℓ}
  IsEnd ps (some s) b n = (n ≡ 0) ⊎ ((i : ℕ) × (b + n ≡ suc i) × IsNamedAt ps i s)

  abbrev pub IsSelected :
      List (Phase C)
      → Option String
      → Option String
      → Option String
      → Option (Phase C → Bool)
      → ℕ × ℕ
      → Type ℓ
  IsSelected ps start stop_after rerun_from skip_fresh (b, n) =
      (b + n ≤ length ps)
      × IsBegin ps start rerun_from skip_fresh b
      × IsEnd ps stop_after b n
      × (n ≡ 0 → b ≡ length ps)

  index-some :
      (ps : List (Phase C)) (s : String) (o : Option ℕ)
      → index ps (some s) ≡ ok o
      → (i : ℕ) × (o ≡ some i) × (i < length ps) × IsNamedAt ps i s
  unfolding ◌>>=◌
  index-some ps s o h = elim (Option-cases (index_of s ps)) [
    | inl n ↦ absurd (cc (rw n at h))
    | inr (i, n) ↦ let (below, at_i) = index_of-IsNamedAt s ps n in (i, cc (rw n at h), below, at_i)
  ]

  index-none : (ps : List (Phase C)) (o : Option ℕ) → index ps none ≡ ok o → o ≡ none
  index-none ps o h = cc

  begin_at-IsBegin :
      (ps : List (Phase C)) (start rerun : Option String) (skip_fresh : Option (Phase C → Bool))
      (si ri : Option ℕ)
      → index ps start ≡ ok si
      → index ps rerun ≡ ok ri
      → IsBegin ps start rerun skip_fresh (begin_at ps si ri skip_fresh)
        × (begin_at ps si ri skip_fresh ≤ length ps)
  begin_at-IsBegin ps (some s) rerun skip_fresh si ri h k =
      let (i, e, below, at_i) = index-some ps s si h in rw e (at_i, omega arith)
  begin_at-IsBegin ps none (some s) skip_fresh si ri h k =
      let (i, e, below, at_i) = index-some ps s ri k in
      rw (index-none ps si h, e) (at_i, omega arith)
  begin_at-IsBegin ps none none (some fresh) si ri h k =
      rw (index-none ps si h, index-none ps ri k)
        (first_stale-IsResumedAt fresh ps, first_stale-le fresh ps)
  begin_at-IsBegin ps none none none si ri h k =
      rw (index-none ps si h, index-none ps ri k) ((refl, tt), omega arith)

  end_at-IsEnd :
      (ps : List (Phase C)) (stop_after : Option String) (ti : Option ℕ) (b : ℕ)
      → index ps stop_after ≡ ok ti
      → b < length ps
      → b ≤ end_at ps ti
      → IsEnd ps stop_after b (end_at ps ti + 1 - b) × (b + (end_at ps ti + 1 - b) ≤ length ps)
  end_at-IsEnd ps none ti b h below le = rw (index-none ps ti h) ((omega arith, tt), omega arith)
  end_at-IsEnd ps (some s) ti b h below le =
      let (i, e, i_below, at_i) = index-some ps s ti h in
      let le' : b ≤ i = rw e at le in rw e (inr (i, omega arith, at_i), omega arith)

  selection-Returns :
      (ps : List (Phase C)) (start stop_after rerun_from : Option String)
      (skip_fresh : Option (Phase C → Bool))
      → Returns
          (IsSelected ps start stop_after rerun_from skip_fresh)
          (selection ps start stop_after rerun_from skip_fresh)
  unfolding selection
  selection-Returns ps start stop_after rerun_from skip_fresh = Returns-bind _ _ λ si hs.
      Returns-bind _ _ λ ti ht. Returns-bind _ _ λ ri hr.
        let b = begin_at ps si ri skip_fresh in
        let (begins, le) = begin_at-IsBegin ps start rerun_from skip_fresh si ri hs hr in
        Returns-if (leb (length ps) b) _ _
          (λ over. Returns-ok _ (empty-IsSelected stop_after b begins le (ground arith)))
          (λ under.
            Returns-if (ltb (end_at ps ti) b) _ _ (λ bad. Returns-err value_error)
              (λ good.
                let (ends, within) =
                  end_at-IsEnd ps stop_after ti b ht (ground arith) (ground arith) in
                Returns-ok _ (within, begins, ends, λ z. ground arith)))
    where
      empty-IsSelected :
          (stop_after : Option String) (b : ℕ)
          → IsBegin ps start rerun_from skip_fresh b
          → b ≤ length ps
          → length ps ≤ b
          → IsSelected ps start stop_after rerun_from skip_fresh (b, 0)
      empty-IsSelected none b begins le ge =
          (omega arith, begins, (omega arith, tt), λ z. omega arith)
      empty-IsSelected (some s) b begins le ge = (omega arith, begins, inl refl, λ z. omega arith)

  execute-names :
      (ps : List (Phase C)) (ctx : C) {ran : List String}
      → (execute ps ctx).0 ≡ ok ran
      → ran ≡ names ps
  unfolding execute
  execute-names [] ctx h = cc
  execute-names (p ∷ ps) ctx h = elim (Option-cases (p.run ctx).0) [
    | inr (e, q) ↦ absurd (cc (rw (q, execute) at h))
    | inl q ↦
        let (rest, r, same) =
          noted-eq-ok p.name (execute ps (p.run ctx).1).0 (rw (q, execute) at h) in
        same ∙ ap (λ l. p.name ∷ l) (execute-names ps (p.run ctx).1 r)
  ]

  -- each phase was called in turn, on the context that the one before left, and did not raise
  abbrev pub IsRun : List (Phase C) → C → C → Type ℓ
  IsRun [] ctx end' = (end' ≡ ctx) × Unit {ℓ}
  IsRun (p ∷ ps) ctx end' = ((p.run ctx).0 ≡ none) × IsRun ps (p.run ctx).1 end'

  execute-IsRun :
      (ps : List (Phase C)) (ctx : C) {ran : List String}
      → (execute ps ctx).0 ≡ ok ran
      → IsRun ps ctx (execute ps ctx).1
  unfolding execute
  execute-IsRun [] ctx h = (refl, tt)
  execute-IsRun (p ∷ ps) ctx h = elim (Option-cases (p.run ctx).0) [
    | inr (e, q) ↦ absurd (cc (rw (q, execute) at h))
    | inl q ↦
        let (rest, r, same) =
          noted-eq-ok p.name (execute ps (p.run ctx).1).0 (rw (q, execute) at h) in
        rw (q, execute) (refl, execute-IsRun ps (p.run ctx).1 r)
  ]

  -- a phase that does not raise
  abbrev pub IsQuiet : Phase C → Type ℓ
  IsQuiet p = (ctx : C) → (p.run ctx).0 ≡ none

  execute_total :
      (ps : List (Phase C)) (ctx : C) → All IsQuiet ps → (execute ps ctx).0 ≡ ok (names ps)
  unfolding execute
  execute_total [] ctx h = refl
  execute_total (p ∷ ps) ctx h =
      rw (h.0 ctx, execute) (ap (noted p.name) (execute_total ps (p.run ctx).1 h.1))

  take-drop_all :
      (n b : ℕ) (ps : List (Phase C)) → length ps ≤ b + n → take n (drop b ps) ≡ drop b ps
  take-drop_all n (suc b) [] h = take_empty n
    where
      take_empty : (m : ℕ) → take {A = Phase C} m [] ≡ []
      take_empty zero = refl
      take_empty (suc m) = refl
  take-drop_all n (suc b) (p ∷ ps) h = take-drop_all n b ps (omega arith)
  take-drop_all zero zero [] h = refl
  take-drop_all zero zero (p ∷ ps) h = absurd (omega arith)
  take-drop_all (suc n) zero [] h = refl
  take-drop_all (suc n) zero (p ∷ ps) h = ap (λ l. p ∷ l) (take-drop_all n zero ps (omega arith))

  All-drop : (b : ℕ) (ps : List (Phase C)) → All IsQuiet ps → All IsQuiet (drop b ps)
  All-drop zero ps h = h
  All-drop (suc b) [] h = tt
  All-drop (suc b) (p ∷ ps) h = All-drop b ps h.1

  -- A run that returns has called the phases of a slice in their order, each on the context that the one
  -- before left and none raising, and returns their names and the last context; the slice begins at the phase that
  -- `start` names, else at the one that `rerun_from` names, else at the first that is not fresh, else
  -- at the first of all, ends with the phase that `stop_after` names or with the last one; and it is
  -- empty only if it would begin behind the last phase.
  pub run_pipeline-IsSelected :
      (ps : List (Phase C)) (ctx : C) (start stop_after rerun_from : Option String)
      (skip_fresh : Option (Phase C → Bool)) (ran : List String)
      → (run_pipeline ps ctx start stop_after rerun_from skip_fresh).0 ≡ ok ran
      → (b n : ℕ) × IsSelected ps start stop_after rerun_from skip_fresh (b, n)
        × (ran ≡ names (take n (drop b ps)))
        × IsRun
            (take n (drop b ps))
            ctx
            (run_pipeline ps ctx start stop_after rerun_from skip_fresh).1
  unfolding run_pipeline
  run_pipeline-IsSelected ps ctx start stop_after rerun_from skip_fresh ran h =
      elim (Result-cases (selection ps start stop_after rerun_from skip_fresh)) [
        | inl (e, q) ↦ absurd (cc (rw (q, run_pipeline) at h))
        | inr ((b, n), q) ↦ (
          b,
          n,
          (selection-Returns ps start stop_after rerun_from skip_fresh).at (b, n) q,
          execute-names (take n (drop b ps)) ctx (rw (q, run_pipeline) at h),
          rw (q, run_pipeline) (execute-IsRun (take n (drop b ps)) ctx (rw (q, run_pipeline) at h)),
        )
      ]

  -- no stage named
  selection_default :
      (ps : List (Phase C)) (skip_fresh : Option (Phase C → Bool))
      → (n : ℕ) × (selection ps none none none skip_fresh ≡ ok (resume_at ps skip_fresh, n))
        × (length ps ≤ resume_at ps skip_fresh + n)
  unfolding selection ◌>>=◌
  selection_default ps skip_fresh = elim (Bool-cases (leb (length ps) (resume_at ps skip_fresh))) [
    | inl o ↦ (0, rw o refl, ground arith)
    | inr o ↦
        let ahead : ltb (length ps - 1) (resume_at ps skip_fresh) ≡ false = ground arith in
        (length ps - 1 + 1 - resume_at ps skip_fresh, rw (o, ahead) refl, ground arith)
  ]

  -- Where no stage is named and no phase raises, the run returns, and has called every phase from the
  -- first that is not fresh, or from the first of all without a resume test, each on the context that
  -- the one before left.
  pub run_pipeline_total :
      (ps : List (Phase C)) (ctx : C) (skip_fresh : Option (Phase C → Bool))
      → All IsQuiet ps
      → ((run_pipeline ps ctx none none none skip_fresh).0
          ≡ ok (names (drop (resume_at ps skip_fresh) ps)))
        × IsRun
            (drop (resume_at ps skip_fresh) ps)
            ctx
            (run_pipeline ps ctx none none none skip_fresh).1
  unfolding run_pipeline
  run_pipeline_total ps ctx skip_fresh quiet =
      let (n, chosen, all) = selection_default ps skip_fresh in
      let slice = take-drop_all n (resume_at ps skip_fresh) ps all in
      let ran =
        execute_total (drop (resume_at ps skip_fresh) ps) ctx
          (All-drop (resume_at ps skip_fresh) ps quiet) in
      rw (chosen, run_pipeline)
        (rw slice (ran, execute-IsRun (drop (resume_at ps skip_fresh) ps) ctx ran))
