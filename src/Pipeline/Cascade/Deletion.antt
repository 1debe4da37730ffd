-- ===== src/Pipeline/Cascade/Deletion.antt =====
-- What an invalidation of src/pf_core/pipeline/cache.py reaches, and what it leaves.
use mathlib.Core.List.{Memᴰ}
use pf_core.Prelude.{
  String, Bool, true, false, List, [], ◌∷◌, ◌++◌, map, str_eq, eq_iff, elem, All, ◌≡◌, refl, ◌⊎◌,
  inl, inr, arith, Bool-cases, subst, sym, ap, ◌∙◌, All-of_mem, if◌then◌else◌,
}
use pf_core.Result.{ok, ◌>>=◌}
use pf_core.Pipeline.Cascade.{
  StageDefinition, names, has_duplicate, new_registry, find_stage, downstream, structural_paths,
  files_to_invalidate, delete_each, invalidate_caches,
}

-- the stages before one of a name have other names
found :
    (before : List StageDefinition) (t : StageDefinition) (after : List StageDefinition)
    → has_duplicate (names (before ++ t ∷ after)) ≡ false
    → (find_stage t.name (before ++ t ∷ after) ≡ ok t)
      × (downstream t.name (before ++ t ∷ after) ≡ ok (t ∷ after))
unfolding has_duplicate find_stage downstream
found [] t after d = (rw (self t.name) refl, rw (self t.name) refl)
  where
    self : (s : String) → str_eq s s ≡ true
    self s = ground (arith, eq_iff s s)
found (s ∷ before) t after d =
    let (f, g) = found before t after (ground (arith, d)) in
    let other = apart s.name t before after (ground (arith, d)) in (rw other f, rw other g)
  where
    apart :
        (n : String) (t : StageDefinition) (before after : List StageDefinition)
        → elem n (names (before ++ t ∷ after)) ≡ false
        → str_eq n t.name ≡ false
    apart n t [] after h = ground (arith, h)
    apart n t (b ∷ before) after h = apart n t before after (ground (arith, h))

-- In a registry that is accepted, a re-run from a stage invalidates the content-keyed files of that stage,
-- its structural files and those of the stages behind it, in this order; nothing of the stages in front
-- and no content-keyed file of the later ones.
pub files_to_invalidate_split {ℓ} :
    {P : Type ℓ} (resolve : String → P) (before : List StageDefinition) (t : StageDefinition)
    (after : List StageDefinition)
    → new_registry (before ++ t ∷ after) ≡ ok (before ++ t ∷ after)
    → files_to_invalidate resolve t.name (before ++ t ∷ after)
      ≡ ok (
          map resolve t.content_keyed_files
          ++ (map resolve t.structural_files ++ structural_paths resolve after))
unfolding new_registry files_to_invalidate structural_paths ◌>>=◌
files_to_invalidate_split resolve before t after accepted =
    elim (Bool-cases (has_duplicate (names (before ++ t ∷ after)))) [
      | inl e ↦ absurd (cc (rw e at accepted))
      | inr e ↦ let (f, g) = found before t after e in rw (f, g) refl
    ]

module _ {ℓ κ} {P : Type ℓ} {Fs : Type κ} (is_there : Fs → P → Bool)
    (remove : Fs → P → Bool × Fs) where
  -- the file systems that removals of these paths, each there at the time, lead to
  pub data Reached (ps : List P) (fs : Fs) : Fs → Type (ℓ ⊔ κ) where
    here : Reached ps fs fs
    removed :
        {mid : Fs} (p : P)
        → Reached ps fs mid
        → Memᴰ p ps
        → is_there mid p ≡ true
        → Reached ps fs (remove mid p).1

  -- gone at the end, or there at a time of the run and its removal raised then
  abbrev pub Handled : List P → Fs → Fs → P → Type (ℓ ⊔ κ)
  Handled ps fs end' p =
      ((is_there end' p ≡ false) × Unit {ℓ})
      ⊎ ((mid : Fs) × Reached ps fs mid × (is_there mid p ≡ true) × ((remove mid p).0 ≡ false))

module _ {ℓ κ} {P : Type ℓ} {Fs : Type κ} (is_there : Fs → P → Bool) (remove : Fs → P → Bool × Fs)
    (clears : (fs : Fs) (p : P) → (remove fs p).0 ≡ true → is_there (remove fs p).1 p ≡ false)
    (creates_none : (fs : Fs) (p q : P)
      → is_there fs q ≡ false
      → is_there (remove fs p).1 q ≡ false) where
  -- the state after the step for one path
  abbrev stepped : Fs → P → Fs
  stepped fs p = if is_there fs p then (remove fs p).1 else fs

  delete_each_step :
      (p : P) (ps : List P) (fs : Fs)
      → (delete_each is_there remove (p ∷ ps) fs).1
        ≡ (delete_each is_there remove ps (stepped fs p)).1
  unfolding delete_each
  delete_each_step p ps fs = elim (Bool-cases (is_there fs p)) [
    | inr e ↦ rw e refl
    | inl e ↦ elim (Bool-cases (remove fs p).0) [ inl r ↦ rw (e, r) refl | inr r ↦ rw (e, r) refl ]
  ]

  delete_each-absent :
      (ps : List P) (fs : Fs) (q : P)
      → is_there fs q ≡ false
      → is_there (delete_each is_there remove ps fs).1 q ≡ false
  delete_each-absent [] fs q h = unfold delete_each in h
  delete_each-absent (p ∷ ps) fs q h =
      ap (λ (x : Fs). is_there x q) (delete_each_step p ps fs)
      ∙ delete_each-absent ps (stepped fs p) q (elim (Bool-cases (is_there fs p)) [
        | inl e ↦ rw e (creates_none fs p q h)
        | inr e ↦ rw e h
      ])

  module _ (all : List P) (start : Fs) where
    stepped-Reached :
        (fs : Fs) (p : P)
        → Reached is_there remove all start fs
        → Memᴰ p all
        → Reached is_there remove all start (stepped fs p)
    stepped-Reached fs p r m = elim (Bool-cases (is_there fs p)) [
      | inl e ↦ rw e (Reached.removed p r m e)
      | inr e ↦ rw e r
    ]

    delete_each-Handled :
        (ps : List P) (fs : Fs)
        → Reached is_there remove all start fs
        → All (λ p. Memᴰ p all) ps
        → All (Handled is_there remove all start (delete_each is_there remove ps fs).1) ps
    delete_each-Handled [] fs r m = tt
    delete_each-Handled (p ∷ ps) fs r (m, ms) =
        subst (λ (x : Fs). All (Handled is_there remove all start x) (p ∷ ps))
          (sym (delete_each_step p ps fs))
          (first_one, delete_each-Handled ps (stepped fs p) (stepped-Reached fs p r m) ms)
      where
        gone :
            is_there (stepped fs p) p ≡ false
            → Handled is_there remove all start (delete_each is_there remove ps (stepped fs p)).1 p
        gone h = inl (delete_each-absent ps (stepped fs p) p h, tt)

        first_one :
            Handled is_there remove all start (delete_each is_there remove ps (stepped fs p)).1 p
        first_one = elim (Bool-cases (is_there fs p)) [
          | inr e ↦ gone (rw e e)
          | inl e ↦ elim (Bool-cases (remove fs p).0) [
            | inl d ↦ gone (rw e (clears fs p d))
            | inr d ↦ inr (fs, r, e, d)
          ]
        ]

  -- Where a removal that returns clears its path, and none makes a path appear: for a stage of an
  -- accepted registry invalidate_caches returns, and each path that the stage invalidates is gone, or
  -- there was a time between the removals of such paths at which it was there and its removal raises.
  pub invalidate_caches-Handled :
      (resolve : String → P) (before : List StageDefinition) (t : StageDefinition)
      (after : List StageDefinition) (fs : Fs)
      → new_registry (before ++ t ∷ after) ≡ ok (before ++ t ∷ after)
      → (deleted : List P) × (fs' : Fs) × (invalidate_caches is_there remove resolve t.name
            (before ++ t ∷ after)
            fs
          ≡ ok (deleted, fs'))
        × (let targets =
              map resolve t.content_keyed_files
              ++ (map resolve t.structural_files ++ structural_paths resolve after) in
            All (Handled is_there remove targets fs fs') targets)
  unfolding invalidate_caches ◌>>=◌
  invalidate_caches-Handled resolve before t after fs accepted =
      let targets =
        map resolve t.content_keyed_files
        ++ (map resolve t.structural_files ++ structural_paths resolve after) in
      let end = delete_each is_there remove targets fs in
      (
        end.0,
        end.1,
        rw (files_to_invalidate_split resolve before t after accepted) refl,
        delete_each-Handled targets fs targets fs Reached.here
            (All-of_mem (λ p. Memᴰ p targets) targets (λ p m. m)),
      )
