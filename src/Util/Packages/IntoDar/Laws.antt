-- ===== src/Util/Packages/IntoDar/Laws.antt =====
-- The dar files that `into_dar` builds, daml-util/src/package.rs.
use mathlib.Core.List.{Perm}
use mathlib.Core.List.Perm
use rust_daml_bindings.Base.{
  ℕ, zero, suc, String, Bool, true, Option, some, List, [], ◌∷◌, ◌≡◌, refl, sym, ◌∙◌, subst, map,
  str_eq, str_eq_iff, ok, ok_inj, some_inj, Bool-cases, Option-cases, inl, inr,
}
use rust_daml_bindings.Lf.Archive.{DamlLfArchive}
use rust_daml_bindings.Lf.Manifest.{new_implied}
use rust_daml_bindings.Lf.DarFile.{DarFile}
use rust_daml_bindings.Util.Packages.IntoDar.{
  position, last_of, but_last, last_first, swap_remove, dar_of, archives_to_dar,
}

module _ {ℓ} {A : Type ℓ} where
  last_first-perm : (xs : List A) → Perm (last_first xs) xs
  last_first-perm [] = Perm.refl []
  last_first-perm (x ∷ []) = Perm.refl (x ∷ [])
  last_first-perm (x ∷ y ∷ ys) =
      Perm.trans (Perm.swap x (last_of y ys) (but_last y ys))
        (Perm.cons x (last_first-perm (y ∷ ys)))

  pair_eq :
      {a c : A} {b d : List A}
      → ◌≡◌ {A = Option (A × List A)} (some (a, b)) (some (c, d))
      → (a ≡ c) × (b ≡ d)
  pair_eq e = (cc, cc)

  swap_remove-perm :
      (xs : List A) (i : ℕ) (x : A) (rest : List A)
      → swap_remove xs i ≡ some (x, rest)
      → Perm (x ∷ rest) xs
  swap_remove-perm [] i x rest h = absurd (cc)
  swap_remove-perm (z ∷ xs) zero x rest h =
      let (e, f) = pair_eq h in rw (← e, ← f) (Perm.cons z (last_first-perm xs))
  swap_remove-perm (z ∷ xs) (suc i) x rest h = elim (Option-cases (swap_remove xs i)) [
    | inl e ↦ absurd (cc (rw (e, swap_remove) at h))
    | inr ((y, r), e) ↦
        let (e', f) = pair_eq (rw (e, swap_remove) at h) in
        rw (← e', ← f) (Perm.trans (Perm.swap z y r) (Perm.cons z (swap_remove-perm xs i y r e)))
  ]

  -- The index that `position` finds is in range.
  swap_remove-position :
      (p : A → Bool) (xs : List A) (i : ℕ)
      → position p xs ≡ some i
      → (x : A) × (rest : List A) × (swap_remove xs i ≡ some (x, rest)) × (p x ≡ true)
  swap_remove-position p [] i h = absurd (cc)
  swap_remove-position p (z ∷ xs) i h = elim (Bool-cases (p z)) [
    | inl e ↦
        let q : 0 ≡ i = some_inj (rw (e, position) at h) in (z, last_first xs, rw (← q) refl, e)
    | inr e ↦ elim (Option-cases (position p xs)) [
      | inl e' ↦ absurd (cc (rw (e, e', position) at h))
      | inr (k, e') ↦
          let q : suc k ≡ i = some_inj (rw (e, e', position) at h) in
          let (x, rest, f, g) = swap_remove-position p xs k e' in
          (x, z ∷ rest, rw (← q) (rw (f, swap_remove)), g)
    ]
  ]

-- What `archives_to_dar` makes of a list of archives.
pub record IsDarOf (dar : DarFile) (main_id : String) (archives : List DamlLfArchive) : Type 0 where
  pub main_hash : dar.main.hash ≡ main_id
  pub contents : Perm (dar.main ∷ dar.dependencies) archives
  pub manifest_main : dar.manifest.dalf_main ≡ dar.main.name
  pub manifest_dependencies :
      dar.manifest.dalf_dependencies ≡ map (λ (x : DamlLfArchive). x.name) dar.dependencies

abbrev pub has_hash : String → DamlLfArchive → Bool
has_hash id x = str_eq x.hash id

dar_of-IsDarOf :
    (x : DamlLfArchive) (rest archives : List DamlLfArchive) (id : String)
    → Perm (x ∷ rest) archives
    → has_hash id x ≡ true
    → IsDarOf (dar_of (x, rest)) id archives
unfolding new_implied
dar_of-IsDarOf x rest archives id p h = record {
  main_hash = (str_eq_iff x.hash id).0 h;
  contents = p;
  manifest_main = refl;
  manifest_dependencies = refl;
}

-- The list is not empty and one of the archives has the id: that is when a dar file comes out.
pub archives_to_dar-returns :
    (archives : List DamlLfArchive) (id : String) (i : ℕ)
    → position (has_hash id) archives ≡ some i
    → (dar : DarFile) × (archives_to_dar archives id ≡ ok dar) × IsDarOf dar id archives
unfolding archives_to_dar
archives_to_dar-returns [] id i h = absurd (cc)
archives_to_dar-returns (a ∷ l) id i h =
    let (x, rest, f, g) = swap_remove-position (has_hash id) (a ∷ l) i h in
    (
      dar_of (x, rest),
      rw (h, f) refl,
      dar_of-IsDarOf x rest (a ∷ l) id (swap_remove-perm (a ∷ l) i x rest f) g,
    )

pub archives_to_dar-IsDarOf :
    (archives : List DamlLfArchive) (id : String) (dar : DarFile)
    → archives_to_dar archives id ≡ ok dar
    → IsDarOf dar id archives
unfolding archives_to_dar
archives_to_dar-IsDarOf [] id dar h = absurd (cc)
archives_to_dar-IsDarOf (a ∷ l) id dar h = elim (Option-cases (position (has_hash id) (a ∷ l))) [
  | inl e ↦ absurd (cc (rw (e, archives_to_dar) at h))
  | inr (i, e) ↦
      let (d, f, g) = archives_to_dar-returns (a ∷ l) id i e in
      subst (λ x. IsDarOf x id (a ∷ l)) (ok_inj (sym f ∙ h)) g
]
