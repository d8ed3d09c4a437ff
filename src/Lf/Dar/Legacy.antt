-- ===== src/Lf/Dar/Legacy.antt =====
-- Manifests made up for legacy dar files, `make_manifest_from_archive` of daml-lf/src/dar.rs.
use rust_daml_bindings.Base.{
  String, Bool, true, List, [], ◌∷◌, not, ◌&&◌, ◌||◌, keep_if, contains, contains-keep_if,
  str_eq_iff, ◌≡◌, refl, arith, subst, ok_inj, ◌∙◌, ok, ◌>>=◌,
}
use rust_daml_bindings.Lf.Manifest.{DarManifest, new_implied}
use rust_daml_bindings.Lf.Dar.{is_dalf, is_prim_dalf, legacy_paths, make_manifest_from_archive}

and_parts : (a b : Bool) → a ≡ ((a && b) || (a && not b))
and_parts a b = ground arith

-- What is listed is what meets a test and what does not.
contains-parts :
    (f : String → Bool) (p : String) (ps : List String)
    → contains p ps ≡ (contains p (keep_if f ps) || contains p (keep_if (λ q. not (f q)) ps))
contains-parts f p ps =
    rw (contains-keep_if p f ps, contains-keep_if p (λ q. not (f q)) ps)
      (and_parts (contains p ps) (f p))

single : (p q : String) → contains p (q ∷ []) ≡ true → p ≡ q
single p q h = ground (arith, str_eq_iff q p)

-- What the manifest made of the two lists of paths says of a path.
abbrev IsCovering : List String → List String → DarManifest → Type 0
IsCovering prims others m =
    (p : String)
    → ((contains p prims || contains p others) ≡ contains p (m.dalf_main ∷ m.dalf_dependencies))
      × (contains p prims ≡ true → p ≡ m.dalf_main)

IsMade : List String → List String → DarManifest → Type 0
IsMade prims others m = (legacy_paths prims others >>= λ p. ok (new_implied p.0 p.1)) ≡ ok m

legacy_paths-IsCovering :
    (prims others : List String) (m : DarManifest)
    → IsMade prims others m
    → IsCovering prims others m
unfolding IsMade legacy_paths new_implied
legacy_paths-IsCovering (p ∷ []) (q ∷ []) m h =
    subst (IsCovering (p ∷ []) (q ∷ [])) (ok_inj h) (λ r. (ground arith, single r p))
legacy_paths-IsCovering (p ∷ []) [] m h =
    subst (IsCovering (p ∷ []) []) (ok_inj h) (λ r. (ground arith, single r p))
legacy_paths-IsCovering [] (q ∷ []) m h =
    subst (IsCovering [] (q ∷ [])) (ok_inj h) (λ r. (refl, λ e. cc))
legacy_paths-IsCovering [] [] m h = cc
legacy_paths-IsCovering [] (q ∷ r ∷ rs) m h = cc
legacy_paths-IsCovering (p ∷ []) (q ∷ r ∷ rs) m h = cc
legacy_paths-IsCovering (p ∷ q ∷ ps) others m h = cc

-- Where a legacy manifest is made, it lists the dalf files among the paths and no other, and a dalf
-- file whose name ends in -prim is the main one.
pub make_manifest_from_archive-eq-ok :
    (paths : List String) (m : DarManifest)
    → make_manifest_from_archive paths ≡ ok m
    → (p : String)
    → (contains p (keep_if is_dalf paths) ≡ contains p (m.dalf_main ∷ m.dalf_dependencies))
      × ((contains p (keep_if is_dalf paths) && is_prim_dalf p) ≡ true → p ≡ m.dalf_main)
unfolding make_manifest_from_archive IsMade
make_manifest_from_archive-eq-ok paths m h p =
    let dalfs = keep_if is_dalf paths in
    let prims = keep_if is_prim_dalf dalfs in
    let others = keep_if (λ d. not (is_prim_dalf d)) dalfs in
    let (a, b) = legacy_paths-IsCovering prims others m h p in
    (contains-parts is_prim_dalf p dalfs ∙ a, λ e. b (contains-keep_if p is_prim_dalf dalfs ∙ e))
