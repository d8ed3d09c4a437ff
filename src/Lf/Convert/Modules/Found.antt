-- ===== src/Lf/Convert/Modules/Found.antt =====
-- What the tree of modules of a package holds, daml-lf/src/convert.rs.
use rust_daml_bindings.Base.{
  ℕ, zero, suc, get_elem?, String, Bool, true, false, Option, none, some, List, [], ◌∷◌, ◌++◌, ok,
  unwrap_or, str_eq_iff, some_inj, ◌≡◌, refl, sym, ap, ◌∙◌, subst, arith, Bool-cases, inl, inr,
}
use rust_daml_bindings.Lf.Convert.{
  ModuleFlags, DamlModulePayload, DamlPackagePayload, resolve_dotted,
}
use rust_daml_bindings.Lf.Convert.Kinds.{and_then-eq-ok, done_inj}
use rust_daml_bindings.Lf.Version.{LanguageVersion}
use rust_daml_bindings.Lf.Element.Data.{DamlData}
use rust_daml_bindings.Lf.Convert.Data.{lift, done, convert_all}
use rust_daml_bindings.Lf.Convert.Modules.{
  Routed, BuiltModule, build_leaf, build_data_types, build_synonym, build_interfaces,
  build_exceptions, check_flags,
}
use rust_daml_bindings.Lf.Convert.Modules.Flat.{flat_routes, flat_install, flat_modules}
use rust_daml_bindings.Lf.Element.Module.{
  ModuleBody, body_of, empty_body, synthetic_body, safe_flags, take_body, insert_data,
}
use rust_daml_bindings.Lf.Element.Module.Tree.{Table, change_at, or_made, path_eq, starts}

pub path_eq_refl : (p : List String) → path_eq p p ≡ true
path_eq_refl [] = refl
path_eq_refl (x ∷ p) = rw ((str_eq_iff x x).1 refl) (path_eq_refl p)

path_eq-true : (p q : List String) → path_eq p q ≡ true → p ≡ q
path_eq-true [] [] h = refl
path_eq-true [] (y ∷ q) h = cc
path_eq-true (x ∷ p) [] h = cc
path_eq-true (x ∷ p) (y ∷ q) h = ground (arith, str_eq_iff x y, path_eq-true p q)

-- A module as the conversion leaves it: it stands at its path, with the flags that are required.
pub record IsSound (q : List String) (b : ModuleBody) : Type 0 where
  pub in_place : b.path ≡ q
  pub safe : b.flags ≡ safe_flags

abbrev pub AllSound : Table → Type 0
AllSound t = (q : List String) (b : ModuleBody) → t q ≡ some b → IsSound q b

abbrev KeepsSound : (ModuleBody → ModuleBody) → Type 0
KeepsSound g = (q : List String) (b : ModuleBody) → IsSound q b → IsSound q (g b)

made-IsSound :
    (q : List String) (o : Option ModuleBody) (made : Bool) (c b : ModuleBody)
    → ((d : ModuleBody) → o ≡ some d → IsSound q d)
    → IsSound q c
    → or_made o made c ≡ some b
    → IsSound q b
made-IsSound q (some d) made c b h k e = subst (IsSound q) (some_inj e) (h d refl)
made-IsSound q none true c b h k e = subst (IsSound q) (some_inj e) k
made-IsSound q none false c b h k e = cc

entry-IsSound :
    (q : List String) (o : Option ModuleBody) (c : ModuleBody)
    → ((d : ModuleBody) → o ≡ some d → IsSound q d)
    → IsSound q c
    → IsSound q (unwrap_or o c)
entry-IsSound q none c h k = k
entry-IsSound q (some d) c h k = h d refl

change_at-AllSound :
    (mk : List String → ModuleBody)
    → ((q : List String) → IsSound q (mk q))
    → (g : ModuleBody → ModuleBody) → KeepsSound g
    → (p : List String) (t : Table) → AllSound t
    → AllSound (change_at mk [] p g t)
change_at-AllSound mk m g k p t h q b e = elim (Bool-cases (path_eq q p)) [
  | inl s ↦
      let found = some_inj (rw s at e) in
      let same = path_eq-true q p s in
      subst (IsSound q) found (
        subst (λ r. IsSound r (g (unwrap_or (t p) (mk p)))) (sym same)
          (k p _ (entry-IsSound p (t p) (mk p) (h p) (m p))))
  | inr s ↦ made-IsSound q (t q) (starts q p) (mk q) b (h q) (m q) (rw s at e)
]

pub empty_body-IsSound : (q : List String) → IsSound q (empty_body q)
empty_body-IsSound q = record { in_place = refl; safe = refl }

synthetic_body-IsSound : (q : List String) → IsSound q (synthetic_body q)
synthetic_body-IsSound q = record { in_place = refl; safe = refl }

insert_data-KeepsSound : (key : String) (d : DamlData) → KeepsSound (insert_data key d)
insert_data-KeepsSound key d q b h = record { in_place = h.in_place; safe = h.safe }

take_body-KeepsSound :
    (other : ModuleBody) → other.flags ≡ safe_flags → KeepsSound (take_body other)
take_body-KeepsSound other e q b h = record { in_place = h.in_place; safe = e }

-- A real module stands at the path.
abbrev pub IsReal : Table → List String → Type 0
IsReal t q = (b : ModuleBody) × (t q ≡ some b) × (b.synthetic ≡ false)

abbrev KeepsReal : (ModuleBody → ModuleBody) → Type 0
KeepsReal g = (b : ModuleBody) → b.synthetic ≡ false → (g b).synthetic ≡ false

change_at-IsReal :
    (mk : List String → ModuleBody) (g : ModuleBody → ModuleBody)
    → KeepsReal g
    → (p : List String) (t : Table) (q : List String) → IsReal t q
    → IsReal (change_at mk [] p g t) q
change_at-IsReal mk g k p t q (b, e, h) = elim (Bool-cases (path_eq q p)) [
  | inl s ↦
      let same = path_eq-true q p s in
      let there : t p ≡ some b = ap t (sym same) ∙ e in (g b, rw (s, there) refl, k b h)
  | inr s ↦ (b, rw (s, e) refl, h)
]

change_at-IsReal_there :
    (mk : List String → ModuleBody) (g : ModuleBody → ModuleBody)
    → ((b : ModuleBody) → (g b).synthetic ≡ false)
    → (p : List String) (t : Table) → IsReal (change_at mk [] p g t) p
change_at-IsReal_there mk g k p t =
    (g (unwrap_or (t p) (mk p)), rw (path_eq_refl p) refl, k (unwrap_or (t p) (mk p)))

flat_routes-AllSound :
    (path : List String) (nested : List Routed) (t : Table)
    → AllSound t
    → AllSound (flat_routes path nested t)
flat_routes-AllSound path [] t h = h
flat_routes-AllSound path ((extra_path, key, d) ∷ nested) t h = flat_routes-AllSound path nested _ (
    change_at-AllSound synthetic_body synthetic_body-IsSound (insert_data key d)
      (insert_data-KeepsSound key d) (path ++ extra_path) t h)

flat_routes-IsReal :
    (path : List String) (nested : List Routed) (t : Table) (q : List String)
    → IsReal t q
    → IsReal (flat_routes path nested t) q
flat_routes-IsReal path [] t q h = h
flat_routes-IsReal path ((extra_path, key, d) ∷ nested) t q h =
    flat_routes-IsReal path nested _ q
      (change_at-IsReal synthetic_body (insert_data key d) (λ b e. e) (path ++ extra_path) t q h)

check_flags-safe :
    (v : LanguageVersion) (flags : ModuleFlags)
    → check_flags v flags ≡ done tt
    → (flags.forbid_party_literals ≡ true)
      × (flags.dont_divulge_contract_ids_in_create_arguments ≡ true)
      × (flags.dont_disclose_non_consuming_choices_to_observers ≡ true)
unfolding check_flags
check_flags-safe v flags h = (ground arith, ground arith, ground arith)

module _ (p : DamlPackagePayload) (kind_depth depth : ℕ) where
  pub build_leaf-safe :
      (path : List String) (m : DamlModulePayload) (built : BuiltModule)
      → build_leaf p kind_depth depth path m ≡ done built
      → (body_of built.leaf).flags ≡ safe_flags
  unfolding build_leaf
  build_leaf-safe path m built h =
      let (u, a, h1) = and_then-eq-ok (check_flags p.language_version m.flags) _ h in
      let (data_types, b, h2) =
        and_then-eq-ok
          (build_data_types p kind_depth depth m.lf_module.templates path
            (record { direct = []; nested = [] }) m.lf_module.data_types)
          _ h1 in
      let (synonyms, c, h3) =
        and_then-eq-ok (convert_all (build_synonym p kind_depth depth path) m.lf_module.synonyms) _
          h2 in
      let (interfaces, d, h4) =
        and_then-eq-ok (build_interfaces p kind_depth depth path [] m.lf_module.interfaces) _ h3 in
      let (exceptions, e, h5) =
        and_then-eq-ok (build_exceptions p kind_depth depth path [] m.lf_module.exceptions) _ h4 in
      let (x, y, z) = check_flags-safe p.language_version m.flags a in
      rw (x, y, z) at (sym (ap (λ (r : BuiltModule). (body_of r.leaf).flags) (done_inj h5)))

  -- After a package is built, its modules are found at their paths.
  abbrev pub Finds : List DamlModulePayload → Table → Type 0
  Finds ms u =
      (n : ℕ) (m : DamlModulePayload)
      → get_elem? ms n ≡ some m
      → (path : List String) × (resolve_dotted p m.name_index ≡ ok path) × IsReal u path

  Finds-cons :
      (m : DamlModulePayload) (ms : List DamlModulePayload) (u : Table) (path : List String)
      → resolve_dotted p m.name_index ≡ ok path
      → IsReal u path
      → Finds ms u
      → Finds (m ∷ ms) u
  Finds-cons m ms u path e h k zero x f = (
    path,
    ap (λ (y : DamlModulePayload). resolve_dotted p y.name_index) (sym (some_inj f)) ∙ e,
    h,
  )
  Finds-cons m ms u path e h k (suc n) x f = k n x f

  pub flat_modules_lem :
      (ms : List DamlModulePayload) (t u : Table)
      → flat_modules p kind_depth depth ms t ≡ done u
      → AllSound t
      → AllSound u × ((q : List String) → IsReal t q → IsReal u q) × Finds ms u
  unfolding flat_modules
  flat_modules_lem [] t u h s =
      let e = done_inj h in (subst AllSound e s, λ q r. subst (λ v. IsReal v q) e r, λ n m f. cc)
  flat_modules_lem (m ∷ ms) t u h s =
      let (path, a, h1) = and_then-eq-ok (lift (resolve_dotted p m.name_index)) _ h in
      let (built, b, h2) = and_then-eq-ok (build_leaf p kind_depth depth path m) _ h1 in
      let safe = build_leaf-safe path m built b in
      let g = take_body (body_of built.leaf) in
      let sound = flat_routes-AllSound path built.routed _ (
        change_at-AllSound empty_body empty_body-IsSound g
          (take_body-KeepsSound (body_of built.leaf) safe) path t s) in
      let (all, kept, rest) = flat_modules_lem ms (flat_install path built t) u h2 sound in
      let here = kept path (
        flat_routes-IsReal path built.routed _ path
          (change_at-IsReal_there empty_body g (λ c. refl) path t)) in
      (
        all,
        λ q r. kept q (
            flat_routes-IsReal path built.routed _ q
              (change_at-IsReal empty_body g (λ c k. refl) path t q r)),
        Finds-cons m ms u path (some_inj a) here rest,
      )
