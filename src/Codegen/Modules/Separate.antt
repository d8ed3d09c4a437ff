-- ===== src/Codegen/Modules/Separate.antt =====
-- The modules that get a file of their own, daml-codegen/src/generator/separate.rs.
use rust_daml_bindings.Base.{
  String, Bool, true, false, ◌&&◌, ◌||◌, not, List, [], ◌∷◌, ◌++◌, map, keep_if, ◌≡◌, refl, sym, ap,
  ◌∙◌, Bool-cases, inl, inr,
}
use rust_daml_bindings.Lf.Element.Module.{
  ModuleBody, DamlModule, ChildModules, node, no_child, child, body_of,
}
use rust_daml_bindings.Lf.Element.Archive.{DamlPackage}
use rust_daml_bindings.Codegen.Types.{Casing}
use rust_daml_bindings.Codegen.Modules.{
  ModuleMatcher, Written, matches, to_module_path, to_rust_identifier, is_empty_list,
  is_interesting_module, any_interesting, generate_module_source, generate_children, children_of,
  generate_package_source,
}

-- A tree and all trees in it, each before those of its children.
unfoldable mutual
  pub subtrees : DamlModule → List DamlModule
  subtrees (node b cs) = node b cs ∷ child_subtrees cs

  pub child_subtrees : ChildModules → List DamlModule
  child_subtrees no_child = []
  child_subtrees (child k m cs) = subtrees m ++ child_subtrees cs

map-append : {A B : Type 0} (f : A → B) (xs ys : List A) → map f (xs ++ ys) ≡ map f xs ++ map f ys
map-append f [] ys = refl
map-append f (x ∷ xs) ys = ap (λ l. f x ∷ l) (map-append f xs ys)

keep_if-append :
    {A : Type 0} (p : A → Bool) (xs ys : List A)
    → keep_if p (xs ++ ys) ≡ keep_if p xs ++ keep_if p ys
keep_if-append p [] ys = refl
keep_if-append p (x ∷ xs) ys = elim (Bool-cases (p x)) [
  | inl e ↦ rw (e, keep_if-append p xs ys) refl
  | inr e ↦ rw (e, keep_if-append p xs ys) refl
]

neither_left : (a b : Bool) → (a || b) ≡ false → a ≡ false
neither_left true b h = cc
neither_left false b h = refl

neither_right : (a b : Bool) → (a || b) ≡ false → b ≡ false
neither_right true b h = cc
neither_right false b h = h

module _ (casing : Casing) (mm : ModuleMatcher) where
  abbrev pub interesting_of : List DamlModule → List ModuleBody
  interesting_of ms = map body_of (keep_if (is_interesting_module casing mm) ms)

  interesting-append :
      (xs ys : List DamlModule) → interesting_of (xs ++ ys) ≡ interesting_of xs ++ interesting_of ys
  interesting-append xs ys =
      ap (map body_of) (keep_if-append (is_interesting_module casing mm) xs ys)
      ∙ map-append body_of (keep_if (is_interesting_module casing mm) xs)
          (keep_if (is_interesting_module casing mm) ys)

  mutual
    unfolding is_interesting_module subtrees

    -- Below a module that is left out nothing is interesting.
    dull_module :
        (m : DamlModule)
        → is_interesting_module casing mm m ≡ false
        → interesting_of (subtrees m) ≡ []
    dull_module (node b cs) h = rw h (
        dull_children cs (
          neither_right (not (is_empty_list b.data_types) && matches mm (to_module_path b.path))
            (any_interesting casing mm cs) h))

    dull_children :
        (cs : ChildModules)
        → any_interesting casing mm cs ≡ false
        → interesting_of (child_subtrees cs) ≡ []
    dull_children no_child h = refl
    dull_children (child k m cs) h =
        interesting-append (subtrees m) (child_subtrees cs)
        ∙ (ap (λ l. l ++ interesting_of (child_subtrees cs))
              (dull_module m
                (neither_left (is_interesting_module casing mm m) (any_interesting casing mm cs) h))
            ∙ dull_children cs (
                neither_right (is_interesting_module casing mm m) (any_interesting casing mm cs) h))

  abbrev pub bodies_written : List Written → List ModuleBody
  bodies_written = map (λ (w : Written). w.data_of)

  mutual
    unfolding generate_module_source subtrees

    source_lem :
        (dir : String) (m : DamlModule)
        → is_interesting_module casing mm m ≡ true
        → bodies_written (generate_module_source casing mm dir m) ≡ interesting_of (subtrees m)
    source_lem dir (node b cs) h = rw h (ap (λ l. b ∷ l) (sources_lem dir cs))

    sources_lem :
        (dir : String) (cs : ChildModules)
        → bodies_written (generate_children casing mm dir cs) ≡ interesting_of (child_subtrees cs)
    sources_lem dir no_child = refl
    sources_lem dir (child k m cs) = elim (Bool-cases (is_interesting_module casing mm m)) [
      | inl e ↦
          let here = generate_module_source casing mm dir m in
          rw e (
            map-append (λ (w : Written). w.data_of) here (generate_children casing mm dir cs)
            ∙ (ap (λ l. l ++ bodies_written (generate_children casing mm dir cs))
                  (source_lem dir m e)
                ∙ (ap (λ l. interesting_of (subtrees m) ++ l) (sources_lem dir cs)
                    ∙ sym (interesting-append (subtrees m) (child_subtrees cs)))))
      | inr e ↦ rw e (
          sources_lem dir cs
          ∙ (ap (λ l. l ++ interesting_of (child_subtrees cs)) (sym (dull_module m e))
              ∙ sym (interesting-append (subtrees m) (child_subtrees cs))))
    ]

  -- Where each module gets a file, the modules of a package that get one are, in the order of the tree,
  -- exactly those below the root in which or below which a module has a data type and a path that the
  -- filter matches; whether a module is synthetic is not looked at.
  pub generate_package_source-interesting :
      (pkg : DamlPackage)
      → bodies_written (generate_package_source casing mm pkg)
        ≡ interesting_of (child_subtrees (children_of pkg.root_module))
  unfolding generate_package_source
  generate_package_source-interesting pkg =
      sources_lem (to_rust_identifier casing pkg.name) (children_of pkg.root_module)
