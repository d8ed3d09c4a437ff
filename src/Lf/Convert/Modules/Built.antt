-- ===== src/Lf/Convert/Modules/Built.antt =====
-- Which modules and which data a package has after its conversion, daml-lf/src/convert.rs.
use rust_daml_bindings.Base.{
  ℕ, String, false, Option, none, some, List, [], ◌∷◌, ◌++◌, ok, Assoc, lookup, get_elem?,
  map_option, bind_option, unwrap_or, str_eq_iff, some_inj, ◌≡◌, refl, sym, ap, ◌∙◌, subst,
}
use rust_daml_bindings.Lf.Proto.{DefTemplate, DefDataType}
use rust_daml_bindings.Lf.Convert.{DamlModulePayload, DamlPackagePayload, req, resolve_dotted}
use rust_daml_bindings.Lf.Convert.Names.{split_last}
use rust_daml_bindings.Lf.Convert.Kinds.{and_then-eq-ok, done_inj}
use rust_daml_bindings.Lf.Convert.Data.{lift, done, convert_all, build_data_type}
use rust_daml_bindings.Lf.Convert.Modules.{
  Routed, BuiltModule, BuiltDataTypes, route, build_data_types, build_synonym, build_interfaces,
  build_exceptions, check_flags, build_leaf, install, insert_module, build_module_tree,
}
use rust_daml_bindings.Lf.Convert.Modules.Flat.{
  flat_routes, map_converted, table-install, build_module_tree-flat,
}
use rust_daml_bindings.Lf.Convert.Modules.Found.{
  IsSound, IsReal, path_eq_refl, flat_modules_lem, empty_body-IsSound,
}
use rust_daml_bindings.Lf.Element.Data.{DamlData}
use rust_daml_bindings.Lf.Element.Module.{
  ModuleBody, DamlModule, body_of, new_root, empty_body, safe_flags, take_body, child_module_path,
  data_type,
}
use rust_daml_bindings.Lf.Element.Module.Tree.{Table, table_of, change_at, path_eq, IsRooted}

module _ (p : DamlPackagePayload) (kind_depth depth : ℕ) where
  root-IsSound : (q : List String) (b : ModuleBody) → table_of new_root q ≡ some b → IsSound q b
  root-IsSound [] b e = subst (IsSound []) (some_inj e) (empty_body-IsSound [])
  root-IsSound (x ∷ q) b e = cc

  built_lem :
      (root : DamlModule)
      → build_module_tree p kind_depth depth ≡ done root
      → ((q : List String) (b : ModuleBody) → table_of root q ≡ some b → IsSound q b)
        × ((n : ℕ) (m : DamlModulePayload)
            → get_elem? p.modules n ≡ some m
            → (path : List String) × (resolve_dotted p m.name_index ≡ ok path)
              × IsReal (table_of root) path)
  built_lem root h =
      let flat = sym (build_module_tree-flat p kind_depth depth) ∙ ap (map_converted table_of) h in
      let (sound, kept, found) =
        flat_modules_lem p kind_depth depth p.modules (table_of new_root) (table_of root) flat
          root-IsSound in
      (sound, found)

  -- Every module of a tree that is built, those made on the way included, has as its path the one that
  -- leads to it from the root, and has all three feature flags set.
  pub build_module_tree-IsSound :
      (root : DamlModule)
      → build_module_tree p kind_depth depth ≡ done root
      → (q : List String) (b : ModuleBody) → map_option body_of (child_module_path q root) ≡ some b
      → (b.path ≡ q) × (b.flags ≡ safe_flags)
  build_module_tree-IsSound root h q b e =
      let (sound, found) = built_lem root h in let s = sound q b e in (s.in_place, s.safe)

  -- In a tree that is built, every module of the package is found at the path that its name stands for, and
  -- it is not marked as synthetic.
  pub build_module_tree-finds :
      (root : DamlModule)
      → build_module_tree p kind_depth depth ≡ done root
      → (n : ℕ) (m : DamlModulePayload) → get_elem? p.modules n ≡ some m
      → (path : List String) × (b : ModuleBody) × (resolve_dotted p m.name_index ≡ ok path)
        × (map_option body_of (child_module_path path root) ≡ some b)
        × (b.synthetic ≡ false)
  build_module_tree-finds root h n m e =
      let (sound, found) = built_lem root h in
      let (path, r, (b, t, s)) = found n m e in (path, b, r, t, s)

-- Routed data goes below its module.
abbrev AreBelow : List Routed → Type 0
AreBelow [] = Unit
AreBelow (([], key, d) ∷ nested) = ⊥
AreBelow ((x ∷ extra_path, key, d) ∷ nested) = AreBelow nested

AreBelow-append :
    (nested more : List Routed) → AreBelow nested → AreBelow more → AreBelow (nested ++ more)
AreBelow-append [] more h k = k
AreBelow-append (([], key, d) ∷ nested) more h k = elim h [ ]
AreBelow-append ((x ∷ extra_path, key, d) ∷ nested) more h k = AreBelow-append nested more h k

route-AreBelow :
    (last_seg : String) (prefix : List String) (o : Option DamlData) (built : BuiltDataTypes)
    → AreBelow built.nested
    → AreBelow (route last_seg prefix o built).nested
route-AreBelow last_seg prefix none built h = h
route-AreBelow last_seg [] (some d) built h = h
route-AreBelow last_seg (x ∷ prefix) (some d) built h =
    AreBelow-append built.nested ((x ∷ prefix, last_seg, d) ∷ []) h tt

path_eq-longer : (p : List String) (x : String) (e : List String) → path_eq p (p ++ x ∷ e) ≡ false
path_eq-longer [] x e = refl
path_eq-longer (y ∷ p) x e = rw ((str_eq_iff y y).1 refl) (path_eq-longer p x e)

-- Data that is routed below a path leaves the entry at the path alone.
flat_routes-here :
    (path : List String) (nested : List Routed) (t : Table) (b : ModuleBody)
    → AreBelow nested
    → t path ≡ some b
    → flat_routes path nested t path ≡ some b
flat_routes-here path [] t b h e = e
flat_routes-here path (([], key, d) ∷ nested) t b h e = elim h [ ]
flat_routes-here path ((x ∷ extra_path, key, d) ∷ nested) t b h e =
    flat_routes-here path nested _ b h (rw (path_eq-longer path x extra_path, e) refl)

module _ (p : DamlPackagePayload) (kind_depth depth : ℕ) where
  build_data_types-AreBelow :
      (templates : List DefTemplate) (path : List String) (payloads : List DefDataType)
      (built out : BuiltDataTypes)
      → AreBelow built.nested
      → build_data_types p kind_depth depth templates path built payloads ≡ done out
      → AreBelow out.nested
  unfolding build_data_types
  build_data_types-AreBelow templates path [] built out h e =
      subst (λ (b : BuiltDataTypes). AreBelow b.nested) (done_inj e) h
  build_data_types-AreBelow templates path (payload ∷ payloads) built out h e =
      let (segments, a, h1) =
        and_then-eq-ok (lift (resolve_dotted p payload.name_interned_dname)) _ e in
      let (parts, b, h2) = and_then-eq-ok (lift (req (split_last segments))) _ h1 in
      let (item, c, h3) =
        and_then-eq-ok
          (build_data_type p kind_depth depth payload parts.0 (path ++ parts.1) templates) _ h2 in
      build_data_types-AreBelow templates path payloads (route parts.0 parts.1 item built) out
        (route-AreBelow parts.0 parts.1 item built h) h3

  -- What a module declares, without the data that goes below it.
  leaf-direct :
      (path : List String) (m : DamlModulePayload) (built : BuiltModule)
      → build_leaf p kind_depth depth path m ≡ done built
      → (b : BuiltDataTypes) × (build_data_types p kind_depth depth m.lf_module.templates path
            (record { direct = []; nested = [] })
            m.lf_module.data_types
          ≡ done b)
        × ((body_of built.leaf).data_types ≡ b.direct)
        × AreBelow built.routed
  unfolding build_leaf
  leaf-direct path m built h =
      let (u, a, h1) = and_then-eq-ok (check_flags p.language_version m.flags) _ h in
      let (types, b, h2) =
        and_then-eq-ok
          (build_data_types p kind_depth depth m.lf_module.templates path
            (record { direct = []; nested = [] }) m.lf_module.data_types)
          _ h1 in
      let (synonyms, c, h3) =
        and_then-eq-ok (convert_all (build_synonym p kind_depth depth path) m.lf_module.synonyms) _
          h2 in
      let (interfaces, d, h4) =
        and_then-eq-ok (build_interfaces p kind_depth depth path [] m.lf_module.interfaces) _ h3 in
      let (exceptions, e, h5) =
        and_then-eq-ok (build_exceptions p kind_depth depth path [] m.lf_module.exceptions) _ h4 in
      let below =
        build_data_types-AreBelow m.lf_module.templates path m.lf_module.data_types
          (record { direct = []; nested = [] }) types tt b in
      (
        types,
        b,
        sym (ap (λ (r : BuiltModule). (body_of r.leaf).data_types) (done_inj h5)),
        subst (λ (r : BuiltModule). AreBelow r.routed) (done_inj h5) below,
      )

  at_path :
      (path : List String) (built : BuiltModule) (root : DamlModule)
      → IsRooted [] root
      → AreBelow built.routed
      → (b : ModuleBody) × (table_of (install path built root) path ≡ some b)
        × (b.data_types ≡ (body_of built.leaf).data_types)
  at_path path built root r below =
      let g = take_body (body_of built.leaf) in
      let b = g (unwrap_or (table_of root path) (empty_body path)) in
      let here : change_at empty_body [] path g (table_of root) path ≡ some b =
        rw (path_eq_refl path) refl in
      (
        b,
        ap (λ t. t path) (table-install path built root r)
            ∙ flat_routes-here path built.routed _ b below here,
        refl,
      )

  found_data :
      (o : Option DamlModule) (b : ModuleBody) (d : Assoc DamlData)
      → map_option body_of o ≡ some b
      → b.data_types ≡ d
      → (name : String) → bind_option o (data_type name) ≡ lookup name d
  found_data none b d h e name = cc
  found_data (some m) b d h e name =
      ap (λ (c : ModuleBody). lookup name c.data_types) (some_inj h) ∙ ap (lookup name) e

  -- After a module is put into a tree, the data types that are found at its path are the ones that it
  -- declares under names of one segment. Nothing is left there of what the tree held before, whether it
  -- came from a module of the same path or was routed there from the module above.
  pub insert_module-data :
      (path : List String) (m : DamlModulePayload) (root grown : DamlModule)
      → IsRooted [] root
      → insert_module p kind_depth depth path m root ≡ done grown
      → (b : BuiltDataTypes) × (build_data_types p kind_depth depth m.lf_module.templates path
            (record { direct = []; nested = [] })
            m.lf_module.data_types
          ≡ done b)
        × ((name : String)
            → bind_option (child_module_path path grown) (data_type name) ≡ lookup name b.direct)
  unfolding insert_module
  insert_module-data path m root grown r h =
      let (built, a, h1) = and_then-eq-ok (build_leaf p kind_depth depth path m) _ h in
      let (types, c, d, below) = leaf-direct path m built a in
      let (b, there, same) = at_path path built root r below in
      let moved = ap (λ t. table_of t path) (sym (done_inj h1)) ∙ there in
      (types, c, found_data (child_module_path path grown) b types.direct moved (same ∙ d))
