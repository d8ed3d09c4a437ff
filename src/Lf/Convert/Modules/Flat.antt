-- ===== src/Lf/Convert/Modules/Flat.antt =====
-- The tree of modules of a package as a flat table from paths to modules, daml-lf/src/convert.rs.
use mathlib.Core.Path.{fun_ext}
use rust_daml_bindings.Base.{
  ℕ, String, none, some, List, [], ◌∷◌, ◌++◌, ok, err, str_eq, str_eq_iff, ◌≡◌, refl, sym, ap, ◌∙◌,
  subst, Bool-cases, Result-cases, inl, inr,
}
use rust_daml_bindings.Lf.Convert.{DamlModulePayload, DamlPackagePayload, resolve_dotted}
use rust_daml_bindings.Lf.Convert.Kinds.{Converted, ◌>>=◌}
use rust_daml_bindings.Lf.Convert.Data.{lift, done}
use rust_daml_bindings.Lf.Convert.Modules.{
  Routed, BuiltModule, route_all, build_leaf, install, insert_module, insert_modules,
  build_module_tree,
}
use rust_daml_bindings.Lf.Element.Module.{
  ModuleBody, DamlModule, ChildModules, node, no_child, child, body_of, empty_body, synthetic_body,
  new_root, on_body, take_body, take_from, insert_data, insert_data_type, edit_child, child_or,
  child_module_or_new, synthetic_child_or_new, walk,
}
use rust_daml_bindings.Lf.Element.Module.Tree.{
  Table, table_of, change_at, IsRooted, walk-change_at, walk-IsRooted,
}

edit_twice :
    (fresh other : DamlModule) (s : String) (f h : DamlModule → DamlModule) (cs : ChildModules)
    → edit_child other s h (edit_child fresh s f cs) ≡ edit_child fresh s (λ m. h (f m)) cs
edit_twice fresh other s f h no_child = rw ((str_eq_iff s s).1 refl) refl
edit_twice fresh other s f h (child k m cs) = elim (Bool-cases (str_eq k s)) [
  | inl e ↦ rw (e, e) refl
  | inr e ↦ rw (e, e, edit_twice fresh other s f h cs) refl
]

-- A walk from where another ended is one along both paths: what the first has made is there.
walk_on :
    (p e : List String) (f g : DamlModule → DamlModule) (m : DamlModule)
    → walk child_module_or_new p (λ c. walk synthetic_child_or_new e g (f c)) m
      ≡ walk synthetic_child_or_new (p ++ e) g (walk child_module_or_new p f m)
walk_on [] e f g m = refl
walk_on (s ∷ p) e f g (node b cs) =
    let fresh = node (empty_body (b.path ++ s ∷ [])) no_child in
    let other = node (synthetic_body (b.path ++ s ∷ [])) no_child in
    let down = walk synthetic_child_or_new (p ++ e) g in
    let here = walk child_module_or_new p f in
    ap (λ h. node b (edit_child fresh s h cs)) (fun_ext (λ m. walk_on p e f g m))
    ∙ ap (λ r. node b r) (sym (edit_twice fresh other s here down cs))

-- The routed data, each at its whole path.
abbrev route_from : List String → List Routed → DamlModule → DamlModule
route_from path [] root = root
route_from path ((extra_path, key, d) ∷ nested) root =
    route_from path nested
      (walk synthetic_child_or_new (path ++ extra_path) (insert_data_type key d) root)

install_lem :
    (path : List String) (nested : List Routed) (f : DamlModule → DamlModule) (root : DamlModule)
    → walk child_module_or_new path (λ c. route_all nested (f c)) root
      ≡ route_from path nested (walk child_module_or_new path f root)
install_lem path [] f root = refl
install_lem path ((extra_path, key, d) ∷ nested) f root =
    install_lem path nested
      (λ c. walk synthetic_child_or_new extra_path (insert_data_type key d) (f c)) root
    ∙ ap (route_from path nested) (walk_on path extra_path f (insert_data_type key d) root)

-- Every module of the tree stands at its path.
keeps_walk :
    (mk : List String → ModuleBody)
    → ((q : List String) → (mk q).path ≡ q)
    → (g : ModuleBody → ModuleBody) → ((b : ModuleBody) → (g b).path ≡ b.path)
    → (p : List String) (root : DamlModule) → IsRooted [] root
    → IsRooted [] (walk (child_or mk) p (on_body g) root)
keeps_walk mk h g k p root r = walk-IsRooted mk h g k p [] root r

route_from-IsRooted :
    (path : List String) (nested : List Routed) (root : DamlModule)
    → IsRooted [] root
    → IsRooted [] (route_from path nested root)
route_from-IsRooted path [] root r = r
route_from-IsRooted path ((extra_path, key, d) ∷ nested) root r =
    route_from-IsRooted path nested _ (
      keeps_walk synthetic_body (λ q. refl) (insert_data key d) (λ b. refl) (path ++ extra_path)
        root r)

pub install-IsRooted :
    (path : List String) (built : BuiltModule) (root : DamlModule)
    → IsRooted [] root
    → IsRooted [] (install path built root)
unfolding install
install-IsRooted path built root r =
    subst (IsRooted []) (sym (install_lem path built.routed (take_from built.leaf) root)) (
      route_from-IsRooted path built.routed _ (
        keeps_walk empty_body (λ q. refl) (take_body (body_of built.leaf)) (λ b. refl) path root r))

-- The same on tables: an entry is made or replaced at the path, its data types added to below it.
abbrev pub flat_routes : List String → List Routed → Table → Table
flat_routes path [] t = t
flat_routes path ((extra_path, key, d) ∷ nested) t =
    flat_routes path nested (change_at synthetic_body [] (path ++ extra_path) (insert_data key d) t)

abbrev pub flat_install : List String → BuiltModule → Table → Table
flat_install path built t =
    flat_routes path built.routed (change_at empty_body [] path (take_body (body_of built.leaf)) t)

table-route_from :
    (path : List String) (nested : List Routed) (root : DamlModule)
    → IsRooted [] root
    → table_of (route_from path nested root) ≡ flat_routes path nested (table_of root)
table-route_from path [] root r = refl
table-route_from path ((extra_path, key, d) ∷ nested) root r =
    table-route_from path nested _ (
      keeps_walk synthetic_body (λ q. refl) (insert_data key d) (λ b. refl) (path ++ extra_path)
        root r)
    ∙ ap (flat_routes path nested) (
        fun_ext (
          walk-change_at synthetic_body (λ q. refl) (insert_data key d) (path ++ extra_path) [] root
            r))

pub table-install :
    (path : List String) (built : BuiltModule) (root : DamlModule)
    → IsRooted [] root
    → table_of (install path built root) ≡ flat_install path built (table_of root)
unfolding install
table-install path built root r =
    let g = take_body (body_of built.leaf) in
    ap table_of (install_lem path built.routed (take_from built.leaf) root)
    ∙ (table-route_from path built.routed _
          (keeps_walk empty_body (λ q. refl) g (λ b. refl) path root r)
        ∙ ap (flat_routes path built.routed)
            (fun_ext (walk-change_at empty_body (λ q. refl) g path [] root r)))

-- What a conversion returns, changed.
abbrev pub map_converted : {A B : Type 0} → (A → B) → Converted A → Converted B
map_converted f c = c >>= λ a. done (f a)

module _ (p : DamlPackagePayload) (kind_depth depth : ℕ) where
  -- `build_module_tree` on a table.
  unfoldable pub flat_modules : List DamlModulePayload → Table → Converted Table
  unfolding build_leaf
  flat_modules [] t = done t
  flat_modules (m ∷ ms) t = do
    path ← lift (resolve_dotted p m.name_index)
    built ← build_leaf p kind_depth depth path m
    flat_modules ms (flat_install path built t)

  abbrev Agrees : List DamlModulePayload → Type 0
  Agrees ms =
      (root : DamlModule)
      → IsRooted [] root
      → map_converted table_of (insert_modules p kind_depth depth ms root)
        ≡ flat_modules ms (table_of root)

  -- One module, whatever its declarations are converted to.
  Agrees-step :
      (ms : List DamlModulePayload) (path : List String) (c : Converted BuiltModule)
      (root : DamlModule)
      → Agrees ms
      → IsRooted [] root
      → map_converted table_of (
          (c >>= λ b. done (install path b root)) >>= λ grown.
          insert_modules p kind_depth depth ms grown)
        ≡ (c >>= λ b. flat_modules ms (flat_install path b (table_of root)))
  Agrees-step ms path none root ih r = refl
  Agrees-step ms path (some (err e)) root ih r = refl
  Agrees-step ms path (some (ok b)) root ih r =
      ih (install path b root) (install-IsRooted path b root r)
      ∙ ap (flat_modules ms) (table-install path b root r)

  insert_modules-Agrees : (ms : List DamlModulePayload) → Agrees ms
  unfolding insert_modules insert_module flat_modules
  insert_modules-Agrees [] root r = refl
  insert_modules-Agrees (m ∷ ms) root r = elim (Result-cases (resolve_dotted p m.name_index)) [
    | inl (e, h) ↦ rw h refl
    | inr (path, h) ↦ rw h (
        Agrees-step ms path (build_leaf p kind_depth depth path m) root (insert_modules-Agrees ms)
          r)
  ]

  new_root-IsRooted : IsRooted [] new_root
  unfolding IsRooted
  new_root-IsRooted = (refl, tt)

  -- The tree of modules of a package is a representation of a flat table from paths to modules: on every
  -- outcome, errors included, building the tree and reading the table off it is the same as building the
  -- table, where a module replaces what stands at its path, and a missing module on the way to it or
  -- to data that is routed below it is made empty.
  pub build_module_tree-flat :
      map_converted table_of (build_module_tree p kind_depth depth)
      ≡ flat_modules p.modules (table_of new_root)
  unfolding build_module_tree
  build_module_tree-flat = insert_modules-Agrees p.modules new_root new_root-IsRooted
