-- ===== src/Codegen/Modules.antt =====
-- The modules that are rendered, daml-codegen/src: generator/module_matcher.rs, generator/separate.rs and
-- renderer/module_renderer.rs. A regular expression is its test; how a data type is rendered is left out,
-- so that a rendered module holds its body, and a written file the data types whose source it gets.
pub mod Combined
pub mod Separate
use Prim.Native.String.{◌++◌}
use rust_daml_bindings.Base.{
  ℕ, String, Bool, true, false, ◌&&◌, ◌||◌, not, Option, none, some, List, [], ◌∷◌, ◌++◌ as ◌⋄◌,
  map, any_of, str_eq, if◌then◌else◌, unwrap_or,
}
use rust_daml_bindings.Base.Text.{join}
use rust_daml_bindings.Lf.Element.Data.{DamlData}
use rust_daml_bindings.Lf.Element.Module.{
  ModuleBody, DamlModule, ChildModules, node, no_child, child, body_of,
}
use rust_daml_bindings.Lf.Element.Archive.{DamlPackage}
use rust_daml_bindings.Codegen.Names.{escape_identifier}
use rust_daml_bindings.Codegen.Types.{Casing}

abbrev pub Regex : Type 0
Regex = String → Bool

pub record ModuleMatcher : Type 0 where
  pub matchers : List Regex

abbrev pub is_empty_list {ℓ} : {A : Type ℓ} → List A → Bool
is_empty_list [] = true
is_empty_list (x ∷ xs) = false

unfoldable pub matches : ModuleMatcher → String → Bool
matches mm path =
    str_eq path "" || (is_empty_list mm.matchers || any_of (λ (re : Regex). re path) mm.matchers)

unfoldable pub to_module_path : List String → String
unfolding join
to_module_path path = join "." path

-- The last of a list, and what stands before it.
abbrev pub last : List String → Option String
last [] = none
last (x ∷ []) = some x
last (x ∷ y ∷ xs) = last (y ∷ xs)

abbrev pub all_but_last : List String → List String
all_but_last [] = []
all_but_last (x ∷ []) = []
all_but_last (x ∷ y ∷ xs) = x ∷ all_but_last (y ∷ xs)

-- `local_name`.
abbrev pub local_name : ModuleBody → String
local_name b = unwrap_or (last b.path) "root"

module _ (casing : Casing) where
  unfoldable pub to_rust_identifier : String → String
  to_rust_identifier value = escape_identifier (casing.to_snake_case value)

  abbrev pub make_filename : String → String
  make_filename name = to_rust_identifier name ++ ".rs"

  abbrev pub make_pub_mod_declaration : String → String
  make_pub_mod_declaration name = "pub mod " ++ (to_rust_identifier name ++ ";")

-- The source of a module: nothing, or a `pub mod` with its name, with or without its own declarations.
mutual
  pub data Rendered : Type 0 where
    nothing : Rendered
    pub_mod : String → Option ModuleBody → AllRendered → Rendered

  pub data AllRendered : Type 0 where
    end : AllRendered
    more : Rendered → AllRendered → AllRendered

abbrev pub children_of : DamlModule → ChildModules
children_of (node b cs) = cs

-- A file that is written: its folder, its name, the modules that it declares, and the module whose data
-- types it has.
pub record Written : Type 0 where
  pub folder : List String
  pub file : String
  pub declared : List String
  pub data_of : ModuleBody

abbrev pub all_nothing : AllRendered → Bool
all_nothing end = true
all_nothing (more nothing rs) = all_nothing rs
all_nothing (more (pub_mod n b cs) rs) = false

abbrev pub body_if : Bool → ModuleBody → Option ModuleBody
body_if render_data b = if render_data then some b else none

module _ (casing : Casing) (mm : ModuleMatcher) where
  unfoldable mutual
    unfolding matches to_module_path to_rust_identifier

    pub quote_module_tree_inner : String → DamlModule → Bool → Rendered
    quote_module_tree_inner name (node b cs) ancestor_real_included =
        let self_real_included = not b.synthetic && matches mm (to_module_path b.path) in
        let render_data = self_real_included || (b.synthetic && ancestor_real_included) in
        let all_children =
          quote_children cs (if b.synthetic then ancestor_real_included else self_real_included) in
        if not render_data && all_nothing all_children
        then nothing
        else pub_mod (to_rust_identifier casing name) (body_if render_data b) all_children

    pub quote_children : ChildModules → Bool → AllRendered
    quote_children no_child included = end
    quote_children (child k m cs) included =
        more (quote_module_tree_inner (local_name (body_of m)) m included)
          (quote_children cs included)

  unfoldable pub quote_module_tree : String → DamlModule → Rendered
  unfolding quote_module_tree_inner
  quote_module_tree name m = quote_module_tree_inner name m false

  unfoldable mutual
    unfolding matches to_module_path

    pub is_interesting_module : DamlModule → Bool
    is_interesting_module (node b cs) =
        (not (is_empty_list b.data_types) && matches mm (to_module_path b.path))
        || any_interesting cs

    pub any_interesting : ChildModules → Bool
    any_interesting no_child = false
    any_interesting (child k m cs) = is_interesting_module m || any_interesting cs

  -- The declarations of the children that are written.
  unfoldable pub declarations : ChildModules → List String
  unfolding is_interesting_module to_rust_identifier
  declarations no_child = []
  declarations (child k m cs) =
      if is_interesting_module m
      then make_pub_mod_declaration casing (local_name (body_of m)) ∷ declarations cs
      else declarations cs

  unfoldable mutual
    unfolding is_interesting_module declarations to_rust_identifier

    pub generate_module_source : String → DamlModule → List Written
    generate_module_source package_dir (node b cs) =
        record {
          folder = package_dir ∷ map (to_rust_identifier casing) (all_but_last b.path);
          file = make_filename casing (local_name b);
          declared = declarations cs;
          data_of = b;
        }
        ∷ generate_children package_dir cs

    pub generate_children : String → ChildModules → List Written
    generate_children package_dir no_child = []
    generate_children package_dir (child k m cs) =
        let here = generate_module_source package_dir m in
        let rest = generate_children package_dir cs in
        if is_interesting_module m then here ⋄ rest else rest

  -- The files of the modules of a package, without the file of the package itself.
  unfoldable pub generate_package_source : DamlPackage → List Written
  unfolding generate_module_source
  generate_package_source pkg =
      generate_children (to_rust_identifier casing pkg.name) (children_of pkg.root_module)
