-- ===== src/Lf/Element/Validate/Modules.antt =====
-- The modules that `validate` looks at, daml-lf/src/element/daml_archive.rs.
use rust_daml_bindings.Base.{
  ℕ, zero, suc, ◌+◌, ◌<◌, String, List, [], ◌∷◌, ◌++◌, ◌≡◌, refl, sym, ap, ◌∙◌, arith,
}
use rust_daml_bindings.Lf.Convert.Kinds.{◌>>=◌}
use rust_daml_bindings.Lf.Convert.Types.{DamlType}
use rust_daml_bindings.Lf.Element.Module.{
  ModuleBody, DamlModule, ChildModules, node, no_child, child,
}
use rust_daml_bindings.Lf.Element.Archive.{DamlPackage, DamlArchive}
use rust_daml_bindings.Lf.Element.Validate.{
  values_of, check_each, push_children, push_roots, module_count, child_count, root_count,
  validate_body, module_loop, validate,
}

-- The modules of a tree, each before its children, with later children before earlier ones.
unfoldable mutual
  pub bodies : DamlModule → List ModuleBody
  bodies (node b cs) = b ∷ child_bodies cs

  pub child_bodies : ChildModules → List ModuleBody
  child_bodies no_child = []
  child_bodies (child k m cs) = child_bodies cs ++ bodies m

abbrev pub all_bodies : List DamlPackage → List ModuleBody
all_bodies [] = []
all_bodies (pkg ∷ pkgs) = all_bodies pkgs ++ bodies pkg.root_module

abbrev stack_bodies : List DamlModule → List ModuleBody
stack_bodies [] = []
stack_bodies (m ∷ stack) = bodies m ++ stack_bodies stack

abbrev stack_count : List DamlModule → ℕ
stack_count [] = 0
stack_count (m ∷ stack) = module_count m + stack_count stack

append_assoc : (a b c : List ModuleBody) → (a ++ b) ++ c ≡ a ++ (b ++ c)
append_assoc [] b c = refl
append_assoc (x ∷ a) b c = ap (λ l. x ∷ l) (append_assoc a b c)

append_nil : (a : List ModuleBody) → a ++ [] ≡ a
append_nil [] = refl
append_nil (x ∷ a) = ap (λ l. x ∷ l) (append_nil a)

pushed_bodies :
    (cs : ChildModules) (stack : List DamlModule)
    → stack_bodies (push_children cs stack) ≡ child_bodies cs ++ stack_bodies stack
unfolding bodies
pushed_bodies no_child stack = refl
pushed_bodies (child k m cs) stack =
    pushed_bodies cs (m ∷ stack)
    ∙ sym (append_assoc (child_bodies cs) (bodies m) (stack_bodies stack))

pushed_roots :
    (pkgs : List DamlPackage) (stack : List DamlModule)
    → stack_bodies (push_roots pkgs stack) ≡ all_bodies pkgs ++ stack_bodies stack
pushed_roots [] stack = refl
pushed_roots (pkg ∷ pkgs) stack =
    pushed_roots pkgs (pkg.root_module ∷ stack)
    ∙ sym (append_assoc (all_bodies pkgs) (bodies pkg.root_module) (stack_bodies stack))

pushed_count :
    (cs : ChildModules) (stack : List DamlModule)
    → stack_count (push_children cs stack) ≡ child_count cs + stack_count stack
unfolding module_count
pushed_count no_child stack = omega arith
pushed_count (child k m cs) stack = omega (arith, pushed_count cs (m ∷ stack))

roots_count :
    (pkgs : List DamlPackage) (stack : List DamlModule)
    → stack_count (push_roots pkgs stack) ≡ root_count pkgs + stack_count stack
roots_count [] stack = omega arith
roots_count (pkg ∷ pkgs) stack = omega (arith, roots_count pkgs (pkg.root_module ∷ stack))

module _ (a : DamlArchive) (show_type : DamlType → String) where
  module_loop_lem :
      (rounds : ℕ) (stack : List DamlModule)
      → stack_count stack < rounds
      → module_loop a show_type rounds stack
        ≡ check_each (validate_body a show_type) (stack_bodies stack)
  unfolding module_loop module_count bodies
  module_loop_lem zero stack h = absurd (omega arith)
  module_loop_lem (suc n) [] h = refl
  module_loop_lem (suc n) (node b cs ∷ stack) h =
      let rest =
        module_loop_lem n (push_children cs stack) (omega (arith, pushed_count cs stack))
        ∙ ap (check_each (validate_body a show_type)) (pushed_bodies cs stack) in
      ap (λ c. validate_body a show_type b >>= λ u. c) rest

  -- The walk over the modules with a work list ends, and checks each module of each package, in order.
  pub validate-bodies :
      validate a show_type
      ≡ check_each (validate_body a show_type) (all_bodies (values_of a.packages))
  unfolding validate
  validate-bodies =
      let pkgs = values_of a.packages in
      module_loop_lem (suc (root_count pkgs)) (push_roots pkgs [])
        (omega (arith, roots_count pkgs []))
      ∙ ap (check_each (validate_body a show_type))
          (pushed_roots pkgs [] ∙ append_nil (all_bodies pkgs))
