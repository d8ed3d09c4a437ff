-- ===== src/Codegen/Modules/Combined.antt =====
-- The modules that are rendered into one file, daml-codegen/src/renderer/module_renderer.rs.
use rust_daml_bindings.Base.{
  String, Bool, true, false, ◌&&◌, ◌||◌, not, Option, none, some, List, [], ◌∷◌, ◌++◌, map, keep_if,
  if◌then◌else◌, ◌≡◌, refl, sym, ap, ◌∙◌, Bool-cases, inl, inr,
}
use rust_daml_bindings.Lf.Element.Module.{
  ModuleBody, DamlModule, ChildModules, node, no_child, child, body_of,
}
use rust_daml_bindings.Codegen.Types.{Casing}
use rust_daml_bindings.Codegen.Modules.{
  ModuleMatcher, matches, to_module_path, to_rust_identifier, local_name, Rendered, AllRendered,
  nothing, pub_mod, end, more, all_nothing, body_if, quote_module_tree_inner, quote_children,
  quote_module_tree,
}

unfoldable mutual
  pub rendered_bodies : Rendered → List ModuleBody
  rendered_bodies nothing = []
  rendered_bodies (pub_mod n none rs) = all_rendered_bodies rs
  rendered_bodies (pub_mod n (some b) rs) = b ∷ all_rendered_bodies rs

  pub all_rendered_bodies : AllRendered → List ModuleBody
  all_rendered_bodies end = []
  all_rendered_bodies (more r rs) = rendered_bodies r ++ all_rendered_bodies rs

-- A module itself, if it is real, or else the nearest real module above it.
abbrev pub nearest : Option ModuleBody → ModuleBody → Option ModuleBody
nearest above b = if b.synthetic then above else some b

-- The modules of a tree, each with its nearest real module.
unfoldable mutual
  pub with_nearest : Option ModuleBody → DamlModule → List (ModuleBody × Option ModuleBody)
  with_nearest above (node b cs) = (b, nearest above b) ∷ children_with_nearest (nearest above b) cs

  pub children_with_nearest :
      Option ModuleBody → ChildModules → List (ModuleBody × Option ModuleBody)
  children_with_nearest above no_child = []
  children_with_nearest above (child k m cs) =
      with_nearest above m ++ children_with_nearest above cs

all_nothing-bodies : (rs : AllRendered) → all_nothing rs ≡ true → all_rendered_bodies rs ≡ []
unfolding rendered_bodies
all_nothing-bodies end h = refl
all_nothing-bodies (more nothing rs) h = all_nothing-bodies rs h
all_nothing-bodies (more (pub_mod n b cs) rs) h = cc

abbrev shown : Bool → ModuleBody → List ModuleBody
shown r b = if r then b ∷ [] else []

-- Leaving out a module without anything to render loses nothing.
kept_bodies :
    (name : String) (r : Bool) (b : ModuleBody) (rs : AllRendered)
    → rendered_bodies (if not r && all_nothing rs then nothing else pub_mod name (body_if r b) rs)
      ≡ shown r b ++ all_rendered_bodies rs
unfolding rendered_bodies
kept_bodies name true b rs = refl
kept_bodies name false b rs = elim (Bool-cases (all_nothing rs)) [
  | inl e ↦ rw e (sym (all_nothing-bodies rs e))
  | inr e ↦ rw e refl
]

module _ (casing : Casing) (mm : ModuleMatcher) where
  abbrev pub is_matched : Option ModuleBody → Bool
  is_matched none = false
  is_matched (some b) = matches mm (to_module_path b.path)

  abbrev pub matched_bodies : List (ModuleBody × Option ModuleBody) → List ModuleBody
  matched_bodies entries =
      map (λ (e : ModuleBody × Option ModuleBody). e.0)
        (keep_if (λ (e : ModuleBody × Option ModuleBody). is_matched e.1) entries)

  matched_bodies-cons :
      (b : ModuleBody) (o : Option ModuleBody) (entries : List (ModuleBody × Option ModuleBody))
      → matched_bodies ((b, o) ∷ entries) ≡ shown (is_matched o) b ++ matched_bodies entries
  matched_bodies-cons b o entries = elim (Bool-cases (is_matched o)) [
    | inl e ↦ rw e refl
    | inr e ↦ rw e refl
  ]

  matched_bodies-append :
      (xs ys : List (ModuleBody × Option ModuleBody))
      → matched_bodies (xs ++ ys) ≡ matched_bodies xs ++ matched_bodies ys
  matched_bodies-append [] ys = refl
  matched_bodies-append ((b, o) ∷ xs) ys = elim (Bool-cases (is_matched o)) [
    | inl e ↦ rw (e, matched_bodies-append xs ys) refl
    | inr e ↦ rw (e, matched_bodies-append xs ys) refl
  ]

  or_false : (c : Bool) → (c || false) ≡ c
  or_false true = refl
  or_false false = refl

  -- The two flags of a module say whether its nearest real module is matched.
  self_flag :
      (synthetic included : Bool) (above : Option ModuleBody) (b : ModuleBody)
      → included ≡ is_matched above
      → b.synthetic ≡ synthetic
      → (((not b.synthetic && is_matched (some b)) || (b.synthetic && included))
          ≡ is_matched (nearest above b))
        × ((if b.synthetic then included else (not b.synthetic && is_matched (some b)))
            ≡ is_matched (nearest above b))
  self_flag true included above b h e = rw e (h, h)
  self_flag false included above b h e = rw e (or_false (matches mm (to_module_path b.path)), refl)

  mutual
    unfolding quote_module_tree_inner rendered_bodies with_nearest

    inner_lem :
        (name : String) (m : DamlModule) (included : Bool) (above : Option ModuleBody)
        → included ≡ is_matched above
        → rendered_bodies (quote_module_tree_inner casing mm name m included)
          ≡ matched_bodies (with_nearest above m)
    inner_lem name (node b cs) included above h =
        let (data_flag, child_flag) = self_flag b.synthetic included above b h refl in
        let here = nearest above b in
        let self_included = not b.synthetic && is_matched (some b) in
        let below = quote_children casing mm cs (if b.synthetic then included else self_included) in
        kept_bodies (to_rust_identifier casing name) (self_included || (b.synthetic && included)) b
          below
        ∙ (ap (λ r. shown r b ++ all_rendered_bodies below) data_flag
            ∙ (ap (λ l. shown (is_matched here) b ++ l)
                  (children_lem cs (if b.synthetic then included else self_included) here
                    child_flag)
                ∙ sym (matched_bodies-cons b here (children_with_nearest here cs))))

    children_lem :
        (cs : ChildModules) (included : Bool) (above : Option ModuleBody)
        → included ≡ is_matched above
        → all_rendered_bodies (quote_children casing mm cs included)
          ≡ matched_bodies (children_with_nearest above cs)
    children_lem no_child included above h = refl
    children_lem (child k m cs) included above h =
        ap (λ l. l ++ all_rendered_bodies (quote_children casing mm cs included))
          (inner_lem (local_name (body_of m)) m included above h)
        ∙ (ap (λ l. matched_bodies (with_nearest above m) ++ l) (children_lem cs included above h)
            ∙ sym (matched_bodies-append (with_nearest above m) (children_with_nearest above cs)))

  -- In the source of a package that is rendered into one file stand, in the order of the tree, exactly the
  -- modules whose nearest real module, themselves or one above them, is matched by the filter; the empty
  -- modules that are left out lose none of them.
  pub quote_module_tree-matched :
      (name : String) (root : DamlModule)
      → rendered_bodies (quote_module_tree casing mm name root)
        ≡ matched_bodies (with_nearest none root)
  unfolding quote_module_tree
  quote_module_tree-matched name root = inner_lem name root false none refl
