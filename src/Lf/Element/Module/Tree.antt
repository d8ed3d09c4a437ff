-- ===== src/Lf/Element/Module/Tree.antt =====
-- The tree of modules as a table from paths to modules, daml-lf/src/element/daml_module.rs.
use rust_daml_bindings.Base.{
  String, Bool, true, false, ◌&&◌, Option, none, some, List, [], ◌∷◌, ◌++◌, if◌then◌else◌, str_eq,
  str_eq_iff, map_option, bind_option, unwrap_or, some_inj, ◌≡◌, refl, sym, ap, ◌∙◌, subst, arith,
  Bool-cases, Option-cases, inl, inr,
}
use rust_daml_bindings.Lf.Element.Module.{
  ModuleBody, DamlModule, ChildModules, node, no_child, child, body_of, find_child,
  child_module_path, on_body, edit_child, child_or, walk,
}

abbrev pub path_eq : List String → List String → Bool
path_eq [] [] = true
path_eq [] (y ∷ q) = false
path_eq (x ∷ p) [] = false
path_eq (x ∷ p) (y ∷ q) = str_eq x y && path_eq p q

abbrev pub starts : List String → List String → Bool
starts [] q = true
starts (x ∷ p) [] = false
starts (x ∷ p) (y ∷ q) = str_eq x y && starts p q

-- What stands at each path.
abbrev pub Table : Type 0
Table = List String → Option ModuleBody

abbrev pub table_of : DamlModule → Table
table_of m p = map_option body_of (child_module_path p m)

abbrev pub or_made : Option ModuleBody → Bool → ModuleBody → Option ModuleBody
or_made (some c) made b = some c
or_made none made b = if made then some b else none

-- The entry at the path `p` changed by `g`, with every missing entry on the way made by `mk`.
abbrev pub change_at :
    (List String → ModuleBody)
    → List String
    → List String
    → (ModuleBody → ModuleBody)
    → Table
    → Table
change_at mk base p g t q =
    if path_eq q p
    then some (g (unwrap_or (t p) (mk (base ++ p))))
    else or_made (t q) (starts q p) (mk (base ++ q))

-- Every module stands where its path says, under `base`.
unfoldable mutual
  pub IsRooted : List String → DamlModule → Type 0
  IsRooted base (node b cs) = (b.path ≡ base) × AreRooted base cs

  pub AreRooted : List String → ChildModules → Type 0
  AreRooted base no_child = Unit
  AreRooted base (child k m cs) = IsRooted (base ++ k ∷ []) m × AreRooted base cs

append_assoc : (a b c : List String) → (a ++ b) ++ c ≡ a ++ (b ++ c)
append_assoc [] b c = refl
append_assoc (x ∷ a) b c = ap (λ l. x ∷ l) (append_assoc a b c)

append_nil : (a : List String) → a ++ [] ≡ a
append_nil [] = refl
append_nil (x ∷ a) = ap (λ l. x ∷ l) (append_nil a)

or_made-false : (o : Option ModuleBody) (b : ModuleBody) → or_made o false b ≡ o
or_made-false none b = refl
or_made-false (some c) b = refl

find-edit_same :
    (fresh : DamlModule) (s : String) (f : DamlModule → DamlModule) (cs : ChildModules)
    → find_child s (edit_child fresh s f cs) ≡ some (f (unwrap_or (find_child s cs) fresh))
find-edit_same fresh s f no_child = rw ((str_eq_iff s s).1 refl) refl
find-edit_same fresh s f (child k m cs) = elim (Bool-cases (str_eq k s)) [
  | inl e ↦ rw (e, e) refl
  | inr e ↦ rw (e, e) (find-edit_same fresh s f cs)
]

find-edit_other :
    (fresh : DamlModule) (s k : String) (f : DamlModule → DamlModule) (cs : ChildModules)
    → str_eq s k ≡ false
    → find_child k (edit_child fresh s f cs) ≡ find_child k cs
find-edit_other fresh s k f no_child h = rw h refl
find-edit_other fresh s k f (child j m cs) h = elim (Bool-cases (str_eq j s)) [
  | inl e ↦ rw (e, (str_eq_iff j s).0 e, h) refl
  | inr e ↦ rw (e, find-edit_other fresh s k f cs h) refl
]

AreRooted-find :
    (base : List String) (s : String) (cs : ChildModules) (m : DamlModule)
    → AreRooted base cs
    → find_child s cs ≡ some m
    → IsRooted (base ++ s ∷ []) m
unfolding IsRooted
AreRooted-find base s no_child m h e = cc
AreRooted-find base s (child k c cs) m (h, hs) e = elim (Bool-cases (str_eq k s)) [
  | inl t ↦
      let key = (str_eq_iff k s).0 t in
      subst (IsRooted (base ++ s ∷ [])) (some_inj (rw t at e))
        (subst (λ j. IsRooted (base ++ j ∷ []) c) key h)
  | inr t ↦ AreRooted-find base s cs m hs (rw t at e)
]

table_of-cons :
    (b : ModuleBody) (cs : ChildModules) (s : String) (q : List String)
    → table_of (node b cs) (s ∷ q) ≡ bind_option (find_child s cs) (λ m. table_of m q)
table_of-cons b cs s q = elim (Option-cases (find_child s cs)) [
  | inl e ↦ rw e refl
  | inr (m, e) ↦ rw e refl
]

-- A fresh module changes the way that nothing does.
change_at-fresh :
    (mk : List String → ModuleBody) (base p : List String) (g : ModuleBody → ModuleBody)
    (q : List String)
    → change_at mk base p g (table_of (node (mk base) no_child)) q
      ≡ change_at mk base p g (λ r. none) q
change_at-fresh mk base [] g [] = rw (append_nil base) refl
change_at-fresh mk base [] g (y ∷ q) = refl
change_at-fresh mk base (x ∷ p) g [] = rw (append_nil base) refl
change_at-fresh mk base (x ∷ p) g (y ∷ q) = refl

-- What is changed below a child is changed at the longer path.
change_at-cons :
    (mk : List String → ModuleBody) (base p : List String) (s : String)
    (g : ModuleBody → ModuleBody) (t u : Table) (q : List String)
    → ((r : List String) → t r ≡ u (s ∷ r))
    → change_at mk (base ++ s ∷ []) p g t q ≡ change_at mk base (s ∷ p) g u (s ∷ q)
change_at-cons mk base p s g t u q h =
    rw
      (
        h p,
        h q,
        append_assoc base (s ∷ []) p,
        append_assoc base (s ∷ []) q,
        (str_eq_iff s s).1 refl,
      )
      refl

module _ (mk : List String → ModuleBody) (mk_path : (p : List String) → (mk p).path ≡ p)
    (g : ModuleBody → ModuleBody) where
  abbrev Changes : List String → Type 0
  Changes p =
      (base : List String) (m : DamlModule)
      → IsRooted base m
      → (q : List String)
      → table_of (walk (child_or mk) p (on_body g) m) q ≡ change_at mk base p g (table_of m) q

  walk_into :
      (s : String) (p : List String) (b : ModuleBody) (cs : ChildModules)
      → Changes p
      → AreRooted b.path cs
      → (q : List String)
      → table_of
          (walk
            (child_or mk)
            p
            (on_body g)
            (unwrap_or (find_child s cs) (node (mk (b.path ++ s ∷ [])) no_child)))
          q
        ≡ change_at mk b.path (s ∷ p) g (table_of (node b cs)) (s ∷ q)
  unfolding IsRooted
  walk_into s p b cs ih hs q =
      let base = b.path ++ s ∷ [] in
      let fresh = node (mk base) no_child in
      let found = λ (o : Option DamlModule).
        table_of (walk (child_or mk) p (on_body g) (unwrap_or o fresh)) q in
      elim (Option-cases (find_child s cs)) [
        | inl e ↦
            ap found e
            ∙ (ih base fresh (mk_path base, tt) q
                ∙ (change_at-fresh mk base p g q
                    ∙ change_at-cons mk b.path p s g (λ r. none) (table_of (node b cs)) q
                        (λ r. rw e refl)))
        | inr (m, e) ↦
            ap found e
            ∙ (ih base m (AreRooted-find b.path s cs m hs e) q
                ∙ change_at-cons mk b.path p s g (table_of m) (table_of (node b cs)) q
                    (λ r. rw e refl))
      ]

  walk_beside :
      (s k : String) (p : List String) (b : ModuleBody) (cs : ChildModules) (q : List String)
      → str_eq s k ≡ false
      → table_of (walk (child_or mk) (s ∷ p) (on_body g) (node b cs)) (k ∷ q)
        ≡ change_at mk b.path (s ∷ p) g (table_of (node b cs)) (k ∷ q)
  walk_beside s k p b cs q h =
      let other : str_eq k s ≡ false = ground (arith, str_eq_iff s k, str_eq_iff k s) in
      let f = walk (child_or mk) p (on_body g) in
      rw (find-edit_other (node (mk (b.path ++ s ∷ [])) no_child) s k f cs h, other)
        (sym (or_made-false (table_of (node b cs) (k ∷ q)) (mk (b.path ++ k ∷ q))))

  pub walk-change_at : (p : List String) → Changes p
  unfolding IsRooted
  walk-change_at [] base (node b cs) h [] = refl
  walk-change_at [] base (node b cs) h (y ∷ q) =
      sym (or_made-false (table_of (node b cs) (y ∷ q)) (mk (base ++ y ∷ q)))
  walk-change_at (s ∷ p) base (node b cs) h [] = refl
  walk-change_at (s ∷ p) base (node b cs) (e, hs) (k ∷ q) =
      let f = walk (child_or mk) p (on_body g) in
      let fresh = node (mk (b.path ++ s ∷ [])) no_child in
      let rooted = subst (λ r. AreRooted r cs) (sym e) hs in
      rw (← e) (elim (Bool-cases (str_eq s k)) [
        | inl t ↦
            rw (← (str_eq_iff s k).0 t, find-edit_same fresh s f cs)
              (walk_into s p b cs (walk-change_at p) rooted q)
        | inr t ↦ walk_beside s k p b cs q t
      ])

  -- Going down a path and changing what is there keeps every module where its path says.
  module _ (g_path : (b : ModuleBody) → (g b).path ≡ b.path) where
    abbrev KeepsRooted : (DamlModule → DamlModule) → Type 0
    KeepsRooted f = (base : List String) (m : DamlModule) → IsRooted base m → IsRooted base (f m)

    edit-AreRooted :
        (s : String) (f : DamlModule → DamlModule) (base below : List String) (cs : ChildModules)
        → KeepsRooted f
        → below ≡ base ++ s ∷ []
        → AreRooted base cs
        → AreRooted base (edit_child (node (mk below) no_child) s f cs)
    unfolding IsRooted
    edit-AreRooted s f base below no_child keep e hs =
        (keep (base ++ s ∷ []) (node (mk below) no_child) (mk_path below ∙ e, tt), tt)
    edit-AreRooted s f base below (child k m cs) keep e (h, hs) = elim (Bool-cases (str_eq k s)) [
      | inl t ↦ rw t (keep (base ++ k ∷ []) m h, hs)
      | inr t ↦ rw t (h, edit-AreRooted s f base below cs keep e hs)
    ]

    pub walk-IsRooted : (p : List String) → KeepsRooted (walk (child_or mk) p (on_body g))
    unfolding IsRooted
    walk-IsRooted [] base (node b cs) (e, hs) = (g_path b ∙ e, hs)
    walk-IsRooted (s ∷ p) base (node b cs) (e, hs) = (
      e,
      edit-AreRooted s (walk (child_or mk) p (on_body g)) base (b.path ++ s ∷ []) cs
          (walk-IsRooted p) (ap (λ r. r ++ s ∷ []) e) hs,
    )
