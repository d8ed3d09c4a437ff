-- ===== src/Lf/Element/Validate/Order.antt =====
-- The order in which `validate_type` looks at the type constructors of a type,
-- daml-lf/src/element/daml_archive.rs.
use rust_daml_bindings.Base.{
  ℕ, zero, suc, ◌+◌, ◌<◌, List, [], ◌∷◌, ◌++◌, ok, err, ◌≡◌, refl, sym, ap, ◌∙◌, arith,
}
use rust_daml_bindings.Lf.Error.{DamlLfConvertResult}
use rust_daml_bindings.Lf.Convert.Names.{DamlAbsoluteTyCon}
use rust_daml_bindings.Lf.Convert.Kinds.{Converted, ◌>>=◌}
use rust_daml_bindings.Lf.Convert.Types.{
  DamlType, DamlTypes, DamlStructFields, var, tycon, syn, simple, numeric, contract_id, optional,
  list, text_map, gen_map, forall_type, struct_type, nat, end, more, no_field, field,
}
use rust_daml_bindings.Lf.Convert.Data.{lift}
use rust_daml_bindings.Lf.Element.Archive.{DamlArchive}
use rust_daml_bindings.Lf.Element.Validate.{
  then_stack, check_each, push_types, push_fields, size, sizes, field_sizes, validate_tycon_name,
  type_loop, validate_type,
}

-- The type constructors of a type, each before those of its arguments, with later arguments before
-- earlier ones.
unfoldable mutual
  pub tycons : DamlType → List DamlAbsoluteTyCon
  tycons (var v ts) = tycons_of ts
  tycons (tycon c ts) = c ∷ tycons_of ts
  tycons (syn c ts) = tycons_of ts
  tycons (simple s) = []
  tycons (numeric ts) = tycons_of ts
  tycons (contract_id ts) = tycons_of ts
  tycons (optional ts) = tycons_of ts
  tycons (list ts) = tycons_of ts
  tycons (text_map ts) = tycons_of ts
  tycons (gen_map ts) = tycons_of ts
  tycons (forall_type vs t) = tycons t
  tycons (struct_type fs) = field_tycons fs
  tycons (nat n) = []

  pub tycons_of : DamlTypes → List DamlAbsoluteTyCon
  tycons_of end = []
  tycons_of (more t ts) = tycons_of ts ++ tycons t

  pub field_tycons : DamlStructFields → List DamlAbsoluteTyCon
  field_tycons no_field = []
  field_tycons (field l t fs) = field_tycons fs ++ tycons t

abbrev stack_tycons : List DamlType → List DamlAbsoluteTyCon
stack_tycons [] = []
stack_tycons (t ∷ stack) = tycons t ++ stack_tycons stack

abbrev stack_size : List DamlType → ℕ
stack_size [] = 0
stack_size (t ∷ stack) = size t + stack_size stack

append_assoc : (a b c : List DamlAbsoluteTyCon) → (a ++ b) ++ c ≡ a ++ (b ++ c)
append_assoc [] b c = refl
append_assoc (x ∷ a) b c = ap (λ l. x ∷ l) (append_assoc a b c)

pushed_tycons :
    (ts : DamlTypes) (stack : List DamlType)
    → stack_tycons (push_types ts stack) ≡ tycons_of ts ++ stack_tycons stack
unfolding tycons
pushed_tycons end stack = refl
pushed_tycons (more t ts) stack =
    pushed_tycons ts (t ∷ stack) ∙ sym (append_assoc (tycons_of ts) (tycons t) (stack_tycons stack))

pushed_field_tycons :
    (fs : DamlStructFields) (stack : List DamlType)
    → stack_tycons (push_fields fs stack) ≡ field_tycons fs ++ stack_tycons stack
unfolding tycons
pushed_field_tycons no_field stack = refl
pushed_field_tycons (field l t fs) stack =
    pushed_field_tycons fs (t ∷ stack)
    ∙ sym (append_assoc (field_tycons fs) (tycons t) (stack_tycons stack))

pushed_size :
    (ts : DamlTypes) (stack : List DamlType)
    → stack_size (push_types ts stack) ≡ sizes ts + stack_size stack
unfolding size
pushed_size end stack = omega arith
pushed_size (more t ts) stack = omega (arith, pushed_size ts (t ∷ stack))

pushed_field_size :
    (fs : DamlStructFields) (stack : List DamlType)
    → stack_size (push_fields fs stack) ≡ field_sizes fs + stack_size stack
unfolding size
pushed_field_size no_field stack = omega arith
pushed_field_size (field l t fs) stack = omega (arith, pushed_field_size fs (t ∷ stack))

module _ (a : DamlArchive) where
  abbrev pub check_names : List DamlAbsoluteTyCon → Converted (Unit {0})
  check_names = check_each (λ c. lift (validate_tycon_name a c))

  abbrev Ordered : ℕ → List DamlType → Type 0
  Ordered rounds stack = type_loop a rounds stack ≡ check_names (stack_tycons stack)

  -- The rounds after the arguments of a type are put on the stack.
  args_lem :
      (n : ℕ) (ts : DamlTypes) (stack : List DamlType)
      → ((rest : List DamlType) → stack_size rest < n → Ordered n rest)
      → sizes ts + stack_size stack < n
      → type_loop a n (push_types ts stack) ≡ check_names (tycons_of ts ++ stack_tycons stack)
  args_lem n ts stack ih h =
      ih (push_types ts stack) (omega (arith, pushed_size ts stack))
      ∙ ap check_names (pushed_tycons ts stack)

  tycon_lem :
      (n : ℕ) (stack : List DamlType) (names : List DamlAbsoluteTyCon)
      (r : DamlLfConvertResult (Unit {0}))
      → type_loop a n stack ≡ check_names names
      → (lift (then_stack stack r) >>= type_loop a n) ≡ (lift r >>= λ u. check_names names)
  tycon_lem n stack names (ok u) h = h
  tycon_lem n stack names (err e) h = refl

  pub type_loop_lem :
      (rounds : ℕ) (stack : List DamlType) → stack_size stack < rounds → Ordered rounds stack
  unfolding type_loop size tycons
  type_loop_lem zero stack h = absurd (omega arith)
  type_loop_lem (suc n) [] h = refl
  type_loop_lem (suc n) (simple s ∷ stack) h = type_loop_lem n stack (omega arith)
  type_loop_lem (suc n) (nat k ∷ stack) h = type_loop_lem n stack (omega arith)
  type_loop_lem (suc n) (tycon c ts ∷ stack) h =
      tycon_lem n (push_types ts stack) (tycons_of ts ++ stack_tycons stack)
        (validate_tycon_name a c) (args_lem n ts stack (type_loop_lem n) (omega arith))
  type_loop_lem (suc n) (var v ts ∷ stack) h = args_lem n ts stack (type_loop_lem n) (omega arith)
  type_loop_lem (suc n) (syn c ts ∷ stack) h = args_lem n ts stack (type_loop_lem n) (omega arith)
  type_loop_lem (suc n) (numeric ts ∷ stack) h = args_lem n ts stack (type_loop_lem n) (omega arith)
  type_loop_lem (suc n) (contract_id ts ∷ stack) h =
      args_lem n ts stack (type_loop_lem n) (omega arith)
  type_loop_lem (suc n) (optional ts ∷ stack) h =
      args_lem n ts stack (type_loop_lem n) (omega arith)
  type_loop_lem (suc n) (list ts ∷ stack) h = args_lem n ts stack (type_loop_lem n) (omega arith)
  type_loop_lem (suc n) (text_map ts ∷ stack) h =
      args_lem n ts stack (type_loop_lem n) (omega arith)
  type_loop_lem (suc n) (gen_map ts ∷ stack) h = args_lem n ts stack (type_loop_lem n) (omega arith)
  type_loop_lem (suc n) (forall_type vs t ∷ stack) h = type_loop_lem n (t ∷ stack) (omega arith)
  type_loop_lem (suc n) (struct_type fs ∷ stack) h =
      type_loop_lem n (push_fields fs stack) (omega (arith, pushed_field_size fs stack))
      ∙ ap check_names (pushed_field_tycons fs stack)

  append_nil : (names : List DamlAbsoluteTyCon) → names ++ [] ≡ names
  append_nil [] = refl
  append_nil (x ∷ names) = ap (λ l. x ∷ l) (append_nil names)

  -- The walk over a type with a work list comes to an end and checks exactly the type constructors of the
  -- type, in the order of `tycons`; its result, the first error included, is that of those checks.
  pub validate_type-tycons : (t : DamlType) → validate_type a t ≡ check_names (tycons t)
  unfolding validate_type
  validate_type-tycons t =
      type_loop_lem (suc (size t)) (t ∷ []) (omega arith) ∙ ap check_names (append_nil (tycons t))
