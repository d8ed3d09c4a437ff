-- ===== src/Lf/Convert/Kinds.antt =====
-- Kinds, `convert_kind` of daml-lf/src/convert/typevar_payload.rs. The source follows the references of
-- the table as deep as they go; here `none` is a conversion that has run out of its depth.
pub mod Ends
use Prim.Native.String.{◌++◌}
use rust_daml_bindings.Base.{
  ℕ, zero, suc, Option, none, some, List, [], ◌∷◌, length, get_elem?, ok, err, ◌≡◌, refl,
}
use rust_daml_bindings.Base.Int.{ℤ, pos, to_unsigned, show_ℤ, show_ℕ}
use rust_daml_bindings.Lf.Error.{DamlLfConvertResult, missing_required_field, internal_error}
use rust_daml_bindings.Lf.Proto.{Kind, Kinds, MaybeKind}

mutual
  pub data DamlKind : Type 0 where
    star nat : DamlKind
    arrow : DamlKinds → DamlKind → DamlKind

  pub data DamlKinds : Type 0 where
    end : DamlKinds
    more : DamlKind → DamlKinds → DamlKinds

abbrev pub Converted : Type 0 → Type 0
Converted A = Option (DamlLfConvertResult A)

-- `?` on a conversion.
abbrev pub and_then : {A B : Type 0} → Converted A → (A → Converted B) → Converted B
and_then none f = none
and_then (some (err e)) f = some (err e)
and_then (some (ok a)) f = f a

-- Where a conversion succeeds, so does its first part.
pub and_then-eq-ok :
    {A B : Type 0} (c : Converted A) (f : A → Converted B) {b : B}
    → and_then c f ≡ some (ok b)
    → (a : A) × (c ≡ some (ok a)) × (f a ≡ some (ok b))
and_then-eq-ok none f h = cc
and_then-eq-ok (some (err e)) f h = cc
and_then-eq-ok (some (ok a)) f h = (a, refl, h)

pub done_inj : {A : Type 0} {a b : A} → ◌≡◌ {A = Converted A} (some (ok a)) (some (ok b)) → a ≡ b
done_inj e = cc

-- `?` in `do` blocks.
infixl 5 ◌>>=◌
abbrev pub ◌>>=◌ : {A B : Type 0} → Converted A → (A → Converted B) → Converted B
c >>= f = and_then c f

-- One level, with the conversion of the references to the table.
unfoldable mutual
  pub convert_with : (ℤ → Converted DamlKind) → Kind → Converted DamlKind
  convert_with interned Kind.unset = some (err missing_required_field)
  convert_with interned Kind.star = some (ok star)
  convert_with interned Kind.nat = some (ok nat)
  convert_with interned (Kind.arrow params result) =
      and_then (convert_params interned params)
        (λ ps. and_then (convert_result interned result) (λ r. some (ok (arrow ps r))))
  convert_with interned (Kind.interned_kind i) = interned i

  pub convert_params : (ℤ → Converted DamlKind) → Kinds → Converted DamlKinds
  convert_params interned Kinds.end = some (ok end)
  convert_params interned (Kinds.more k ks) =
      and_then (convert_with interned k)
        (λ p. and_then (convert_params interned ks) (λ ps. some (ok (more p ps))))

  pub convert_result : (ℤ → Converted DamlKind) → MaybeKind → Converted DamlKind
  convert_result interned MaybeKind.absent = some (err missing_required_field)
  convert_result interned (MaybeKind.present k) = convert_with interned k

-- The kind at an index of the table, with references followed to a depth.
unfoldable pub convert_at : List Kind → ℕ → ℤ → Converted DamlKind
unfolding convert_with
convert_at table zero i = none
convert_at table (suc depth) i = elim (to_unsigned i) [
  | none ↦ some (err (internal_error ("negative interned-kind index " ++ show_ℤ i)))
  | some n ↦ elim (get_elem? table n) [
    | none ↦ some (err (internal_error ("interned-kind index " ++ (show_ℕ n ++ " out of range"))))
    | some k ↦ convert_with (convert_at table depth) k
  ]
]

unfoldable pub convert_kind : List Kind → ℕ → Kind → Converted DamlKind
unfolding convert_at convert_with
convert_kind table depth k = convert_with (convert_at table depth) k
