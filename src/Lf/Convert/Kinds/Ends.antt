-- ===== src/Lf/Convert/Kinds/Ends.antt =====
-- When the conversion of kinds ends, daml-lf/src/convert/typevar_payload.rs.
use rust_daml_bindings.Base.{
  ℕ, zero, suc, ◌<◌, ◌≤◌, none, some, List, [], ◌∷◌, length, get_elem?, ok, err, ◌≡◌, ◌≢◌, refl,
  arith, Option-cases, inl, inr,
}
use rust_daml_bindings.Base.Int.{ℤ, pos, negsuc}
use rust_daml_bindings.Lf.Proto.{Kind, Kinds, MaybeKind}
use rust_daml_bindings.Lf.Convert.Kinds.{
  DamlKind, Converted, and_then, convert_with, convert_params, convert_result, convert_at,
  convert_kind,
}

abbrev pub IsBelow : ℕ → ℤ → Type 0
IsBelow n (pos m) = m < n
IsBelow n (negsuc m) = Unit

-- All references of a kind to the table are as `P` says.
module _ (P : ℤ → Type 0) where
  unfoldable mutual
    pub Refers : Kind → Type 0
    Refers Kind.unset = Unit
    Refers Kind.star = Unit
    Refers Kind.nat = Unit
    Refers (Kind.arrow ps r) = ParamsRefer ps × ResultRefers r
    Refers (Kind.interned_kind i) = P i

    ParamsRefer : Kinds → Type 0
    ParamsRefer Kinds.end = Unit
    ParamsRefer (Kinds.more k ks) = Refers k × ParamsRefer ks

    ResultRefers : MaybeKind → Type 0
    ResultRefers MaybeKind.absent = Unit
    ResultRefers (MaybeKind.present k) = Refers k

abbrev Anything : ℤ → Type 0
Anything i = Unit

mutual
  unfolding Refers

  Refers-Anything : (k : Kind) → Refers Anything k
  Refers-Anything Kind.unset = tt
  Refers-Anything Kind.star = tt
  Refers-Anything Kind.nat = tt
  Refers-Anything (Kind.arrow ps r) = (Params-Anything ps, Result-Anything r)
  Refers-Anything (Kind.interned_kind i) = tt

  Params-Anything : (ks : Kinds) → ParamsRefer Anything ks
  Params-Anything Kinds.end = tt
  Params-Anything (Kinds.more k ks) = (Refers-Anything k, Params-Anything ks)

  Result-Anything : (r : MaybeKind) → ResultRefers Anything r
  Result-Anything MaybeKind.absent = tt
  Result-Anything (MaybeKind.present k) = Refers-Anything k

-- The order in which a table is written: an entry refers to entries before it.
abbrev pub IsInOrder : List Kind → Type 0
IsInOrder table = (n : ℕ) (k : Kind) → get_elem? table n ≡ some k → Refers (IsBelow n) k

pub and_then_ends :
    {A B : Type 0} (c : Converted A) (f : A → Converted B)
    → c ≢ none
    → ((a : A) → f a ≢ none)
    → and_then c f ≢ none
and_then_ends none f h g = λ e. h refl
and_then_ends (some (err x)) f h g = λ e. cc
and_then_ends (some (ok a)) f h g = g a

module _ (interned : ℤ → Converted DamlKind) (P : ℤ → Type 0)
    (ends : (i : ℤ) → P i → interned i ≢ none) where
  mutual
    unfolding convert_with Refers

    with_ends : (k : Kind) → Refers P k → convert_with interned k ≢ none
    with_ends Kind.unset b = λ e. cc
    with_ends Kind.star b = λ e. cc
    with_ends Kind.nat b = λ e. cc
    with_ends (Kind.arrow ps r) (b, c) =
        and_then_ends (convert_params interned ps) _ (params_end ps b)
          (λ p. and_then_ends (convert_result interned r) _ (result_ends r c) (λ q e. cc))
    with_ends (Kind.interned_kind i) b = ends i b

    params_end : (ks : Kinds) → ParamsRefer P ks → convert_params interned ks ≢ none
    params_end Kinds.end b = λ e. cc
    params_end (Kinds.more k ks) (b, c) =
        and_then_ends (convert_with interned k) _ (with_ends k b)
          (λ p. and_then_ends (convert_params interned ks) _ (params_end ks c) (λ q e. cc))

    result_ends : (r : MaybeKind) → ResultRefers P r → convert_result interned r ≢ none
    result_ends MaybeKind.absent b = λ e. cc
    result_ends (MaybeKind.present k) b = with_ends k b

pub absurd_below : (m n : ℕ) → m < n → n ≤ 0 → ⊥
absurd_below m n b h = omega arith

pub get_elem?-bound {ℓ} :
    {A : Type ℓ} (xs : List A) (n : ℕ) {a : A} → get_elem? xs n ≡ some a → n < length xs
get_elem?-bound [] n h = cc
get_elem?-bound (x ∷ xs) zero h = omega arith
get_elem?-bound (x ∷ xs) (suc n) h = let b = get_elem?-bound xs n h in omega arith

module _ (table : List Kind) (order : IsInOrder table) where
  at_ends :
      (depth n : ℕ) → n ≤ depth → (i : ℤ) → IsBelow n i → convert_at table (suc depth) i ≢ none
  unfolding convert_at
  at_ends depth n h (negsuc m) b = λ e. cc
  at_ends zero n h (pos m) b = elim (absurd_below m n b h) [ ]
  at_ends (suc depth) n h (pos m) b = elim (Option-cases (get_elem? table m)) [
    | inl e ↦ rw (convert_at, e) (λ f. cc)
    | inr (k, e) ↦
        rw (convert_at, e)
          (with_ends (convert_at table (suc depth)) (IsBelow m) (at_ends depth m (omega arith)) k
            (order m k e))
  ]

  any_ends : (i : ℤ) → Anything i → convert_at table (suc (suc (length table))) i ≢ none
  unfolding convert_at
  any_ends (negsuc m) b = λ e. cc
  any_ends (pos m) b = elim (Option-cases (get_elem? table m)) [
    | inl e ↦ rw (convert_at, e) (λ f. cc)
    | inr (k, e) ↦
        let bound = get_elem?-bound table m e in
        rw (convert_at, e)
          (with_ends (convert_at table (suc (length table))) (IsBelow m)
            (at_ends (length table) m (omega arith)) k (order m k e))
  ]

  -- Where each entry of the table refers to entries before it, the conversion of every kind ends, with
  -- references followed no deeper than the table is long and two more.
  pub convert_kind_ends : (k : Kind) → convert_kind table (suc (suc (length table))) k ≢ none
  unfolding convert_kind
  convert_kind_ends k =
      with_ends (convert_at table (suc (suc (length table)))) Anything any_ends k
        (Refers-Anything k)

abbrev pub self_reference : Kind
self_reference = Kind.interned_kind (pos 0)

-- A table whose entry refers to itself, as an archive may hold it, is followed without end.
pub convert_kind-self_reference :
    (depth : ℕ) → convert_kind (self_reference ∷ []) depth self_reference ≡ none
unfolding convert_kind convert_at convert_with
convert_kind-self_reference zero = refl
convert_kind-self_reference (suc depth) = convert_kind-self_reference depth
