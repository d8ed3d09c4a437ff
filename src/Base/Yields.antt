-- ===== src/Base/Yields.antt =====
-- What a chain of results gives where it succeeds.
use mathlib.Core.Path.{◌≡◌, refl, subst}
use mathlib.Core.List.{List, [], ◌∷◌, map}
use rust_daml_bindings.Base.Outcome.{Result, ok_inj, ok, err, ◌>>=◌, map_results}

-- Where the result is there, it has the property.
abbrev pub Yields {ℓ κ} : {E : Type ℓ} {A : Type κ} → (A → Type 0) → Result E A → Type 0
Yields P (ok a) = P a
Yields P (err e) = Unit

pub >>=-Yields {ℓ κ μ} :
    {E : Type ℓ} {A : Type κ} {B : Type μ} (P : B → Type 0) (r : Result E A) (next : A → Result E B)
    → ((a : A) → Yields P (next a))
    → Yields P (r >>= next)
>>=-Yields P (ok a) next h = h a
>>=-Yields P (err e) next h = tt

-- Of a part that yields P, and of the rest where the part has P.
pub >>=-Yields-part {ℓ κ μ} :
    {E : Type ℓ} {A : Type κ} {B : Type μ} {P : A → Type 0} (Q : B → Type 0) (r : Result E A)
    (next : A → Result E B)
    → Yields P r
    → ((a : A) → P a → Yields Q (next a))
    → Yields Q (r >>= next)
>>=-Yields-part Q (ok a) next p h = h a p
>>=-Yields-part Q (err e) next p h = tt

pub Yields-ok {ℓ κ} :
    {E : Type ℓ} {A : Type κ} (P : A → Type 0) (r : Result E A) {a : A}
    → Yields P r
    → r ≡ ok a
    → P a
Yields-ok P (ok b) p h = subst P (ok_inj h) p
Yields-ok P (err e) p h = cc

-- What each of the results keeps of its source, the list of them keeps in order.
pub map_results-Yields {ℓ κ μ} :
    {E : Type ℓ} {A : Type κ} {B : Type μ} {C : Type 0} (f : A → Result E B) (g : A → C) (h : B → C)
    → ((a : A) → Yields (λ b. g a ≡ h b) (f a))
    → (xs : List A) → Yields (λ ys. map g xs ≡ map h ys) (map_results f xs)
map_results-Yields f g h k [] = refl
map_results-Yields f g h k (x ∷ xs) = >>=-Yields-part _ (f x) _ (k x) (λ y p.
    >>=-Yields-part _ (map_results f xs) _ (map_results-Yields f g h k xs) (λ ys q. rw (p, q) refl))
