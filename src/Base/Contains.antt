-- ===== src/Base/Contains.antt =====
-- Membership of texts in lists, by the test that the code makes.
use Prim.Native.Nat.{◌≤◌}
use Prim.Native.String.{String}
use mathlib.Core.Path.{◌≡◌, refl}
use mathlib.Core.Bool.{Bool, ◌&&◌, ◌||◌}
use mathlib.Core.List.{List, [], ◌∷◌, ◌++◌}
use native.Mathlib.Omega.{arith}
use rust_daml_bindings.Base.Tests.{str_eq_iff}
use rust_daml_bindings.Base.Lists.{length, keep_if, contains}

pub contains-append :
    (k : String) (xs ys : List String) → contains k (xs ++ ys) ≡ (contains k xs || contains k ys)
contains-append k [] ys = refl
contains-append k (x ∷ xs) ys = ground (arith, contains-append k xs ys)

pub contains-keep_if :
    (k : String) (p : String → Bool) (xs : List String)
    → contains k (keep_if p xs) ≡ (contains k xs && p k)
contains-keep_if k p [] = refl
contains-keep_if k p (x ∷ xs) = ground (arith, contains-keep_if k p xs, str_eq_iff x k)

pub length-keep_if {ℓ} :
    {A : Type ℓ} (p : A → Bool) (xs : List A) → length (keep_if p xs) ≤ length xs
length-keep_if p [] = omega arith
length-keep_if p (x ∷ xs) = ground (arith, length-keep_if p xs)
