-- ===== src/Base/Int.antt =====
-- Signed integers over the native numbers, under the library's names, with their order, their
-- floor division and their decimal form.
use Prim.Native.Nat.{ℕ, zero, suc, ◌+◌, ◌-◌, ◌/◌, ◌%◌, ◌≤◌, compare, Ordering}
use Prim.Native.String.{String, ◌++◌}
use mathlib.Core.Path.{◌≡◌, refl}
use mathlib.Core.Bool.{Bool, false}
use mathlib.Core.Option.{Option, none, some}
use rust_daml_bindings.Base.Tests.{ltb, leb, ◌==◌, if◌then◌else◌}

-- `negsuc n` is -(n + 1).
pub data ℤ : Type 0 where
  pos : ℕ → ℤ
  negsuc : ℕ → ℤ

abbrev pub pos_part : ℤ → ℕ
pos_part (pos n) = n
pos_part (negsuc n) = 0

abbrev pub neg_part : ℤ → ℕ
neg_part (pos n) = 0
neg_part (negsuc n) = suc n

-- a - b, as an integer.
abbrev pub sub_ℕ : ℕ → ℕ → ℤ
sub_ℕ a b = if leb b a then pos (a - b) else negsuc (b - a - 1)

infixl 65 ◌+ℤ◌ ◌-ℤ◌
infix 50 ◌≤ℤ◌
unfoldable pub ◌+ℤ◌ : ℤ → ℤ → ℤ
a +ℤ b = sub_ℕ (pos_part a + pos_part b) (neg_part a + neg_part b)

unfoldable pub ◌-ℤ◌ : ℤ → ℤ → ℤ
a -ℤ b = sub_ℕ (pos_part a + neg_part b) (neg_part a + pos_part b)

abbrev pub ◌≤ℤ◌ : ℤ → ℤ → Type 0
a ≤ℤ b = pos_part a + neg_part b ≤ pos_part b + neg_part a

abbrev pub leb_ℤ : ℤ → ℤ → Bool
leb_ℤ a b = leb (pos_part a + neg_part b) (pos_part b + neg_part a)

-- A value of the type i32.
abbrev pub int_eq : ℤ → ℤ → Bool
int_eq (pos m) (pos n) = m == n
int_eq (negsuc m) (negsuc n) = m == n
int_eq x y = false

abbrev pub in_i32 : ℤ → Bool
in_i32 (pos n) = ltb n 2147483648
in_i32 (negsuc n) = ltb n 2147483648

-- `checked_add` of two i32.
unfoldable pub checked_add_i32 : ℤ → ℤ → Option ℤ
checked_add_i32 a b = if in_i32 (a +ℤ b) then some (a +ℤ b) else none

-- `as i32`.
unfoldable pub wrap_i32 : ℤ → ℤ
wrap_i32 (pos n) = sub_ℕ ((n + 2147483648) % 4294967296) 2147483648
wrap_i32 (negsuc n) = sub_ℕ (4294967295 - (n + 2147483648) % 4294967296) 2147483648

-- Rust's `cmp` on integers.
unfoldable pub compare_ℤ : ℤ → ℤ → Ordering
compare_ℤ (pos m) (pos n) = compare m n
compare_ℤ (pos m) (negsuc n) = Ordering.gt
compare_ℤ (negsuc m) (pos n) = Ordering.lt
compare_ℤ (negsuc m) (negsuc n) = compare n m

-- `usize::try_from` of a signed integer: the value, unless it is negative.
abbrev pub to_unsigned : ℤ → Option ℕ
to_unsigned (pos n) = some n
to_unsigned (negsuc n) = none

-- `div_euclid` and `rem_euclid` by a positive number.
abbrev pub div_euclid : ℤ → ℕ → ℤ
div_euclid (pos n) d = pos (n / d)
div_euclid (negsuc n) d = negsuc (n / d)

abbrev pub rem_euclid : ℤ → ℕ → ℕ
rem_euclid (pos n) d = n % d
rem_euclid (negsuc n) d = d - 1 - n % d

digit : ℕ → String
digit d =
    if d == 0
    then "0"
    else if d == 1
    then "1"
    else if d == 2
    then "2"
    else if d == 3
    then "3"
    else if d == 4
    then "4"
    else if d == 5
    then "5"
    else if d == 6
    then "6"
    else if d == 7
    then "7"
    else if d == 8
    then "8"
    else "9"

-- Twenty digits hold every 64 bit number.
show_digits : ℕ → ℕ → String → String
unfolding digit
show_digits zero n acc = acc
show_digits (suc fuel) n acc =
    let text = digit (n % 10) ++ acc in
    let rest = show_digits fuel (n / 10) text in if ltb n 10 then text else rest

-- `to_string` of an integer of at most 64 bits.
unfoldable pub show_ℕ : ℕ → String
unfolding show_digits
show_ℕ n = show_digits 20 n ""

unfoldable pub show_ℤ : ℤ → String
unfolding show_ℕ
show_ℤ (pos n) = show_ℕ n
show_ℤ (negsuc n) = "-" ++ show_ℕ (n + 1)

show_ℤ_runs : show_ℤ (negsuc 41) ≡ "-42"
unfolding show_ℤ
show_ℤ_runs = refl
