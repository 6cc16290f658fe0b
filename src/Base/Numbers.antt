-- ===== src/Base/Numbers.antt =====
-- strconv.Atoi and strconv.Itoa on a 64-bit int.
use Prim.Native.Nat.{ℕ, zero, suc, ◌+◌, ◌-◌, ◌*◌, ◌/◌, ◌%◌, ◌^◌, ◌≤◌, ◌<◌}
use mathlib.Core.Path.{◌≡◌, refl}
use mathlib.Core.Bool.{Bool, ◌&&◌}
use mathlib.Core.Option.{Option, none, some}
use mathlib.Core.List.{[], ◌∷◌}
use native.Mathlib.Omega.{arith}
use gowebfilter.Base.Tests.{leb, ltb, ◌==◌, if◌then◌else◌}
use gowebfilter.Base.Text.{Bytes, codes}

-- `negsuc n` is -(n + 1).
pub data ℤ : Type 0 where
  pos : ℕ → ℤ
  negsuc : ℕ → ℤ

abbrev pub is_digit : ℕ → Bool
is_digit c = leb b'0' c && leb c b'9'

abbrev pub IsDigit : ℕ → Type 0
IsDigit c = (48 ≤ c) × (c ≤ 57)

-- The value of a run of digits, read from the left.
unfoldable pub digits_from : ℕ → Bytes → Option ℕ
digits_from n [] = some n
digits_from n (c ∷ s) =
    let rest = digits_from (n * 10 + (c - 48)) s in if is_digit c then rest else none

unfoldable pub digits : Bytes → Option ℕ
unfolding digits_from
digits [] = none
digits (c ∷ s) = digits_from 0 (c ∷ s)

abbrev non_negative : Option ℕ → Option ℤ
non_negative none = none
non_negative (some n) = if ltb n (2 ^ 63) then some (pos n) else none

abbrev non_positive : Option ℕ → Option ℤ
non_positive none = none
non_positive (some zero) = some (pos 0)
non_positive (some (suc n)) = if ltb n (2 ^ 63) then some (negsuc n) else none

-- strconv.Atoi: one optional sign, digits, an error outside the 64-bit range.
unfoldable pub atoi : Bytes → Option ℤ
unfolding digits
atoi [] = none
atoi (c ∷ s) =
    if c == b'-'
    then non_positive (digits s)
    else if c == b'+'
    then non_negative (digits s)
    else non_negative (digits (c ∷ s))

pub atoi_two :
    (a b : ℕ) → a < 10 → b < 10 → atoi ((48 + a) ∷ (48 + b) ∷ []) ≡ some (pos (a * 10 + b))
unfolding atoi digits_from
atoi_two a b p q = ground arith

itoa_fuel : ℕ → ℕ → Bytes → Bytes
itoa_fuel zero n out = out
itoa_fuel (suc f) n out =
    let rest = itoa_fuel f (n / 10) ((48 + n % 10) ∷ out) in
    if ltb n 10 then (48 + n) ∷ out else rest

-- strconv.Itoa of a number that is not negative; a round takes a digit off, so the number itself
-- is fuel enough.
unfoldable pub itoa : ℕ → Bytes
unfolding itoa_fuel
itoa n = itoa_fuel (suc n) n []

pub itoa_digit : (n : ℕ) → n < 10 → itoa n ≡ (48 + n) ∷ []
unfolding itoa
itoa_digit n h = ground arith

-- Hexadecimal digits, printed in lower case and read in both.
abbrev pub hex_digit : ℕ → ℕ
hex_digit d = if ltb d 10 then b'0' + d else b'a' + (d - 10)

unfoldable pub hex_value : ℕ → Option ℕ
hex_value c =
    if leb b'0' c && leb c b'9'
    then some (c - b'0')
    else if leb b'a' c && leb c b'f'
    then some (c - b'a' + 10)
    else if leb b'A' c && leb c b'F'
    then some (c - b'A' + 10)
    else none

pub hex_value-hex_digit : (d : ℕ) → d < 16 → hex_value (hex_digit d) ≡ some d
unfolding hex_value
hex_value-hex_digit d h = ground arith

atoi_examples :
    (atoi (codes "-12") ≡ some (negsuc 11))
    × (atoi (codes "+7") ≡ some (pos 7))
    × (atoi (codes "1x") ≡ none)
    × (atoi (codes "-0") ≡ some (pos 0))
    × (atoi (codes "9223372036854775808") ≡ none)
    × (itoa 8080 ≡ codes "8080")
unfolding atoi itoa
atoi_examples = (refl, refl, refl, refl, refl, refl)
