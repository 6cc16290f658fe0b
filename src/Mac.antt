-- ===== src/Mac.antt =====
-- internal/macutil/mac.go: the canonical form of a MAC address.
pub mod Laws
pub mod Spelling
use gowebfilter.Base.{
  ℕ, zero, suc, ◌+◌, ◌-◌, ◌*◌, ◌/◌, ◌%◌, ◌^◌, ◌≤◌, ◌<◌, ◌≡◌, refl, sym, ap, ap₂, ◌∙◌, subst, ◌≢◌,
  ◌↔◌, ◌⊎◌, inl, inr, Bool, true, false, ◌&&◌, ◌||◌, not, Option, none, some, List, [], ◌∷◌, ◌++◌,
  map, append-nil, append_assoc, arith, ltb, leb, ◌==◌, if◌then◌else◌, ltb→lt, lt→ltb, leb→le,
  ==_iff, Bool-cases, false≢true, Option-cases, or_else, none≢some, some_injective, length,
  length-append, take, drop, get_elem?, Bytes, codes, bytes_eq, bytes_eq_iff, bytes_eq_refl,
  cut_prefix, cut_prefix-some, cut_prefix-append, is_some, has_prefix, trim_prefix, has_suffix,
  EndsIn, has_suffix_iff, has_byte, cut_byte, is_space, trim_space, to_lower, lower_byte,
  split_byte, contains, is_empty, ℤ, pos, negsuc, atoi, atoi_two, itoa, itoa_digit, digits, IsDigit,
  hex_digit, hex_value, hex_value-hex_digit, split_byte-cons, eq_ne, is_digit, Within,
  Within-append, Within-cons, append_left, append_right, no_member, Any, any_of, any_of_iff,
}

-- The three cases of the switch: nothing for a separator, a lower-case hexadecimal digit, or
-- `none` for any other character.
unfoldable pub mac_char : ℕ → Option Bytes
mac_char c =
    if c == b':' || c == b'-' || c == b'.'
    then some []
    else if leb b'0' c && leb c b'9' || leb b'a' c && leb c b'f'
    then some (c ∷ [])
    else if leb b'A' c && leb c b'F'
    then some ((c - b'A' + b'a') ∷ [])
    else none

abbrev pub append_digits : Option Bytes → Option Bytes → Option Bytes
append_digits (some a) (some b) = some (a ++ b)
append_digits _ _ = none

unfoldable pub hex_digits : Bytes → Option Bytes
unfolding mac_char
hex_digits [] = some []
hex_digits (c ∷ s) = append_digits (mac_char c) (hex_digits s)

-- Pairs of digits joined by colons.
unfoldable pub join_pairs : Bytes → Bytes
join_pairs (a ∷ b ∷ c ∷ rest) = a ∷ b ∷ b':' ∷ join_pairs (c ∷ rest)
join_pairs s = s

-- The empty text stands for an address that is not well formed.
abbrev pub twelve_digits : Option Bytes → Bytes
twelve_digits none = []
twelve_digits (some h) = if length h == 12 then join_pairs h else []

unfoldable pub normalize : Bytes → Bytes
unfolding hex_digits join_pairs
normalize s = twelve_digits (hex_digits s)
