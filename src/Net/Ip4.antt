-- ===== src/Net/Ip4.antt =====
-- The addresses of IP version 4 as an instance of the interface.
use gowebfilter.Base.{
  ℕ, ◌+◌, ◌-◌, ◌*◌, ◌/◌, ◌^◌, ◌&&◌, Option, none, some, List, [], ◌∷◌, leb, ◌==◌, if◌then◌else◌,
  Bytes, bytes_eq, cut_byte, split_byte, itoa, digits,
}
use gowebfilter.Net.{Net}

-- A decimal part of a dotted quad: up to 255, with no leading zero.
abbrev octet : Bytes → Option ℕ
octet s = elim (digits s) [
  | none ↦ none
  | some n ↦ if leb n 255 && bytes_eq s (itoa n) then some n else none
]

abbrev quad : Option ℕ → Option ℕ → Option ℕ → Option ℕ → Option ℕ
quad (some a) (some b) (some c) (some d) = some (((a * 256 + b) * 256 + c) * 256 + d)
quad _ _ _ _ = none

abbrev four_parts : List Bytes → Option ℕ
four_parts (a ∷ b ∷ c ∷ d ∷ []) = quad (octet a) (octet b) (octet c) (octet d)
four_parts _ = none

unfoldable pub parse_ip4 : Bytes → Option ℕ
unfolding digits split_byte bytes_eq itoa
parse_ip4 s = four_parts (split_byte b'.' s)

-- The address with the bits behind the prefix cleared, and the prefix length.
abbrev masked : Option ℕ → Option ℕ → Option (ℕ × ℕ)
masked (some a) (some k) = if leb k 32 then some (a / 2 ^ (32 - k), k) else none
masked _ _ = none

abbrev prefix_length : Option Bytes → Option ℕ
prefix_length none = none
prefix_length (some s) = digits s

unfoldable pub parse_cidr4 : Bytes → Option (ℕ × ℕ)
unfolding parse_ip4 cut_byte digits
parse_cidr4 s = masked (parse_ip4 (cut_byte b'/' s).0) (prefix_length (cut_byte b'/' s).1)

unfoldable pub ip4 : Net
unfolding parse_ip4 parse_cidr4
ip4 = record {
  Addr = ℕ;
  Block = ℕ × ℕ;
  parse_ip = parse_ip4;
  equal = λ a b. a == b;
  parse_cidr = parse_cidr4;
  holds = λ b a. a / 2 ^ (32 - b.1) == b.0;
  ones = λ b. b.1;
  is_loopback = λ a. a / 2 ^ 24 == 127;
  is_unspecified = λ a. a == 0;
}
