-- ===== src/Net.antt =====
-- What the program uses of the package net: addresses and address blocks, as an interface. Its
-- clients hold for every implementation; `Ip4` is one, on dotted quads.
pub mod Ip4
use gowebfilter.Base.{
  ℕ, zero, suc, ◌+◌, ◌-◌, ◌*◌, ◌/◌, ◌%◌, ◌^◌, ◌≤◌, ◌<◌, ◌≡◌, refl, sym, ap, ap₂, ◌∙◌, subst, ◌≢◌,
  ◌↔◌, ◌⊎◌, inl, inr, Bool, true, false, ◌&&◌, ◌||◌, not, Option, none, some, List, [], ◌∷◌, ◌++◌,
  map, append-nil, append_assoc, arith, ltb, leb, ◌==◌, if◌then◌else◌, ltb→lt, lt→ltb, leb→le,
  ==_iff, Bool-cases, Option-cases, or_else, none≢some, some_injective, length, length-append, take,
  drop, get_elem?, Bytes, codes, bytes_eq, bytes_eq_iff, bytes_eq_refl, cut_prefix, cut_prefix-some,
  cut_prefix-append, is_some, has_prefix, trim_prefix, has_suffix, EndsIn, has_suffix_iff, has_byte,
  cut_byte, is_space, trim_space, to_lower, lower_byte, split_byte, contains, is_empty, ℤ, pos,
  negsuc, atoi, atoi_two, itoa, itoa_digit, digits, IsDigit, is_digit, Within, Any, any_of,
  any_of_iff,
}

pub record Net : Type 1 where
  pub Addr : Type 0
  pub Block : Type 0
  -- net.ParseIP, IP.Equal
  pub parse_ip : Bytes → Option Addr
  pub equal : Addr → Addr → Bool
  -- net.ParseCIDR, IPNet.Contains and the ones of Mask.Size
  pub parse_cidr : Bytes → Option Block
  pub holds : Block → Addr → Bool
  pub ones : Block → ℕ
  -- IP.IsLoopback, IP.IsUnspecified
  pub is_loopback : Addr → Bool
  pub is_unspecified : Addr → Bool
