-- ===== src/Proxy/Udp.antt =====
-- internal/proxy/socks5_udp.go: the datagrams of the UDP relay, and which of them it accepts.
pub mod Layout
pub mod Packets
pub mod Association
pub mod Resolver
use gowebfilter.Base.{
  ℕ, zero, suc, ◌+◌, ◌-◌, ◌*◌, ◌/◌, ◌%◌, ◌^◌, ◌≤◌, ◌<◌, ◌≡◌, refl, sym, ap, ap₂, ◌∙◌, subst, ◌≢◌,
  ◌↔◌, ◌⊎◌, inl, inr, Bool, true, false, ◌&&◌, ◌||◌, not, Option, none, some, List, [], ◌∷◌, ◌++◌,
  map, append-nil, append_assoc, arith, ltb, leb, ◌==◌, if◌then◌else◌, ltb→lt, lt→ltb, leb→le,
  ==_iff, Bool-cases, false≢true, Option-cases, or_else, none≢some, some_injective, length,
  length-append, take, drop, take-append-drop, length-take, get_elem?, Bytes, codes, bytes_eq,
  bytes_eq_iff, bytes_eq_refl, cut_prefix, cut_prefix-some, cut_prefix-append, is_some, has_prefix,
  trim_prefix, has_suffix, EndsIn, has_suffix_iff, has_byte, cut_byte, is_space, trim_space,
  to_lower, lower_byte, split_byte, contains, cut_text, cut_text-parts, cut_last_byte, contains_any,
  trim_suffix, is_one_of, and_then, on_some, both, not-true, is_empty, ℤ, pos, negsuc, atoi,
  atoi_two, itoa, itoa_digit, digits, IsDigit, hex_digit, hex_value, hex_value-hex_digit,
  split_byte-cons, eq_ne, is_digit, Within, Within-append, Within-cons, append_left, append_right,
  no_member, Any, any_of, any_of_iff,
}
use gowebfilter.Models.Policy.{DohConfig}
use gowebfilter.Proxy.Matching.{domain_in_list}

pub data UdpError : Type 0 where
  udp_short udp_rsv udp_fragmented udp_unsupported : UdpError

pub record UdpPacket : Type 0 where
  pub raw_addr : Bytes
  pub host : Bytes
  pub port : ℕ
  pub payload : Bytes

-- The length of the address and port behind their first two bytes.
abbrev pub address_rest : ℕ → ℕ → Option ℕ
address_rest atyp b =
    if atyp == 1
    then some 5
    else if atyp == 4
    then some 17
    else if atyp == 3
    then some (b + 2)
    else none

-- binary.BigEndian.Uint16
abbrev pub big_endian_16 : Bytes → ℕ
big_endian_16 [] = 0
big_endian_16 (a ∷ []) = 0
big_endian_16 (a ∷ b ∷ s) = a * 256 + b

-- `ip_text` is net.IP.String.
module _ (ip_text : Bytes → Bytes) where
  abbrev pub udp_host : ℕ → ℕ → Bytes → Bytes
  udp_host atyp b raw =
      if atyp == 1
      then ip_text (take 4 (drop 1 raw))
      else if atyp == 4
      then ip_text (take 16 (drop 1 raw))
      else take b (drop 2 raw)

  -- An address of n + 2 bytes and the payload behind it.
  abbrev pub split_packet : ℕ → ℕ → ℕ → Bytes → UdpError ⊎ UdpPacket
  split_packet n atyp b rest =
      let raw : Bytes = atyp ∷ b ∷ take n rest in
      if ltb (length rest) n
      then inl udp_short
      else inr (record {
        raw_addr = raw;
        host = udp_host atyp b raw;
        port = big_endian_16 (drop n raw);
        payload = drop n rest;
      })

  abbrev pub decode_address : Option ℕ → ℕ → ℕ → Bytes → UdpError ⊎ UdpPacket
  decode_address none atyp b rest = inl udp_unsupported
  decode_address (some n) atyp b rest = split_packet n atyp b rest

  unfoldable pub decode_socks_udp_packet : Bytes → UdpError ⊎ UdpPacket
  decode_socks_udp_packet (r ∷ v ∷ frag ∷ atyp ∷ b ∷ rest) =
      if not (r == 0) || not (v == 0)
      then inl udp_rsv
      else if not (frag == 0)
      then inl udp_fragmented
      else decode_address (address_rest atyp b) atyp b rest
  decode_socks_udp_packet pkt = inl udp_short

unfoldable pub encode_socks_udp_packet : Bytes → Bytes → Bytes
encode_socks_udp_packet raw payload = 0 ∷ 0 ∷ 0 ∷ (raw ++ payload)

-- dnsShouldFilter
unfoldable pub dns_should_filter : Bytes → DohConfig → Bool
unfolding domain_in_list
dns_should_filter host cfg =
    if is_empty host
    then false
    else if not (is_empty cfg.include_only)
    then domain_in_list host cfg.include_only
    else if not (is_empty cfg.exclude)
    then not (domain_in_list host cfg.exclude)
    else true

-- A resolver's answer as far as it is read: its code, the info codes of its extended errors, and the
-- addresses in its answers, as text.
pub record DnsAnswer : Type 0 where
  pub rcode : ℕ
  pub info_codes : List ℕ
  pub addresses : List Bytes

abbrev pub dns_block_addrs : List Bytes
dns_block_addrs =
    codes "0.0.0.0"
    ∷ codes "::"
    ∷ codes "127.0.0.1"
    ∷ codes "94.140.14.35"
    ∷ codes "94.140.14.36"
    ∷ codes "2a10:50c0::bad1:ff"
    ∷ codes "2a10:50c0::bad2:ff"
    ∷ []

abbrev pub is_block_code : ℕ → Bool
is_block_code code = code == 15 || code == 16 || code == 17

-- dnsResponseBlocked on the unpacked message; none where it does not unpack.
unfoldable pub dns_response_blocked : Option DnsAnswer → Bool
unfolding any_of bytes_eq
dns_response_blocked none = false
dns_response_blocked (some answer) =
    answer.rcode == 3
    || any_of is_block_code answer.info_codes
    || any_of (is_one_of dns_block_addrs) answer.addresses
