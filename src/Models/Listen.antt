-- ===== src/Models/Listen.antt =====
-- internal/models/proxylisten.go: listener entries such as "tls+socks5@0.0.0.0:1080".
use gowebfilter.Base.{
  ℕ, zero, suc, ◌-◌, ◌^◌, Bool, true, false, ◌||◌, Option, none, some, List, [], ◌∷◌, ltb, ◌==◌,
  if◌then◌else◌, Bytes, codes, bytes_eq, cut_prefix, cut_byte, is_empty, ℤ, pos, negsuc, digits,
  any_of,
}
use gowebfilter.Models.Settings.{trim_blanks}

-- The modes by which a listener is known.
abbrev pub known_proxy_modes : List Bytes
known_proxy_modes =
    codes "regular"
    ∷ codes "transparent"
    ∷ codes "socks4"
    ∷ codes "socks5"
    ∷ codes "icap"
    ∷ codes "upstream"
    ∷ codes "reverse"
    ∷ codes "dns"
    ∷ codes "tun"
    ∷ codes "local"
    ∷ []

abbrev unsupported_proxy_modes : List Bytes
unsupported_proxy_modes = codes "wireguard" ∷ []

unfoldable pub is_known_mode : Bytes → Bool
unfolding any_of bytes_eq
is_known_mode m =
    any_of (λ k. bytes_eq k m) known_proxy_modes
    || any_of (λ k. bytes_eq k m) unsupported_proxy_modes

-- A base mode and whether the listener is wrapped in TLS; none for an unknown token.
unfoldable pub resolve_mode_token : Bytes → Option (Bytes × Bool)
unfolding is_known_mode cut_prefix bytes_eq
resolve_mode_token token =
    if bytes_eq token (codes "https")
    then some (codes "regular", true)
    else if bytes_eq token (codes "tls")
    then some (codes "socks5", true)
    else if bytes_eq token (codes "icaps")
    then some (codes "icap", true)
    else elim (cut_prefix token (codes "tls+")) [
      | some rest ↦ if is_known_mode rest then some (rest, true) else none
      | none ↦ if is_known_mode token then some (token, false) else none
    ]

-- The part before the last `b`, and what follows it.
unfoldable pub cut_last : ℕ → Bytes → Option (Bytes × Bytes)
cut_last b [] = none
cut_last b (a ∷ s) = elim (cut_last b s) [
  | some (front, rest) ↦ some (a ∷ front, rest)
  | none ↦ if a == b then some ([], s) else none
]

-- The number that Atoi gives with its error ignored: 0 for text that is no number, and the
-- nearest 64-bit value for a number that is out of range.
abbrev clamp_up : Option ℕ → ℤ
clamp_up none = pos 0
clamp_up (some n) = if ltb n (2 ^ 63) then pos n else pos (2 ^ 63 - 1)

abbrev clamp_down : Option ℕ → ℤ
clamp_down none = pos 0
clamp_down (some zero) = pos 0
clamp_down (some (suc n)) = if ltb n (2 ^ 63) then negsuc n else negsuc (2 ^ 63 - 1)

unfoldable pub number_of : Bytes → ℤ
unfolding digits
number_of [] = pos 0
number_of (c ∷ s) =
    if c == b'-'
    then clamp_down (digits s)
    else if c == b'+'
    then clamp_up (digits s)
    else clamp_up (digits (c ∷ s))

abbrev bracketed : Bytes → Bytes × Option Bytes → Bytes × ℤ
bracketed entry (host, none) = (entry, pos 0)
bracketed entry (host, some rest) = elim rest [
  | [] ↦ (host, pos 0)
  | c ∷ port ↦ if c == b':' then (host, number_of port) else (host, pos 0)
]

abbrev plain : Bytes → Option (Bytes × Bytes) → Bytes × ℤ
plain entry none = (entry, pos 0)
plain entry (some (host, port)) = (host, number_of port)

abbrev host_port_of : Bytes → Bytes × ℤ
host_port_of [] = ([], pos 0)
host_port_of (c ∷ s) =
    if c == b'[' then bracketed (c ∷ s) (cut_byte b']' s) else plain (c ∷ s) (cut_last b':' (c ∷ s))

-- A bare address of version 6 is split at the last colon as a plain entry is.
unfoldable pub split_host_port : Bytes → Bytes × ℤ
unfolding cut_byte cut_last number_of trim_blanks
split_host_port entry = host_port_of (trim_blanks entry)

pub record ProxyListenSpec : Type 0 where
  pub mode : Bytes
  pub tls : Bool
  pub host : Bytes
  pub port : ℤ

abbrev spec_at : Bytes → Bool → Bytes × ℤ → ProxyListenSpec
spec_at mode tls (host, port) = record { mode = mode; tls = tls; host = host; port = port }

-- An entry without a mode before an "@".
abbrev bare_entry : Bytes → ProxyListenSpec
bare_entry entry =
    if bytes_eq entry (codes "tun") || bytes_eq entry (codes "local")
    then spec_at entry false ([], pos 0)
    else spec_at (codes "regular") false (split_host_port entry)

abbrev address_of : Bytes → Bytes × ℤ
address_of [] = ([], pos 0)
address_of (c ∷ rest) = split_host_port (c ∷ rest)

abbrev entry_of : Bytes → Bytes → Option Bytes → ProxyListenSpec
entry_of entry token none = bare_entry entry
entry_of entry token (some rest) = elim (resolve_mode_token token) [
  | some (base, tls) ↦ spec_at base tls (address_of rest)
  | none ↦ bare_entry entry
]

unfoldable pub parse_listen_spec : Bytes → ProxyListenSpec
unfolding resolve_mode_token split_host_port cut_byte trim_blanks bytes_eq
parse_listen_spec entry =
    let e : Bytes = trim_blanks entry in
    if is_empty e
    then spec_at (codes "regular") false ([], pos 0)
    else entry_of e (cut_byte b'@' e).0 (cut_byte b'@' e).1

unfoldable pub parse_listen : Bytes → Bytes × Bytes × ℤ
unfolding parse_listen_spec
parse_listen entry =
    let spec : ProxyListenSpec = parse_listen_spec entry in (spec.mode, spec.host, spec.port)
