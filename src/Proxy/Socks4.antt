-- ===== src/Proxy/Socks4.antt =====
-- internal/proxy/socks4.go: the server's side of a SOCKS4 and SOCKS4a handshake.
pub mod Laws
use gowebfilter.Base.{
  ℕ, zero, suc, ◌+◌, ◌-◌, ◌*◌, ◌/◌, ◌%◌, ◌^◌, ◌≤◌, ◌<◌, ◌≡◌, refl, sym, ap, ap₂, ◌∙◌, subst, ◌≢◌,
  ◌↔◌, ◌⊎◌, inl, inr, Bool, true, false, ◌&&◌, ◌||◌, not, Option, none, some, List, [], ◌∷◌, ◌++◌,
  map, append-nil, append_assoc, arith, ltb, leb, ◌==◌, if◌then◌else◌, ltb→lt, lt→ltb, leb→le,
  ==_iff, Bool-cases, false≢true, Option-cases, or_else, none≢some, some_injective, length,
  length-append, take, drop, get_elem?, Bytes, codes, bytes_eq, bytes_eq_iff, bytes_eq_refl,
  cut_prefix, cut_prefix-some, cut_prefix-append, is_some, has_prefix, trim_prefix, has_suffix,
  EndsIn, has_suffix_iff, has_byte, cut_byte, is_space, trim_space, to_lower, lower_byte,
  split_byte, contains, is_empty, ℤ, pos, negsuc, atoi, atoi_two, itoa, itoa_digit, digits, IsDigit,
  hex_digit, hex_value, hex_value-hex_digit, split_byte-cons, eq_ne, is_digit, Within,
  Within-append, Within-cons, append_left, append_right, no_member, Any, any_of, any_of_iff,
}
use gowebfilter.Proxy.Socks.{Gate, Handshake, close_with, tunnel}

-- ReadBytes(0x00), without the terminator that it ends with.
unfoldable pub read_to_nul : Bytes → Option (Bytes × Bytes)
read_to_nul [] = none
read_to_nul (c ∷ s) =
    let rest = read_to_nul s in
    if c == 0
    then some ([], s)
    else elim rest [ none ↦ none | some (text, after) ↦ some (c ∷ text, after) ]

-- writeSocks4Reply
abbrev pub socks4_reply : ℕ → Bytes
socks4_reply code = 0x00 ∷ code ∷ 0 ∷ 0 ∷ 0 ∷ 0 ∷ 0 ∷ 0 ∷ []

abbrev pub socks4_rejected : ℕ
socks4_rejected = 0x5b

-- From the check of the gate on: the switch on the command.
abbrev pub serve_connect : ℕ → Bytes → ℕ → Bytes → List ℕ → Handshake
serve_connect cmd host port rest authed =
    if cmd == 0x01
    then record { written = []; ending = tunnel host port rest; authed = authed }
    else close_with (socks4_reply socks4_rejected) authed

unfoldable pub serve_gated : Option Gate → ℕ → List ℕ → ℕ → Bytes → ℕ → Bytes → Handshake
serve_gated none conn authed cmd host port rest = serve_connect cmd host port rest authed
serve_gated (some gate) conn authed cmd host port rest =
    if gate.required
    then close_with (socks4_reply socks4_rejected) authed
    else serve_connect cmd host port rest (gate.authorize [] [] conn authed).1

-- A destination of 0.0.0.x, x not 0, says that a name follows.
abbrev pub is_socks4a : Bytes → Bool
is_socks4a (a ∷ b ∷ c ∷ d ∷ []) = a == 0 && (b == 0 && (c == 0 && not (d == 0)))
is_socks4a _ = false

module _ (ip_string : Bytes → Bytes) where
  abbrev pub serve_named : Option Gate → ℕ → List ℕ → ℕ → ℕ → Option (Bytes × Bytes) → Handshake
  serve_named gate conn authed cmd port none = close_with [] authed
  serve_named gate conn authed cmd port (some (host, rest)) =
      serve_gated gate conn authed cmd host port rest

  abbrev pub serve_address :
      Option Gate → ℕ → List ℕ → ℕ → ℕ → Bytes → Option (Bytes × Bytes) → Handshake
  serve_address gate conn authed cmd port ip none = close_with [] authed
  serve_address gate conn authed cmd port ip (some (user, rest)) =
      if is_socks4a ip
      then serve_named gate conn authed cmd port (read_to_nul rest)
      else serve_gated gate conn authed cmd (ip_string ip) port rest

  -- serveSocks4Conn, up to the tunnel: VN, CD, DSTPORT, DSTIP, USERID.
  unfoldable pub serve_socks4 : Option Gate → ℕ → List ℕ → Bytes → Handshake
  unfolding read_to_nul serve_gated
  serve_socks4 gate conn authed (vn ∷ cd ∷ hi ∷ lo ∷ a ∷ b ∷ c ∷ d ∷ s) =
      if vn == 0x04
      then serve_address gate conn authed cd (hi * 256 + lo) (a ∷ b ∷ c ∷ d ∷ []) (read_to_nul s)
      else close_with [] authed
  serve_socks4 gate conn authed s = close_with [] authed

-- The answer of the closure `ready`: granted, or rejected for any failure of the tunnel.
unfoldable pub socks4_ready : Bool → Bytes
socks4_ready failed = if failed then socks4_reply socks4_rejected else socks4_reply 0x5a
