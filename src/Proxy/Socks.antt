-- ===== src/Proxy/Socks.antt =====
-- internal/proxy/socks5.go: the server's side of a SOCKS5 handshake. What the client sends is a
pub mod Laws
-- list of bytes; the bytes written back are kept in the result. The spelling of an IP address and
-- the reader of the UDP relay are not under internal/proxy/socks5.go.
use gowebfilter.Base.{
  ℕ, zero, suc, ◌+◌, ◌*◌, ◌⊎◌, inl, inr, Bool, true, false, not, Option, none, some, List, [], ◌∷◌,
  ◌++◌, ◌==◌, if◌then◌else◌, Bytes, has_byte,
}

pub data AddressError : Type 0 where
  unsupported_type short_read : AddressError

pub data Ending : Type 0 where
  -- The connection is closed.
  closed : Ending
  -- The UDP relay takes over.
  udp_relay : Ending
  -- handleTunnel, with the host, the port and what the client has sent beyond the request.
  tunnel : Bytes → ℕ → Bytes → Ending

pub record Handshake : Type 0 where
  pub written : Bytes
  pub ending : Ending
  pub authed : List ℕ

-- SocksAuthGate: the addon that the pipeline finds.
pub record Gate : Type 0 where
  pub required : Bool
  pub authorize : Bytes → Bytes → ℕ → List ℕ → Bool × List ℕ

-- Which of the writes before the request reach the client.
pub record Writes : Type 0 where
  pub selection_sent : Bool
  pub status_sent : Bool

-- io.ReadFull of n bytes.
unfoldable pub read_full : ℕ → Bytes → Option (Bytes × Bytes)
read_full zero s = some ([], s)
read_full (suc n) [] = none
read_full (suc n) (c ∷ s) = elim (read_full n s) [
  | none ↦ none
  | some (b, rest) ↦ some (c ∷ b, rest)
]

-- A length byte and as many bytes.
unfoldable pub read_counted : Bytes → Option (Bytes × Bytes)
unfolding read_full
read_counted [] = none
read_counted (n ∷ s) = read_full n s

-- readUserPassAuth: VER, ULEN, UNAME, PLEN, PASSWD.
abbrev pub user_then_password : Option (Bytes × Bytes) → Option ((Bytes × Bytes) × Bytes)
user_then_password none = none
user_then_password (some (user, s)) = elim (read_counted s) [
  | none ↦ none
  | some (password, rest) ↦ some ((user, password), rest)
]

unfoldable pub read_user_pass : Bytes → Option ((Bytes × Bytes) × Bytes)
unfolding read_counted
read_user_pass [] = none
read_user_pass (_ ∷ []) = none
read_user_pass (version ∷ ulen ∷ s) =
    if version == 0x01 then user_then_password (read_counted (ulen ∷ s)) else none

abbrev pub method_selection : ℕ → Bytes
method_selection method = 0x05 ∷ method ∷ []

abbrev pub auth_status : ℕ → Bytes
auth_status status = 0x01 ∷ status ∷ []

-- writeSocksReply
abbrev pub socks_reply : ℕ → Bytes
socks_reply rep = 0x05 ∷ rep ∷ 0x00 ∷ 0x01 ∷ 0 ∷ 0 ∷ 0 ∷ 0 ∷ 0 ∷ 0 ∷ []

abbrev pub close_with : Bytes → List ℕ → Handshake
close_with written authed = record { written = written; ending = closed; authed = authed }

module _ (ip_string : Bytes → Bytes) where
  abbrev pub address_of : Option (Bytes × Bytes) → AddressError ⊎ (Bytes × Bytes)
  address_of none = inl short_read
  address_of (some (b, rest)) = inr (ip_string b, rest)

  abbrev pub name_of : Option (Bytes × Bytes) → AddressError ⊎ (Bytes × Bytes)
  name_of none = inl short_read
  name_of (some (b, rest)) = inr (b, rest)

  -- readSocksAddr: an IPv4 address, a domain name or an IPv6 address.
  unfoldable pub read_socks_addr : ℕ → Bytes → AddressError ⊎ (Bytes × Bytes)
  unfolding read_full read_counted
  read_socks_addr atyp s =
      if atyp == 0x01
      then address_of (read_full 4 s)
      else if atyp == 0x04
      then address_of (read_full 16 s)
      else if atyp == 0x03
      then name_of (read_counted s)
      else inl unsupported_type

  -- The port and the switch on the command.
  unfoldable pub serve_command : ℕ → Bytes → Bytes → Bytes → List ℕ → Handshake
  serve_command cmd host (hi ∷ lo ∷ rest) written authed =
      if cmd == 0x01
      then record { written = written; ending = tunnel host (hi * 256 + lo) rest; authed = authed }
      else if cmd == 0x03
      then record { written = written; ending = udp_relay; authed = authed }
      else close_with (written ++ socks_reply 0x07) authed
  serve_command cmd host s written authed = close_with written authed

  abbrev pub serve_addressed : ℕ → AddressError ⊎ (Bytes × Bytes) → Bytes → List ℕ → Handshake
  serve_addressed cmd (inl e) written authed = close_with (written ++ socks_reply 0x08) authed
  serve_addressed cmd (inr (host, rest)) written authed = serve_command cmd host rest written authed

  -- The request: VER, CMD, RSV, ATYP, DST.ADDR, DST.PORT.
  unfoldable pub serve_request : Bytes → Bytes → List ℕ → Handshake
  unfolding read_socks_addr serve_command
  serve_request (version ∷ cmd ∷ rsv ∷ atyp ∷ s) written authed =
      if version == 0x05
      then serve_addressed cmd (read_socks_addr atyp s) written authed
      else close_with written authed
  serve_request s written authed = close_with written authed

  -- What follows a call of AuthorizeSocks in the sub-negotiation.
  abbrev pub serve_authorized : Writes → Bytes → Bool × List ℕ → Handshake
  serve_authorized w s (false, authed) =
      close_with (method_selection 0x02 ++ auth_status 0x01) authed
  serve_authorized w s (true, authed) =
      if w.status_sent
      then serve_request s (method_selection 0x02 ++ auth_status 0x00) authed
      else close_with (method_selection 0x02) authed

  abbrev pub serve_credentials :
      Gate → Writes → ℕ → List ℕ → Option ((Bytes × Bytes) × Bytes) → Handshake
  serve_credentials gate w conn authed none = close_with (method_selection 0x02) authed
  serve_credentials gate w conn authed (some ((user, password), s)) =
      serve_authorized w s (gate.authorize user password conn authed)

  abbrev pub authorize_unasked : Option Gate → ℕ → List ℕ → List ℕ
  authorize_unasked none conn authed = authed
  authorize_unasked (some gate) conn authed = (gate.authorize [] [] conn authed).1

  -- The sub-negotiation that a required authentication asks for.
  unfoldable pub serve_guarded : Gate → Writes → ℕ → List ℕ → Bytes → Bytes → Handshake
  unfolding has_byte read_user_pass serve_request
  serve_guarded gate w conn authed methods s =
      if not (has_byte 0x02 methods)
      then close_with (method_selection 0xff) authed
      else if not w.selection_sent
      then close_with [] authed
      else serve_credentials gate w conn authed (read_user_pass s)

  unfoldable pub serve_open : Option Gate → Writes → ℕ → List ℕ → Bytes → Bytes → Handshake
  unfolding has_byte serve_request
  serve_open gate w conn authed methods s =
      if not (has_byte 0x00 methods)
      then close_with (method_selection 0xff) authed
      else if not w.selection_sent
      then close_with [] authed
      else serve_request s (method_selection 0x00) (authorize_unasked gate conn authed)

  abbrev pub serve_methods : Option Gate → Writes → ℕ → List ℕ → Option (Bytes × Bytes) → Handshake
  serve_methods gate w conn authed none = close_with [] authed
  serve_methods none w conn authed (some (methods, s)) = serve_open none w conn authed methods s
  serve_methods (some gate) w conn authed (some (methods, s)) =
      if gate.required
      then serve_guarded gate w conn authed methods s
      else serve_open (some gate) w conn authed methods s

  -- serveSocksConn, up to the tunnel.
  unfoldable pub serve_socks : Option Gate → Writes → ℕ → List ℕ → Bytes → Handshake
  unfolding read_counted serve_guarded serve_open
  serve_socks gate w conn authed [] = close_with [] authed
  serve_socks gate w conn authed (_ ∷ []) = close_with [] authed
  serve_socks gate w conn authed (version ∷ count ∷ s) =
      if version == 0x05
      then serve_methods gate w conn authed (read_counted (count ∷ s))
      else close_with [] authed

-- socksReplyForDialErr, on the two tests of the error.
unfoldable pub reply_for_dial_error : Bool → Bool → ℕ
reply_for_dial_error blocked_by_policy refused =
    if blocked_by_policy then 0x02 else if refused then 0x05 else 0x01
