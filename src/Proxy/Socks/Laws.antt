-- ===== src/Proxy/Socks/Laws.antt =====
-- What a SOCKS5 client must show before a tunnel is opened for it, and what opens one.
use gowebfilter.Base.{
  ℕ, ◌+◌, ◌*◌, ◌≡◌, refl, ◌≢◌, inl, inr, Bool, true, false, Option, none, some, List, [], ◌∷◌, ◌++◌,
  append_assoc, ◌==◌, Bool-cases, length, drop, Bytes, has_byte,
}
use gowebfilter.Proxy.Socks.{
  Gate, Writes, closed, read_counted, read_full, read_socks_addr, read_user_pass, serve_authorized,
  serve_command, serve_credentials, serve_guarded, serve_methods, serve_request, serve_socks,
  tunnel, user_then_password,
}

read_full-append : (a rest : Bytes) → read_full (length a) (a ++ rest) ≡ some (a, rest)
unfolding read_full
read_full-append [] rest = refl
read_full-append (c ∷ a) rest = rw (read_full-append a rest)

read_counted-append : (a rest : Bytes) → read_counted (length a ∷ a ++ rest) ≡ some (a, rest)
unfolding read_counted
read_counted-append a rest = read_full-append a rest

-- The client's part of the sub-negotiation.
abbrev pub user_pass_message : Bytes → Bytes → Bytes
user_pass_message user password = 0x01 ∷ length user ∷ user ++ length password ∷ password

user_then_password-append :
    (user password rest : Bytes)
    → user_then_password (some (user, length password ∷ password ++ rest))
      ≡ some ((user, password), rest)
user_then_password-append user password rest =
    rw (user_then_password, read_counted-append password rest)

-- Reading a username and a password back from the message of the sub-negotiation gives them
-- unchanged, with whatever follows the message.
pub read_user_pass-message :
    (user password rest : Bytes)
    → read_user_pass (user_pass_message user password ++ rest) ≡ some ((user, password), rest)
unfolding read_user_pass
read_user_pass-message user password rest =
    rw
      (
        append_assoc user (length password ∷ password) rest,
        read_full-append user (length password ∷ password ++ rest),
      )
      (user_then_password-append user password rest)

-- The sub-negotiation names credentials that the gate accepts.
abbrev pub Accepted : Gate → ℕ → List ℕ → Bytes → Type 0
Accepted gate conn authed sub =
    (user : Bytes) × (password : Bytes) × (rest : Bytes) × (read_user_pass sub
      ≡ some ((user, password), rest))
    × ((gate.authorize user password conn authed).0 ≡ true)

-- The greeting offers the method of a username and a password, and the sub-negotiation that
-- follows it names credentials that the gate accepts.
abbrev pub IsAdmitted : Gate → ℕ → List ℕ → Bytes → Type 0
IsAdmitted gate conn authed greeting =
    (methods : Bytes) × (sub : Bytes) × (read_counted greeting ≡ some (methods, sub))
    × (has_byte 0x02 methods ≡ true)
    × Accepted gate conn authed sub

module _ (ip_string : Bytes → Bytes) where
  refused :
      (w : Writes) (s : Bytes) (answer : Bool × List ℕ)
      → answer.0 ≡ false
      → (serve_authorized ip_string w s answer).ending ≡ closed
  refused w s (false, authed) h = refl
  refused w s (true, authed) h = cc

  serve_credentials-Accepted :
      (gate : Gate) (w : Writes) (conn : ℕ) (authed : List ℕ) (sub : Bytes)
      (read : Option ((Bytes × Bytes) × Bytes))
      → read_user_pass sub ≡ read
      → (serve_credentials ip_string gate w conn authed read).ending ≢ closed
      → Accepted gate conn authed sub
  serve_credentials-Accepted gate w conn authed sub none e goes_on = absurd (goes_on refl)
  serve_credentials-Accepted gate w conn authed sub (some ((user, password), s)) e goes_on =
      elim (Bool-cases (gate.authorize user password conn authed).0) [
        | inl accepted ↦ (user, password, s, e, accepted)
        | inr denied ↦
            absurd (goes_on (refused w s (gate.authorize user password conn authed) denied))
      ]

  serve_guarded-IsAdmitted :
      (gate : Gate) (w : Writes) (conn : ℕ) (authed : List ℕ) (greeting methods sub : Bytes)
      → read_counted greeting ≡ some (methods, sub)
      → (serve_guarded ip_string gate w conn authed methods sub).ending ≢ closed
      → IsAdmitted gate conn authed greeting
  unfolding serve_guarded
  serve_guarded-IsAdmitted gate w conn authed greeting methods sub e goes_on =
      elim (Bool-cases (has_byte 0x02 methods)) [
        | inr absent ↦ absurd (goes_on (rw absent))
        | inl offered ↦ elim (Bool-cases w.selection_sent) [
          | inr lost ↦ absurd (goes_on (rw (offered, lost)))
          | inl sent ↦ (
            methods,
            sub,
            e,
            offered,
            serve_credentials-Accepted gate w conn authed sub (read_user_pass sub) refl
                (rw (offered, sent) at goes_on),
          )
        ]
      ]

  serve_methods-IsAdmitted :
      (gate : Gate) (w : Writes) (conn : ℕ) (authed : List ℕ) (greeting : Bytes)
      (read : Option (Bytes × Bytes))
      → read_counted greeting ≡ read
      → gate.required ≡ true
      → (serve_methods ip_string (some gate) w conn authed read).ending ≢ closed
      → IsAdmitted gate conn authed greeting
  serve_methods-IsAdmitted gate w conn authed greeting none e req goes_on = absurd (goes_on refl)
  serve_methods-IsAdmitted gate w conn authed greeting (some (methods, sub)) e req goes_on =
      serve_guarded-IsAdmitted gate w conn authed greeting methods sub e (simp req at goes_on)

  -- Where the gate requires authentication, a handshake that does not end in closing the
  -- connection began with a greeting that offers the username and password method, followed by
  -- credentials that the gate accepts.
  pub serve_socks-IsAdmitted :
      (gate : Gate) (w : Writes) (conn : ℕ) (authed : List ℕ) (s : Bytes)
      → gate.required ≡ true
      → (serve_socks ip_string (some gate) w conn authed s).ending ≢ closed
      → IsAdmitted gate conn authed (drop 1 s)
  unfolding serve_socks
  serve_socks-IsAdmitted gate w conn authed [] req goes_on = absurd (goes_on refl)
  serve_socks-IsAdmitted gate w conn authed (v ∷ []) req goes_on = absurd (goes_on refl)
  serve_socks-IsAdmitted gate w conn authed (v ∷ count ∷ s) req goes_on =
      elim (Bool-cases (v == 0x05)) [
        | inr wrong ↦ absurd (goes_on (rw wrong))
        | inl right ↦
            serve_methods-IsAdmitted gate w conn authed (count ∷ s) (read_counted (count ∷ s)) refl
              req (rw right at goes_on)
      ]

  -- A CONNECT request for a host name: VER, CMD, RSV, ATYP, the counted name, and the port.
  abbrev pub connect_message : Bytes → ℕ → ℕ → Bytes → Bytes
  connect_message host hi lo rest = 0x05 ∷ 0x01 ∷ 0x00 ∷ 0x03 ∷ length host ∷ host ++ hi ∷ lo ∷ rest

  serve_request-connect :
      (host : Bytes) (hi lo : ℕ) (rest written : Bytes) (authed : List ℕ)
      → serve_request ip_string (connect_message host hi lo rest) written authed
        ≡ record { written = written; ending = tunnel host (hi * 256 + lo) rest; authed = authed }
  unfolding serve_request read_socks_addr serve_command
  serve_request-connect host hi lo rest written authed =
      rw (read_counted-append host (hi ∷ lo ∷ rest))

  -- A client that offers the username and password method, names credentials that the gate
  -- accepts and asks for a host by name gets a tunnel to exactly that host and port: the answers
  -- are the choice of the method and success, the bytes behind the request are left to the tunnel,
  -- and the connections are those that the gate returns.
  pub serve_socks-connect :
      (gate : Gate) (conn : ℕ) (authed authed' : List ℕ) (methods user password host : Bytes)
      (hi lo : ℕ) (rest : Bytes)
      → gate.required ≡ true
      → has_byte 0x02 methods ≡ true
      → gate.authorize user password conn authed ≡ (true, authed')
      → serve_socks ip_string
          (some gate)
          (record { selection_sent = true; status_sent = true })
          conn
          authed
          (0x05 ∷ length methods ∷ methods
            ++ (user_pass_message user password ++ connect_message host hi lo rest))
        ≡ record {
          written = 0x05 ∷ 0x02 ∷ 0x01 ∷ 0x00 ∷ [];
          ending = tunnel host (hi * 256 + lo) rest;
          authed = authed';
        }
  unfolding serve_socks serve_guarded
  serve_socks-connect gate conn authed authed' methods user password host hi lo rest req offered
        accepted =
      let sub : Bytes = user_pass_message user password ++ connect_message host hi lo rest in
      rw (serve_socks, read_counted, read_full-append methods sub)
        (simp (
          req,
          offered,
          read_user_pass-message user password (connect_message host hi lo rest),
          accepted,
          serve_request-connect host hi lo rest,
        ))
