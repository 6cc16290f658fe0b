-- ===== src/Proxy/Socks4/Laws.antt =====
-- Who gets a tunnel by SOCKS4.
-- No byte of the text is 0.
use gowebfilter.Base.{
  ℕ, ◌+◌, ◌*◌, ◌≡◌, refl, inl, inr, true, false, Option, none, some, List, [], ◌∷◌, ◌++◌, ◌==◌,
  Bool-cases, Bytes,
}
use gowebfilter.Proxy.Socks.{Gate, Handshake, close_with, closed, tunnel}
use gowebfilter.Proxy.Socks4.{
  is_socks4a, read_to_nul, serve_address, serve_gated, serve_named, serve_socks4, socks4_rejected,
  socks4_reply,
}

abbrev pub LacksNul : Bytes → Type 0
LacksNul [] = Unit
LacksNul (c ∷ s) = ((c == 0) ≡ false) × LacksNul s

read_to_nul-append :
    (text rest : Bytes) → LacksNul text → read_to_nul (text ++ 0 ∷ rest) ≡ some (text, rest)
unfolding read_to_nul
read_to_nul-append [] rest l = refl
read_to_nul-append (c ∷ text) rest (apart, l) = rw (apart, read_to_nul-append text rest l)

serve_gated-required :
    (gate : Gate) (conn : ℕ) (authed : List ℕ) (cmd : ℕ) (host : Bytes) (port : ℕ) (rest : Bytes)
    → gate.required ≡ true
    → serve_gated (some gate) conn authed cmd host port rest
      ≡ close_with (socks4_reply socks4_rejected) authed
unfolding serve_gated
serve_gated-required gate conn authed cmd host port rest req = simp req

module _ (ip_string : Bytes → Bytes) where
  -- The connection is closed and nobody was authorised.
  abbrev pub IsRefused : List ℕ → Handshake → Type 0
  IsRefused authed h = (h.ending ≡ closed) × (h.authed ≡ authed)

  serve_named-IsRefused :
      (gate : Gate) (conn : ℕ) (authed : List ℕ) (cmd port : ℕ) (o : Option (Bytes × Bytes))
      → gate.required ≡ true
      → IsRefused authed (serve_named ip_string (some gate) conn authed cmd port o)
  serve_named-IsRefused gate conn authed cmd port none req = (refl, refl)
  serve_named-IsRefused gate conn authed cmd port (some (host, rest)) req =
      rw (serve_gated-required gate conn authed cmd host port rest req) (refl, refl)

  serve_address-IsRefused :
      (gate : Gate) (conn : ℕ) (authed : List ℕ) (cmd port : ℕ) (ip : Bytes)
      (o : Option (Bytes × Bytes))
      → gate.required ≡ true
      → IsRefused authed (serve_address ip_string (some gate) conn authed cmd port ip o)
  serve_address-IsRefused gate conn authed cmd port ip none req = (refl, refl)
  serve_address-IsRefused gate conn authed cmd port ip (some (user, rest)) req =
      elim (Bool-cases (is_socks4a ip)) [
        | inl named ↦
            rw named (serve_named-IsRefused gate conn authed cmd port (read_to_nul rest) req)
        | inr plain ↦ rw plain (
            rw (serve_gated-required gate conn authed cmd (ip_string ip) port rest req)
              (refl, refl))
      ]

  -- Where the gate requires authentication every SOCKS4 handshake, whatever bytes it has, ends with
  -- the connection closed and with no connection authorised.
  pub serve_socks4-IsRefused :
      (gate : Gate) (conn : ℕ) (authed : List ℕ) (s : Bytes)
      → gate.required ≡ true
      → IsRefused authed (serve_socks4 ip_string (some gate) conn authed s)
  unfolding serve_socks4
  serve_socks4-IsRefused gate conn authed (vn ∷ cd ∷ hi ∷ lo ∷ a ∷ b ∷ c ∷ d ∷ s) req =
      elim (Bool-cases (vn == 0x04)) [
        | inl four ↦ rw four (
            serve_address-IsRefused gate conn authed cd (hi * 256 + lo) (a ∷ b ∷ c ∷ d ∷ [])
              (read_to_nul s) req)
        | inr wrong ↦ rw wrong (refl, refl)
      ]
  serve_socks4-IsRefused gate conn authed s req = (refl, refl)

  -- With no gate, a SOCKS4a request to connect to a name, behind a user name, with no 0 byte in
  -- either, gets a tunnel to exactly that name and port, and the bytes behind it are the tunnel's.
  pub serve_socks4-named :
      (conn : ℕ) (authed : List ℕ) (hi lo x : ℕ) (user host rest : Bytes)
      → (x == 0) ≡ false
      → LacksNul user
      → LacksNul host
      → serve_socks4 ip_string none conn authed
          (0x04 ∷ 0x01 ∷ hi ∷ lo ∷ 0 ∷ 0 ∷ 0 ∷ x ∷ (user ++ (0 ∷ (host ++ 0 ∷ rest))))
        ≡ record { written = []; ending = tunnel host (hi * 256 + lo) rest; authed = authed }
  unfolding serve_socks4 serve_gated
  serve_socks4-named conn authed hi lo x user host rest named lu lh = rw (
    serve_socks4,
    read_to_nul-append user (host ++ 0 ∷ rest) lu,
    named,
    read_to_nul-append host rest lh,
  )
