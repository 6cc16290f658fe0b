-- ===== src/Proxy/Udp/Packets.antt =====
-- Datagrams read back as they were, and replies come from the address that was asked.
use gowebfilter.Base.{
  ℕ, ◌+◌, ◌*◌, ◌≡◌, refl, sym, ap, ap₂, ◌∙◌, subst, ◌↔◌, ◌⊎◌, inl, inr, false, ◌||◌, not, [], ◌∷◌,
  ◌++◌, append_assoc, arith, ltb, ◌==◌, ==_iff, Bool-cases, length, length-append, drop, Bytes,
}
use gowebfilter.Proxy.Udp.{
  UdpError, UdpPacket, address_rest, big_endian_16, decode_address, decode_socks_udp_packet,
  encode_socks_udp_packet, split_packet, udp_fragmented, udp_host, udp_rsv, udp_short,
  udp_unsupported,
}
use gowebfilter.Proxy.Udp.Layout.{
  IsSized, UdpAddress, address_header, drop_exact, no_packet, no_short, port_split, same_packet,
  take_exact, udp_ip4, udp_ip6, udp_name, zero_header,
}

module _ (ip_text : Bytes → Bytes) where
  abbrev pub host_of : UdpAddress → Bytes
  host_of (udp_ip4 a) = ip_text a
  host_of (udp_ip6 a) = ip_text a
  host_of (udp_name a) = a

  abbrev pub packet_of : UdpAddress → ℕ → ℕ → Bytes → UdpPacket
  packet_of addr hi lo payload = record {
    raw_addr = address_header addr hi lo;
    host = host_of addr;
    port = hi * 256 + lo;
    payload = payload;
  }

  abbrev pub IsDatagramOf : Bytes → UdpPacket → Type 0
  IsDatagramOf pkt p =
      (addr : UdpAddress) × (hi lo : ℕ) × IsSized addr
      × (pkt ≡ 0 ∷ 0 ∷ 0 ∷ (address_header addr hi lo ++ p.payload))
      × (p ≡ packet_of addr hi lo p.payload)

  -- A read of n bytes behind the first two of the address.
  split_reply :
      (n atyp b : ℕ) (x reply : Bytes)
      → length x ≡ n
      → split_packet ip_text n atyp b (x ++ reply)
        ≡ inr (record {
          raw_addr = atyp ∷ b ∷ x;
          host = udp_host ip_text atyp b (atyp ∷ b ∷ x);
          port = big_endian_16 (drop n (atyp ∷ b ∷ x));
          payload = reply;
        })
  split_reply n atyp b x reply size =
      rw (no_short x reply n size, take_exact x reply n size, drop_exact x reply n size) refl

  -- Six or eighteen bytes of an address, from its second on, and the port.
  read_ip :
      (k atyp c hi lo : ℕ) (a payload : Bytes)
      → length a ≡ k
      → split_packet ip_text (k + 2) atyp c ((a ++ (hi ∷ lo ∷ [])) ++ payload)
        ≡ inr (record {
          raw_addr = atyp ∷ c ∷ (a ++ (hi ∷ lo ∷ []));
          host = udp_host ip_text atyp c (atyp ∷ c ∷ (a ++ (hi ∷ lo ∷ [])));
          port = hi * 256 + lo;
          payload = payload;
        })
  read_ip k atyp c hi lo a payload size =
      split_reply (k + 2) atyp c (a ++ (hi ∷ lo ∷ [])) payload
        (omega (arith, size, length-append a (hi ∷ lo ∷ [])))
      ∙ ap
          (λ (u : Bytes). inr (record {
            raw_addr = atyp ∷ c ∷ (a ++ (hi ∷ lo ∷ []));
            host = udp_host ip_text atyp c (atyp ∷ c ∷ (a ++ (hi ∷ lo ∷ [])));
            port = big_endian_16 u;
            payload = payload;
          }))
          (drop_exact (atyp ∷ c ∷ a) (hi ∷ lo ∷ []) (k + 2) (omega (arith, size)))

  with_host :
      (header host host' : Bytes) (port : ℕ) (payload : Bytes)
      → host ≡ host'
      → ◌≡◌ {A = UdpError ⊎ UdpPacket}
          (inr (record { raw_addr = header; host = host; port = port; payload = payload }))
          (inr (record { raw_addr = header; host = host'; port = port; payload = payload }))
  with_host header host host' port payload e =
      ap
        (λ (u : Bytes).
          inr (record { raw_addr = header; host = u; port = port; payload = payload }))
        e

  read_datagram :
      (addr : UdpAddress) (hi lo : ℕ) (payload : Bytes)
      → IsSized addr
      → decode_socks_udp_packet ip_text (0 ∷ 0 ∷ 0 ∷ (address_header addr hi lo ++ payload))
        ≡ inr (packet_of addr hi lo payload)
  unfolding decode_socks_udp_packet
  read_datagram (udp_ip4 []) hi lo payload size = absurd (omega (arith, size))
  read_datagram (udp_ip4 (c ∷ a)) hi lo payload size =
      read_ip 3 1 c hi lo a payload (omega (arith, size))
      ∙ with_host _ _ (ip_text (c ∷ a)) (hi * 256 + lo) payload
          (ap ip_text (take_exact (c ∷ a) (hi ∷ lo ∷ []) 4 size))
  read_datagram (udp_ip6 []) hi lo payload size = absurd (omega (arith, size))
  read_datagram (udp_ip6 (c ∷ a)) hi lo payload size =
      read_ip 15 4 c hi lo a payload (omega (arith, size))
      ∙ with_host _ _ (ip_text (c ∷ a)) (hi * 256 + lo) payload
          (ap ip_text (take_exact (c ∷ a) (hi ∷ lo ∷ []) 16 size))
  read_datagram (udp_name a) hi lo payload size =
      read_ip (length a) 3 (length a) hi lo a payload refl
      ∙ with_host _ _ a (hi * 256 + lo) payload (take_exact a (hi ∷ lo ∷ []) (length a) refl)

  -- The shape of a datagram that decodes.
  abbrev IsShaped : Bytes → Type 0
  IsShaped pkt =
      (addr : UdpAddress) × (hi lo : ℕ) × (pay : Bytes) × IsSized addr
      × (pkt ≡ 0 ∷ 0 ∷ 0 ∷ (address_header addr hi lo ++ pay))

  long_enough :
      (n atyp b : ℕ) (rest : Bytes) (p : UdpPacket)
      → split_packet ip_text n atyp b rest ≡ inr p
      → ltb (length rest) n ≡ false
  long_enough n atyp b rest p h = elim (Bool-cases (ltb (length rest) n)) [
    | inl short ↦ absurd (no_packet udp_short p (rw short at h))
    | inr enough ↦ enough
  ]

  address_shape :
      (atyp b : ℕ) (rest : Bytes) (p : UdpPacket)
      → decode_address ip_text (address_rest atyp b) atyp b rest ≡ inr p
      → IsShaped (0 ∷ 0 ∷ 0 ∷ atyp ∷ b ∷ rest)
  address_shape atyp b rest p h = elim (Bool-cases (atyp == 1)) [
    | inl four ↦
        let (x, hi, lo, pay, whole, size) =
          port_split 3 rest (long_enough 5 atyp b rest p (rw four at h)) in
        (
          udp_ip4 (b ∷ x),
          hi,
          lo,
          pay,
          omega (arith, size),
          ap₂ (λ (t : ℕ) (u : Bytes). 0 ∷ 0 ∷ 0 ∷ t ∷ b ∷ u) ((==_iff atyp 1).0 four)
              (whole ∙ sym (append_assoc x (hi ∷ lo ∷ []) pay)),
        )
    | inr nofour ↦ elim (Bool-cases (atyp == 4)) [
      | inl six ↦
          let (x, hi, lo, pay, whole, size) =
            port_split 15 rest (long_enough 17 atyp b rest p (rw (nofour, six) at h)) in
          (
            udp_ip6 (b ∷ x),
            hi,
            lo,
            pay,
            omega (arith, size),
            ap₂ (λ (t : ℕ) (u : Bytes). 0 ∷ 0 ∷ 0 ∷ t ∷ b ∷ u) ((==_iff atyp 4).0 six)
                (whole ∙ sym (append_assoc x (hi ∷ lo ∷ []) pay)),
          )
      | inr nosix ↦ elim (Bool-cases (atyp == 3)) [
        | inl name ↦
            let (x, hi, lo, pay, whole, size) =
              port_split b rest
                (long_enough (b + 2) atyp b rest p (rw (nofour, nosix, name) at h)) in
            (
              udp_name x,
              hi,
              lo,
              pay,
              tt,
              ap₂ (λ (t : ℕ) (u : Bytes). 0 ∷ 0 ∷ 0 ∷ t ∷ u) ((==_iff atyp 3).0 name)
                  (ap₂ (λ (t : ℕ) (u : Bytes). t ∷ u) (sym size)
                    (whole ∙ sym (append_assoc x (hi ∷ lo ∷ []) pay))),
            )
        | inr noname ↦ absurd (no_packet udp_unsupported p (rw (nofour, nosix, noname) at h))
      ]
    ]
  ]

  shaped :
      (pkt : Bytes) (p : UdpPacket) → decode_socks_udp_packet ip_text pkt ≡ inr p → IsShaped pkt
  unfolding decode_socks_udp_packet
  shaped [] p h = absurd (no_packet udp_short p h)
  shaped (r ∷ []) p h = absurd (no_packet udp_short p h)
  shaped (r ∷ v ∷ []) p h = absurd (no_packet udp_short p h)
  shaped (r ∷ v ∷ frag ∷ []) p h = absurd (no_packet udp_short p h)
  shaped (r ∷ v ∷ frag ∷ atyp ∷ []) p h = absurd (no_packet udp_short p h)
  shaped (r ∷ v ∷ frag ∷ atyp ∷ b ∷ rest) p h = elim (Bool-cases (not (r == 0) || not (v == 0))) [
    | inl reserved ↦ absurd (no_packet udp_rsv p (rw reserved at h))
    | inr clear ↦ elim (Bool-cases (not (frag == 0))) [
      | inl part ↦ absurd (no_packet udp_fragmented p (rw (clear, part) at h))
      | inr one ↦
          subst (λ (u : Bytes). IsShaped (u ++ (atyp ∷ b ∷ rest))) (zero_header r v frag clear one)
            (address_shape atyp b rest p (rw (clear, one) at h))
    ]
  ]

  datagram_read :
      (pkt : Bytes) (p : UdpPacket)
      → decode_socks_udp_packet ip_text pkt ≡ inr p
      → IsDatagramOf pkt p
  datagram_read pkt p h =
      let (addr, hi, lo, pay, size, whole) = shaped pkt p h in
      let same : packet_of addr hi lo pay ≡ p = same_packet _ p (
        sym (read_datagram addr hi lo pay size)
        ∙ ap (λ (u : Bytes). decode_socks_udp_packet ip_text u) (sym whole)
        ∙ h) in
      subst (λ q. IsDatagramOf pkt q) same (addr, hi, lo, size, whole, refl)

  -- Besides, encoding gives the datagram back, and a reply comes from the same address.
  abbrev pub IsAnswerable : Bytes → UdpPacket → Type 0
  IsAnswerable pkt p =
      IsDatagramOf pkt p
      × (encode_socks_udp_packet p.raw_addr p.payload ≡ pkt)
      × ((reply : Bytes)
          → decode_socks_udp_packet ip_text (encode_socks_udp_packet p.raw_addr reply)
            ≡ inr (record p { payload = reply }))

  datagram-IsAnswerable : (pkt : Bytes) (p : UdpPacket) → IsDatagramOf pkt p → IsAnswerable pkt p
  unfolding encode_socks_udp_packet
  datagram-IsAnswerable pkt p (addr, hi, lo, size, whole, same) = (
    (addr, hi, lo, size, whole, same),
    ap (λ (q : UdpPacket). 0 ∷ 0 ∷ 0 ∷ (q.raw_addr ++ p.payload)) same ∙ sym whole,
    λ reply.
        subst
          (λ (q : UdpPacket).
            decode_socks_udp_packet ip_text (0 ∷ 0 ∷ 0 ∷ (q.raw_addr ++ reply))
            ≡ inr (record q { payload = reply }))
          (sym same) (read_datagram addr hi lo reply size),
  )

  datagram_written :
      (pkt : Bytes) (p : UdpPacket)
      → IsDatagramOf pkt p
      → decode_socks_udp_packet ip_text pkt ≡ inr p
  datagram_written pkt p (addr, hi, lo, size, whole, same) =
      ap (λ (u : Bytes). decode_socks_udp_packet ip_text u) whole
      ∙ read_datagram addr hi lo p.payload size
      ∙ ap (λ (q : UdpPacket). inr q) (sym same)

  -- A datagram decodes to a packet exactly when it is three zero bytes, a header of RFC 1928 (an IPv4
  -- address of 4 bytes, an IPv6 address of 16, or a name behind its length, then the two bytes of the
  -- port) and the payload, and the packet has that header, that host, that port and that payload.
  -- Then encodeSocksUDPPacket gives the datagram back, and a reply of any payload that it writes under
  -- that header decodes to the same host and port.
  pub decode_socks_udp_packet_iff :
      (pkt : Bytes) (p : UdpPacket)
      → (decode_socks_udp_packet ip_text pkt ≡ inr p) ↔ IsAnswerable pkt p
  decode_socks_udp_packet_iff pkt p = (
    λ h. datagram-IsAnswerable pkt p (datagram_read pkt p h),
    λ answerable. datagram_written pkt p answerable.0,
  )
