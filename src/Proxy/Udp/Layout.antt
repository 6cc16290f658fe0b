-- ===== src/Proxy/Udp/Layout.antt =====
-- The header of a datagram as RFC 1928 lays it out, and the reading of its parts.
use gowebfilter.Base.{
  ℕ, zero, suc, ◌+◌, ◌≡◌, refl, ap, ap₂, subst, ◌⊎◌, inl, inr, false, ◌||◌, not, [], ◌∷◌, ◌++◌,
  arith, ltb, ◌==◌, length, length-append, take, drop, Bytes,
}
use gowebfilter.Proxy.Udp.{UdpError, UdpPacket}

pub zero_header :
    (r v frag : ℕ)
    → not (r == 0) || not (v == 0) ≡ false
    → not (frag == 0) ≡ false
    → ◌≡◌ {A = Bytes} (0 ∷ 0 ∷ 0 ∷ []) (r ∷ v ∷ frag ∷ [])
zero_header r v frag clear one =
    ap₂ (λ (x : ℕ) (u : Bytes). x ∷ u) (ground (arith, clear))
      (ap₂ (λ (x : ℕ) (u : Bytes). x ∷ u) (ground (arith, clear))
        (ap (λ (x : ℕ). x ∷ []) (ground (arith, one))))

pub take_exact : (x r : Bytes) (n : ℕ) → length x ≡ n → take n (x ++ r) ≡ x
take_exact [] r n size = subst (λ k. take k r ≡ []) size refl
take_exact (c ∷ x) r n size =
    subst (λ k. take k (c ∷ (x ++ r)) ≡ c ∷ x) size
      (ap (λ (u : Bytes). c ∷ u) (take_exact x r (length x) refl))

pub drop_exact : (x r : Bytes) (n : ℕ) → length x ≡ n → drop n (x ++ r) ≡ r
drop_exact [] r n size = subst (λ k. drop k r ≡ r) size refl
drop_exact (c ∷ x) r n size =
    subst (λ k. drop k (c ∷ (x ++ r)) ≡ r) size (drop_exact x r (length x) refl)

pub no_short : (x r : Bytes) (n : ℕ) → length x ≡ n → ltb (length (x ++ r)) n ≡ false
no_short x r n size = ground (arith, size, length-append x r)

pub packet_or : UdpPacket → UdpError ⊎ UdpPacket → UdpPacket
packet_or d (inl e) = d
packet_or d (inr p) = p

pub same_packet : (p q : UdpPacket) → ◌≡◌ {A = UdpError ⊎ UdpPacket} (inr p) (inr q) → p ≡ q
unfolding packet_or
same_packet p q e = ap (packet_or p) e

pub no_packet : (e : UdpError) (p : UdpPacket) → ¬ ◌≡◌ {A = UdpError ⊎ UdpPacket} (inl e) (inr p)
no_packet e p h = cc

-- Some bytes, the two of the port, and the rest.
pub port_split :
    (k : ℕ) (s : Bytes)
    → ltb (length s) (k + 2) ≡ false
    → (x : Bytes) × (hi lo : ℕ) × (pay : Bytes) × (s ≡ x ++ (hi ∷ lo ∷ pay)) × (length x ≡ k)
port_split zero (hi ∷ lo ∷ pay) h = ([], hi, lo, pay, refl, refl)
port_split zero [] h = absurd (ground (arith, h))
port_split zero (a ∷ []) h = absurd (ground (arith, h))
port_split (suc k) [] h = absurd (ground (arith, h))
port_split (suc k) (c ∷ s) h =
    let (x, hi, lo, pay, whole, size) = port_split k s (ground (arith, h)) in
    (c ∷ x, hi, lo, pay, ap (λ (u : Bytes). c ∷ u) whole, omega (arith, size))

-- RFC 1928: an address of four bytes, of sixteen, or a name behind its length.
pub data UdpAddress : Type 0 where
  udp_ip4 udp_ip6 udp_name : Bytes → UdpAddress

abbrev pub IsSized : UdpAddress → Type 0
IsSized (udp_ip4 a) = length a ≡ 4
IsSized (udp_ip6 a) = length a ≡ 16
IsSized (udp_name a) = Unit

-- ATYP, the address, and the two bytes of the port.
abbrev pub address_header : UdpAddress → ℕ → ℕ → Bytes
address_header (udp_ip4 a) hi lo = 1 ∷ (a ++ (hi ∷ lo ∷ []))
address_header (udp_ip6 a) hi lo = 4 ∷ (a ++ (hi ∷ lo ∷ []))
address_header (udp_name a) hi lo = 3 ∷ length a ∷ (a ++ (hi ∷ lo ∷ []))
