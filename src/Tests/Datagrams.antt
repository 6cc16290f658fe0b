-- ===== src/Tests/Datagrams.antt =====
-- The properties of the UDP relay at concrete inputs.
use gowebfilter.Base.{◌≤◌, ◌≡◌, refl, ◌↔◌, inl, inr, List, [], ◌∷◌, length, Bytes, codes, Within}
use gowebfilter.Proxy.Udp.{UdpPacket, decode_socks_udp_packet, udp_short}
use gowebfilter.Proxy.Udp.Association.{UdpSession, max_udp_sessions, new_association}
use gowebfilter.Proxy.Udp.Association.Accounts.{IsAccounted, after_events-IsAccounted}
use gowebfilter.Proxy.Udp.Association.Limit.{
  UdpEvent, after_events, association_closed, datagram_from, session_dialled, session_sought,
  socket_dialled,
}
use gowebfilter.Proxy.Udp.Packets.{IsAnswerable, decode_socks_udp_packet_iff}

abbrev dotted : Bytes → Bytes
dotted b = codes "8.8.8.8"

abbrev dns_datagram : Bytes
dns_datagram = 0 ∷ 0 ∷ 0 ∷ 1 ∷ 8 ∷ 8 ∷ 8 ∷ 8 ∷ 0 ∷ 53 ∷ 42 ∷ []

abbrev dns_packet : UdpPacket
dns_packet = record {
  raw_addr = 1 ∷ 8 ∷ 8 ∷ 8 ∷ 8 ∷ 0 ∷ 53 ∷ [];
  host = codes "8.8.8.8";
  port = 53;
  payload = 42 ∷ [];
}

decode_socks_udp_packet_iff_example :
    (decode_socks_udp_packet dotted dns_datagram ≡ inr dns_packet)
    ↔ IsAnswerable dotted dns_datagram dns_packet
decode_socks_udp_packet_iff_example = decode_socks_udp_packet_iff dotted dns_datagram dns_packet

-- An IPv6 address and a name.
other_datagrams :
    (decode_socks_udp_packet dotted (0 ∷ 0 ∷ 0 ∷ 3 ∷ 1 ∷ 97 ∷ 1 ∷ 0 ∷ 42 ∷ [])
      ≡ inr (record {
        raw_addr = 3 ∷ 1 ∷ 97 ∷ 1 ∷ 0 ∷ [];
        host = codes "a";
        port = 256;
        payload = 42 ∷ [];
      }))
    × (decode_socks_udp_packet dotted (0 ∷ 0 ∷ 0 ∷ 4 ∷ 1 ∷ []) ≡ inl udp_short)
unfolding decode_socks_udp_packet
other_datagrams = (refl, refl)

abbrev one_session : UdpSession
one_session = record { conn = 7; raw_addr = []; last_used = 1 }

abbrev one_dial : List UdpEvent
one_dial =
    datagram_from (codes "10.0.0.2", 4000)
    ∷ session_sought (codes "1.1.1.1:9") 1
    ∷ socket_dialled 7
    ∷ session_dialled (codes "1.1.1.1:9") one_session
    ∷ association_closed
    ∷ []

after_events-IsAccounted_example :
    IsAccounted (after_events one_dial (new_association (codes "10.0.0.2"))) 7
    × (length (after_events one_dial (new_association (codes "10.0.0.2"))).sessions
        ≤ max_udp_sessions)
after_events-IsAccounted_example =
    after_events-IsAccounted (codes "10.0.0.2") one_dial 7 (Within.there (Within.there Within.here))
