-- ===== src/Proxy/Udp/Association/Accounts.antt =====
-- No socket of an association is lost: between its dial and its close the association knows it.
use gowebfilter.Base.{
  ℕ, ◌≤◌, ◌≡◌, refl, sym, ap, ◌∙◌, subst, ◌⊎◌, inl, inr, Bool, true, false, ◌&&◌, not, Option, none,
  some, List, [], ◌∷◌, arith, ◌==◌, ==_iff, Bool-cases, false≢true, length, Bytes, bytes_eq,
  is_empty, Within, Within-cons, append_left, append_right, no_member,
}
use gowebfilter.Adblock.Glob.Reference.{later}
use gowebfilter.Adblock.Index.{first}
use gowebfilter.Categories.Hash.{at}
use gowebfilter.Proxy.Udp.Association.{
  UdpAssociation, UdpSession, accept_by, accept_from, all_conns, close_association, close_first,
  close_next, conn_of, delete_conn, dial_session, drop_session, evict_if_full, find_session,
  holds_conn, keep_or_add, max_udp_sessions, new_association, refuse_session, register_session,
  session_at, touch_at,
}
use gowebfilter.Proxy.Udp.Association.Keys.{event-HasUniqueKeys}
use gowebfilter.Proxy.Udp.Association.Limit.{
  IsWithinLimit, UdpEvent, after_event, after_events, association_closed, datagram_from,
  event-IsWithinLimit, session_dialled, session_ended, session_sought, socket_closed,
  socket_dialled,
}
use gowebfilter.Proxy.Udp.Association.Sockets.{
  HasUniqueKeys, IsHeld, delete_at-keeps, dropped_from, evict-IsHeld, if_holds, session_at-some,
  touch_at-IsHeld,
}

abbrev pub IsAccounted : UdpAssociation → ℕ → Type 0
IsAccounted a c =
    Within c a.dialling
    ⊎ (IsHeld a.sessions c
        ⊎ (Within c a.closing ⊎ (Within c a.closed_conns ⊎ Within c a.ended_conns)))

-- What one association has of the sockets, another has.
carried_over :
    (a b : UdpAssociation) (c : ℕ)
    → (Within c a.dialling → IsAccounted b c)
    → (IsHeld a.sessions c → IsAccounted b c)
    → (Within c a.closing → IsAccounted b c)
    → (Within c a.closed_conns → Within c b.closed_conns)
    → (Within c a.ended_conns → Within c b.ended_conns)
    → IsAccounted a c
    → IsAccounted b c
carried_over a b c d h l s e (inl w) = d w
carried_over a b c d h l s e (inr (inl w)) = h w
carried_over a b c d h l s e (inr (inr (inl w))) = l w
carried_over a b c d h l s e (inr (inr (inr (inl w)))) = inr (inr (inr (inl (s w))))
carried_over a b c d h l s e (inr (inr (inr (inr w)))) = inr (inr (inr (inr (e w))))

delete_conn-keeps :
    (conn c : ℕ) (cs : List ℕ) → Within c cs → (c ≡ conn) ⊎ Within c (delete_conn conn cs)
unfolding delete_conn
delete_conn-keeps conn c [] w = absurd (no_member w)
delete_conn-keeps conn c (d ∷ cs) w = elim (Bool-cases (d == conn)) [
  | inl same ↦ elim (Within-cons w) [
    | inl first ↦ inl (first ∙ (==_iff d conn).0 same)
    | inr later ↦ rw same (delete_conn-keeps conn c cs later)
  ]
  | inr differ ↦ elim (Within-cons w) [
    | inl first ↦
        rw differ (inr (subst (λ x. Within x (d ∷ delete_conn conn cs)) (sym first) Within.here))
    | inr later ↦ rw differ (elim (delete_conn-keeps conn c cs later) [
      | inl here_ ↦ inl here_
      | inr kept ↦ inr (Within.there kept)
    ])
  ]
]

all_conns-Within : (m : List (Bytes × UdpSession)) (c : ℕ) → IsHeld m c → Within c (all_conns m)
unfolding all_conns
all_conns-Within [] c (e, w, conn) = absurd (no_member w)
all_conns-Within ((k, s) ∷ m) c (e, w, conn) = elim (Within-cons w) [
  | inl first ↦
      subst (λ x. Within x (s.conn ∷ all_conns m))
        (ap (λ (y : Bytes × UdpSession). y.1.conn) (sym first) ∙ conn) Within.here
  | inr later ↦ Within.there (all_conns-Within m c (e, later, conn))
]

as_head : (c d : ℕ) (cs : List ℕ) → c ≡ d → Within c (d ∷ cs)
as_head c d cs e = subst (λ x. Within x (d ∷ cs)) (sym e) Within.here

refused-IsAccounted :
    (s : UdpSession) (a : UdpAssociation) (c : ℕ)
    → IsAccounted a c
    → IsAccounted (refuse_session s a) c
refused-IsAccounted s a c =
    carried_over a (refuse_session s a) c
      (λ w. elim (delete_conn-keeps s.conn c a.dialling w) [
        | inl own ↦ inr (inr (inl (as_head c s.conn a.closing own)))
        | inr kept ↦ inl kept
      ])
      (λ h. inr (inl h)) (λ w. inr (inr (inl (Within.there w)))) (λ w. w) (λ w. w)

kept-IsAccounted :
    (found : Option UdpSession) (key : Bytes) (s : UdpSession) (a : UdpAssociation) (c : ℕ)
    → HasUniqueKeys a.sessions
    → IsAccounted a c
    → IsAccounted (keep_or_add found key s a) c
kept-IsAccounted (some existing) key s a c unique =
    carried_over a (keep_or_add (some existing) key s a) c
      (λ w. elim (delete_conn-keeps s.conn c a.dialling w) [
        | inl own ↦ inr (inr (inl (as_head c s.conn a.closing own)))
        | inr kept ↦ inl kept
      ])
      (λ h. inr (inl (touch_at-IsHeld key s.last_used a.sessions c h)))
      (λ w. inr (inr (inl (Within.there w)))) (λ w. w) (λ w. w)
kept-IsAccounted none key s a c unique =
    carried_over a (keep_or_add none key s a) c
      (λ w. elim (delete_conn-keeps s.conn c a.dialling w) [
        | inl own ↦ inr (inl ((key, s), Within.here, sym own))
        | inr kept ↦ inl kept
      ])
      (λ h. elim (evict-IsHeld a.sessions c unique h) [
        | inl (e, w, conn) ↦ inr (inl (e, Within.there w, conn))
        | inr evicted ↦ inr (inr (inl (append_left a.closing evicted)))
      ])
      (λ w. inr (inr (inl (append_right (conn_of (evict_if_full a.sessions).1) w)))) (λ w. w)
      (λ w. w)

closed-IsAccounted :
    (cs : List ℕ) (a : UdpAssociation) (c : ℕ)
    → a.closing ≡ cs
    → IsAccounted a c
    → IsAccounted (close_first cs a) c
closed-IsAccounted [] a c same held = held
closed-IsAccounted (d ∷ cs) a c same held =
    carried_over a (close_first (d ∷ cs) a) c (λ w. inl w) (λ h. inr (inl h))
      (λ w. elim (Within-cons (subst (λ xs. Within c xs) same w)) [
        | inl first ↦ inr (inr (inr (inl (as_head c d a.closed_conns first))))
        | inr later ↦ inr (inr (inl later))
      ])
      (λ w. Within.there w) (λ w. w) held

held_conn :
    (o : Option UdpSession) (conn : ℕ)
    → holds_conn o conn ≡ true
    → (s : UdpSession) × (o ≡ some s) × (s.conn ≡ conn)
held_conn none conn h = absurd (false≢true h)
held_conn (some s) conn h = (s, refl, (==_iff s.conn conn).0 h)

dropped-IsAccounted :
    (key : Bytes) (conn : ℕ) (a : UdpAssociation) (c : ℕ)
    → HasUniqueKeys a.sessions
    → holds_conn (session_at key a.sessions) conn ≡ true
    → IsAccounted a c
    → IsAccounted (dropped_from key conn a) c
dropped-IsAccounted key conn a c unique holds =
    let (s, at, own) = held_conn (session_at key a.sessions) conn holds in
    carried_over a (dropped_from key conn a) c (λ w. inl w)
      (λ held.
        let (e, w, same) = held in
        elim (delete_at-keeps key a.sessions e w) [
          | inl keyed ↦ inr (
              inr (
                inr (
                  inr (
                    as_head c conn a.ended_conns (
                      sym same
                      ∙ ap (λ (y : Bytes × UdpSession). y.1.conn)
                          (unique e (key, s) w (session_at-some key a.sessions s at) keyed)
                      ∙ own)))))
          | inr kept ↦ inr (inl (e, kept, same))
        ])
      (λ w. inr (inr (inl w))) (λ w. w) (λ w. Within.there w)

accepted-IsAccounted :
    (known : Option (Bytes × ℕ)) (addr : Bytes × ℕ) (a : UdpAssociation) (c : ℕ)
    → IsAccounted a c
    → IsAccounted (accept_by known addr a).0 c
accepted-IsAccounted (some known) addr a c h = h
accepted-IsAccounted none addr a c h =
    if_holds (λ (x : UdpAssociation × Bool). IsAccounted x.0 c)
      (not (is_empty a.peer_ip) && not (bytes_eq addr.0 a.peer_ip)) (a, false)
      (record a { client_addr = some addr }, true) (λ e. h) (λ e. h)

event-IsAccounted :
    (event : UdpEvent) (a : UdpAssociation) (c : ℕ)
    → HasUniqueKeys a.sessions
    → IsAccounted a c
    → IsAccounted (after_event event a) c
unfolding after_event accept_from find_session dial_session register_session close_next drop_session
    close_association
event-IsAccounted (datagram_from addr) a c unique h = accepted-IsAccounted a.client_addr addr a c h
event-IsAccounted (session_sought key now) a c unique h =
    if_holds (λ (x : UdpAssociation × Option UdpSession). IsAccounted x.0 c) a.is_closed (a, none)
      (record a { sessions = touch_at key now a.sessions }, session_at key a.sessions) (λ e. h)
      (λ e.
        carried_over a (record a { sessions = touch_at key now a.sessions }) c (λ w. inl w)
          (λ held. inr (inl (touch_at-IsHeld key now a.sessions c held))) (λ w. inr (inr (inl w)))
          (λ w. w) (λ w. w) h)
event-IsAccounted (socket_dialled conn) a c unique h =
    carried_over a (dial_session conn a) c (λ w. inl (Within.there w)) (λ held. inr (inl held))
      (λ w. inr (inr (inl w))) (λ w. w) (λ w. w) h
event-IsAccounted (session_dialled key s) a c unique h =
    if_holds (λ x. IsAccounted x c) a.is_closed (refuse_session s a)
      (keep_or_add (session_at key a.sessions) key s a) (λ e. refused-IsAccounted s a c h)
      (λ e. kept-IsAccounted (session_at key a.sessions) key s a c unique h)
event-IsAccounted socket_closed a c unique h = closed-IsAccounted a.closing a c refl h
event-IsAccounted (session_ended key conn) a c unique h =
    if_holds (λ x. IsAccounted x c) (holds_conn (session_at key a.sessions) conn)
      (dropped_from key conn a) a (λ e. dropped-IsAccounted key conn a c unique e h) (λ e. h)
event-IsAccounted association_closed a c unique h =
    carried_over a (close_association a) c (λ w. inl w)
      (λ held. inr (inr (inl (append_left a.closing (all_conns-Within a.sessions c held)))))
      (λ w. inr (inr (inl (append_right (all_conns a.sessions) w)))) (λ w. w) (λ w. w) h

dialled-IsAccounted :
    (a : UdpAssociation) (c : ℕ) → IsAccounted (after_event (socket_dialled c) a) c
unfolding after_event dial_session
dialled-IsAccounted a c = inl Within.here

events-IsAccounted :
    (events : List UdpEvent) (a : UdpAssociation) (c : ℕ)
    → HasUniqueKeys a.sessions
    → IsAccounted a c ⊎ Within (socket_dialled c) events
    → IsWithinLimit a
    → IsAccounted (after_events events a) c × IsWithinLimit (after_events events a)
unfolding after_events
events-IsAccounted [] a c unique (inl h) le = (h, le)
events-IsAccounted [] a c unique (inr w) le = absurd (no_member w)
events-IsAccounted (event ∷ events) a c unique (inl h) le =
    events-IsAccounted events (after_event event a) c (event-HasUniqueKeys event a unique)
      (inl (event-IsAccounted event a c unique h)) (event-IsWithinLimit event a le)
events-IsAccounted (event ∷ events) a c unique (inr w) le =
    events-IsAccounted events (after_event event a) c (event-HasUniqueKeys event a unique)
      (elim (Within-cons w) [
        | inl first ↦
            inl (subst (λ x. IsAccounted (after_event x a) c) first (dialled-IsAccounted a c))
        | inr later ↦ inr later
      ])
      (event-IsWithinLimit event a le)

-- However its datagrams, dials, registrations, closes and ends of sessions interleave, a socket that an
-- association has dialled is waiting to be registered, or is in the map of sessions, or is to be
-- closed, or is closed, or its reader has ended; and the map has at most 512 sessions.
pub after_events-IsAccounted :
    (peer_ip : Bytes) (events : List UdpEvent) (c : ℕ)
    → Within (socket_dialled c) events
    → IsAccounted (after_events events (new_association peer_ip)) c
      × (length (after_events events (new_association peer_ip)).sessions ≤ max_udp_sessions)
after_events-IsAccounted peer_ip events c w =
    events-IsAccounted events (new_association peer_ip) c (λ e e' v v' keys. absurd (no_member v))
      (inr w) (omega arith)
