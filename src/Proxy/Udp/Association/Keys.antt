-- ===== src/Proxy/Udp/Association/Keys.antt =====
-- The sessions of an association keep different keys, over any events.
use gowebfilter.Base.{
  ℕ, ◌≡◌, refl, sym, ap, ◌∙◌, ◌≢◌, inl, inr, Bool, true, false, ◌&&◌, not, Option, none, some, List,
  [], ◌∷◌, Bytes, bytes_eq, is_empty, Within, Within-cons, no_member,
}
use gowebfilter.Adblock.Glob.Reference.{later}
use gowebfilter.Adblock.Index.{first}
use gowebfilter.Categories.Hash.{at}
use gowebfilter.Proxy.Udp.Association.{
  UdpAssociation, UdpSession, accept_by, accept_from, close_association, close_first, close_next,
  delete_at, dial_session, drop_session, evict_if_full, find_session, holds_conn, keep_or_add,
  refuse_session, register_session, session_at, touch_at,
}
use gowebfilter.Proxy.Udp.Association.Limit.{
  UdpEvent, after_event, association_closed, datagram_from, session_dialled, session_ended,
  session_sought, socket_closed, socket_dialled,
}
use gowebfilter.Proxy.Udp.Association.Sockets.{
  HasUniqueKeys, delete_at-from, dropped_from, evict-from, if_holds, session_at-none,
  touch_at-HasUniqueKeys,
}

added-HasUniqueKeys :
    (key : Bytes) (s : UdpSession) (m : List (Bytes × UdpSession))
    → ((e : Bytes × UdpSession) → Within e m → e.0 ≢ key)
    → HasUniqueKeys m
    → HasUniqueKeys ((key, s) ∷ m)
added-HasUniqueKeys key s m absent unique e e' w w' keys = elim (Within-cons w) [
  | inl first ↦ elim (Within-cons w') [
    | inl first' ↦ first ∙ sym first'
    | inr later' ↦ absurd (absent e' later' (sym keys ∙ ap (λ (x : Bytes × UdpSession). x.0) first))
  ]
  | inr later ↦ elim (Within-cons w') [
    | inl first' ↦ absurd (absent e later (keys ∙ ap (λ (x : Bytes × UdpSession). x.0) first'))
    | inr later' ↦ unique e e' later later' keys
  ]
]

fewer-HasUniqueKeys :
    (m n : List (Bytes × UdpSession))
    → ((e : Bytes × UdpSession) → Within e n → Within e m)
    → HasUniqueKeys m
    → HasUniqueKeys n
fewer-HasUniqueKeys m n from unique e e' w w' keys = unique e e' (from e w) (from e' w') keys

kept-HasUniqueKeys :
    (found : Option UdpSession) (key : Bytes) (s : UdpSession) (a : UdpAssociation)
    → session_at key a.sessions ≡ found
    → HasUniqueKeys a.sessions
    → HasUniqueKeys (keep_or_add found key s a).sessions
kept-HasUniqueKeys (some existing) key s a at unique =
    touch_at-HasUniqueKeys key s.last_used a.sessions unique
kept-HasUniqueKeys none key s a at unique =
    added-HasUniqueKeys key s (evict_if_full a.sessions).0
      (λ e w. session_at-none key a.sessions e at (evict-from a.sessions e w))
      (fewer-HasUniqueKeys a.sessions (evict_if_full a.sessions).0 (evict-from a.sessions) unique)

accepted-HasUniqueKeys :
    (known : Option (Bytes × ℕ)) (addr : Bytes × ℕ) (a : UdpAssociation)
    → HasUniqueKeys a.sessions
    → HasUniqueKeys (accept_by known addr a).0.sessions
accepted-HasUniqueKeys (some known) addr a unique = unique
accepted-HasUniqueKeys none addr a unique =
    if_holds (λ (x : UdpAssociation × Bool). HasUniqueKeys x.0.sessions)
      (not (is_empty a.peer_ip) && not (bytes_eq addr.0 a.peer_ip)) (a, false)
      (record a { client_addr = some addr }, true) (λ e. unique) (λ e. unique)

closed-HasUniqueKeys :
    (cs : List ℕ) (a : UdpAssociation)
    → HasUniqueKeys a.sessions
    → HasUniqueKeys (close_first cs a).sessions
closed-HasUniqueKeys [] a unique = unique
closed-HasUniqueKeys (c ∷ cs) a unique = unique

pub event-HasUniqueKeys :
    (event : UdpEvent) (a : UdpAssociation)
    → HasUniqueKeys a.sessions
    → HasUniqueKeys (after_event event a).sessions
unfolding after_event accept_from find_session dial_session register_session close_next drop_session
    close_association
event-HasUniqueKeys (datagram_from addr) a unique =
    accepted-HasUniqueKeys a.client_addr addr a unique
event-HasUniqueKeys (session_sought key now) a unique =
    if_holds (λ (x : UdpAssociation × Option UdpSession). HasUniqueKeys x.0.sessions) a.is_closed
      (a, none) (record a { sessions = touch_at key now a.sessions }, session_at key a.sessions)
      (λ e. unique) (λ e. touch_at-HasUniqueKeys key now a.sessions unique)
event-HasUniqueKeys (socket_dialled conn) a unique = unique
event-HasUniqueKeys (session_dialled key s) a unique =
    if_holds (λ (x : UdpAssociation). HasUniqueKeys x.sessions) a.is_closed (refuse_session s a)
      (keep_or_add (session_at key a.sessions) key s a) (λ e. unique)
      (λ e. kept-HasUniqueKeys (session_at key a.sessions) key s a refl unique)
event-HasUniqueKeys socket_closed a unique = closed-HasUniqueKeys a.closing a unique
event-HasUniqueKeys (session_ended key conn) a unique =
    if_holds (λ (x : UdpAssociation). HasUniqueKeys x.sessions)
      (holds_conn (session_at key a.sessions) conn) (dropped_from key conn a) a
      (λ e.
        fewer-HasUniqueKeys a.sessions (delete_at key a.sessions) (delete_at-from key a.sessions)
          unique)
      (λ e. unique)
event-HasUniqueKeys association_closed a unique = λ e e' w w' keys. absurd (no_member w)
