-- ===== src/Proxy/Udp/Association/Limit.antt =====
-- The number of sessions of an association, over any events.
use gowebfilter.Base.{
  ℕ, ◌≤◌, ◌<◌, ◌≡◌, refl, sym, subst, inl, inr, Bool, true, false, ◌&&◌, not, Option, none, some,
  List, [], ◌∷◌, arith, ltb, if◌then◌else◌, ltb→lt, Bool-cases, length, Bytes, bytes_eq,
  bytes_eq_refl, is_empty, Within, Within-cons, no_member,
}
use gowebfilter.Adblock.Glob.Reference.{later}
use gowebfilter.Proxy.Udp.Association.{
  UdpAssociation, UdpSession, accept_by, accept_from, close_association, close_first, close_next,
  delete_at, dial_session, drop_session, evict_if_full, evict_oldest, find_session, holds_conn,
  keep_or_add, max_udp_sessions, oldest_of, refuse_session, register_session, session_at, touch_at,
}

-- What happens to an association, in any order: goroutines interleave between these steps.
pub data UdpEvent : Type 0 where
  datagram_from : Bytes × ℕ → UdpEvent
  session_sought : Bytes → ℕ → UdpEvent
  socket_dialled : ℕ → UdpEvent
  session_dialled : Bytes → UdpSession → UdpEvent
  socket_closed : UdpEvent
  session_ended : Bytes → ℕ → UdpEvent
  association_closed : UdpEvent

unfoldable pub after_event : UdpEvent → UdpAssociation → UdpAssociation
unfolding accept_from find_session dial_session register_session close_next drop_session
    close_association
after_event (datagram_from addr) a = (accept_from addr a).0
after_event (session_sought key now) a = (find_session key now a).0
after_event (socket_dialled conn) a = dial_session conn a
after_event socket_closed a = close_next a
after_event (session_dialled key s) a = register_session key s a
after_event (session_ended key conn) a = drop_session key conn a
after_event association_closed a = close_association a

unfoldable pub after_events : List UdpEvent → UdpAssociation → UdpAssociation
unfolding after_event
after_events [] a = a
after_events (event ∷ events) a = after_events events (after_event event a)

abbrev pub IsWithinLimit : UdpAssociation → Type 0
IsWithinLimit a = length a.sessions ≤ max_udp_sessions

length-delete_at : (k : Bytes) (m : List (Bytes × UdpSession)) → length (delete_at k m) ≤ length m
unfolding delete_at
length-delete_at k [] = omega arith
length-delete_at k ((j, s) ∷ m) = elim (Bool-cases (bytes_eq j k)) [
  | inl same ↦ rw same (omega (arith, length-delete_at k m))
  | inr differ ↦ rw differ (omega (arith, length-delete_at k m))
]

delete_at-Within :
    (e : Bytes × UdpSession) (m : List (Bytes × UdpSession))
    → Within e m
    → length (delete_at e.0 m) < length m
unfolding delete_at
delete_at-Within e [] w = absurd (no_member w)
delete_at-Within e (e' ∷ m) Within.here =
    rw (bytes_eq_refl e.0) (omega (arith, length-delete_at e.0 m))
delete_at-Within e ((j, s) ∷ m) (Within.there w) = elim (Bool-cases (bytes_eq j e.0)) [
  | inl same ↦ rw same (omega (arith, length-delete_at e.0 m))
  | inr differ ↦ rw differ (omega (arith, delete_at-Within e m w))
]

length-touch_at :
    (k : Bytes) (now : ℕ) (m : List (Bytes × UdpSession)) → length (touch_at k now m) ≡ length m
unfolding touch_at
length-touch_at k now [] = refl
length-touch_at k now ((j, s) ∷ m) = rw (length-touch_at k now m) refl

pub oldest_of-Within :
    (best : Bytes × UdpSession) (m : List (Bytes × UdpSession))
    → Within (oldest_of best m) (best ∷ m)
unfolding oldest_of
oldest_of-Within best [] = Within.here
oldest_of-Within best (entry ∷ m) = elim (Bool-cases (ltb entry.1.last_used best.1.last_used)) [
  | inl older ↦ rw older (Within.there (oldest_of-Within entry m))
  | inr newer ↦ rw newer (elim (Within-cons (oldest_of-Within best m)) [
    | inl same ↦ subst (λ e. Within e (best ∷ entry ∷ m)) (sym same) Within.here
    | inr later ↦ Within.there (Within.there later)
  ])
]

evicted_room :
    (m : List (Bytes × UdpSession))
    → length m ≤ max_udp_sessions
    → length (evict_if_full m).0 < max_udp_sessions
unfolding evict_if_full
evicted_room m le = elim (Bool-cases (ltb (length m) max_udp_sessions)) [
  | inl room ↦ rw room (ltb→lt (length m) max_udp_sessions room)
  | inr full ↦ rw full (evicted m le)
]
  where
    evicted :
        (m' : List (Bytes × UdpSession))
        → length m' ≤ max_udp_sessions
        → length (evict_oldest m').0 < max_udp_sessions
    evicted [] le' = omega arith
    evicted (entry ∷ m') le' =
        omega (
          arith,
          le',
          delete_at-Within (oldest_of entry m') (entry ∷ m') (oldest_of-Within entry m'),
        )

either-IsWithinLimit :
    (b : Bool) (x y : UdpAssociation)
    → IsWithinLimit x
    → IsWithinLimit y
    → IsWithinLimit (if b then x else y)
either-IsWithinLimit true x y hx hy = hx
either-IsWithinLimit false x y hx hy = hy

answer-IsWithinLimit {ℓ} :
    {A : Type ℓ} (b : Bool) (x y : UdpAssociation × A)
    → IsWithinLimit x.0
    → IsWithinLimit y.0
    → IsWithinLimit (if b then x else y).0
answer-IsWithinLimit true x y hx hy = hx
answer-IsWithinLimit false x y hx hy = hy

kept-IsWithinLimit :
    (found : Option UdpSession) (key : Bytes) (s : UdpSession) (a : UdpAssociation)
    → IsWithinLimit a
    → IsWithinLimit (keep_or_add found key s a)
kept-IsWithinLimit (some existing) key s a le =
    omega (arith, le, length-touch_at key s.last_used a.sessions)
kept-IsWithinLimit none key s a le = omega (arith, evicted_room a.sessions le)

closed-IsWithinLimit :
    (cs : List ℕ) (a : UdpAssociation) → IsWithinLimit a → IsWithinLimit (close_first cs a)
closed-IsWithinLimit [] a le = le
closed-IsWithinLimit (c ∷ cs) a le = le

accepted-IsWithinLimit :
    (known : Option (Bytes × ℕ)) (addr : Bytes × ℕ) (a : UdpAssociation)
    → IsWithinLimit a
    → IsWithinLimit (accept_by known addr a).0
accepted-IsWithinLimit none addr a le =
    answer-IsWithinLimit (not (is_empty a.peer_ip) && not (bytes_eq addr.0 a.peer_ip)) (a, false)
      (record a { client_addr = some addr }, true) le le
accepted-IsWithinLimit (some known) addr a le = le

pub event-IsWithinLimit :
    (event : UdpEvent) (a : UdpAssociation) → IsWithinLimit a → IsWithinLimit (after_event event a)
unfolding after_event accept_from find_session dial_session register_session close_next drop_session
    close_association
event-IsWithinLimit (datagram_from addr) a le = accepted-IsWithinLimit a.client_addr addr a le
event-IsWithinLimit (session_sought key now) a le =
    answer-IsWithinLimit a.is_closed (a, none)
      (record a { sessions = touch_at key now a.sessions }, session_at key a.sessions) le
      (omega (arith, le, length-touch_at key now a.sessions))
event-IsWithinLimit (socket_dialled conn) a le = le
event-IsWithinLimit socket_closed a le = closed-IsWithinLimit a.closing a le
event-IsWithinLimit (session_dialled key s) a le =
    either-IsWithinLimit a.is_closed (refuse_session s a)
      (keep_or_add (session_at key a.sessions) key s a) le
      (kept-IsWithinLimit (session_at key a.sessions) key s a le)
event-IsWithinLimit (session_ended key conn) a le =
    either-IsWithinLimit (holds_conn (session_at key a.sessions) conn)
      (record a { sessions = delete_at key a.sessions; ended_conns = conn ∷ a.ended_conns }) a
      (omega (arith, le, length-delete_at key a.sessions)) le
event-IsWithinLimit association_closed a le = omega arith
