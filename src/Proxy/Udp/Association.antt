-- ===== src/Proxy/Udp/Association.antt =====
-- The association of internal/proxy/socks5_udp.go: whom it hears, and its sockets by destination. Times
-- are numbers, a socket is its number; where several sessions are equally old, the first goes.
pub mod Limit
pub mod Sockets
pub mod Keys
pub mod Accounts
use gowebfilter.Base.{
  ℕ, zero, suc, ◌+◌, ◌-◌, ◌*◌, ◌/◌, ◌%◌, ◌^◌, ◌≤◌, ◌<◌, ◌≡◌, refl, sym, ap, ap₂, ◌∙◌, subst, ◌≢◌,
  ◌↔◌, ◌⊎◌, inl, inr, Bool, true, false, ◌&&◌, ◌||◌, not, Option, none, some, List, [], ◌∷◌, ◌++◌,
  map, append-nil, append_assoc, arith, ltb, leb, ◌==◌, if◌then◌else◌, ltb→lt, lt→ltb, leb→le,
  ==_iff, Bool-cases, false≢true, Option-cases, or_else, none≢some, some_injective, length,
  length-append, take, drop, take-append-drop, length-take, get_elem?, Bytes, codes, bytes_eq,
  bytes_eq_iff, bytes_eq_refl, cut_prefix, cut_prefix-some, cut_prefix-append, is_some, has_prefix,
  trim_prefix, has_suffix, EndsIn, has_suffix_iff, has_byte, cut_byte, is_space, trim_space,
  to_lower, lower_byte, split_byte, contains, cut_text, cut_text-parts, cut_last_byte, contains_any,
  trim_suffix, is_one_of, and_then, on_some, both, not-true, is_empty, ℤ, pos, negsuc, atoi,
  atoi_two, itoa, itoa_digit, digits, IsDigit, hex_digit, hex_value, hex_value-hex_digit,
  split_byte-cons, eq_ne, is_digit, Within, Within-append, Within-cons, append_left, append_right,
  no_member, Any, any_of, any_of_iff,
}

pub record UdpSession : Type 0 where
  pub conn : ℕ
  pub raw_addr : Bytes
  pub last_used : ℕ

pub record UdpAssociation : Type 0 where
  pub peer_ip : Bytes
  pub client_addr : Option (Bytes × ℕ)
  pub sessions : List (Bytes × UdpSession)
  pub is_closed : Bool
  -- The sockets themselves: dialled and not registered yet, about to be closed, closed, and those whose
  -- reader has ended, which dropSession takes out of the map and nothing closes.
  pub dialling : List ℕ
  pub closing : List ℕ
  pub closed_conns : List ℕ
  pub ended_conns : List ℕ

-- serveSocksUDPAssociate: a new association.
abbrev pub new_association : Bytes → UdpAssociation
new_association peer_ip = record {
  peer_ip = peer_ip;
  client_addr = none;
  sessions = [];
  is_closed = false;
  dialling = [];
  closing = [];
  closed_conns = [];
  ended_conns = [];
}

abbrev pub max_udp_sessions : ℕ
max_udp_sessions = 512

abbrev pub same_addr : Bytes × ℕ → Bytes × ℕ → Bool
same_addr (ip, port) (ip', port') = bytes_eq ip ip' && port == port'

abbrev pub accept_by : Option (Bytes × ℕ) → Bytes × ℕ → UdpAssociation → UdpAssociation × Bool
accept_by none addr a =
    if not (is_empty a.peer_ip) && not (bytes_eq addr.0 a.peer_ip)
    then (a, false)
    else (record a { client_addr = some addr }, true)
accept_by (some known) addr a = (a, same_addr addr known)

unfoldable pub accept_from : Bytes × ℕ → UdpAssociation → UdpAssociation × Bool
unfolding bytes_eq
accept_from addr a = accept_by a.client_addr addr a

-- The map of sessions, as pairs: `m[k]`, `delete(m, k)`, and the new time of a session.
unfoldable pub session_at : Bytes → List (Bytes × UdpSession) → Option UdpSession
unfolding bytes_eq
session_at k [] = none
session_at k ((j, s) ∷ m) = let rest = session_at k m in if bytes_eq j k then some s else rest

unfoldable pub delete_at : Bytes → List (Bytes × UdpSession) → List (Bytes × UdpSession)
unfolding bytes_eq
delete_at k [] = []
delete_at k ((j, s) ∷ m) = let rest = delete_at k m in if bytes_eq j k then rest else (j, s) ∷ rest

unfoldable pub touch_at : Bytes → ℕ → List (Bytes × UdpSession) → List (Bytes × UdpSession)
unfolding bytes_eq
touch_at k now [] = []
touch_at k now ((j, s) ∷ m) =
    let rest = touch_at k now m in
    (if bytes_eq j k then (j, record s { last_used = now }) else (j, s)) ∷ rest

-- evictLockedIfFull
unfoldable pub oldest_of : Bytes × UdpSession → List (Bytes × UdpSession) → Bytes × UdpSession
oldest_of best [] = best
oldest_of best (entry ∷ m) =
    oldest_of (if ltb entry.1.last_used best.1.last_used then entry else best) m

abbrev pub evict_oldest : List (Bytes × UdpSession) → List (Bytes × UdpSession) × Option UdpSession
evict_oldest [] = ([], none)
evict_oldest (entry ∷ m) = let (key, s) = oldest_of entry m in (delete_at key (entry ∷ m), some s)

unfoldable pub evict_if_full :
    List (Bytes × UdpSession) → List (Bytes × UdpSession) × Option UdpSession
unfolding oldest_of delete_at
evict_if_full m = if ltb (length m) max_udp_sessions then (m, none) else evict_oldest m

-- session, before the dial: the session there is.
unfoldable pub find_session : Bytes → ℕ → UdpAssociation → UdpAssociation × Option UdpSession
unfolding session_at touch_at
find_session key now a =
    if a.is_closed
    then (a, none)
    else (record a { sessions = touch_at key now a.sessions }, session_at key a.sessions)

-- DialUpstream outside the lock: one more socket is open.
unfoldable pub dial_session : ℕ → UdpAssociation → UdpAssociation
dial_session conn a = record a { dialling = conn ∷ a.dialling }

unfoldable pub delete_conn : ℕ → List ℕ → List ℕ
delete_conn conn [] = []
delete_conn conn (c ∷ cs) = let rest = delete_conn conn cs in if c == conn then rest else c ∷ rest

abbrev pub conn_of : Option UdpSession → List ℕ
conn_of none = []
conn_of (some s) = s.conn ∷ []

-- session, behind the dial: the association may have been closed, or the session made, in between; then
-- the new socket is to be closed. Otherwise the session is added, once there is room, and the socket of
-- the evicted one is to be closed.
abbrev pub keep_or_add : Option UdpSession → Bytes → UdpSession → UdpAssociation → UdpAssociation
keep_or_add (some existing) key s a = record a {
  sessions = touch_at key s.last_used a.sessions;
  dialling = delete_conn s.conn a.dialling;
  closing = s.conn ∷ a.closing;
}
keep_or_add none key s a = record a {
  sessions = (key, s) ∷ (evict_if_full a.sessions).0;
  dialling = delete_conn s.conn a.dialling;
  closing = conn_of (evict_if_full a.sessions).1 ++ a.closing;
}

abbrev pub refuse_session : UdpSession → UdpAssociation → UdpAssociation
refuse_session s a = record a {
  dialling = delete_conn s.conn a.dialling;
  closing = s.conn ∷ a.closing;
}

unfoldable pub register_session : Bytes → UdpSession → UdpAssociation → UdpAssociation
unfolding session_at touch_at evict_if_full delete_at delete_conn
register_session key s a =
    if a.is_closed then refuse_session s a else keep_or_add (session_at key a.sessions) key s a

-- conn.Close, outside the lock.
abbrev pub close_first : List ℕ → UdpAssociation → UdpAssociation
close_first [] a = a
close_first (c ∷ cs) a = record a { closing = cs; closed_conns = c ∷ a.closed_conns }

unfoldable pub close_next : UdpAssociation → UdpAssociation
close_next a = close_first a.closing a

-- dropSession, at the end of readSession: only the session that is still there.
abbrev pub holds_conn : Option UdpSession → ℕ → Bool
holds_conn none conn = false
holds_conn (some s) conn = s.conn == conn

unfoldable pub drop_session : Bytes → ℕ → UdpAssociation → UdpAssociation
unfolding session_at delete_at
drop_session key conn a =
    if holds_conn (session_at key a.sessions) conn
    then record a { sessions = delete_at key a.sessions; ended_conns = conn ∷ a.ended_conns }
    else a

unfoldable pub all_conns : List (Bytes × UdpSession) → List ℕ
all_conns [] = []
all_conns ((k, s) ∷ m) = s.conn ∷ all_conns m

unfoldable pub close_association : UdpAssociation → UdpAssociation
unfolding all_conns
close_association a = record a {
  is_closed = true;
  sessions = [];
  closing = all_conns a.sessions ++ a.closing;
}
