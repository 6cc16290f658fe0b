-- ===== src/Proxy/Udp/Association/Sockets.antt =====
-- Where every socket of an association is, over any events.
use gowebfilter.Base.{
  ℕ, ◌≡◌, refl, sym, ap, ap₂, ◌∙◌, subst, ◌≢◌, ◌⊎◌, inl, inr, Bool, true, false, none, some, List,
  [], ◌∷◌, ltb, if◌then◌else◌, Bool-cases, false≢true, none≢some, some_injective, length, Bytes,
  bytes_eq, bytes_eq_iff, Within, Within-cons, no_member,
}
use gowebfilter.Adblock.Glob.Reference.{later}
use gowebfilter.Adblock.Index.{first}
use gowebfilter.Proxy.Udp.Association.{
  UdpAssociation, UdpSession, conn_of, delete_at, evict_if_full, evict_oldest, max_udp_sessions,
  oldest_of, session_at, touch_at,
}
use gowebfilter.Proxy.Udp.Association.Limit.{oldest_of-Within}

abbrev Entry : Type 0
Entry = Bytes × UdpSession

-- No two sessions of the map have the same key.
abbrev pub HasUniqueKeys : List Entry → Type 0
HasUniqueKeys m = (e e' : Entry) → Within e m → Within e' m → e.0 ≡ e'.0 → e ≡ e'

abbrev pub IsHeld : List Entry → ℕ → Type 0
IsHeld m c = (e : Entry) × Within e m × (e.1.conn ≡ c)

pub delete_at-keeps :
    (k : Bytes) (m : List Entry) (e : Entry) → Within e m → (e.0 ≡ k) ⊎ Within e (delete_at k m)
unfolding delete_at
delete_at-keeps k [] e w = absurd (no_member w)
delete_at-keeps k ((j, s) ∷ m) e w = elim (Bool-cases (bytes_eq j k)) [
  | inl same ↦ elim (Within-cons w) [
    | inl first ↦ inl (ap (λ (x : Entry). x.0) first ∙ (bytes_eq_iff j k).0 same)
    | inr later ↦ rw same (delete_at-keeps k m e later)
  ]
  | inr differ ↦ elim (Within-cons w) [
    | inl first ↦
        rw differ (inr (subst (λ x. Within x ((j, s) ∷ delete_at k m)) (sym first) Within.here))
    | inr later ↦ rw differ (elim (delete_at-keeps k m e later) [
      | inl key ↦ inl key
      | inr kept ↦ inr (Within.there kept)
    ])
  ]
]

pub delete_at-from :
    (k : Bytes) (m : List Entry) (e : Entry) → Within e (delete_at k m) → Within e m
unfolding delete_at
delete_at-from k [] e w = absurd (no_member w)
delete_at-from k ((j, s) ∷ m) e w = elim (Bool-cases (bytes_eq j k)) [
  | inl same ↦ Within.there (delete_at-from k m e (rw same at w))
  | inr differ ↦ elim (Within-cons (rw differ at w)) [
    | inl first ↦ subst (λ x. Within x ((j, s) ∷ m)) (sym first) Within.here
    | inr later ↦ Within.there (delete_at-from k m e later)
  ]
]

-- A touched session keeps its key and its socket.
abbrev touched : Bytes → ℕ → Entry → Entry
touched k now (j, s) = if bytes_eq j k then (j, record s { last_used = now }) else (j, s)

touched-same :
    (k : Bytes) (now : ℕ) (e : Entry)
    → ((touched k now e).0 ≡ e.0) × ((touched k now e).1.conn ≡ e.1.conn)
touched-same k now (j, s) = elim (Bool-cases (bytes_eq j k)) [
  | inl same ↦ rw same (refl, refl)
  | inr differ ↦ rw differ (refl, refl)
]

touch_at-keeps :
    (k : Bytes) (now : ℕ) (m : List Entry) (e : Entry)
    → Within e m
    → Within (touched k now e) (touch_at k now m)
unfolding touch_at
touch_at-keeps k now [] e w = absurd (no_member w)
touch_at-keeps k now (x ∷ m) e w = elim (Within-cons w) [
  | inl first ↦
      subst (λ y. Within (touched k now y) (touch_at k now (x ∷ m))) (sym first) Within.here
  | inr later ↦ Within.there (touch_at-keeps k now m e later)
]

touch_at-from :
    (k : Bytes) (now : ℕ) (m : List Entry) (e : Entry)
    → Within e (touch_at k now m)
    → (x : Entry) × Within x m × (e ≡ touched k now x)
unfolding touch_at
touch_at-from k now [] e w = absurd (no_member w)
touch_at-from k now (x ∷ m) e w = elim (Within-cons w) [
  | inl first ↦ (x, Within.here, first)
  | inr later ↦ let (y, v, same) = touch_at-from k now m e later in (y, Within.there v, same)
]

pub touch_at-HasUniqueKeys :
    (k : Bytes) (now : ℕ) (m : List Entry) → HasUniqueKeys m → HasUniqueKeys (touch_at k now m)
touch_at-HasUniqueKeys k now m unique e e' w w' keys =
    let (x, v, same) = touch_at-from k now m e w in
    let (x', v', same') = touch_at-from k now m e' w' in
    same
    ∙ ap (touched k now) (
        unique x x' v v' (
          sym (touched-same k now x).0
          ∙ ap (λ (y : Entry). y.0) (sym same)
          ∙ keys
          ∙ ap (λ (y : Entry). y.0) same'
          ∙ (touched-same k now x').0))
    ∙ sym same'

pub touch_at-IsHeld :
    (k : Bytes) (now : ℕ) (m : List Entry) (c : ℕ) → IsHeld m c → IsHeld (touch_at k now m) c
touch_at-IsHeld k now m c (e, w, conn) =
    (touched k now e, touch_at-keeps k now m e w, (touched-same k now e).1 ∙ conn)

pub session_at-none :
    (k : Bytes) (m : List Entry) (e : Entry) → session_at k m ≡ none → Within e m → e.0 ≢ k
unfolding session_at
session_at-none k [] e h w = absurd (no_member w)
session_at-none k ((j, s) ∷ m) e h w = elim (Bool-cases (bytes_eq j k)) [
  | inl same ↦ absurd (none≢some (sym (rw same at h)))
  | inr differ ↦ elim (Within-cons w) [
    | inl first ↦ λ key.
        false≢true (sym differ ∙ (bytes_eq_iff j k).1 (ap (λ (x : Entry). x.0) (sym first) ∙ key))
    | inr later ↦ session_at-none k m e (rw differ at h) later
  ]
]

pub session_at-some :
    (k : Bytes) (m : List Entry) (s : UdpSession) → session_at k m ≡ some s → Within (k, s) m
unfolding session_at
session_at-some k [] s h = absurd (none≢some h)
session_at-some k ((j, s') ∷ m) s h = elim (Bool-cases (bytes_eq j k)) [
  | inl same ↦
      subst (λ (x : Entry). Within x ((j, s') ∷ m))
        (ap₂ (λ (x : Bytes) (y : UdpSession). (x, y)) ((bytes_eq_iff j k).0 same)
          (some_injective (rw same at h)))
        Within.here
  | inr differ ↦ Within.there (session_at-some k m s (rw differ at h))
]

-- Eviction takes one session out, and gives it.
pub evict-from : (m : List Entry) (e : Entry) → Within e (evict_if_full m).0 → Within e m
unfolding evict_if_full
evict-from m e w = elim (Bool-cases (ltb (length m) max_udp_sessions)) [
  | inl room ↦ rw room at w
  | inr full ↦ evicted m (rw full at w)
]
  where
    evicted : (m' : List Entry) → Within e (evict_oldest m').0 → Within e m'
    evicted [] v = v
    evicted (x ∷ m') v = delete_at-from (oldest_of x m').0 (x ∷ m') e v

pub evict-IsHeld :
    (m : List Entry) (c : ℕ)
    → HasUniqueKeys m
    → IsHeld m c
    → IsHeld (evict_if_full m).0 c ⊎ Within c (conn_of (evict_if_full m).1)
unfolding evict_if_full
evict-IsHeld m c unique held = elim (Bool-cases (ltb (length m) max_udp_sessions)) [
  | inl room ↦ rw room (inl held)
  | inr full ↦ rw full (evicted m unique held)
]
  where
    evicted :
        (m' : List Entry)
        → HasUniqueKeys m'
        → IsHeld m' c
        → IsHeld (evict_oldest m').0 c ⊎ Within c (conn_of (evict_oldest m').1)
    evicted [] unique' (e, w, conn) = absurd (no_member w)
    evicted (x ∷ m') unique' (e, w, conn) = elim (delete_at-keeps (oldest_of x m').0 (x ∷ m') e w) [
      | inl key ↦ inr (
          subst (λ k. Within k ((oldest_of x m').1.conn ∷ []))
            (ap (λ (y : Entry). y.1.conn)
                (unique' (oldest_of x m') e (oldest_of-Within x m') w (sym key))
              ∙ conn)
            Within.here)
      | inr kept ↦ inl (e, kept, conn)
    ]

-- A property of both ends of a test.
pub if_holds {ℓ} :
    {A : Type ℓ} (P : A → Type 0) (b : Bool) (x y : A)
    → (b ≡ true → P x)
    → (b ≡ false → P y)
    → P (if b then x else y)
if_holds P true x y hx hy = hx refl
if_holds P false x y hx hy = hy refl

-- The association that drop_session leaves.
abbrev pub dropped_from : Bytes → ℕ → UdpAssociation → UdpAssociation
dropped_from key conn a = record a {
  sessions = delete_at key a.sessions;
  ended_conns = conn ∷ a.ended_conns;
}
