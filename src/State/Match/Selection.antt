-- ===== src/State/Match/Selection.antt =====
-- What the choice of policy_match.go guarantees, over its four tiers.
use gowebfilter.Base.{
  ℕ, zero, suc, ◌≡◌, refl, sym, ap, ◌∙◌, subst, ◌≢◌, ◌⊎◌, inl, inr, Bool, true, false, ◌&&◌, not,
  Option, none, some, List, [], ◌∷◌, arith, Option-cases, none≢some, some_injective, get_elem?,
  Bytes, trim_space, Within,
}
use gowebfilter.Models.Policy.{Policy}
use gowebfilter.Models.Schedule.{Time, is_active_at}
use gowebfilter.Net.{Net}
use gowebfilter.State.Match.{
  Narrow, PolicyMatch, Tier, catch_all_hit, catch_all_tier, choose_tier, cidr_tier, exact_hit,
  exact_tier, get_policy, is_eligible, mac_hit, mac_tier, match_address, match_catch_all,
  match_cidr, match_exact_ip, match_mac, match_none, match_policy, policy_name_at, resolve_mac,
  without_zone,
}
use gowebfilter.State.Match.Candidates.{BlockCandidate}
use gowebfilter.State.Match.First.{Candidate, FirstChoice, first_loop-FirstChoice, first_loop-none}
use gowebfilter.State.Match.Narrowest.{NarrowChoice, block_loop-NarrowChoice, block_loop-none}

module _ (net : Net) (ps : List Policy) (addr : net.Addr) (now : Time) (mac : Bytes) where
  -- No eligible policy matches in the tier.
  abbrev pub TierEmpty : Tier → Type 0
  TierEmpty match_none = Unit
  TierEmpty match_mac =
      (mac ≡ []) ⊎ ((j : ℕ) (q : Policy) (src : Bytes) → ¬ Candidate (mac_hit mac) now ps j q src)
  TierEmpty match_exact_ip =
      (j : ℕ) (q : Policy) (src : Bytes) → ¬ Candidate (exact_hit net addr) now ps j q src
  TierEmpty match_cidr =
      (j : ℕ) (q : Policy) (n : ℕ) (src : Bytes) → ¬ BlockCandidate net addr now ps j q n src
  TierEmpty match_catch_all =
      (j : ℕ) (q : Policy) (src : Bytes) → ¬ Candidate catch_all_hit now ps j q src

  -- The policy at the index is the tier's choice, for the entry.
  abbrev pub TierChoice : Tier → ℕ → Bytes → Type 0
  TierChoice match_none i src = ⊥
  TierChoice match_mac i src = (mac ≢ []) × FirstChoice (mac_hit mac) now ps i src
  TierChoice match_exact_ip i src = FirstChoice (exact_hit net addr) now ps i src
  TierChoice match_cidr i src = (n : ℕ) × NarrowChoice net addr now ps i n src
  TierChoice match_catch_all i src = FirstChoice catch_all_hit now ps i src

  -- The tiers before this one are empty.
  abbrev pub Passed : Tier → Type 0
  Passed match_mac = Unit
  Passed match_exact_ip = TierEmpty match_mac
  Passed match_cidr = TierEmpty match_mac × TierEmpty match_exact_ip
  Passed match_catch_all = TierEmpty match_mac × TierEmpty match_exact_ip × TierEmpty match_cidr
  Passed match_none =
      TierEmpty match_mac
      × TierEmpty match_exact_ip
      × TierEmpty match_cidr
      × TierEmpty match_catch_all

  abbrev pub IsSelection : PolicyMatch → Type 0
  IsSelection r =
      Passed r.tier
      × (((r.policy_index ≡ none) × (r.tier ≡ match_none))
          ⊎ ((i : ℕ) × (r.policy_index ≡ some i)
              × (r.policy_name ≡ policy_name_at ps i)
              × TierChoice r.tier i r.source))

  mac_tier-FirstChoice :
      (m : Bytes) (i : ℕ) (src : Bytes)
      → mac_tier now ps m ≡ some (i, src)
      → (m ≢ []) × FirstChoice (mac_hit m) now ps i src
  unfolding mac_tier
  mac_tier-FirstChoice [] i src e = absurd (none≢some e)
  mac_tier-FirstChoice (c ∷ m) i src e = (λ h. cc, first_loop-FirstChoice _ now ps i src e)

  mac_tier-none :
      (m : Bytes)
      → mac_tier now ps m ≡ none
      → (m ≡ []) ⊎ ((j : ℕ) (q : Policy) (src : Bytes) → ¬ Candidate (mac_hit m) now ps j q src)
  unfolding mac_tier
  mac_tier-none [] e = inl refl
  mac_tier-none (c ∷ m) e = inr (first_loop-none (mac_hit (c ∷ m)) now ps e)

  choose_tier-IsSelection :
      (m e a : Option (ℕ × Bytes)) (c : Option Narrow)
      → mac_tier now ps mac ≡ m
      → exact_tier net addr now ps ≡ e
      → cidr_tier net addr now ps ≡ c
      → catch_all_tier now ps ≡ a
      → IsSelection (choose_tier ps now mac m e c a)
  unfolding choose_tier exact_tier cidr_tier catch_all_tier
  choose_tier-IsSelection (some (i, src)) e a c hm he hc ha =
      (tt, inr (i, refl, refl, mac_tier-FirstChoice mac i src hm))
  choose_tier-IsSelection none (some (i, src)) a c hm he hc ha =
      (mac_tier-none mac hm, inr (i, refl, refl, first_loop-FirstChoice _ now ps i src he))
  choose_tier-IsSelection none none a (some (i, n, src)) hm he hc ha = (
    (mac_tier-none mac hm, first_loop-none (exact_hit net addr) now ps he),
    inr (i, refl, refl, (n, block_loop-NarrowChoice net addr now ps i n src hc)),
  )
  choose_tier-IsSelection none none (some (i, src)) none hm he hc ha = (
    (
      mac_tier-none mac hm,
      first_loop-none (exact_hit net addr) now ps he,
      block_loop-none net addr now ps hc,
    ),
    inr (i, refl, refl, first_loop-FirstChoice catch_all_hit now ps i src ha),
  )
  choose_tier-IsSelection none none none none hm he hc ha = (
    (
      mac_tier-none mac hm,
      first_loop-none (exact_hit net addr) now ps he,
      block_loop-none net addr now ps hc,
      first_loop-none catch_all_hit now ps ha,
    ),
    inl (refl, refl),
  )

  match_address-IsSelection : IsSelection (match_address net ps addr now mac)
  unfolding match_address
  match_address-IsSelection =
      choose_tier-IsSelection (mac_tier now ps mac) (exact_tier net addr now ps)
        (catch_all_tier now ps) (cidr_tier net addr now ps) refl refl refl refl

-- For a client address that parses, `match_policy` takes the first tier that has an eligible
-- match, of MAC, exact address, address block and catch-all; within it a policy with a schedule
-- before one without; among blocks the longest prefix; and the earliest policy of those. It gives
-- no index exactly when its tier is `match_none`, and then all four tiers are empty.
pub match_policy-IsSelection :
    (net : Net) (ps : List Policy) (client_ip : Bytes) (now : Time)
    (lookup_mac : Option (Bytes → Bytes)) (addr : net.Addr)
    → net.parse_ip (trim_space (without_zone client_ip)) ≡ some addr
    → IsSelection net ps addr now
        (resolve_mac ps lookup_mac (without_zone client_ip))
        (match_policy net ps client_ip now lookup_mac)
unfolding match_policy
match_policy-IsSelection net ps client_ip now lookup_mac addr e =
    rw (e, match_policy) (match_address-IsSelection net ps addr now _)

TierChoice-eligible :
    (net : Net) (ps : List Policy) (addr : net.Addr) (now : Time) (mac : Bytes) (t : Tier) (i : ℕ)
    (src : Bytes)
    → TierChoice net ps addr now mac t i src
    → (p : Policy) × (get_elem? ps i ≡ some p) × (is_eligible now p ≡ true)
TierChoice-eligible net ps addr now mac match_none i src h = absurd h
TierChoice-eligible net ps addr now mac match_mac i src (_, (p, c, _)) = (p, c.0, c.1)
TierChoice-eligible net ps addr now mac match_exact_ip i src (p, c, _) = (p, c.0, c.1)
TierChoice-eligible net ps addr now mac match_cidr i src (n, (p, c, _)) = (p, c.0, c.1)
TierChoice-eligible net ps addr now mac match_catch_all i src (p, c, _) = (p, c.0, c.1)

get_elem?-Within {ℓ} :
    {A : Type ℓ} (xs : List A) (i : ℕ) (x : A) → get_elem? xs i ≡ some x → Within x xs
get_elem?-Within [] i x e = absurd (none≢some e)
get_elem?-Within (y ∷ xs) zero x e = subst (λ z. Within z (y ∷ xs)) (some_injective e) Within.here
get_elem?-Within (y ∷ xs) (suc i) x e = Within.there (get_elem?-Within xs i x e)

eligible_parts :
    (now : Time) (p : Policy)
    → is_eligible now p ≡ true
    → (p.inactive ≡ false) × (is_active_at p.schedule now ≡ true)
eligible_parts now p h = parts p.inactive (is_active_at p.schedule now) h
  where
    parts : (a b : Bool) → not a && b ≡ true → (a ≡ false) × (b ≡ true)
    parts a b h = ground arith

-- What the index of a match stands for.
abbrev policy_at : List Policy → Option ℕ → Option Policy
policy_at ps o = elim o [ none ↦ none | some i ↦ get_elem? ps i ]

module _ (net : Net) (ps : List Policy) (client_ip : Bytes) (now : Time)
    (lookup_mac : Option (Bytes → Bytes)) where
  unparsed :
      net.parse_ip (trim_space (without_zone client_ip)) ≡ none
      → (match_policy net ps client_ip now lookup_mac).policy_index ≡ none
  unfolding match_policy
  unparsed e = rw (e, match_policy) refl

  selected :
      (p : Policy)
      → policy_at ps (match_policy net ps client_ip now lookup_mac).policy_index ≡ some p
      → (i : ℕ) × (get_elem? ps i ≡ some p) × (is_eligible now p ≡ true)
  selected p h = elim (Option-cases (net.parse_ip (trim_space (without_zone client_ip)))) [
    | inl bad ↦ absurd (none≢some (rw (unparsed bad) at h))
    | inr (addr, good) ↦
        elim (match_policy-IsSelection net ps client_ip now lookup_mac addr good).1 [
          | inl (idle, _) ↦ absurd (none≢some (rw idle at h))
          | inr (i, at_i, _, choice) ↦
              let (q, eq, ok) = TierChoice-eligible net ps addr now _ _ i _ choice in
              let same : q ≡ p = some_injective (sym eq ∙ (rw at_i at h)) in
              (i, eq ∙ ap some same, subst (λ t. is_eligible now t ≡ true) same ok)
        ]
  ]

-- A policy that `get_policy` returns is one of the list, is not switched off and has an active
-- schedule; and a client address that does not parse gets no policy.
pub get_policy_sound :
    (net : Net) (ps : List Policy) (client_ip : Bytes) (now : Time)
    (lookup_mac : Option (Bytes → Bytes))
    → ((p : Policy)
        → get_policy net ps client_ip now lookup_mac ≡ some p
        → Within p ps × (p.inactive ≡ false) × (is_active_at p.schedule now ≡ true))
      × (net.parse_ip (trim_space (without_zone client_ip)) ≡ none
          → get_policy net ps client_ip now lookup_mac ≡ none)
unfolding get_policy
get_policy_sound net ps client_ip now lookup_mac = (
  λ p h.
      let (i, e, ok) = selected net ps client_ip now lookup_mac p h in
      let (on, active) = eligible_parts now p ok in (get_elem?-Within ps i p e, on, active),
  λ bad. ap (policy_at ps) (unparsed net ps client_ip now lookup_mac bad),
)
