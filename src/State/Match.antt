-- ===== src/State/Match.antt =====
-- internal/proxy/state/policy_match.go: the policy that a client address is filtered by.
-- An index of -1 is `none`.
pub mod First
pub mod Best
pub mod Candidates
pub mod Narrowest
pub mod Selection
use gowebfilter.Base.{
  ℕ, zero, suc, ◌+◌, ◌-◌, ◌*◌, ◌/◌, ◌%◌, ◌^◌, ◌≤◌, ◌<◌, ◌≡◌, refl, sym, ap, ap₂, ◌∙◌, subst, ◌≢◌,
  ◌↔◌, ◌⊎◌, inl, inr, Bool, true, false, ◌&&◌, ◌||◌, not, Option, none, some, List, [], ◌∷◌, ◌++◌,
  map, append-nil, append_assoc, arith, ltb, leb, ◌==◌, if◌then◌else◌, ltb→lt, lt→ltb, leb→le,
  ==_iff, Bool-cases, Option-cases, or_else, none≢some, some_injective, length, length-append, take,
  drop, get_elem?, Bytes, codes, bytes_eq, bytes_eq_iff, bytes_eq_refl, cut_prefix, cut_prefix-some,
  cut_prefix-append, is_some, has_prefix, trim_prefix, has_suffix, EndsIn, has_suffix_iff, has_byte,
  cut_byte, is_space, trim_space, to_lower, lower_byte, split_byte, contains, is_empty, ℤ, pos,
  negsuc, atoi, atoi_two, itoa, itoa_digit, digits, IsDigit, is_digit, Within, Within-append,
  Within-cons, append_left, append_right, no_member, Any, any_of, any_of_iff,
}
use gowebfilter.Models.Policy.{Policy}
use gowebfilter.Models.Schedule.{Time, is_active_at}
use gowebfilter.Net.{Net}

pub data Tier : Type 0 where
  match_none match_mac match_exact_ip match_cidr match_catch_all : Tier

pub record PolicyMatch : Type 0 where
  pub policy_index : Option ℕ
  pub policy_name : Bytes
  pub tier : Tier
  pub source : Bytes
  pub resolved_mac : Bytes
  pub inactive_policies : List Bytes

unfoldable pub contains_string : List Bytes → Bytes → Bool
contains_string xs v = any_of (λ s. bytes_eq s v) xs

-- `!p.Inactive && p.Schedule.IsActiveAt(now)`
abbrev pub is_eligible : Time → Policy → Bool
is_eligible now p = not p.inactive && is_active_at p.schedule now

unfoldable pub inactive_policy_names : Time → List Policy → List Bytes
inactive_policy_names now [] = []
inactive_policy_names now (p ∷ ps) =
    if is_eligible now p
    then inactive_policy_names now ps
    else p.name ∷ inactive_policy_names now ps

-- The variables `scheduled` and `fallback` of a tier, each with the source entry that matched.
pub record Slots (A : Type 0) : Type 0 where
  pub scheduled : Option A
  pub fallback : Option A

abbrev pub no_slots : {A : Type 0} → Slots A
no_slots = record { scheduled = none; fallback = none }

abbrev pub or_first : {A : Type 0} → Option A → Option A → Option A
or_first none y = y
or_first (some x) y = some x

-- `firstOf`
abbrev pub first_of_slots : {A : Type 0} → Slots A → Option A
first_of_slots s = or_first s.scheduled s.fallback

-- An update of the slot for policies with, or without, a schedule.
abbrev pub update_slot : {A : Type 0} → Bool → (Option A → Option A) → Slots A → Slots A
update_slot true f s = record { scheduled = f s.scheduled; fallback = s.fallback }
update_slot false f s = record { scheduled = s.scheduled; fallback = f s.fallback }

-- `if slot < 0 { slot = i }`
abbrev pub keep_first : {A : Type 0} → A → Option A → Option A
keep_first a none = some a
keep_first a (some b) = some b

-- The loop of the MAC, exact and catch-all tiers. `hit` is the entry of a policy that matches.
module _ (hit : Policy → Option Bytes) (now : Time) where
  unfoldable pub first_round : ℕ → Policy → Slots (ℕ × Bytes) → Slots (ℕ × Bytes)
  first_round i p s =
      if is_eligible now p
      then elim (hit p) [
        | none ↦ s
        | some src ↦ update_slot p.schedule.enabled (keep_first (i, src)) s
      ]
      else s

  unfoldable pub first_loop : ℕ → List Policy → Slots (ℕ × Bytes) → Slots (ℕ × Bytes)
  unfolding first_round
  first_loop i [] s = s
  first_loop i (p ∷ ps) s = first_loop (suc i) ps (first_round i p s)

-- An index, the length of the matching prefix and the entry.
abbrev pub Narrow : Type 0
Narrow = ℕ × ℕ × Bytes

-- `if ones > bestPrefix { … }`
unfoldable pub keep_narrower : Narrow → Option Narrow → Option Narrow
keep_narrower a none = some a
keep_narrower a (some b) = if ltb b.1 a.1 then some a else some b

unfoldable pub mac_hit : Bytes → Policy → Option Bytes
mac_hit mac p = if contains_string p.source_macs mac then some mac else none

unfoldable pub catch_all_hit : Policy → Option Bytes
catch_all_hit p = if is_empty p.source_ips then some [] else none

abbrev pub policy_name_at : List Policy → ℕ → Bytes
policy_name_at ps i = elim (get_elem? ps i) [ none ↦ [] | some p ↦ p.name ]

-- `matchedPolicy`; the index is one of the slice's.
abbrev pub matched_policy : List Policy → Time → Bytes → Tier → ℕ → Bytes → PolicyMatch
matched_policy ps now resolved tier i src = record {
  policy_index = some i;
  policy_name = policy_name_at ps i;
  tier = tier;
  source = src;
  resolved_mac = resolved;
  inactive_policies = inactive_policy_names now ps;
}

-- The address that the neighbour table gives, if a policy lists addresses of this kind.
unfoldable pub resolve_mac : List Policy → Option (Bytes → Bytes) → Bytes → Bytes
resolve_mac ps none ip = []
resolve_mac ps (some lookup) ip =
    if any_of (λ p. not (is_empty p.source_macs)) ps then lookup ip else []

unfoldable pub mac_tier : Time → List Policy → Bytes → Option (ℕ × Bytes)
mac_tier now ps [] = none
mac_tier now ps (c ∷ mac) = first_of_slots (first_loop (mac_hit (c ∷ mac)) now 0 ps no_slots)

unfoldable pub catch_all_tier : Time → List Policy → Option (ℕ × Bytes)
catch_all_tier now ps = first_of_slots (first_loop catch_all_hit now 0 ps no_slots)

abbrev pub unmatched : Bytes → List Bytes → PolicyMatch
unmatched resolved names = record {
  policy_index = none;
  policy_name = [];
  tier = match_none;
  source = [];
  resolved_mac = resolved;
  inactive_policies = names;
}

-- A scoped address loses its zone.
abbrev pub without_zone : Bytes → Bytes
without_zone ip = (cut_byte b'%' ip).0

-- The results of the tiers in their order: the first that is there is returned.
unfoldable pub choose_tier :
    List Policy
    → Time
    → Bytes
    → Option (ℕ × Bytes)
    → Option (ℕ × Bytes)
    → Option Narrow
    → Option (ℕ × Bytes)
    → PolicyMatch
choose_tier ps now resolved (some (i, src)) e c a = matched_policy ps now resolved match_mac i src
choose_tier ps now resolved none (some (i, src)) c a =
    matched_policy ps now resolved match_exact_ip i src
choose_tier ps now resolved none none (some (i, n, src)) a =
    matched_policy ps now resolved match_cidr i src
choose_tier ps now resolved none none none (some (i, src)) =
    matched_policy ps now resolved match_catch_all i src
choose_tier ps now resolved none none none none = unmatched resolved (inactive_policy_names now ps)

module _ (net : Net) where
  open net use {Addr, parse_ip, equal, parse_cidr, holds, ones}

  -- An entry without a slash that is the address.
  unfoldable pub is_address : Addr → Bytes → Bool
  is_address addr src =
      not (has_byte b'/' src)
      && elim (parse_ip (trim_space src)) [ none ↦ false | some target ↦ equal addr target ]

  -- The inner loop, up to its `break`.
  unfoldable pub first_address : Addr → List Bytes → Option Bytes
  unfolding is_address
  first_address addr [] = none
  first_address addr (src ∷ rest) =
      let later = first_address addr rest in if is_address addr src then some src else later

  unfoldable pub exact_hit : Addr → Policy → Option Bytes
  exact_hit addr p = first_address addr p.source_ips

  -- The prefix length of an entry with a slash that holds the address.
  unfoldable pub block_ones : Addr → Bytes → Option ℕ
  block_ones addr src =
      if has_byte b'/' src
      then elim (parse_cidr (trim_space src)) [
        | none ↦ none
        | some b ↦ if holds b addr then some (ones b) else none
      ]
      else none

  unfoldable pub block_round : Addr → ℕ → Bool → Bytes → Slots Narrow → Slots Narrow
  unfolding block_ones keep_narrower
  block_round addr i enabled src s = elim (block_ones addr src) [
    | none ↦ s
    | some n ↦ update_slot enabled (keep_narrower (i, n, src)) s
  ]

  unfoldable pub block_sources : Addr → ℕ → Bool → List Bytes → Slots Narrow → Slots Narrow
  unfolding block_round
  block_sources addr i enabled [] s = s
  block_sources addr i enabled (src ∷ rest) s =
      block_sources addr i enabled rest (block_round addr i enabled src s)

  unfoldable pub block_loop : Addr → Time → ℕ → List Policy → Slots Narrow → Slots Narrow
  unfolding block_sources
  block_loop addr now i [] s = s
  block_loop addr now i (p ∷ ps) s =
      block_loop addr now (suc i) ps
        (if is_eligible now p then block_sources addr i p.schedule.enabled p.source_ips s else s)

  unfoldable pub exact_tier : Addr → Time → List Policy → Option (ℕ × Bytes)
  exact_tier addr now ps = first_of_slots (first_loop (exact_hit addr) now 0 ps no_slots)

  unfoldable pub cidr_tier : Addr → Time → List Policy → Option Narrow
  cidr_tier addr now ps = first_of_slots (block_loop addr now 0 ps no_slots)

  unfoldable pub match_address : List Policy → Addr → Time → Bytes → PolicyMatch
  unfolding choose_tier
  match_address ps addr now resolved =
      choose_tier ps now resolved (mac_tier now ps resolved) (exact_tier addr now ps)
        (cidr_tier addr now ps) (catch_all_tier now ps)

  unfoldable pub match_policy : List Policy → Bytes → Time → Option (Bytes → Bytes) → PolicyMatch
  match_policy ps client_ip now lookup_mac = elim (parse_ip (trim_space (without_zone client_ip))) [
    | none ↦ unmatched [] []
    | some addr ↦ match_address ps addr now (resolve_mac ps lookup_mac (without_zone client_ip))
  ]

  -- Runtime.GetPolicy
  unfoldable pub get_policy : List Policy → Bytes → Time → Option (Bytes → Bytes) → Option Policy
  get_policy ps client_ip now lookup_mac =
      elim (match_policy ps client_ip now lookup_mac).policy_index [
        | none ↦ none
        | some i ↦ get_elem? ps i
      ]
