-- ===== src/Proxy/HostGate.antt =====
-- internal/proxy/hostgate.go: the verdict on a host before anything is decrypted.
pub mod Categories
use gowebfilter.Base.{
  ℕ, zero, suc, ◌+◌, ◌-◌, ◌*◌, ◌/◌, ◌%◌, ◌^◌, ◌≤◌, ◌<◌, ◌≡◌, refl, sym, ap, ap₂, ◌∙◌, subst, ◌≢◌,
  ◌↔◌, ◌⊎◌, inl, inr, Bool, true, false, ◌&&◌, ◌||◌, not, Option, none, some, List, [], ◌∷◌, ◌++◌,
  map, append-nil, append_assoc, arith, ltb, leb, ◌==◌, if◌then◌else◌, ltb→lt, lt→ltb, leb→le,
  ==_iff, Bool-cases, false≢true, Option-cases, or_else, none≢some, some_injective, length,
  length-append, take, drop, get_elem?, Bytes, codes, bytes_eq, bytes_eq_iff, bytes_eq_refl,
  cut_prefix, cut_prefix-some, cut_prefix-append, is_some, has_prefix, trim_prefix, has_suffix,
  EndsIn, has_suffix_iff, has_byte, cut_byte, is_space, trim_space, to_lower, lower_byte,
  split_byte, contains, is_empty, ℤ, pos, negsuc, atoi, atoi_two, itoa, itoa_digit, digits, IsDigit,
  hex_digit, hex_value, hex_value-hex_digit, split_byte-cons, eq_ne, is_digit, Within,
  Within-append, Within-cons, append_left, append_right, no_member, Any, any_of, any_of_iff,
}
use gowebfilter.Categories.Store.{Store, match_any}
use gowebfilter.Models.Policy.{
  ListMode, MitmConfig, MitmMode, Policy, UrlFilterConfig, blacklist, whitelist,
}
use gowebfilter.Models.UrlFilter.{allow_categories, block_categories}
use gowebfilter.Proxy.Flow.{BlockEntry, policy_name_or}
use gowebfilter.Proxy.Matching.{any_panic, domain_in_list, host_matches}

pub data CategoryDecision : Type 0 where
  category_none category_allowed category_blocked : CategoryDecision

abbrev pub blocked_category_reason : Bytes → Bytes
blocked_category_reason cat = codes "Site category '" ++ (cat ++ codes "' blocked by policy")

abbrev pub unlisted_reason : Bytes
unlisted_reason = codes "Site not in an allowed category or list (unlisted sites are blocked)"

-- The default for an unlisted site.
abbrev pub by_mode : ListMode → CategoryDecision × Bytes
by_mode whitelist = (category_blocked, unlisted_reason)
by_mode blacklist = (category_none, [])

-- What the store says of the two sorted lists: the first match of each, or the empty text.
abbrev pub by_category : Bytes → Bytes → ListMode → CategoryDecision × Bytes
by_category allowed blocked mode =
    if not (is_empty allowed)
    then (category_allowed, [])
    else if not (is_empty blocked)
    then (category_blocked, blocked_category_reason blocked)
    else by_mode mode

-- `cats` is none for a nil store. A list with no name matches nothing.
unfoldable pub category_verdict : Option Store → Bytes → UrlFilterConfig → CategoryDecision × Bytes
category_verdict none host cfg = by_mode cfg.mode
category_verdict (some cats) host cfg =
    by_category (match_any cats host (allow_categories cfg))
      (match_any cats host (block_categories cfg)) cfg.mode

pub record HostVerdict : Type 0 where
  pub blocked : Bool
  pub reason : Bytes
  pub component : Bytes

abbrev pub no_verdict : HostVerdict
no_verdict = record { blocked = false; reason = []; component = [] }

abbrev pub blocked_because : Bytes → HostVerdict
blocked_because reason = record { blocked = true; reason = reason; component = codes "url_filter" }

unfoldable pub is_host_pattern : Bytes → Bool
unfolding trim_space has_byte
is_host_pattern pattern =
    not (is_empty (trim_space pattern)) && not (has_byte b'/' (trim_space pattern))

-- `policy.Mitm.Mode == include && len(Sites) > 0 && !DomainInList(host, Sites)`
abbrev pub is_unlisted_site : MitmConfig → Bytes → Bool
is_unlisted_site m host = elim m.mode [
  | MitmMode.include ↦ not (is_empty m.sites) && not (domain_in_list host m.sites)
  | _ ↦ false
]

abbrev pub category_gate : CategoryDecision × Bytes → HostVerdict
category_gate (category_none, reason) = no_verdict
category_gate (category_allowed, reason) = no_verdict
category_gate (category_blocked, reason) = blocked_because reason

module _ (regexp : Bytes → Option (Bytes → Bool)) where
  -- A pattern that a host name decides, and that matches it.
  abbrev pub host_pattern_matches : Bytes → Bytes → Option Bool
  host_pattern_matches host pattern =
      if is_host_pattern pattern then host_matches regexp host pattern else some false

  unfoldable pub host_rules : Option Store → UrlFilterConfig → Bytes → Option HostVerdict
  unfolding any_panic
  host_rules cats cfg host = elim (any_panic (host_pattern_matches host) cfg.allow) [
    | none ↦ none
    | some true ↦ some no_verdict
    | some false ↦ elim (any_panic (host_pattern_matches host) cfg.block) [
      | none ↦ none
      | some true ↦ some (blocked_because (codes "URL blocked by policy"))
      | some false ↦ some (category_gate (category_verdict cats host cfg))
    ]
  ]

  -- `none` where a pattern panics.
  unfoldable pub host_filter_verdict : Option Store → Option Policy → Bytes → Option HostVerdict
  unfolding host_rules
  host_filter_verdict cats none host = some no_verdict
  host_filter_verdict cats (some p) host =
      if not p.url_filter.enabled || is_unlisted_site p.mitm host
      then some no_verdict
      else host_rules cats p.url_filter host

abbrev pub dot_port : ℕ
dot_port = 853

-- net.JoinHostPort
unfoldable pub join_host_port : Bytes → ℕ → Bytes
unfolding has_byte itoa
join_host_port host port =
    if has_byte b':' host
    then codes "[" ++ (host ++ (codes "]:" ++ itoa port))
    else host ++ (codes ":" ++ itoa port)

unfoldable pub connection_url : Bytes → ℕ → Bytes
unfolding join_host_port
connection_url host port =
    if port == 443
    then codes "https://" ++ host
    else if port == dot_port
    then codes "dot://" ++ host
    else codes "tcp://" ++ join_host_port host port

-- logConnectionBlock: the row that a refused tunnel adds to the block log.
unfoldable pub connection_block : HostVerdict → Bytes → ℕ → Option Policy → Bytes → BlockEntry
unfolding connection_url
connection_block v host port policy client_ip = record {
  domain = host;
  url = connection_url host port;
  reason = v.reason;
  component = v.component;
  policy = policy_name_or (codes "unknown") policy;
  client_ip = client_ip;
}
