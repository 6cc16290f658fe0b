-- ===== src/State/Runtime.antt =====
-- internal/proxy/state/state.go: the shared state, its reload, and the hosts that are not intercepted.
pub mod Bypass
use gowebfilter.Base.{
  ℕ, zero, suc, ◌+◌, ◌-◌, ◌*◌, ◌/◌, ◌%◌, ◌^◌, ◌≤◌, ◌<◌, ◌≡◌, refl, sym, ap, ap₂, ◌∙◌, subst, ◌≢◌,
  ◌↔◌, ◌⊎◌, inl, inr, Bool, true, false, ◌&&◌, ◌||◌, not, Option, none, some, List, [], ◌∷◌, ◌++◌,
  map, append-nil, append_assoc, arith, ltb, leb, ◌==◌, if◌then◌else◌, ltb→lt, lt→ltb, leb→le,
  ==_iff, Bool-cases, Option-cases, or_else, none≢some, some_injective, length, length-append, take,
  drop, get_elem?, Bytes, codes, bytes_eq, bytes_eq_iff, bytes_eq_refl, cut_prefix, cut_prefix-some,
  cut_prefix-append, is_some, has_prefix, trim_prefix, has_suffix, EndsIn, has_suffix_iff, has_byte,
  cut_byte, is_space, trim_space, to_lower, lower_byte, split_byte, contains, is_empty, ℤ, pos,
  negsuc, atoi, atoi_two, itoa, itoa_digit, digits, IsDigit, hex_digit, hex_value,
  hex_value-hex_digit, split_byte-cons, eq_ne, is_digit, Within, Within-append, Within-cons,
  append_left, append_right, no_member, Any, any_of, any_of_iff,
}
use gowebfilter.Categories.Store.{Store}
use gowebfilter.Models.Policy.{MitmMode, Policy, exclude}
use gowebfilter.Models.Settings.{Settings}

pub record Runtime : Type 0 where
  pub settings : Settings
  pub categories : Option Store
  pub policies : List Policy
  pub mitm_bypass : List Bytes
  pub generation : ℕ

-- The domain of a site entry; the empty text where there is none.
unfoldable pub bypass_domain : Bytes → Bytes
unfolding to_lower trim_prefix trim_space
bypass_domain site = to_lower (trim_prefix (trim_space site) (codes "*."))

-- One round of the inner loop. `seen` holds exactly the domains of the list.
unfoldable pub add_site : Bytes → List Bytes → List Bytes
unfolding bypass_domain
add_site site domains =
    let d : Bytes = bypass_domain site in
    if is_empty d || any_of (λ e. bytes_eq e d) domains then domains else domains ++ d ∷ []

unfoldable pub add_sites : List Bytes → List Bytes → List Bytes
unfolding add_site
add_sites [] domains = domains
add_sites (site ∷ sites) domains = add_sites sites (add_site site domains)

abbrev pub excludes : MitmMode → Bool
excludes MitmMode.exclude = true
excludes _ = false

unfoldable pub bypass_from : List Policy → List Bytes → List Bytes
unfolding add_sites
bypass_from [] domains = domains
bypass_from (p ∷ ps) domains =
    bypass_from ps (if excludes p.mitm.mode then add_sites p.mitm.sites domains else domains)

-- rebuildMitmBypass
unfoldable pub mitm_bypass_of : List Policy → List Bytes
unfolding bypass_from
mitm_bypass_of ps = bypass_from ps []

-- ShouldBypassMitm
unfoldable pub should_bypass_mitm : Runtime → Bytes → Bool
unfolding to_lower
should_bypass_mitm rt host =
    any_of (λ d. bytes_eq (to_lower host) d || has_suffix (to_lower host) (b'.' ∷ d)) rt.mitm_bypass

-- ReloadPolicies, on what the policy store read: none for a failure, which changes nothing.
unfoldable pub reload_policies : Option (List Policy) → Runtime → Runtime
reload_policies none rt = rt
reload_policies (some ps) rt = record rt {
  policies = ps;
  mitm_bypass = mitm_bypass_of ps;
  generation = (rt.generation + 1) % 2 ^ 64;
}

-- AdblockListsInUse
abbrev default_lists : List Bytes
default_lists = codes "easylist" ∷ codes "easyprivacy" ∷ []

unfoldable pub add_list : Bytes → List Bytes → List Bytes
add_list l out = if any_of (λ e. bytes_eq e l) out then out else out ++ l ∷ []

unfoldable pub add_lists : List Bytes → List Bytes → List Bytes
unfolding add_list
add_lists [] out = out
add_lists (l ∷ ls) out = add_lists ls (add_list l out)

unfoldable pub adblock_lists_from : List Policy → List Bytes → List Bytes
unfolding add_lists
adblock_lists_from [] out = out
adblock_lists_from (p ∷ ps) out = adblock_lists_from ps (
    if p.inactive || not p.adblock.enabled
    then out
    else add_lists (if is_empty p.adblock.lists then default_lists else p.adblock.lists) out)

unfoldable pub adblock_lists_in_use : Runtime → List Bytes
unfolding adblock_lists_from
adblock_lists_in_use rt = adblock_lists_from rt.policies []
