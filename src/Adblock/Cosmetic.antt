-- ===== src/Adblock/Cosmetic.antt =====
-- CosmeticSelectors and CosmeticCSS of internal/adblock/engine.go: what is hidden on a page. The names
-- of classes and ids in the page are an argument, as a list.
pub mod Selectors
pub mod Sheet
use gowebfilter.Base.{
  ℕ, zero, suc, ◌+◌, ◌-◌, ◌*◌, ◌/◌, ◌%◌, ◌^◌, ◌≤◌, ◌<◌, ◌≡◌, refl, sym, ap, ap₂, ◌∙◌, subst, ◌≢◌,
  ◌↔◌, ◌⊎◌, inl, inr, Bool, true, false, ◌&&◌, ◌||◌, not, Option, none, some, List, [], ◌∷◌, ◌++◌,
  map, append-nil, append_assoc, arith, ltb, leb, ◌==◌, if◌then◌else◌, ltb→lt, lt→ltb, leb→le,
  ==_iff, Bool-cases, false≢true, Option-cases, or_else, none≢some, some_injective, length,
  length-append, take, drop, take-append-drop, length-take, get_elem?, Bytes, codes, bytes_eq,
  bytes_eq_iff, bytes_eq_refl, cut_prefix, cut_prefix-some, cut_prefix-append, is_some, has_prefix,
  trim_prefix, has_suffix, EndsIn, has_suffix_iff, has_byte, cut_byte, is_space, trim_space,
  to_lower, lower_byte, split_byte, contains, cut_text, cut_text-parts, cut_last_byte, contains_any,
  trim_suffix, is_one_of, and_then, on_some, both, not-true, is_empty, ℤ, pos, negsuc, atoi,
  atoi_two, itoa, itoa_digit, digits, IsDigit, hex_digit, hex_value, hex_value-hex_digit,
  split_byte-cons, eq_ne, is_digit, Within, Within-append, Within-cons, append_left, append_right,
  no_member, Any, any_of, any_of_iff,
}
use gowebfilter.Adblock.Context.{AdRequest, new_match_ctx}
use gowebfilter.Adblock.Engine.{Engine, document_exception}
use gowebfilter.Adblock.Index.{candidates, first, first_of, host_and_parents, parents}
use gowebfilter.Adblock.Matching.{domain_matches}
use gowebfilter.Adblock.Rules.{listed_under, look_up}
use gowebfilter.Models.UrlFilter.{insert_name}

-- Exceptions: of a site, or of a generic selector.
unfoldable pub is_excepted : Engine → Bytes → Bytes → Bool
unfolding parents look_up domain_matches any_of bytes_eq
is_excepted e host sel =
    any_of (λ h. is_one_of (listed_under h e.except_by_site) sel) (host_and_parents host)
    || any_of (λ d. is_empty d || domain_matches host d) (listed_under sel e.generic_except)

-- The closure `add`: each selector once.
unfoldable pub add_selector : Engine → Bytes → List Bytes → Bytes → List Bytes
unfolding is_excepted bytes_eq any_of
add_selector e host out sel =
    if not (is_one_of out sel) && not (is_excepted e host sel) then out ++ (sel ∷ []) else out

unfoldable pub add_selectors : Engine → Bytes → List Bytes → List Bytes → List Bytes
unfolding add_selector
add_selectors e host out [] = out
add_selectors e host out (sel ∷ sels) = add_selectors e host (add_selector e host out sel) sels

-- The selectors of a site, less those that name a domain they do not apply to.
unfoldable pub kept_on : Engine → Bytes → List Bytes → List Bytes
unfolding domain_matches look_up any_of
kept_on e host [] = []
kept_on e host (sel ∷ sels) =
    let rest = kept_on e host sels in
    if any_of (domain_matches host) (listed_under sel e.specific_not) then rest else sel ∷ rest

unfoldable pub add_specific : Engine → Bytes → List Bytes → List Bytes → List Bytes
unfolding add_selectors kept_on look_up
add_specific e host out [] = out
add_specific e host out (h ∷ hs) =
    add_specific e host (add_selectors e host out (kept_on e host (listed_under h e.specific))) hs

unfoldable pub add_named : Engine → Bytes → List Bytes → List Bytes → List Bytes
unfolding add_selectors look_up
add_named e host out [] = out
add_named e host out (name ∷ names) =
    add_named e host (add_selectors e host out (listed_under name e.generic_by_key)) names

-- sort.Strings
unfoldable pub sort_strings : List Bytes → List Bytes
unfolding insert_name
sort_strings [] = []
sort_strings (s ∷ ss) = insert_name s (sort_strings ss)

abbrev pub page_request : Bytes → Bytes → AdRequest
page_request host page_url = record {
  url = page_url;
  host = host;
  source_host = [];
  source_url = [];
  kind = codes "document";
}

module _ (effective_tld_plus_one : Bytes → Option Bytes) (re_matches : Bytes → Bytes → Bool) where
  unfoldable pub generic_hidden : Engine → Bytes → Bytes → Bool
  unfolding new_match_ctx first_of candidates
  generic_hidden e host page_url = is_some (
      first re_matches e.allow_document
        (new_match_ctx effective_tld_plus_one (page_request host page_url)) (λ r. r.generic_hide))

  unfoldable pub cosmetic_selectors : Engine → Bytes → Bytes → List Bytes → List Bytes
  unfolding generic_hidden add_specific add_named sort_strings document_exception new_match_ctx
      to_lower add_selectors parents
  cosmetic_selectors e page_host page_url names =
      let host = to_lower page_host in
      let c = new_match_ctx effective_tld_plus_one (page_request host page_url) in
      let own = add_specific e host [] (host_and_parents host) in
      let all = add_selectors e host (add_named e host own names) e.generic_no_key in
      if is_some (document_exception effective_tld_plus_one re_matches e c true)
      then []
      else sort_strings (if generic_hidden e host page_url then own else all)

unfoldable pub cosmetic_css : List Bytes → Bytes
cosmetic_css [] = []
cosmetic_css (sel ∷ sels) = sel ++ (codes "{display:none!important}\n" ++ cosmetic_css sels)
