-- ===== src/Adblock/Matching.antt =====
-- Whether a rule matches a request: netRule.matches of internal/adblock/engine.go.
pub mod Literal
use gowebfilter.Base.{
  ℕ, zero, suc, ◌+◌, ◌-◌, ◌*◌, ◌/◌, ◌%◌, ◌^◌, ◌≤◌, ◌<◌, ◌≡◌, refl, sym, ap, ap₂, ◌∙◌, subst, ◌≢◌,
  ◌↔◌, ◌⊎◌, inl, inr, Bool, true, false, ◌&&◌, ◌||◌, not, Option, none, some, List, [], ◌∷◌, ◌++◌,
  map, append-nil, append_assoc, arith, ltb, leb, ◌==◌, if◌then◌else◌, ltb→lt, lt→ltb, leb→le,
  ==_iff, Bool-cases, false≢true, Option-cases, or_else, none≢some, some_injective, length,
  length-append, take, drop, get_elem?, Bytes, codes, bytes_eq, bytes_eq_iff, bytes_eq_refl,
  cut_prefix, cut_prefix-some, cut_prefix-append, is_some, has_prefix, trim_prefix, has_suffix,
  EndsIn, has_suffix_iff, has_byte, cut_byte, is_space, trim_space, to_lower, lower_byte,
  split_byte, contains, cut_text, cut_last_byte, contains_any, trim_suffix, is_one_of, and_then,
  on_some, is_empty, ℤ, pos, negsuc, atoi, atoi_two, itoa, itoa_digit, digits, IsDigit, hex_digit,
  hex_value, hex_value-hex_digit, split_byte-cons, eq_ne, is_digit, Within, Within-append,
  Within-cons, append_left, append_right, no_member, Any, any_of, any_of_iff,
}
use gowebfilter.Adblock.Context.{MatchCtx}
use gowebfilter.Adblock.Glob.{glob_match}
use gowebfilter.Adblock.Glob.Reference.{any_suffix, glob_means}
use gowebfilter.Adblock.Rules.{NetRule, type_document}
use Prim.Native.Nat.{bit_and}

-- The host equals the domain or is a subdomain of it.
unfoldable pub domain_matches : Bytes → Bytes → Bool
unfolding bytes_eq
domain_matches host d =
    if length host == length d
    then bytes_eq host d
    else ltb (length d) (length host)
      && bytes_eq (drop (length host - length d - 1) host) (b'.' ∷ d)

-- The switch on the type.
unfoldable pub type_applies : NetRule → MatchCtx → Bool → Bool
type_applies r c page_level =
    if not (r.types == 0)
    then not (bit_and r.types c.typ == 0)
    else not (c.typ == type_document && is_empty r.host_only && not page_level)

abbrev pub party_applies : Option Bool → Bool → Bool
party_applies none third = true
party_applies (some true) third = third
party_applies (some false) third = not third

-- $domain=, of the page's host or, where that is not known or the page is asked for, of the request's.
abbrev pub source_of : MatchCtx → Bytes
source_of c = if is_empty c.source_host || c.typ == type_document then c.host else c.source_host

unfoldable pub domains_apply : NetRule → Bytes → Bool
unfolding domain_matches any_of
domains_apply r src =
    not (any_of (domain_matches src) r.not_domains)
    && (is_empty r.domains || any_of (domain_matches src) r.domains)

-- The loop over the places of the pattern's leading literal.
unfoldable pub try_literal : Bytes → (Bytes → Bool) → Bytes → Bool
unfolding cut_prefix
try_literal lit f [] = has_prefix [] lit && f []
try_literal lit f (c ∷ s) =
    let rest = try_literal lit f s in if has_prefix (c ∷ s) lit && f (c ∷ s) then true else rest

-- The pattern on the address.
unfoldable pub pattern_matches : NetRule → MatchCtx → Bool
unfolding glob_match try_literal any_of
pattern_matches r c =
    let subject = if r.match_case then c.url else c.url_lower in
    if r.anchor_host
    then any_of (λ s. glob_match r.pattern_text (drop s subject) true r.anchor_end) c.host_starts
    else if r.anchor_start
    then glob_match r.pattern_text subject true r.anchor_end
    else if not (is_empty r.lit)
    then try_literal r.lit (λ s. glob_match r.pattern_text s true r.anchor_end) subject
    else glob_match r.pattern_text subject false r.anchor_end

-- What pattern_matches is to answer: where the text that the pattern describes may begin.
unfoldable pub pattern_means : NetRule → MatchCtx → Bool
unfolding glob_means any_suffix any_of
pattern_means r c =
    let subject = if r.match_case then c.url else c.url_lower in
    let means = glob_means r.anchor_end r.pattern_text in
    if r.anchor_host
    then any_of (λ s. means (drop s subject)) c.host_starts
    else if r.anchor_start
    then means subject
    else any_suffix means subject

-- `re_matches` is MatchString of the expression that regexp.Compile was given.
module _ (re_matches : Bytes → Bytes → Bool) where
  unfoldable pub text_matches : NetRule → MatchCtx → Bool
  unfolding domain_matches pattern_matches
  text_matches r c =
      if not (is_empty r.host_only)
      then domain_matches c.host r.host_only
      else elim r.re [ some expr ↦ re_matches expr c.url | none ↦ pattern_matches r c ]

  unfoldable pub rule_matches : NetRule → MatchCtx → Bool → Bool
  unfolding text_matches domains_apply type_applies
  rule_matches r c page_level =
      type_applies r c page_level
      && party_applies r.third_party c.third_party
      && domains_apply r (source_of c)
      && text_matches r c
