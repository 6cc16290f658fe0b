-- ===== src/Proxy/Matching.antt =====
-- internal/proxy/matching.go: host and URL patterns. The regexp package is a parameter: it gives
-- the test that a compiled expression makes, or `none` where MustCompile panics; so a panic of
-- the caller is `none` too. The cache of compiled expressions changes no result and is left out.
pub mod Domains
use gowebfilter.Base.{
  ℕ, zero, suc, ◌+◌, ◌-◌, ◌*◌, ◌/◌, ◌%◌, ◌^◌, ◌≤◌, ◌<◌, ◌≡◌, refl, sym, ap, ap₂, ◌∙◌, subst, ◌≢◌,
  ◌↔◌, ◌⊎◌, inl, inr, Bool, true, false, ◌&&◌, ◌||◌, not, Option, none, some, List, [], ◌∷◌, ◌++◌,
  map, append-nil, append_assoc, arith, ltb, leb, ◌==◌, if◌then◌else◌, ltb→lt, lt→ltb, leb→le,
  ==_iff, Bool-cases, Option-cases, or_else, none≢some, some_injective, length, length-append, take,
  drop, get_elem?, Bytes, codes, bytes_eq, bytes_eq_iff, bytes_eq_refl, cut_prefix, cut_prefix-some,
  cut_prefix-append, is_some, has_prefix, trim_prefix, has_suffix, EndsIn, has_suffix_iff, has_byte,
  cut_byte, is_space, trim_space, to_lower, lower_byte, split_byte, contains, is_empty, ℤ, pos,
  negsuc, atoi, atoi_two, itoa, itoa_digit, digits, IsDigit, is_digit, Within, Within-append,
  Within-cons, append_left, append_right, no_member, Any, any_of, any_of_iff,
}

-- `a || b` where each may panic, and `b` is not evaluated after a true `a`.
abbrev pub or_panic : Option Bool → Option Bool → Option Bool
or_panic none b = none
or_panic (some true) b = some true
or_panic (some false) b = b

-- A loop that returns true at the first hit, and panics where a test does.
unfoldable pub any_panic {ℓ} : {A : Type ℓ} → (A → Option Bool) → List A → Option Bool
any_panic p [] = some false
any_panic p (x ∷ xs) = or_panic (p x) (any_panic p xs)

-- regexp.QuoteMeta of one byte, and `string(c)` of a byte, which is the UTF-8 text of the code
-- point `c`.
unfoldable pub is_meta : ℕ → Bool
is_meta c = any_of (λ m. m == c) (codes "\\.+*?()|[]{}^$")

unfoldable pub quote_meta : ℕ → Bytes
unfolding is_meta any_of
quote_meta c =
    if is_meta c
    then 92 ∷ c ∷ []
    else if ltb c 128
    then c ∷ []
    else (192 + c / 64) ∷ (128 + c % 64) ∷ []

-- strings.ReplaceAll of a backslash by two.
unfoldable pub double_backslash : Bytes → Bytes
double_backslash [] = []
double_backslash (c ∷ s) =
    let rest = double_backslash s in if c == 92 then 92 ∷ 92 ∷ rest else c ∷ rest

-- The class text of a bracket and what follows the closing bracket. A `!` or a `]` at the start
-- does not end the class.
abbrev with_first : ℕ → Bytes × Option Bytes → Bytes × Option Bytes
with_first c (front, rest) = (c ∷ front, rest)

unfoldable pub split_class : Bytes → Bytes × Option Bytes
unfolding cut_byte
split_class [] = ([], none)
split_class (c ∷ p) =
    if c == b'!' || c == b']' then with_first c (cut_byte b']' p) else cut_byte b']' (c ∷ p)

abbrev mark_negation : Bytes → Bytes
mark_negation [] = []
mark_negation (c ∷ s) = if c == b'!' then b'^' ∷ s else if c == b'^' then 92 ∷ c ∷ s else c ∷ s

unfoldable pub class_text : Bytes → Bytes
unfolding double_backslash
class_text class = b'[' ∷ (mark_negation (double_backslash class) ++ codes "]")

-- What one round of the loop writes, and the pattern that is left.
abbrev bracket_item : Bytes → Bytes × Option Bytes → Bytes × Bytes
bracket_item p (class, none) = (codes "\\[", p)
bracket_item p (class, some rest) = (class_text class, rest)

unfoldable pub translate_item : ℕ → Bytes → Bytes × Bytes
unfolding quote_meta split_class class_text
translate_item c p =
    if c == b'*'
    then (codes ".*", p)
    else if c == b'?'
    then (codes ".", p)
    else if c == b'['
    then bracket_item p (split_class p)
    else (quote_meta c, p)

-- Each round takes a byte of the pattern, so its length is fuel enough.
unfoldable pub translate_from : ℕ → Bytes → Bytes
unfolding translate_item
translate_from zero p = []
translate_from (suc f) [] = []
translate_from (suc f) (c ∷ p) = (translate_item c p).0 ++ translate_from f (translate_item c p).1

unfoldable pub fnmatch_translate : Bytes → Bytes
unfolding translate_from
fnmatch_translate pattern = translate_from (length pattern) pattern

unfoldable pub fnmatch_regexp : Bytes → Bytes
unfolding fnmatch_translate
fnmatch_regexp pattern = codes "(?s)^" ++ (fnmatch_translate pattern ++ codes "$")

-- A domain, or a name below it.
unfoldable pub is_under : Bytes → Bytes → Bool
is_under host base = bytes_eq host base || has_suffix host (b'.' ∷ base)

module _ (regexp : Bytes → Option (Bytes → Bool)) where
  unfoldable pub fnmatch : Bytes → Bytes → Option Bool
  unfolding fnmatch_regexp
  fnmatch name pattern = elim (regexp (fnmatch_regexp pattern)) [
    | none ↦ none
    | some match ↦ some (match name)
  ]

  abbrev trimmed_host_matches : Bytes → Bytes → Option Bool
  trimmed_host_matches host [] = some false
  trimmed_host_matches host (c ∷ p) = elim (cut_prefix (c ∷ p) (codes "*.")) [
    | some base ↦ some (is_under host base)
    | none ↦ fnmatch host (c ∷ p)
  ]

  unfoldable pub host_matches : Bytes → Bytes → Option Bool
  unfolding is_under trim_space
  host_matches host pattern = trimmed_host_matches host (trim_space pattern)

  -- `fnmatch(url, pattern) || strings.HasPrefix(url, pattern)`
  abbrev glob_or_prefix : Bytes → Bytes → Option Bool
  glob_or_prefix url pattern = or_panic (fnmatch url pattern) (some (has_prefix url pattern))

  -- The URL behind its scheme, for the first scheme that it has.
  unfoldable pub without_scheme : Bytes → Option Bytes
  without_scheme url = elim (cut_prefix url (codes "https://")) [
    | some rest ↦ some rest
    | none ↦ cut_prefix url (codes "http://")
  ]

  abbrev path_matches : Bytes → Bytes → Option Bool
  path_matches url pattern =
      or_panic (glob_or_prefix url pattern)
        (elim (without_scheme url) [ none ↦ some false | some rest ↦ glob_or_prefix rest pattern ])

  unfoldable pub url_matches : Bytes → Bytes → Bytes → Option Bool
  unfolding trim_space has_byte without_scheme
  url_matches host url pattern =
      if is_empty (trim_space pattern)
      then some false
      else if has_byte b'/' (trim_space pattern)
      then path_matches url (trim_space pattern)
      else host_matches host (trim_space pattern)

  unfoldable pub url_in_list : Bytes → Bytes → List Bytes → Option Bool
  unfolding any_panic
  url_in_list host url patterns =
      any_panic (λ p. if is_empty (trim_space p) then some false else url_matches host url p)
        patterns

-- The pattern of a domain list, without a leading "*.".
unfoldable pub domain_pattern : Bytes → Bytes
unfolding trim_prefix trim_space
domain_pattern p = trim_prefix (trim_space p) (codes "*.")

abbrev pub domain_hit : Bytes → Bytes → Bool
domain_hit host s = not (is_empty s) && is_under host s

unfoldable pub domain_in_list : Bytes → List Bytes → Bool
domain_in_list host patterns = any_of (λ p. domain_hit host (domain_pattern p)) patterns
