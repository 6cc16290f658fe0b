-- ===== src/Adblock/Parse.antt =====
-- The rules of internal/adblock/parse.go from their lines: element hiding and network filters.
pub mod Safety
pub mod Literals
use gowebfilter.Base.{
  ℕ, zero, suc, ◌+◌, ◌-◌, ◌*◌, ◌/◌, ◌%◌, ◌^◌, ◌≤◌, ◌<◌, ◌≡◌, refl, sym, ap, ap₂, ◌∙◌, subst, ◌≢◌,
  ◌↔◌, ◌⊎◌, inl, inr, Bool, true, false, ◌&&◌, ◌||◌, not, Option, none, some, List, [], ◌∷◌, ◌++◌,
  map, append-nil, append_assoc, arith, ltb, leb, ◌==◌, if◌then◌else◌, ltb→lt, lt→ltb, leb→le,
  ==_iff, Bool-cases, false≢true, Option-cases, or_else, none≢some, some_injective, length,
  length-append, take, drop, take-append-drop, length-take, get_elem?, Bytes, codes, bytes_eq,
  bytes_eq_iff, bytes_eq_refl, cut_prefix, cut_prefix-some, cut_prefix-append, is_some, has_prefix,
  trim_prefix, has_suffix, EndsIn, has_suffix_iff, has_byte, cut_byte, is_space, trim_space,
  to_lower, lower_byte, split_byte, contains, cut_text, cut_text-parts, cut_last_byte, contains_any,
  trim_suffix, is_one_of, and_then, on_some, both, not-true, is_empty, ℤ, pos, negsuc, atoi,
  atoi_two, itoa, itoa_digit, digits, IsDigit, hex_digit, hex_value, hex_value-hex_digit,
  split_byte-cons, eq_ne, is_digit, Within, Within-append, Within-cons, append_left, append_right,
  no_member, Any, any_of, any_of_iff,
}
use gowebfilter.Adblock.Options.{parse_options}
use gowebfilter.Adblock.Rules.{CosmeticRule, NetRule, Parsed, raw_rule}

abbrev pub unsupported_cosmetic_markers : List Bytes
unsupported_cosmetic_markers =
    codes "#?#" ∷ codes "#$#" ∷ codes "#%#" ∷ codes "#@?#" ∷ codes "#@$#" ∷ codes "#@%#" ∷ []

abbrev pub procedural_pseudo : List Bytes
procedural_pseudo =
    codes ":has-text("
    ∷ codes ":-abp-"
    ∷ codes ":matches-css"
    ∷ codes ":xpath("
    ∷ codes ":upward("
    ∷ codes ":remove("
    ∷ codes ":style("
    ∷ codes ":min-text-length("
    ∷ codes ":watch-attr("
    ∷ codes ":matches-path("
    ∷ codes ":matches-attr("
    ∷ codes ":matches-prop("
    ∷ codes ":others("
    ∷ codes ":if("
    ∷ codes ":if-not("
    ∷ codes ":nth-ancestor("
    ∷ codes ":remove-attr("
    ∷ codes ":remove-class("
    ∷ codes ":contains("
    ∷ []

-- The early returns of parseCosmetic on the trimmed selector.
unfoldable pub refuses_selector : Bytes → Bool
unfolding contains_any contains to_lower any_of cut_prefix
refuses_selector selector =
    is_empty selector
    || has_prefix selector (codes "+js(")
    || has_prefix selector (codes "^")
    || contains_any selector (codes "<{}\\")
    || contains (to_lower selector) (codes "</style")
    || any_of (contains (to_lower selector)) procedural_pseudo

-- The domains in front of the marker; none at an entity or a regexp.
unfoldable pub cosmetic_domains : List Bytes → CosmeticRule → Option CosmeticRule
unfolding contains_any cut_prefix trim_space to_lower trim_prefix
cosmetic_domains [] rule = some rule
cosmetic_domains (entry ∷ entries) rule =
    let d = to_lower (trim_space entry) in
    let skip = cosmetic_domains entries rule in
    let excluded =
      cosmetic_domains entries
        (record rule { not_domains = rule.not_domains ++ (trim_prefix d (codes "~") ∷ []) }) in
    let named = cosmetic_domains entries (record rule { domains = rule.domains ++ (d ∷ []) }) in
    if is_empty d
    then skip
    else if has_prefix d (codes "~")
    then excluded
    else if contains_any d (codes "*/")
    then none
    else named

-- parseCosmetic
unfoldable pub parse_cosmetic : Bytes → Bytes → Bool → Option CosmeticRule
unfolding refuses_selector cosmetic_domains trim_space split_byte
parse_cosmetic domain_part selector is_exception =
    let sel = trim_space selector in
    let rule : CosmeticRule = record {
      selector = sel;
      domains = [];
      not_domains = [];
      is_exception = is_exception;
    } in
    if refuses_selector sel
    then none
    else if is_empty domain_part
    then some rule
    else cosmetic_domains (split_byte b',' domain_part) rule

-- What follows the last `$`, unless the whole line is a /regex/.
unfoldable pub split_options : Bytes → Bytes × Bytes
unfolding cut_last_byte cut_prefix has_suffix
split_options line = elim (cut_last_byte b'$' line) [
  | none ↦ (line, [])
  | some (front, rest) ↦
      if has_prefix line (codes "/") && has_suffix line (codes "/") && ltb 1 (length line)
      then (line, [])
      else (front, rest)
]

-- The text without its last byte.
unfoldable pub drop_last : Bytes → Bytes
drop_last [] = []
drop_last (c ∷ s) = let rest = drop_last s in if is_empty s then [] else c ∷ rest

-- The anchors of a pattern.
unfoldable pub strip_start : Bytes → NetRule → Bytes × NetRule
unfolding cut_prefix
strip_start glob r =
    if has_prefix glob (codes "||")
    then (drop 2 glob, record r { anchor_host = true })
    else if has_prefix glob (codes "|")
    then (drop 1 glob, record r { anchor_start = true })
    else (glob, r)

unfoldable pub strip_end : Bytes × NetRule → Bytes × NetRule
unfolding drop_last has_suffix
strip_end (glob, r) =
    if has_suffix glob (codes "|")
    then (drop_last glob, record r { anchor_end = true })
    else (glob, r)

-- The pattern up to its first `*` or `^`.
unfoldable pub literal_of : Bytes → Bytes
literal_of [] = []
literal_of (c ∷ p) = let rest = literal_of p in if c == b'*' || c == b'^' then [] else c ∷ rest

-- `strings.Trim(pattern, "*") == ""`
unfoldable pub only_stars : Bytes → Bool
only_stars [] = true
only_stars (c ∷ p) = c == b'*' && only_stars p

-- A pattern that is a host name and nothing else.
unfoldable pub host_of_pattern : Bytes → Option Bytes
unfolding trim_suffix contains_any has_byte
host_of_pattern glob =
    let h = trim_suffix glob (codes "^") in
    if not (is_empty h) && not (contains_any h (codes "/*^|?=&:")) && has_byte b'.' h
    then some h
    else none

abbrev pub with_pattern : Bytes → NetRule → NetRule
with_pattern p r = record r { pattern_text = p; lit = literal_of p }

abbrev pub host_or_pattern : Option Bytes → Bytes → NetRule → NetRule
host_or_pattern (some h) p r = record r { host_only = h }
host_or_pattern none p r = with_pattern p r

-- The end of parseNetRule, on a pattern without its anchors.
unfoldable pub finish_rule : Bytes × NetRule → Option NetRule
unfolding only_stars host_of_pattern to_lower literal_of
finish_rule (anchored, r) =
    let p = if r.match_case then anchored else to_lower anchored in
    if only_stars p && is_empty r.domains && r.types == 0 && not r.is_exception
    then none
    else some (
        if r.anchor_host && not r.anchor_end
        then host_or_pattern (host_of_pattern p) p r
        else with_pattern p r)

-- The expression between the slashes, and the flag for letters of either case.
unfoldable pub regexp_of : Bytes → Bool → Bytes
unfolding drop_last
regexp_of glob match_case =
    let expr = drop 1 (drop_last glob) in if match_case then expr else codes "(?i)" ++ expr

-- A rule that a line gives is kept; false where it gives none.
abbrev pub add_cosmetic : Option CosmeticRule → Parsed → Parsed × Bool
add_cosmetic none into = (into, false)
add_cosmetic (some c) into = (record into { cosmetic = into.cosmetic ++ (c ∷ []) }, true)

abbrev pub add_net : Option NetRule → Parsed → Parsed × Bool
add_net none into = (into, false)
add_net (some r) into = (record into { net = into.net ++ (r ∷ []) }, true)

-- `compiles` answers whether regexp.Compile takes an expression.
module _ (compiles : Bytes → Bool) where
  unfoldable pub finish_pattern : Bytes → NetRule → Option NetRule
  unfolding finish_rule strip_end strip_start regexp_of cut_prefix has_suffix
  finish_pattern glob r =
      if ltb 2 (length glob) && has_prefix glob (codes "/") && has_suffix glob (codes "/")
      then (let expr = regexp_of glob r.match_case in
          if compiles expr then some (record r { re = some expr }) else none)
      else finish_rule (strip_end (strip_start glob r))

  unfoldable pub parse_net_rule : Bytes → Option NetRule
  unfolding finish_pattern split_options parse_options cut_prefix
  parse_net_rule line =
      let is_exception = has_prefix line (codes "@@") in
      let r = record (raw_rule line) { is_exception = is_exception } in
      let (glob, opts) = split_options (if is_exception then drop 2 line else line) in
      and_then (if is_empty opts then some r else parse_options opts r) (finish_pattern glob)

  -- parseABPLine
  unfoldable pub parse_abp_line : Bytes → Parsed → Parsed × Bool
  unfolding parse_cosmetic parse_net_rule cut_text contains any_of
  parse_abp_line line into =
      if any_of (contains line) unsupported_cosmetic_markers
      then (into, false)
      else elim (cut_text (codes "#@#") line) [
        | some (front, rest) ↦ add_cosmetic (parse_cosmetic front rest true) into
        | none ↦ elim (cut_text (codes "##") line) [
          | some (front, rest) ↦ add_cosmetic (parse_cosmetic front rest false) into
          | none ↦ add_net (parse_net_rule line) into
        ]
      ]
