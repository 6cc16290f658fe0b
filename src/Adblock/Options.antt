-- ===== src/Adblock/Options.antt =====
-- parseOptions of internal/adblock/parse.go: the options behind the `$` of a rule.
use gowebfilter.Base.{
  ℕ, Bool, true, false, ◌&&◌, ◌||◌, not, Option, none, some, List, [], ◌∷◌, ◌++◌, ◌==◌,
  if◌then◌else◌, or_else, drop, Bytes, codes, cut_prefix, has_prefix, trim_prefix, cut_byte,
  trim_space, to_lower, split_byte, contains_any, and_then, on_some, is_empty,
}
use gowebfilter.Adblock.Rules.{
  NetRule, and_not, look_up, type_all, type_all_but_document, type_document, type_names,
}
use Prim.Native.Nat.{bit_or}

-- The rule so far, and the types that options have named and excluded.
pub record OptionState : Type 0 where
  pub rule : NetRule
  pub include : ℕ
  pub exclude : ℕ

-- What an option is, by its name.
pub data OptionKind : Type 0 where
  kind_type : ℕ → OptionKind
  kind_party : Bool → OptionKind
  kind_domain kind_important kind_match_case kind_all kind_elem_hide kind_generic_hide : OptionKind
  kind_unknown : OptionKind

abbrev pub option_names : List (Bytes × OptionKind)
option_names =
    (codes "third-party", kind_party true)
    ∷ (codes "3p", kind_party true)
    ∷ (codes "first-party", kind_party false)
    ∷ (codes "1p", kind_party false)
    ∷ (codes "domain", kind_domain)
    ∷ (codes "from", kind_domain)
    ∷ (codes "important", kind_important)
    ∷ (codes "match-case", kind_match_case)
    ∷ (codes "all", kind_all)
    ∷ (codes "elemhide", kind_elem_hide)
    ∷ (codes "ehide", kind_elem_hide)
    ∷ (codes "generichide", kind_generic_hide)
    ∷ (codes "ghide", kind_generic_hide)
    ∷ []

-- The table of types before the switch on names.
unfoldable pub option_kind : Bytes → OptionKind
unfolding look_up
option_kind name = elim (look_up name type_names) [
  | some t ↦ kind_type t
  | none ↦ or_else (look_up name option_names) kind_unknown
]

-- $domain=: the hosts named and excluded; none where one of them is an entity or a regexp.
unfoldable pub take_domains : List Bytes → NetRule → Option NetRule
unfolding contains_any cut_prefix trim_space to_lower
take_domains [] r = some r
take_domains (entry ∷ entries) r =
    let d = to_lower (trim_space entry) in
    let skip = take_domains entries r in
    let excluded =
      take_domains entries (record r { not_domains = r.not_domains ++ (drop 1 d ∷ []) }) in
    let named = take_domains entries (record r { domains = r.domains ++ (d ∷ []) }) in
    if is_empty d
    then skip
    else if contains_any d (codes "*/")
    then none
    else if has_prefix d (codes "~")
    then excluded
    else named

-- One option; none where it is not supported.
abbrev pub apply_option : OptionKind → Bool → Bytes → OptionState → Option OptionState
apply_option (kind_type t) neg value st = some (
    if neg
    then record st { exclude = bit_or st.exclude t }
    else record st { include = bit_or st.include t })
apply_option (kind_party third) neg value st =
    some (record st {
      rule = record st.rule { third_party = some (if neg then not third else third) };
    })
apply_option kind_domain neg value st =
    on_some (λ r. record st { rule = r }) (take_domains (split_byte b'|' value) st.rule)
apply_option kind_important neg value st =
    some (record st { rule = record st.rule { important = true } })
apply_option kind_match_case neg value st =
    some (record st { rule = record st.rule { match_case = true } })
apply_option kind_all neg value st = some (record st { include = bit_or st.include type_all })
apply_option kind_elem_hide neg value st =
    if st.rule.is_exception
    then some (record st { rule = record st.rule { elem_hide = true } })
    else none
apply_option kind_generic_hide neg value st =
    if st.rule.is_exception
    then some (record st { rule = record st.rule { generic_hide = true } })
    else none
apply_option kind_unknown neg value st = none

-- strings.Cut at the first `=`, without the third answer.
abbrev pub value_or_empty : Option Bytes → Bytes
value_or_empty v = or_else v []

unfoldable pub take_option : Bytes → OptionState → Option OptionState
unfolding option_kind take_domains cut_byte to_lower trim_prefix split_byte
take_option opt st =
    let (name, value) = cut_byte b'=' opt in
    let low = to_lower name in
    apply_option (option_kind (trim_prefix low (codes "~"))) (has_prefix low (codes "~"))
      (value_or_empty value) st

unfoldable pub take_options : List Bytes → OptionState → Option OptionState
unfolding take_option trim_space
take_options [] st = some st
take_options (opt ∷ opts) st =
    if is_empty (trim_space opt)
    then take_options opts st
    else and_then (take_option (trim_space opt) st) (λ st'. take_options opts st')

-- The types in the end, and the default of a rule that only hides elements.
abbrev pub named_types : ℕ → ℕ → ℕ → ℕ
named_types include exclude types =
    if not (include == 0)
    then and_not include exclude
    else if not (exclude == 0)
    then and_not type_all_but_document exclude
    else types

unfoldable pub settle_types : OptionState → Option NetRule
settle_types st =
    let types = named_types st.include st.exclude st.rule.types in
    if (not (st.include == 0) || not (st.exclude == 0)) && types == 0
    then none
    else if (st.rule.elem_hide || st.rule.generic_hide) && types == 0
    then some (record st.rule { types = type_document })
    else some (record st.rule { types = types })

unfoldable pub parse_options : Bytes → NetRule → Option NetRule
unfolding take_options settle_types split_byte
parse_options opts r =
    and_then (take_options (split_byte b',' opts) (record { rule = r; include = 0; exclude = 0 }))
      settle_types
