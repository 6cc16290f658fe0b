-- ===== src/Adblock/Engine.antt =====
-- Engine of internal/adblock/engine.go: the rules in their indexes, the decision on a request, and
-- the selectors that hide elements of a page.
pub mod Build
pub mod Decision
use gowebfilter.Base.{
  ℕ, zero, suc, ◌+◌, ◌-◌, ◌*◌, ◌/◌, ◌%◌, ◌^◌, ◌≤◌, ◌<◌, ◌≡◌, refl, sym, ap, ap₂, ◌∙◌, subst, ◌≢◌,
  ◌↔◌, ◌⊎◌, inl, inr, Bool, true, false, ◌&&◌, ◌||◌, not, Option, none, some, List, [], ◌∷◌, ◌++◌,
  map, append-nil, append_assoc, arith, ltb, leb, ◌==◌, if◌then◌else◌, ltb→lt, lt→ltb, leb→le,
  ==_iff, Bool-cases, false≢true, Option-cases, or_else, none≢some, some_injective, length,
  length-append, take, drop, take-append-drop, get_elem?, Bytes, codes, bytes_eq, bytes_eq_iff,
  bytes_eq_refl, cut_prefix, cut_prefix-some, cut_prefix-append, is_some, has_prefix, trim_prefix,
  has_suffix, EndsIn, has_suffix_iff, has_byte, cut_byte, is_space, trim_space, to_lower,
  lower_byte, split_byte, contains, cut_text, cut_text-parts, cut_last_byte, contains_any,
  trim_suffix, is_one_of, and_then, on_some, both, not-true, is_empty, ℤ, pos, negsuc, atoi,
  atoi_two, itoa, itoa_digit, digits, IsDigit, hex_digit, hex_value, hex_value-hex_digit,
  split_byte-cons, eq_ne, is_digit, Within, Within-append, Within-cons, append_left, append_right,
  no_member, Any, any_of, any_of_iff,
}
use gowebfilter.Adblock.Context.{AdRequest, MatchCtx, new_match_ctx, page_ctx}
use gowebfilter.Adblock.Index.{
  RuleIndex, add_rule, candidates, find, find_in, first, first_of, no_rules,
}
use gowebfilter.Adblock.Lines.{is_alnum}
use gowebfilter.Adblock.Rules.{CosmeticRule, NetRule, Parsed, add_under, and_not, type_document}
use Prim.Native.Nat.{bit_and}

pub record Engine : Type 0 where
  pub block_rules : RuleIndex
  pub allow_rules : RuleIndex
  pub allow_document : RuleIndex
  pub generic_by_key : List (Bytes × List Bytes)
  pub generic_no_key : List Bytes
  pub generic_except : List (Bytes × List Bytes)
  pub specific : List (Bytes × List Bytes)
  pub specific_not : List (Bytes × List Bytes)
  pub except_by_site : List (Bytes × List Bytes)
  pub network_rules : ℕ
  pub cosmetic_rules : ℕ
  pub skipped : ℕ

abbrev pub empty_engine : ℕ → Engine
empty_engine skipped = record {
  block_rules = no_rules;
  allow_rules = no_rules;
  allow_document = no_rules;
  generic_by_key = [];
  generic_no_key = [];
  generic_except = [];
  specific = [];
  specific_not = [];
  except_by_site = [];
  network_rules = 0;
  cosmetic_rules = 0;
  skipped = skipped;
}

-- The network rules of build.
abbrev pub is_page_level : NetRule → Bool
is_page_level r =
    r.is_exception
    && (r.elem_hide
        || r.generic_hide
        || not (bit_and r.types type_document == 0) && and_not r.types type_document == 0)

unfoldable pub add_net_rules : List NetRule → Engine → Engine
unfolding add_rule
add_net_rules [] e = e
add_net_rules (r ∷ rs) e =
    let n = suc e.network_rules in
    add_net_rules rs (
      if is_page_level r
      then record e { network_rules = n; allow_document = add_rule e.allow_document r }
      else if r.is_exception
      then record e { network_rules = n; allow_rules = add_rule e.allow_rules r }
      else record e { network_rules = n; block_rules = add_rule e.block_rules r })

-- selectorKeyRe: `#` or `.`, and a longest run of the bytes of a name.
abbrev pub is_name_byte : ℕ → Bool
is_name_byte b = is_alnum b || b == b'_' || b == b'-'

unfoldable pub name_run : Bytes → Bytes
unfolding is_alnum
name_run [] = []
name_run (c ∷ s) = let rest = name_run s in if is_name_byte c then c ∷ rest else []

unfoldable pub selector_key : Bytes → Bytes
unfolding name_run
selector_key [] = []
selector_key (c ∷ s) = if c == b'#' || c == b'.' then name_run s else []

abbrev pub max_generic_selectors_no_key : ℕ
max_generic_selectors_no_key = 1500

-- `m[d] = append(m[d], v)`, or `m[d][v] = true`, for each d.
unfoldable pub add_under_all :
    List Bytes → Bytes → List (Bytes × List Bytes) → List (Bytes × List Bytes)
unfolding add_under
add_under_all [] v m = m
add_under_all (d ∷ ds) v m = add_under_all ds v (add_under d v m)

unfoldable pub add_all_under :
    Bytes → List Bytes → List (Bytes × List Bytes) → List (Bytes × List Bytes)
unfolding add_under
add_all_under k [] m = m
add_all_under k (v ∷ vs) m = add_all_under k vs (add_under k v m)

-- A generic rule, under its key where it has one.
unfoldable pub add_generic : CosmeticRule → Engine → Engine
unfolding selector_key add_under
add_generic c e =
    let key = selector_key c.selector in
    if not (is_empty key)
    then record e { generic_by_key = add_under key c.selector e.generic_by_key }
    else if ltb (length e.generic_no_key) max_generic_selectors_no_key
    then record e { generic_no_key = e.generic_no_key ++ (c.selector ∷ []) }
    else e

-- The cosmetic rules of build.
unfoldable pub add_cosmetic_rule : CosmeticRule → Engine → Engine
unfolding add_generic add_under_all add_all_under add_under
add_cosmetic_rule c before =
    let e = record before { cosmetic_rules = suc before.cosmetic_rules } in
    let g = add_generic c e in
    if c.is_exception && is_empty c.domains
    then record e { generic_except = add_under c.selector [] e.generic_except }
    else if c.is_exception
    then record e { except_by_site = add_under_all c.domains c.selector e.except_by_site }
    else if is_empty c.domains
    then record g { generic_except = add_all_under c.selector c.not_domains g.generic_except }
    else record e {
      specific = add_under_all c.domains c.selector e.specific;
      specific_not = add_all_under c.selector c.not_domains e.specific_not;
    }

unfoldable pub add_cosmetic_rules : List CosmeticRule → Engine → Engine
unfolding add_cosmetic_rule
add_cosmetic_rules [] e = e
add_cosmetic_rules (c ∷ cs) e = add_cosmetic_rules cs (add_cosmetic_rule c e)

unfoldable pub build : Parsed → Engine
unfolding add_net_rules add_cosmetic_rules
build p = add_cosmetic_rules p.cosmetic (add_net_rules p.net (empty_engine p.skipped))

pub record Verdict : Type 0 where
  pub blocked : Bool
  pub rule : Bytes

-- The exceptions that count for a page: with `cosmetic`, those that only stop the hiding too.
abbrev pub is_document_rule : Bool → NetRule → Bool
is_document_rule cosmetic r =
    not (bit_and r.types type_document == 0) && not r.elem_hide && not r.generic_hide
    || cosmetic && r.elem_hide

-- The end of Match, on the blocking rule and, where it is not important, on the exception.
abbrev pub settle : Option NetRule → Option NetRule → Verdict
settle none exception = record { blocked = false; rule = [] }
settle (some r) none = record { blocked = true; rule = r.raw }
settle (some r) (some exc) =
    if r.important
    then record { blocked = true; rule = r.raw }
    else record { blocked = false; rule = exc.raw }

module _ (effective_tld_plus_one : Bytes → Option Bytes) (re_matches : Bytes → Bytes → Bool) where
  unfoldable pub document_exception : Engine → MatchCtx → Bool → Option NetRule
  unfolding page_ctx first_of candidates
  document_exception e c cosmetic =
      and_then (page_ctx effective_tld_plus_one c)
        (λ page. first re_matches e.allow_document page (is_document_rule cosmetic))

  -- Engine.Match on the context of the request.
  unfoldable pub match_ctx : Engine → MatchCtx → Verdict
  unfolding document_exception find_in candidates
  match_ctx e c = elim (document_exception e c false) [
    | some r ↦ record { blocked = false; rule = r.raw }
    | none ↦ settle (find re_matches e.block_rules c) (find re_matches e.allow_rules c)
  ]

  -- Engine.Match, of no engine too.
  unfoldable pub match_request : Option Engine → AdRequest → Verdict
  unfolding match_ctx new_match_ctx
  match_request none req = record { blocked = false; rule = [] }
  match_request (some e) req = match_ctx e (new_match_ctx effective_tld_plus_one req)
