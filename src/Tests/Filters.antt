-- ===== src/Tests/Filters.antt =====
-- The properties of the adblock engine at concrete inputs.
use gowebfilter.Base.{
  ◌≡◌, refl, Bool, true, false, Option, none, some, List, [], ◌∷◌, map, Bytes, codes, contains_any,
  Within, no_member,
}
use gowebfilter.Adblock.Context.{AdRequest, new_match_ctx}
use gowebfilter.Adblock.Cosmetic.{cosmetic_css, cosmetic_selectors}
use gowebfilter.Adblock.Cosmetic.Sheet.{
  before_block, cosmetic_css-read_sheet, hiding_rule, read_sheet, selectors_on,
}
use gowebfilter.Adblock.Engine.{build, match_request}
use gowebfilter.Adblock.Engine.Decision.{match_request-should_block, should_block}
use gowebfilter.Adblock.Glob.{glob_match}
use gowebfilter.Adblock.Glob.Matcher.{glob_match-glob_means}
use gowebfilter.Adblock.Glob.Reference.{glob_means}
use gowebfilter.Adblock.Index.Linear.{HasLiteral}
use gowebfilter.Adblock.Lines.{parse_lists}
use gowebfilter.Adblock.Matching.{pattern_matches, pattern_means}
use gowebfilter.Adblock.Matching.Literal.{pattern_matches-pattern_means}
use gowebfilter.Adblock.Parse.{literal_of, parse_net_rule, with_pattern}
use gowebfilter.Adblock.Parse.Literals.{parse_net_rule-HasLiteral}
use gowebfilter.Adblock.Rules.{NetRule, Parsed, raw_rule}

abbrev banner : NetRule
banner = with_pattern (codes "/banner^") (raw_rule (codes "/banner^"))

abbrev banner_list : Parsed
banner_list = record { net = banner ∷ []; cosmetic = []; skipped = 0 }

abbrev no_suffix : Bytes → Option Bytes
no_suffix host = none

abbrev no_regexp : Bytes → Bytes → Bool
no_regexp expr u = false

abbrev banner_request : AdRequest
banner_request = record {
  url = codes "http://a.com/banner";
  host = codes "a.com";
  source_host = [];
  source_url = [];
  kind = codes "image";
}

banner-HasLiteral : (r : NetRule) → Within r banner_list.net → HasLiteral r
banner-HasLiteral r Within.here = refl
banner-HasLiteral r (Within.there w) = absurd (no_member w)

match_request-should_block_example :
    (match_request no_suffix no_regexp (some (build banner_list)) banner_request).blocked
    ≡ should_block no_suffix no_regexp banner_list.net (new_match_ctx no_suffix banner_request)
match_request-should_block_example =
    match_request-should_block no_suffix no_regexp banner_list banner_request banner-HasLiteral

-- The pattern goes back to its `*`: `a*bc` on `abxbc`.
glob_match-glob_means_example :
    glob_match (codes "a*bc") (codes "abxbc") true true
    ≡ glob_means true (codes "a*bc") (codes "abxbc")
glob_match-glob_means_example = glob_match-glob_means (codes "a*bc") (codes "abxbc") true true

pattern_matches-pattern_means_example :
    pattern_matches banner (new_match_ctx no_suffix banner_request)
    ≡ pattern_means banner (new_match_ctx no_suffix banner_request)
pattern_matches-pattern_means_example =
    pattern_matches-pattern_means banner (new_match_ctx no_suffix banner_request) refl

abbrev compiles_all : Bytes → Bool
compiles_all expr = true

abbrev no_ip : Bytes → Bool
no_ip text = false

-- Two selectors for every site, one that closes its block, and an exception for a.com.
abbrev hiding_list : List (List Bytes)
hiding_list =
    (codes "##.ad" ∷ codes "##.x{}body" ∷ codes "## #banner " ∷ codes "a.com#@##banner" ∷ []) ∷ []

abbrev hiding_sheet : Bytes → Bytes
hiding_sheet host = cosmetic_css (
    selectors_on no_suffix no_regexp compiles_all no_ip hiding_list host []
      (codes "ad" ∷ codes "banner" ∷ []))

cosmetic_css-read_sheet_example :
    (read_sheet (hiding_sheet (codes "b.org")) ([], before_block []) ≡ (
      map hiding_rule (
          selectors_on no_suffix no_regexp compiles_all no_ip hiding_list
            (codes "b.org")
            []
            (codes "ad" ∷ codes "banner" ∷ [])),
      before_block [],
    ))
    × (contains_any (hiding_sheet (codes "b.org")) (codes "<\\") ≡ false)
cosmetic_css-read_sheet_example =
    cosmetic_css-read_sheet no_suffix no_regexp compiles_all no_ip hiding_list (codes "b.org") []
      (codes "ad" ∷ codes "banner" ∷ [])

hidden_everywhere :
    hiding_sheet (codes "b.org")
    ≡ codes "#banner{display:none!important}\n.ad{display:none!important}\n"
unfolding cosmetic_css cosmetic_selectors build parse_lists
hidden_everywhere = refl

shown_by_exception : hiding_sheet (codes "a.com") ≡ codes ".ad{display:none!important}\n"
unfolding cosmetic_css cosmetic_selectors build parse_lists
shown_by_exception = refl

blocked_banner :
    (match_request no_suffix no_regexp (some (build banner_list)) banner_request).blocked ≡ true
unfolding match_request build literal_of
blocked_banner = refl

banner_parsed : parse_net_rule compiles_all (codes "/banner^") ≡ some banner
unfolding parse_net_rule literal_of
banner_parsed = refl

parse_net_rule-HasLiteral_example : HasLiteral banner
parse_net_rule-HasLiteral_example =
    parse_net_rule-HasLiteral compiles_all (codes "/banner^") banner banner_parsed
