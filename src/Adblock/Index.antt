-- ===== src/Adblock/Index.antt =====
-- ruleIndex of internal/adblock/engine.go: the rules by their host or their best token.
pub mod Runs
pub mod Found
pub mod Aligned
pub mod Lowered
pub mod Starts
pub mod Tokens
pub mod Hosts
pub mod Under
pub mod Complete
pub mod Linear
use gowebfilter.Base.{
  ℕ, zero, suc, Bool, true, false, ◌&&◌, ◌||◌, not, Option, none, some, List, [], ◌∷◌, ◌++◌, ltb,
  ◌==◌, if◌then◌else◌, or_else, length, Bytes, is_some, cut_byte, to_lower, is_empty,
}
use gowebfilter.Adblock.Context.{MatchCtx, Run, is_index_token, token_runs, tokens}
use gowebfilter.Adblock.Matching.{rule_matches}
use gowebfilter.Adblock.Rules.{NetRule, add_under, listed_under, look_up}

pub record RuleIndex : Type 0 where
  pub by_host : List (Bytes × List NetRule)
  pub by_token : List (Bytes × List NetRule)
  pub generic : List NetRule

abbrev pub no_rules : RuleIndex
no_rules = record { by_host = []; by_token = []; generic = [] }

-- Whether a run of the pattern is a whole token of every address that matches: on the left, the byte
-- before it, if any, is no `*`, or the start is anchored; the same on the right.
abbrev pub side_holds : Bool → Option ℕ → Bool
side_holds anchored none = anchored
side_holds anchored (some b) = not (b == b'*')

unfoldable pub better_token : NetRule → Bytes → Run → Bytes
unfolding is_index_token
better_token r best run =
    if side_holds (r.anchor_host || r.anchor_start) run.left
      && side_holds r.anchor_end run.right
      && ltb (length best) (length run.token)
      && is_index_token run.token
    then run.token
    else best

unfoldable pub best_of : NetRule → Bytes → List Run → Bytes
unfolding better_token
best_of r best [] = best
best_of r best (run ∷ runs) = best_of r (better_token r best run) runs

unfoldable pub best_token : NetRule → Bytes
unfolding best_of token_runs to_lower
best_token r =
    best_of r [] (token_runs (if r.match_case then to_lower r.pattern_text else r.pattern_text))

-- ruleIndex.add
unfoldable pub add_rule : RuleIndex → NetRule → RuleIndex
unfolding add_under best_token
add_rule x r =
    let tok = best_token r in
    if not (is_empty r.host_only)
    then record x { by_host = add_under r.host_only r x.by_host }
    else if is_some r.re || is_empty tok
    then record x { generic = x.generic ++ (r ∷ []) }
    else record x { by_token = add_under tok r x.by_token }

-- parentDomain, and the loop over a host and its parents. A parent is shorter, so the length is enough.
unfoldable pub parent_domain : Bytes → Bytes
unfolding cut_byte
parent_domain h = let (label, rest) = cut_byte b'.' h in or_else rest []

unfoldable pub parents : ℕ → Bytes → List Bytes
unfolding parent_domain
parents zero h = []
parents (suc k) h = let rest = parents k (parent_domain h) in if is_empty h then [] else h ∷ rest

abbrev pub host_and_parents : Bytes → List Bytes
host_and_parents h = parents (length h) h

-- ruleIndex.each: the rules that it offers, in its order.
unfoldable pub rules_under : List Bytes → List (Bytes × List NetRule) → List NetRule
unfolding look_up
rules_under [] m = []
rules_under (k ∷ ks) m = listed_under k m ++ rules_under ks m

unfoldable pub candidates : RuleIndex → MatchCtx → List NetRule
unfolding rules_under parents tokens
candidates x c =
    rules_under (host_and_parents c.host) x.by_host
    ++ (rules_under (tokens c) x.by_token ++ x.generic)

module _ (re_matches : Bytes → Bytes → Bool) where
  -- ruleIndex.first
  unfoldable pub first_of : (NetRule → Bool) → MatchCtx → List NetRule → Option NetRule
  unfolding rule_matches
  first_of keep c [] = none
  first_of keep c (r ∷ rs) =
      let rest = first_of keep c rs in
      if keep r && rule_matches re_matches r c true then some r else rest

  abbrev pub first : RuleIndex → MatchCtx → (NetRule → Bool) → Option NetRule
  first x c keep = first_of keep c (candidates x c)

  -- ruleIndex.find: an important match ends the search, the first ordinary one is kept.
  unfoldable pub find_in : MatchCtx → Option NetRule → List NetRule → Option NetRule
  unfolding rule_matches
  find_in c held [] = held
  find_in c held (r ∷ rs) =
      let hit = (not (is_some held) || r.important) && rule_matches re_matches r c false in
      let next = if hit then some r else held in
      let rest = find_in c next rs in if hit && r.important then next else rest

  abbrev pub find : RuleIndex → MatchCtx → Option NetRule
  find x c = find_in c none (candidates x c)
