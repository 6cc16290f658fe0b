-- ===== src/Adblock/Index/Linear.antt =====
-- The searches through an index decide as a search through the whole list would.
use gowebfilter.Base.{
  ◌≡◌, refl, sym, ap, ◌∙◌, inl, inr, Bool, true, false, ◌&&◌, ◌||◌, not, Option, none, some, List,
  [], ◌∷◌, if◌then◌else◌, false≢true, Bytes, is_some, to_lower, both, is_empty, Within, append_left,
  append_right, no_member, any_of, any_of_iff,
}
use gowebfilter.Adblock.Context.{MatchCtx, find_host_starts, tokens}
use gowebfilter.Adblock.Index.{
  RuleIndex, best_token, candidates, find_in, first_of, host_and_parents, no_rules, rules_under,
}
use gowebfilter.Adblock.Index.Complete.{
  InIndex, Kept, candidates-InIndex, index_from, index_has, index_of,
}
use gowebfilter.Adblock.Index.Hosts.{domain_matches-Within}
use gowebfilter.Adblock.Index.Tokens.{begins, token_lem}
use gowebfilter.Adblock.Index.Under.{rules_under_in}
use gowebfilter.Adblock.Matching.{
  domain_matches, domains_apply, party_applies, pattern_matches, rule_matches, source_of,
  text_matches, type_applies,
}
use gowebfilter.Adblock.Matching.Literal.{pattern_matches-pattern_means}
use gowebfilter.Adblock.Parse.{literal_of}
use gowebfilter.Adblock.Rules.{NetRule, look_up}
use gowebfilter.Categories.Hash.{at}

-- What is computed of a request is so from its address.
abbrev pub IsContext : MatchCtx → Type 0
IsContext c = (c.url_lower ≡ to_lower c.url) × (c.host_starts ≡ find_host_starts c.url_lower)

-- A rule has the leading literal of its pattern, as parsing leaves it.
abbrev pub HasLiteral : NetRule → Type 0
HasLiteral r = r.lit ≡ literal_of r.pattern_text

from_pattern :
    (o : Option Bytes) (f : Bytes → Bool) (b : Bool)
    → is_some o ≡ false
    → (elim o [ some expr ↦ f expr | none ↦ b ]) ≡ true
    → b ≡ true
from_pattern none f b text m = m
from_pattern (some expr) f b text m = absurd (false≢true (sym text))

same_answer : (a b : Bool) → (a ≡ true → b ≡ true) → (b ≡ true → a ≡ true) → a ≡ b
same_answer true b to from = sym (to refl)
same_answer false true to from = from refl
same_answer false false to from = refl

empty_index : (r : NetRule) → ¬ InIndex no_rules r
unfolding look_up
empty_index r (inl (k, w)) = no_member w
empty_index r (inr (inl w)) = no_member w
empty_index r (inr (inr (k, w))) = no_member w

abbrev pub is_urgent : Option NetRule → Bool
is_urgent none = false
is_urgent (some r) = r.important

-- One step of find, on the test that the rule matches and that it is important.
abbrev found_next :
    Option NetRule → NetRule → Bool → Bool → (Option NetRule → Option NetRule) → Option NetRule
found_next held r imp m rest =
    let hit = (not (is_some held) || imp) && m in
    let next = if hit then some r else held in if hit && imp then next else rest next

step_some :
    (held : Option NetRule) (r : NetRule) (imp m q : Bool) (rest : Option NetRule → Option NetRule)
    → ((h : Option NetRule) → is_some (rest h) ≡ is_some h || q)
    → is_some (found_next held r imp m rest) ≡ is_some held || (m || q)
step_some none r true true q rest ih = refl
step_some none r false true q rest ih = ih (some r)
step_some none r true false q rest ih = ih none
step_some none r false false q rest ih = ih none
step_some (some h) r true true q rest ih = refl
step_some (some h) r true false q rest ih = ih (some h)
step_some (some h) r false m q rest ih = ih (some h)

or_same : (a q : Bool) → a ≡ false → a || q ≡ q
or_same true q e = absurd (false≢true (sym e))
or_same false q e = refl

or_true : (a q : Bool) → a ≡ true → a || q ≡ true
or_true true q e = refl
or_true false q e = absurd (false≢true e)

pub or_right : (a : Bool) → a || true ≡ true
or_right true = refl
or_right false = refl

step_urgent :
    (held : Option NetRule) (r : NetRule) (imp m q : Bool) (rest : Option NetRule → Option NetRule)
    → r.important ≡ imp
    → ((h : Option NetRule) → is_urgent (rest h) ≡ is_urgent h || q)
    → is_urgent (found_next held r imp m rest) ≡ is_urgent held || (imp && m || q)
step_urgent none r true true q rest e ih = e
step_urgent none r false true q rest e ih = ih (some r) ∙ or_same r.important q e
step_urgent none r true false q rest e ih = ih none
step_urgent none r false false q rest e ih = ih none
step_urgent (some h) r true true q rest e ih = e ∙ sym (or_right h.important)
step_urgent (some h) r true false q rest e ih = ih (some h)
step_urgent (some h) r false m q rest e ih = ih (some h)

or_nil : (b : Bool) → b ≡ b || false
or_nil true = refl
or_nil false = refl

taken_some :
    (b : Bool) (r : NetRule) (o : Option NetRule)
    → is_some (if b then some r else o) ≡ b || is_some o
taken_some true r o = refl
taken_some false r o = refl

module _ (re_matches : Bytes → Bytes → Bool) where
  text_holds :
      (r : NetRule) (c : MatchCtx) (page_level : Bool)
      → rule_matches re_matches r c page_level ≡ true
      → text_matches re_matches r c ≡ true
  unfolding rule_matches
  text_holds r c page_level m =
      (both
        (type_applies r c page_level
          && party_applies r.third_party c.third_party
          && domains_apply r (source_of c))
        (text_matches re_matches r c) m).1

  host_holds :
      (r : NetRule) (c : MatchCtx)
      → is_empty r.host_only ≡ false
      → text_matches re_matches r c ≡ true
      → domain_matches c.host r.host_only ≡ true
  unfolding text_matches
  host_holds r c host m = rw host at m

  pattern_holds :
      (r : NetRule) (c : MatchCtx)
      → is_empty r.host_only ≡ true
      → is_some r.re ≡ false
      → text_matches re_matches r c ≡ true
      → pattern_matches r c ≡ true
  unfolding text_matches
  pattern_holds r c nohost text m =
      from_pattern r.re (λ expr. re_matches expr c.url) (pattern_matches r c) text (rw nohost at m)

  candidates_has :
      (x : RuleIndex) (c : MatchCtx) (r : NetRule)
      → IsContext c
      → HasLiteral r
      → Kept x r
      → text_matches re_matches r c ≡ true
      → Within r (candidates x c)
  unfolding candidates
  candidates_has x c r (lower, starts) lit (inl (host, w)) m = append_left _ (
      rules_under_in r r.host_only (host_and_parents c.host) x.by_host
        (domain_matches-Within c.host r.host_only host (host_holds r c host m)) w)
  candidates_has x c r (lower, starts) lit (inr (inl w)) m =
      append_right (rules_under (host_and_parents c.host) x.by_host)
        (append_right (rules_under (tokens c) x.by_token) w)
  candidates_has x c r (lower, starts) lit (inr (inr (nohost, text, token, w))) m =
      let (n, at) =
        begins r c lower starts
          (sym (pattern_matches-pattern_means r c lit) ∙ pattern_holds r c nohost text m) in
      append_right (rules_under (host_and_parents c.host) x.by_host) (
        append_left x.generic
          (rules_under_in r (best_token r) (tokens c) x.by_token (token_lem r c n at token) w))

  -- A test that only a matching rule passes is passed in the index where it is in the list.
  pub any_of-candidates :
      (p : NetRule → Bool) (rs : List NetRule) (c : MatchCtx) (page_level : Bool)
      → IsContext c
      → ((r : NetRule) → Within r rs → HasLiteral r)
      → ((r : NetRule) → p r ≡ true → rule_matches re_matches r c page_level ≡ true)
      → any_of p (candidates (index_of no_rules rs) c) ≡ any_of p rs
  any_of-candidates p rs c page_level context lits passes =
      let x = index_of no_rules rs in
      let passing = any_of_iff p (λ r. p r ≡ true) (λ r. (λ h. h, λ h. h)) in
      same_answer _ _
        (λ h.
          let (r, w, e) = (passing (candidates x c)).0 h in
          (passing rs).1 (
            r,
            elim (index_from no_rules rs r (candidates-InIndex x c r w)) [
              | inl listed ↦ listed
              | inr held ↦ absurd (empty_index r held)
            ],
            e,
          ))
        (λ h.
          let (r, w, e) = (passing rs).0 h in
          (passing (candidates x c)).1 (
            r,
            candidates_has x c r context (lits r w) (index_has no_rules rs r w)
                (text_holds r c page_level (passes r e)),
            e,
          ))

  pub find_in-is_some :
      (c : MatchCtx) (held : Option NetRule) (rs : List NetRule)
      → is_some (find_in re_matches c held rs)
        ≡ is_some held || any_of (λ r. rule_matches re_matches r c false) rs
  unfolding find_in any_of
  find_in-is_some c held [] = or_nil (is_some held)
  find_in-is_some c held (r ∷ rs) =
      step_some held r r.important (rule_matches re_matches r c false) _
        (λ h. find_in re_matches c h rs) (λ h. find_in-is_some c h rs)

  pub find_in-is_urgent :
      (c : MatchCtx) (held : Option NetRule) (rs : List NetRule)
      → is_urgent (find_in re_matches c held rs)
        ≡ is_urgent held || any_of (λ r. r.important && rule_matches re_matches r c false) rs
  unfolding find_in any_of
  find_in-is_urgent c held [] = or_nil (is_urgent held)
  find_in-is_urgent c held (r ∷ rs) =
      step_urgent held r r.important (rule_matches re_matches r c false) _
        (λ h. find_in re_matches c h rs) refl (λ h. find_in-is_urgent c h rs)

  pub first_of-is_some :
      (keep : NetRule → Bool) (c : MatchCtx) (rs : List NetRule)
      → is_some (first_of re_matches keep c rs)
        ≡ any_of (λ r. keep r && rule_matches re_matches r c true) rs
  unfolding first_of any_of
  first_of-is_some keep c [] = refl
  first_of-is_some keep c (r ∷ rs) =
      taken_some (keep r && rule_matches re_matches r c true) r (first_of re_matches keep c rs)
      ∙ ap (λ (b : Bool). keep r && rule_matches re_matches r c true || b)
          (first_of-is_some keep c rs)
