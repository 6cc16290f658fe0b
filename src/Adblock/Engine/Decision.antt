-- ===== src/Adblock/Engine/Decision.antt =====
-- The decision on a request, by the rules as they stand in the lists.
use gowebfilter.Base.{
  ◌≡◌, refl, sym, ap, ap₂, ◌∙◌, subst, inl, inr, Bool, true, false, ◌&&◌, ◌||◌, not, Option, none,
  some, List, ◌==◌, if◌then◌else◌, Bool-cases, none≢some, some_injective, Bytes, is_some, and_then,
  both, is_empty, Within, any_of,
}
use gowebfilter.Adblock.Context.{AdRequest, MatchCtx, new_match_ctx, page_ctx}
use gowebfilter.Adblock.Engine.{
  Engine, Verdict, build, document_exception, is_document_rule, is_page_level, match_ctx,
  match_request, settle,
}
use gowebfilter.Adblock.Engine.Build.{
  build-Indexes, is_allowing, is_blocking, rules_that, rules_that-Within,
}
use gowebfilter.Adblock.Index.{candidates, find, first}
use gowebfilter.Adblock.Index.Linear.{
  HasLiteral, IsContext, any_of-candidates, find_in-is_some, find_in-is_urgent, first_of-is_some,
  is_urgent, or_right,
}
use gowebfilter.Adblock.Matching.{rule_matches}
use gowebfilter.Adblock.Rules.{NetRule, Parsed, type_document}

exempted :
    (b : Bool) (blocks allows : Bytes)
    → (let v : Verdict =
          if b
          then record { blocked = true; rule = blocks }
          else record { blocked = false; rule = allows } in
        v.blocked)
      ≡ b || false
exempted true blocks allows = refl
exempted false blocks allows = refl

decided :
    (o : Option NetRule) (v : Verdict)
    → (let w : Verdict = elim o [ some r ↦ record { blocked = false; rule = r.raw } | none ↦ v ] in
        w.blocked)
      ≡ not (is_some o) && v.blocked
decided none v = refl
decided (some r) v = refl

settled :
    (o a : Option NetRule) → (settle o a).blocked ≡ is_some o && (is_urgent o || not (is_some a))
settled none a = refl
settled (some r) none = sym (or_right r.important)
settled (some r) (some exc) = exempted r.important r.raw exc.raw

-- A page-level rule among the rules that matches the page.
abbrev excepted_page : (Bytes → Bytes → Bool) → List NetRule → Option MatchCtx → Bool
excepted_page re_matches rules none = false
excepted_page re_matches rules (some page) =
    any_of (λ r. is_document_rule false r && rule_matches re_matches r page true)
      (rules_that is_page_level rules)

module _ (effective_tld_plus_one : Bytes → Option Bytes) (re_matches : Bytes → Bytes → Bool) where
  -- The decision by a look at every rule: the page is not excepted, a blocking rule matches, and it
  -- is important or no exception matches.
  unfoldable pub should_block : List NetRule → MatchCtx → Bool
  should_block rules c =
      let matches : NetRule → Bool = λ r. rule_matches re_matches r c false in
      not (excepted_page re_matches rules (page_ctx effective_tld_plus_one c))
      && (any_of matches (rules_that is_blocking rules)
          && (any_of (λ r. r.important && matches r) (rules_that is_blocking rules)
              || not (any_of matches (rules_that is_allowing rules))))

  new-IsContext : (req : AdRequest) → IsContext (new_match_ctx effective_tld_plus_one req)
  unfolding new_match_ctx
  new-IsContext req = (refl, refl)

  page-IsContext :
      (c page : MatchCtx)
      → IsContext c
      → page_ctx effective_tld_plus_one c ≡ some page
      → IsContext page
  unfolding page_ctx
  page-IsContext c page context e = elim (Bool-cases (c.typ == type_document)) [
    | inl document ↦ subst IsContext (some_injective (rw document at e)) context
    | inr request ↦ elim (Bool-cases (is_empty c.source_url)) [
      | inl none_ ↦ absurd (none≢some (rw (request, none_) at e))
      | inr page_url ↦ subst IsContext (some_injective (rw (request, page_url) at e)) (refl, refl)
    ]
  ]

  -- The operations by their parts, which the proofs below leave shut.
  document_exception_lem :
      (e : Engine) (c : MatchCtx) (cosmetic : Bool)
      → document_exception effective_tld_plus_one re_matches e c cosmetic
        ≡ and_then
            (page_ctx effective_tld_plus_one c)
            (λ page. first re_matches e.allow_document page (is_document_rule cosmetic))
  unfolding document_exception
  document_exception_lem e c cosmetic = refl

  match_request_lem :
      (e : Engine) (req : AdRequest)
      → (let c = new_match_ctx effective_tld_plus_one req in
          (match_request effective_tld_plus_one re_matches (some e) req).blocked
          ≡ not (is_some (document_exception effective_tld_plus_one re_matches e c false))
            && (settle (find re_matches e.block_rules c) (find re_matches e.allow_rules c)).blocked)
  unfolding match_request match_ctx
  match_request_lem e req =
      decided
        (document_exception effective_tld_plus_one re_matches e
          (new_match_ctx effective_tld_plus_one req) false)
        _

  page_excepted :
      (p : Parsed) (page : MatchCtx)
      → ((r : NetRule) → Within r p.net → HasLiteral r)
      → IsContext page
      → is_some (first re_matches (build p).allow_document page (is_document_rule false))
        ≡ any_of
            (λ r. is_document_rule false r && rule_matches re_matches r page true)
            (rules_that is_page_level p.net)
  page_excepted p page lits context =
      first_of-is_some re_matches (is_document_rule false) page
        (candidates (build p).allow_document page)
      ∙ ap
          (λ x.
            any_of (λ r. is_document_rule false r && rule_matches re_matches r page true)
              (candidates x page))
          (build-Indexes p).2
      ∙ any_of-candidates re_matches
          (λ r. is_document_rule false r && rule_matches re_matches r page true)
          (rules_that is_page_level p.net) page true context
          (λ r w. lits r (rules_that-Within is_page_level p.net r w))
          (λ r m. (both (is_document_rule false r) (rule_matches re_matches r page true) m).1)

  page_case :
      (p : Parsed) (o : Option MatchCtx)
      → ((r : NetRule) → Within r p.net → HasLiteral r)
      → ((page : MatchCtx) → o ≡ some page → IsContext page)
      → is_some (
          and_then o
            (λ page. first re_matches (build p).allow_document page (is_document_rule false)))
        ≡ excepted_page re_matches p.net o
  page_case p none lits contexts = refl
  page_case p (some page) lits contexts = page_excepted p page lits (contexts page refl)

  excepted_lem :
      (p : Parsed) (c : MatchCtx)
      → ((r : NetRule) → Within r p.net → HasLiteral r)
      → IsContext c
      → is_some (document_exception effective_tld_plus_one re_matches (build p) c false)
        ≡ excepted_page re_matches p.net (page_ctx effective_tld_plus_one c)
  excepted_lem p c lits context =
      ap (λ (o : Option NetRule). is_some o) (document_exception_lem (build p) c false)
      ∙ page_case p (page_ctx effective_tld_plus_one c) lits
          (λ page e. page-IsContext c page context e)

  blocks_found :
      (p : Parsed) (c : MatchCtx)
      → ((r : NetRule) → Within r p.net → HasLiteral r)
      → IsContext c
      → is_some (find re_matches (build p).block_rules c)
        ≡ any_of (λ r. rule_matches re_matches r c false) (rules_that is_blocking p.net)
  blocks_found p c lits context =
      find_in-is_some re_matches c none (candidates (build p).block_rules c)
      ∙ ap (λ x. any_of (λ r. rule_matches re_matches r c false) (candidates x c))
          (build-Indexes p).0
      ∙ any_of-candidates re_matches (λ r. rule_matches re_matches r c false)
          (rules_that is_blocking p.net) c false context
          (λ r w. lits r (rules_that-Within is_blocking p.net r w)) (λ r m. m)

  allows_found :
      (p : Parsed) (c : MatchCtx)
      → ((r : NetRule) → Within r p.net → HasLiteral r)
      → IsContext c
      → is_some (find re_matches (build p).allow_rules c)
        ≡ any_of (λ r. rule_matches re_matches r c false) (rules_that is_allowing p.net)
  allows_found p c lits context =
      find_in-is_some re_matches c none (candidates (build p).allow_rules c)
      ∙ ap (λ x. any_of (λ r. rule_matches re_matches r c false) (candidates x c))
          (build-Indexes p).1
      ∙ any_of-candidates re_matches (λ r. rule_matches re_matches r c false)
          (rules_that is_allowing p.net) c false context
          (λ r w. lits r (rules_that-Within is_allowing p.net r w)) (λ r m. m)

  urgent_found :
      (p : Parsed) (c : MatchCtx)
      → ((r : NetRule) → Within r p.net → HasLiteral r)
      → IsContext c
      → is_urgent (find re_matches (build p).block_rules c)
        ≡ any_of
            (λ r. r.important && rule_matches re_matches r c false)
            (rules_that is_blocking p.net)
  urgent_found p c lits context =
      find_in-is_urgent re_matches c none (candidates (build p).block_rules c)
      ∙ ap (λ x. any_of (λ r. r.important && rule_matches re_matches r c false) (candidates x c))
          (build-Indexes p).0
      ∙ any_of-candidates re_matches (λ r. r.important && rule_matches re_matches r c false)
          (rules_that is_blocking p.net) c false context
          (λ r w. lits r (rules_that-Within is_blocking p.net r w))
          (λ r m. (both r.important (rule_matches re_matches r c false) m).1)

  -- For an engine built of rules that have the leading literal of their pattern, Match blocks a request
  -- exactly when a look at every rule in turn would: no page-level exception matches the page, a
  -- blocking rule matches, and an important one does or no exception matches. The indexes by host and
  -- by token miss no rule.
  pub match_request-should_block :
      (p : Parsed) (req : AdRequest)
      → ((r : NetRule) → Within r p.net → HasLiteral r)
      → (match_request effective_tld_plus_one re_matches (some (build p)) req).blocked
        ≡ should_block p.net (new_match_ctx effective_tld_plus_one req)
  unfolding should_block
  match_request-should_block p req lits =
      let c : MatchCtx = new_match_ctx effective_tld_plus_one req in
      let context : IsContext c = new-IsContext req in
      match_request_lem (build p) req
      ∙ ap₂ (λ (x y : Bool). not x && y) (excepted_lem p c lits context)
          (settled (find re_matches (build p).block_rules c)
              (find re_matches (build p).allow_rules c)
            ∙ ap₂ (λ (x y : Bool). x && y) (blocks_found p c lits context)
                (ap₂ (λ (x y : Bool). x || not y) (urgent_found p c lits context)
                  (allows_found p c lits context)))
