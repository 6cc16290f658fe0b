-- ===== src/Adblock/Engine/Build.antt =====
-- The indexes that build makes are those of the rules of each kind, in their order.
use gowebfilter.Base.{
  suc, ◌≡◌, refl, sym, ap, ◌∙◌, subst, inl, inr, Bool, true, false, ◌&&◌, not, List, [], ◌∷◌, ltb,
  if◌then◌else◌, Bool-cases, length, is_empty, Within, Within-cons, no_member,
}
use gowebfilter.Adblock.Engine.{
  Engine, add_cosmetic_rule, add_cosmetic_rules, add_generic, add_net_rules, build, empty_engine,
  is_page_level, max_generic_selectors_no_key, selector_key,
}
use gowebfilter.Adblock.Glob.Reference.{later}
use gowebfilter.Adblock.Index.{RuleIndex, add_rule, no_rules}
use gowebfilter.Adblock.Index.Complete.{index_of}
use gowebfilter.Adblock.Rules.{CosmeticRule, NetRule, Parsed}

unfoldable pub rules_that : (NetRule → Bool) → List NetRule → List NetRule
rules_that p [] = []
rules_that p (r ∷ rs) = let rest = rules_that p rs in if p r then r ∷ rest else rest

abbrev pub is_allowing : NetRule → Bool
is_allowing r = not (is_page_level r) && r.is_exception

abbrev pub is_blocking : NetRule → Bool
is_blocking r = not (is_page_level r) && not r.is_exception

pub rules_that-Within :
    (p : NetRule → Bool) (rs : List NetRule) (r : NetRule)
    → Within r (rules_that p rs)
    → Within r rs
unfolding rules_that
rules_that-Within p [] r w = absurd (no_member w)
rules_that-Within p (s ∷ rs) r w = elim (Bool-cases (p s)) [
  | inl taken ↦ elim (Within-cons (rw taken at w)) [
    | inl same ↦ subst (λ u. Within u (s ∷ rs)) (sym same) Within.here
    | inr later ↦ Within.there (rules_that-Within p rs r later)
  ]
  | inr left ↦ Within.there (rules_that-Within p rs r (rw left at w))
]

-- The three indexes of an engine.
abbrev pub Indexes : Engine → RuleIndex → RuleIndex → RuleIndex → Type 0
Indexes e blocks allows pages =
    (e.block_rules ≡ blocks) × (e.allow_rules ≡ allows) × (e.allow_document ≡ pages)

-- A rule is added to one index or another.
abbrev put : Bool → RuleIndex → NetRule → RuleIndex
put b x r = if b then add_rule x r else x

put_first :
    (b : Bool) (x : RuleIndex) (r : NetRule) (rs : List NetRule)
    → index_of (put b x r) rs ≡ index_of x (if b then r ∷ rs else rs)
unfolding index_of
put_first true x r rs = refl
put_first false x r rs = refl

abbrev pub net_step : Bool → Bool → NetRule → Engine → Engine
net_step page exception r e =
    let n = suc e.network_rules in
    if page
    then record e { network_rules = n; allow_document = add_rule e.allow_document r }
    else if exception
    then record e { network_rules = n; allow_rules = add_rule e.allow_rules r }
    else record e { network_rules = n; block_rules = add_rule e.block_rules r }

step-Indexes :
    (page exception : Bool) (r : NetRule) (e : Engine)
    → Indexes
        (net_step page exception r e)
        (put (not page && not exception) e.block_rules r)
        (put (not page && exception) e.allow_rules r)
        (put page e.allow_document r)
step-Indexes true exception r e = (refl, refl, refl)
step-Indexes false true r e = (refl, refl, refl)
step-Indexes false false r e = (refl, refl, refl)

net-Indexes :
    (rs : List NetRule) (e : Engine)
    → Indexes
        (add_net_rules rs e)
        (index_of e.block_rules (rules_that is_blocking rs))
        (index_of e.allow_rules (rules_that is_allowing rs))
        (index_of e.allow_document (rules_that is_page_level rs))
unfolding add_net_rules rules_that index_of
net-Indexes [] e = (refl, refl, refl)
net-Indexes (r ∷ rs) e =
    let (b, a, d) = net-Indexes rs (net_step (is_page_level r) r.is_exception r e) in
    let (b1, a1, d1) = step-Indexes (is_page_level r) r.is_exception r e in
    (
      b
          ∙ ap (λ x. index_of x (rules_that is_blocking rs)) b1
          ∙ put_first (is_blocking r) e.block_rules r (rules_that is_blocking rs),
      a
          ∙ ap (λ x. index_of x (rules_that is_allowing rs)) a1
          ∙ put_first (is_allowing r) e.allow_rules r (rules_that is_allowing rs),
      d
          ∙ ap (λ x. index_of x (rules_that is_page_level rs)) d1
          ∙ put_first (is_page_level r) e.allow_document r (rules_that is_page_level rs),
    )

generic_step :
    (c : CosmeticRule) (e : Engine)
    → Indexes (add_generic c e) e.block_rules e.allow_rules e.allow_document
unfolding add_generic
generic_step c e = elim (Bool-cases (is_empty (selector_key c.selector))) [
  | inr keyed ↦ rw keyed (refl, refl, refl)
  | inl free ↦ elim (Bool-cases (ltb (length e.generic_no_key) max_generic_selectors_no_key)) [
    | inl room ↦ rw (free, room) (refl, refl, refl)
    | inr full ↦ rw (free, full) (refl, refl, refl)
  ]
]

cosmetic_step :
    (c : CosmeticRule) (e : Engine)
    → Indexes (add_cosmetic_rule c e) e.block_rules e.allow_rules e.allow_document
unfolding add_cosmetic_rule
cosmetic_step c e = elim (Bool-cases c.is_exception) [
  | inl exception ↦ elim (Bool-cases (is_empty c.domains)) [
    | inl everywhere ↦ rw (exception, everywhere) (refl, refl, refl)
    | inr sites ↦ rw (exception, sites) (refl, refl, refl)
  ]
  | inr hiding ↦ elim (Bool-cases (is_empty c.domains)) [
    | inl everywhere ↦
        rw (hiding, everywhere)
          (generic_step c (record e { cosmetic_rules = suc e.cosmetic_rules }))
    | inr sites ↦ rw (hiding, sites) (refl, refl, refl)
  ]
]

cosmetic-Indexes :
    (cs : List CosmeticRule) (e : Engine)
    → Indexes (add_cosmetic_rules cs e) e.block_rules e.allow_rules e.allow_document
unfolding add_cosmetic_rules
cosmetic-Indexes [] e = (refl, refl, refl)
cosmetic-Indexes (c ∷ cs) e =
    let (b, a, d) = cosmetic-Indexes cs (add_cosmetic_rule c e) in
    let (b1, a1, d1) = cosmetic_step c e in (b ∙ b1, a ∙ a1, d ∙ d1)

pub build-Indexes :
    (p : Parsed)
    → Indexes
        (build p)
        (index_of no_rules (rules_that is_blocking p.net))
        (index_of no_rules (rules_that is_allowing p.net))
        (index_of no_rules (rules_that is_page_level p.net))
unfolding build
build-Indexes p =
    let (b0, a0, d0) = net-Indexes p.net (empty_engine p.skipped) in
    let (b1, a1, d1) = cosmetic-Indexes p.cosmetic (add_net_rules p.net (empty_engine p.skipped)) in
    (b1 ∙ b0, a1 ∙ a0, d1 ∙ d0)
