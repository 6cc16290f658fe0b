-- ===== src/Adblock/Cosmetic/Selectors.antt =====
-- What holds of every selector of the rules holds of every selector that an engine gives for a page.
use gowebfilter.Base.{
  suc, ◌≡◌, refl, sym, subst, inl, inr, Bool, true, false, ◌&&◌, not, Option, List, [], ◌∷◌, ◌++◌,
  ltb, if◌then◌else◌, Bool-cases, length, Bytes, is_some, to_lower, is_one_of, is_empty, Within,
  Within-append, Within-cons, no_member, any_of,
}
use gowebfilter.Adblock.Context.{new_match_ctx}
use gowebfilter.Adblock.Cosmetic.{
  add_named, add_selector, add_selectors, add_specific, cosmetic_selectors, generic_hidden,
  is_excepted, kept_on, page_request, sort_strings,
}
use gowebfilter.Adblock.Engine.{
  Engine, add_cosmetic_rule, add_cosmetic_rules, add_generic, add_net_rules, add_under_all, build,
  document_exception, empty_engine, is_page_level, max_generic_selectors_no_key, selector_key,
}
use gowebfilter.Adblock.Engine.Build.{net_step}
use gowebfilter.Adblock.Glob.Reference.{later}
use gowebfilter.Adblock.Index.{host_and_parents}
use gowebfilter.Adblock.Index.Under.{under_from}
use gowebfilter.Adblock.Matching.{domain_matches}
use gowebfilter.Adblock.Rules.{CosmeticRule, NetRule, Parsed, add_under, listed_under, look_up}
use gowebfilter.Models.UrlFilter.{bytes_le, insert_name}

abbrev pub Every : (Bytes → Type 0) → List Bytes → Type 0
Every P xs = (x : Bytes) → Within x xs → P x

-- Every selector that an engine may give.
abbrev pub EverySelector : (Bytes → Type 0) → Engine → Type 0
EverySelector P e =
    ((k : Bytes) → Every P (listed_under k e.generic_by_key))
    × Every P e.generic_no_key
    × ((k : Bytes) → Every P (listed_under k e.specific))

module _ (P : Bytes → Type 0) where
  every-append : (xs : List Bytes) (y : Bytes) → Every P xs → P y → Every P (xs ++ (y ∷ []))
  every-append xs y all p x w = elim (Within-append xs (y ∷ []) w) [
    | inl before ↦ all x before
    | inr last ↦ elim (Within-cons last) [
      | inl same ↦ subst P (sym same) p
      | inr none_ ↦ absurd (no_member none_)
    ]
  ]

  every-cons : (y : Bytes) (xs : List Bytes) → P y → Every P xs → Every P (y ∷ xs)
  every-cons y xs p all x w = elim (Within-cons w) [
    | inl same ↦ subst P (sym same) p
    | inr later ↦ all x later
  ]

  under_more :
      (k i v : Bytes) (m : List (Bytes × List Bytes))
      → Every P (listed_under k m)
      → P v
      → Every P (listed_under k (add_under i v m))
  under_more k i v m all p x w = elim (under_from k i x v m w) [
    | inl same ↦ subst P (sym same) p
    | inr before ↦ all x before
  ]

  under_all :
      (ds : List Bytes) (v : Bytes) (m : List (Bytes × List Bytes))
      → ((k : Bytes) → Every P (listed_under k m))
      → P v
      → (k : Bytes) → Every P (listed_under k (add_under_all ds v m))
  unfolding add_under_all
  under_all [] v m all p k = all k
  under_all (d ∷ ds) v m all p k =
      under_all ds v (add_under d v m) (λ j. under_more j d v m (all j) p) p k

  generic-EverySelector :
      (c : CosmeticRule) (e : Engine)
      → P c.selector
      → EverySelector P e
      → EverySelector P (add_generic c e)
  unfolding add_generic
  generic-EverySelector c e p (keyed, free, sites) =
      elim (Bool-cases (is_empty (selector_key c.selector))) [
        | inr key ↦ rw key (
          λ k. under_more k (selector_key c.selector) c.selector e.generic_by_key (keyed k) p,
          free,
          sites,
        )
        | inl nokey ↦
            elim (Bool-cases (ltb (length e.generic_no_key) max_generic_selectors_no_key)) [
              | inl room ↦
                  rw (nokey, room) (keyed, every-append e.generic_no_key c.selector free p, sites)
              | inr full ↦ rw (nokey, full) (keyed, free, sites)
            ]
      ]

  rule-EverySelector :
      (c : CosmeticRule) (e : Engine)
      → P c.selector
      → EverySelector P e
      → EverySelector P (add_cosmetic_rule c e)
  unfolding add_cosmetic_rule
  rule-EverySelector c e p (keyed, free, sites) = elim (Bool-cases c.is_exception) [
    | inl exception ↦ elim (Bool-cases (is_empty c.domains)) [
      | inl everywhere ↦ rw (exception, everywhere) (keyed, free, sites)
      | inr named ↦ rw (exception, named) (keyed, free, sites)
    ]
    | inr hiding ↦ elim (Bool-cases (is_empty c.domains)) [
      | inl everywhere ↦
          rw (hiding, everywhere)
            (generic-EverySelector c (record e { cosmetic_rules = suc e.cosmetic_rules }) p
              (keyed, free, sites))
      | inr named ↦
          rw (hiding, named) (keyed, free, λ k. under_all c.domains c.selector e.specific sites p k)
    ]
  ]

  rules-EverySelector :
      (cs : List CosmeticRule) (e : Engine)
      → ((c : CosmeticRule) → Within c cs → P c.selector)
      → EverySelector P e
      → EverySelector P (add_cosmetic_rules cs e)
  unfolding add_cosmetic_rules
  rules-EverySelector [] e all every = every
  rules-EverySelector (c ∷ cs) e all every =
      rules-EverySelector cs (add_cosmetic_rule c e) (λ d w. all d (Within.there w))
        (rule-EverySelector c e (all c Within.here) every)

  net_step-EverySelector :
      (r : NetRule) (e : Engine) (page exception : Bool)
      → EverySelector P e
      → EverySelector P (net_step page exception r e)
  net_step-EverySelector r e true exception every = every
  net_step-EverySelector r e false true every = every
  net_step-EverySelector r e false false every = every

  net-EverySelector :
      (rs : List NetRule) (e : Engine) → EverySelector P e → EverySelector P (add_net_rules rs e)
  unfolding add_net_rules
  net-EverySelector [] e every = every
  net-EverySelector (r ∷ rs) e every =
      net-EverySelector rs (net_step (is_page_level r) r.is_exception r e)
        (net_step-EverySelector r e (is_page_level r) r.is_exception every)

  pub build-EverySelector :
      (p : Parsed)
      → ((c : CosmeticRule) → Within c p.cosmetic → P c.selector)
      → EverySelector P (build p)
  unfolding build look_up
  build-EverySelector p all =
      rules-EverySelector p.cosmetic (add_net_rules p.net (empty_engine p.skipped)) all (
        net-EverySelector p.net (empty_engine p.skipped) (
          λ k x w. absurd (no_member w),
          λ x w. absurd (no_member w),
          λ k x w. absurd (no_member w),
        ))

  -- The selectors of a page.
  chosen :
      (b : Bool) (xs ys : List Bytes) → Every P xs → Every P ys → Every P (if b then xs else ys)
  chosen true xs ys hx hy = hx
  chosen false xs ys hx hy = hy

  added :
      (e : Engine) (host : Bytes) (out sels : List Bytes)
      → Every P out
      → Every P sels
      → Every P (add_selectors e host out sels)
  unfolding add_selectors add_selector
  added e host out [] all new = all
  added e host out (sel ∷ sels) all new =
      added e host (add_selector e host out sel) sels
        (chosen (not (is_one_of out sel) && not (is_excepted e host sel)) (out ++ (sel ∷ [])) out
          (every-append out sel all (new sel Within.here)) all)
        (λ x w. new x (Within.there w))

  kept_on-Every :
      (e : Engine) (host : Bytes) (sels : List Bytes) → Every P sels → Every P (kept_on e host sels)
  unfolding kept_on
  kept_on-Every e host [] all = all
  kept_on-Every e host (sel ∷ sels) all =
      let rest = kept_on-Every e host sels (λ x w. all x (Within.there w)) in
      chosen (any_of (domain_matches host) (listed_under sel e.specific_not)) (kept_on e host sels)
        (sel ∷ kept_on e host sels) rest
        (every-cons sel (kept_on e host sels) (all sel Within.here) rest)

  specific_added :
      (e : Engine) (host : Bytes) (hs out : List Bytes)
      → EverySelector P e
      → Every P out
      → Every P (add_specific e host out hs)
  unfolding add_specific
  specific_added e host [] out every all = all
  specific_added e host (h ∷ hs) out every all = specific_added e host hs _ every (
      added e host out (kept_on e host (listed_under h e.specific)) all
        (kept_on-Every e host (listed_under h e.specific) (every.2 h)))

  named_added :
      (e : Engine) (host : Bytes) (names out : List Bytes)
      → EverySelector P e
      → Every P out
      → Every P (add_named e host out names)
  unfolding add_named
  named_added e host [] out every all = all
  named_added e host (name ∷ names) out every all =
      named_added e host names _ every
        (added e host out (listed_under name e.generic_by_key) all (every.0 name))

  inserted : (s : Bytes) (xs : List Bytes) → P s → Every P xs → Every P (insert_name s xs)
  unfolding insert_name
  inserted s [] p all = every-cons s [] p all
  inserted s (x ∷ xs) p all =
      chosen (bytes_le s x) (s ∷ x ∷ xs) (x ∷ insert_name s xs) (every-cons s (x ∷ xs) p all) (
        every-cons x (insert_name s xs) (all x Within.here)
          (inserted s xs p (λ y w. all y (Within.there w))))

  pub sorted-Every : (xs : List Bytes) → Every P xs → Every P (sort_strings xs)
  unfolding sort_strings
  sorted-Every [] all = all
  sorted-Every (x ∷ xs) all =
      inserted x (sort_strings xs) (all x Within.here)
        (sorted-Every xs (λ y w. all y (Within.there w)))

  -- The selectors before they are sorted, with no document exception.
  abbrev selected : Engine → Bytes → List Bytes → Bool → List Bytes
  selected e host names hidden =
      let own = add_specific e host [] (host_and_parents host) in
      if hidden then own else add_selectors e host (add_named e host own names) e.generic_no_key

  selected-Every :
      (e : Engine) (host : Bytes) (names : List Bytes) (hidden : Bool)
      → EverySelector P e
      → Every P (selected e host names hidden)
  selected-Every e host names hidden every =
      let own : Every P (add_specific e host [] (host_and_parents host)) =
        specific_added e host (host_and_parents host) [] every (λ x w. absurd (no_member w)) in
      chosen hidden _ _ own
        (added e host _ e.generic_no_key (named_added e host names _ every own) every.1)

module _ (tld : Bytes → Option Bytes) (re_matches : Bytes → Bytes → Bool) where
  cosmetic_selectors_lem :
      (P : Bytes → Type 0) (e : Engine) (page_host page_url : Bytes) (names : List Bytes)
      → cosmetic_selectors tld re_matches e page_host page_url names ≡ (
          if is_some (
            document_exception tld re_matches e
              (new_match_ctx tld (page_request (to_lower page_host) page_url))
              true)
          then []
          else sort_strings (
              selected P e
                (to_lower page_host)
                names
                (generic_hidden tld re_matches e (to_lower page_host) page_url)))
  unfolding cosmetic_selectors
  cosmetic_selectors_lem P e page_host page_url names = refl

  pub cosmetic_selectors-Every :
      (P : Bytes → Type 0) (e : Engine) (page_host page_url : Bytes) (names : List Bytes)
      → EverySelector P e
      → Every P (cosmetic_selectors tld re_matches e page_host page_url names)
  cosmetic_selectors-Every P e page_host page_url names every =
      subst (Every P) (sym (cosmetic_selectors_lem P e page_host page_url names)) (
        chosen P _ [] _ (λ x w. absurd (no_member w))
          (sorted-Every P _ (selected-Every P e (to_lower page_host) names _ every)))
