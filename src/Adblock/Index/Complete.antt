-- ===== src/Adblock/Index/Complete.antt =====
-- The index offers every rule that was added and matches, and no other.
use gowebfilter.Base.{
  ◌≡◌, refl, sym, subst, ◌⊎◌, inl, inr, true, false, List, [], ◌∷◌, ◌++◌, Bool-cases, Bytes,
  is_some, is_empty, Within, Within-append, Within-cons, append_left, append_right, no_member,
}
use gowebfilter.Adblock.Context.{MatchCtx, tokens}
use gowebfilter.Adblock.Index.{
  RuleIndex, add_rule, best_token, candidates, host_and_parents, rules_under,
}
use gowebfilter.Adblock.Index.Under.{rules_under_from, under_from, under_kept, under_new}
use gowebfilter.Adblock.Rules.{NetRule, add_under, listed_under}

-- Where a rule is kept, and that it came from the list.
abbrev pub KeptByHost : RuleIndex → NetRule → Type 0
KeptByHost x r = (is_empty r.host_only ≡ false) × Within r (listed_under r.host_only x.by_host)

abbrev pub KeptGeneric : RuleIndex → NetRule → Type 0
KeptGeneric x r = Within r x.generic

abbrev pub KeptByToken : RuleIndex → NetRule → Type 0
KeptByToken x r =
    (is_empty r.host_only ≡ true)
    × (is_some r.re ≡ false)
    × (is_empty (best_token r) ≡ false)
    × Within r (listed_under (best_token r) x.by_token)

abbrev pub InIndex : RuleIndex → NetRule → Type 0
InIndex x r =
    ((k : Bytes) × Within r (listed_under k x.by_host))
    ⊎ (Within r x.generic ⊎ ((k : Bytes) × Within r (listed_under k x.by_token)))

abbrev pub Kept : RuleIndex → NetRule → Type 0
Kept x r = KeptByHost x r ⊎ (KeptGeneric x r ⊎ KeptByToken x r)

abbrev with_host : RuleIndex → NetRule → RuleIndex
with_host x r = record x { by_host = add_under r.host_only r x.by_host }

abbrev with_generic : RuleIndex → NetRule → RuleIndex
with_generic x r = record x { generic = x.generic ++ (r ∷ []) }

abbrev with_token : RuleIndex → NetRule → RuleIndex
with_token x r = record x { by_token = add_under (best_token r) r x.by_token }

-- The three places of add.
add_cases :
    (x : RuleIndex) (r : NetRule)
    → ((is_empty r.host_only ≡ false) × (add_rule x r ≡ with_host x r))
      ⊎ ((add_rule x r ≡ with_generic x r)
          ⊎ ((is_empty r.host_only ≡ true)
              × (is_some r.re ≡ false)
              × (is_empty (best_token r) ≡ false)
              × (add_rule x r ≡ with_token x r)))
unfolding add_rule
add_cases x r = elim (Bool-cases (is_empty r.host_only)) [
  | inr host ↦ inl (host, rw host refl)
  | inl nohost ↦ elim (Bool-cases (is_some r.re)) [
    | inl re ↦ inr (inl (rw (nohost, re) refl))
    | inr text ↦ elim (Bool-cases (is_empty (best_token r))) [
      | inl none_ ↦ inr (inl (rw (nohost, text, none_) refl))
      | inr token ↦ inr (inr (nohost, text, token, rw (nohost, text, token) refl))
    ]
  ]
]

pub add_new : (x : RuleIndex) (r : NetRule) → Kept (add_rule x r) r
add_new x r = elim (add_cases x r) [
  | inl (host, e) ↦ subst (λ y. Kept y r) (sym e) (inl (host, under_new r.host_only r x.by_host))
  | inr (inl e) ↦ subst (λ y. Kept y r) (sym e) (inr (inl (append_right x.generic Within.here)))
  | inr (inr (nohost, text, token, e)) ↦
      subst (λ y. Kept y r) (sym e)
        (inr (inr (nohost, text, token, under_new (best_token r) r x.by_token)))
]

Kept-more :
    (x y : RuleIndex) (r : NetRule)
    → ((k : Bytes) → Within r (listed_under k x.by_host) → Within r (listed_under k y.by_host))
    → (Within r x.generic → Within r y.generic)
    → ((k : Bytes) → Within r (listed_under k x.by_token) → Within r (listed_under k y.by_token))
    → Kept x r
    → Kept y r
Kept-more x y r hosts generics tokens_ (inl (host, w)) = inl (host, hosts r.host_only w)
Kept-more x y r hosts generics tokens_ (inr (inl w)) = inr (inl (generics w))
Kept-more x y r hosts generics tokens_ (inr (inr (nohost, text, token, w))) =
    inr (inr (nohost, text, token, tokens_ (best_token r) w))

pub add_keeps : (x : RuleIndex) (r s : NetRule) → Kept x r → Kept (add_rule x s) r
add_keeps x r s kept = elim (add_cases x s) [
  | inl (host, e) ↦
      subst (λ y. Kept y r) (sym e)
        (Kept-more x (with_host x s) r (λ k. under_kept k s.host_only r s x.by_host) (λ w. w)
          (λ k w. w) kept)
  | inr (inl e) ↦
      subst (λ y. Kept y r) (sym e)
        (Kept-more x (with_generic x s) r (λ k w. w) (λ w. append_left (s ∷ []) w) (λ k w. w) kept)
  | inr (inr (nohost, text, token, e)) ↦
      subst (λ y. Kept y r) (sym e)
        (Kept-more x (with_token x s) r (λ k w. w) (λ w. w)
          (λ k. under_kept k (best_token s) r s x.by_token) kept)
]

from_last :
    (x : RuleIndex) (r s : NetRule) → Within r (x.generic ++ (s ∷ [])) → (r ≡ s) ⊎ InIndex x r
from_last x r s w = elim (Within-append x.generic (s ∷ []) w) [
  | inl before ↦ inr (inr (inl before))
  | inr last ↦ elim (Within-cons last) [
    | inl same ↦ inl same
    | inr none_ ↦ absurd (no_member none_)
  ]
]

pub add_from : (x : RuleIndex) (r s : NetRule) → InIndex (add_rule x s) r → (r ≡ s) ⊎ InIndex x r
add_from x r s held = elim (add_cases x s) [
  | inl (host, e) ↦ elim (subst (λ y. InIndex y r) e held) [
    | inl (k, w) ↦ elim (under_from k s.host_only r s x.by_host w) [
      | inl same ↦ inl same
      | inr before ↦ inr (inl (k, before))
    ]
    | inr others ↦ inr (inr others)
  ]
  | inr (inl e) ↦ elim (subst (λ y. InIndex y r) e held) [
    | inl hosts ↦ inr (inl hosts)
    | inr (inl w) ↦ from_last x r s w
    | inr (inr tokens_) ↦ inr (inr (inr tokens_))
  ]
  | inr (inr (nohost, text, token, e)) ↦ elim (subst (λ y. InIndex y r) e held) [
    | inl hosts ↦ inr (inl hosts)
    | inr (inl w) ↦ inr (inr (inl w))
    | inr (inr (k, w)) ↦ elim (under_from k (best_token s) r s x.by_token w) [
      | inl same ↦ inl same
      | inr before ↦ inr (inr (inr (k, before)))
    ]
  ]
]

-- The index of a list.
unfoldable pub index_of : RuleIndex → List NetRule → RuleIndex
unfolding add_rule
index_of x [] = x
index_of x (r ∷ rs) = index_of (add_rule x r) rs

index_keeps : (x : RuleIndex) (rs : List NetRule) (r : NetRule) → Kept x r → Kept (index_of x rs) r
unfolding index_of
index_keeps x [] r kept = kept
index_keeps x (s ∷ rs) r kept = index_keeps (add_rule x s) rs r (add_keeps x r s kept)

pub index_has :
    (x : RuleIndex) (rs : List NetRule) (r : NetRule) → Within r rs → Kept (index_of x rs) r
unfolding index_of
index_has x [] r w = absurd (no_member w)
index_has x (r ∷ rs) r' Within.here = index_keeps (add_rule x r) rs r (add_new x r)
index_has x (s ∷ rs) r (Within.there w) = index_has (add_rule x s) rs r w

pub index_from :
    (x : RuleIndex) (rs : List NetRule) (r : NetRule)
    → InIndex (index_of x rs) r
    → Within r rs ⊎ InIndex x r
unfolding index_of
index_from x [] r held = inr held
index_from x (s ∷ rs) r held = elim (index_from (add_rule x s) rs r held) [
  | inl w ↦ inl (Within.there w)
  | inr added ↦ elim (add_from x r s added) [
    | inl same ↦ inl (subst (λ u. Within u (s ∷ rs)) (sym same) Within.here)
    | inr before ↦ inr before
  ]
]

pub candidates-InIndex :
    (x : RuleIndex) (c : MatchCtx) (r : NetRule) → Within r (candidates x c) → InIndex x r
unfolding candidates
candidates-InIndex x c r w =
    elim (Within-append (rules_under (host_and_parents c.host) x.by_host) _ w) [
      | inl hosts ↦ inl (rules_under_from r _ x.by_host hosts)
      | inr others ↦ elim (Within-append (rules_under (tokens c) x.by_token) x.generic others) [
        | inl tokens_ ↦ inr (inr (rules_under_from r _ x.by_token tokens_))
        | inr generics ↦ inr (inl generics)
      ]
    ]
