-- ===== src/Adblock/Index/Under.antt =====
-- The rules under a key of a map, once a rule has been added.
use gowebfilter.Base.{
  ◌≡◌, ◌⊎◌, inl, inr, List, [], ◌∷◌, ◌++◌, Bool-cases, Bytes, bytes_eq, bytes_eq_refl, Within,
  Within-append, Within-cons, append_left, append_right, no_member,
}
use gowebfilter.Adblock.Glob.Reference.{later}
use gowebfilter.Adblock.Index.{rules_under}
use gowebfilter.Adblock.Rules.{NetRule, add_under, listed_under, look_up}
use gowebfilter.Categories.Hash.{at}

pub under_new {ℓ} :
    {A : Type ℓ} (k : Bytes) (a : A) (m : List (Bytes × List A))
    → Within a (listed_under k (add_under k a m))
unfolding look_up add_under
under_new k a [] = rw (bytes_eq_refl k) Within.here
under_new k a ((j, held) ∷ m) = elim (Bool-cases (bytes_eq j k)) [
  | inl same ↦ rw (same, same) (append_right held Within.here)
  | inr differ ↦ rw (differ, differ) (under_new k a m)
]

pub under_kept {ℓ} :
    {A : Type ℓ} (k i : Bytes) (a b : A) (m : List (Bytes × List A))
    → Within a (listed_under k m)
    → Within a (listed_under k (add_under i b m))
unfolding look_up add_under
under_kept k i a b [] w = absurd (no_member w)
under_kept k i a b ((j, held) ∷ m) w = elim (Bool-cases (bytes_eq j i)) [
  | inl same ↦ elim (Bool-cases (bytes_eq j k)) [
    | inl here ↦ rw (same, here) (append_left (b ∷ []) (rw here at w))
    | inr later ↦ rw (same, later) (rw later at w)
  ]
  | inr differ ↦ elim (Bool-cases (bytes_eq j k)) [
    | inl here ↦ rw (differ, here) (rw here at w)
    | inr later ↦ rw (differ, later) (under_kept k i a b m (rw later at w))
  ]
]

last_or_before {ℓ} :
    {A : Type ℓ} (a b : A) (xs : List A) → Within a (xs ++ (b ∷ [])) → (a ≡ b) ⊎ Within a xs
last_or_before a b xs w = elim (Within-append xs (b ∷ []) w) [
  | inl before ↦ inr before
  | inr last ↦ elim (Within-cons last) [
    | inl same ↦ inl same
    | inr none_ ↦ absurd (no_member none_)
  ]
]

pub under_from {ℓ} :
    {A : Type ℓ} (k i : Bytes) (a b : A) (m : List (Bytes × List A))
    → Within a (listed_under k (add_under i b m))
    → (a ≡ b) ⊎ Within a (listed_under k m)
unfolding look_up add_under
under_from k i a b [] w = elim (Bool-cases (bytes_eq i k)) [
  | inl same ↦ last_or_before a b [] (rw same at w)
  | inr differ ↦ absurd (no_member (rw differ at w))
]
under_from k i a b ((j, held) ∷ m) w = elim (Bool-cases (bytes_eq j i)) [
  | inl same ↦ elim (Bool-cases (bytes_eq j k)) [
    | inl here ↦ rw here (last_or_before a b held (rw (same, here) at w))
    | inr later ↦ rw later (inr (rw (same, later) at w))
  ]
  | inr differ ↦ elim (Bool-cases (bytes_eq j k)) [
    | inl here ↦ rw here (inr (rw (differ, here) at w))
    | inr later ↦ rw later (under_from k i a b m (rw (differ, later) at w))
  ]
]

pub rules_under_in :
    (r : NetRule) (k : Bytes) (ks : List Bytes) (m : List (Bytes × List NetRule))
    → Within k ks
    → Within r (listed_under k m)
    → Within r (rules_under ks m)
unfolding rules_under
rules_under_in r k ks m Within.here w = append_left _ w
rules_under_in r k ks m (Within.there {y = j} at) w =
    append_right (listed_under j m) (rules_under_in r k _ m at w)

pub rules_under_from :
    (r : NetRule) (ks : List Bytes) (m : List (Bytes × List NetRule))
    → Within r (rules_under ks m)
    → (k : Bytes) × Within r (listed_under k m)
unfolding rules_under
rules_under_from r [] m w = absurd (no_member w)
rules_under_from r (k ∷ ks) m w = elim (Within-append (listed_under k m) (rules_under ks m) w) [
  | inl found ↦ (k, found)
  | inr later ↦ rules_under_from r ks m later
]
