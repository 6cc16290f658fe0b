-- ===== src/State/Match/Best.antt =====
-- A fold that keeps the longest prefix, and the first of equal length.
use gowebfilter.Base.{
  ℕ, ◌≤◌, ◌<◌, ◌≡◌, refl, sym, ◌∙◌, subst, inl, inr, Bool, true, false, ◌&&◌, Option, none, some,
  List, [], ◌∷◌, ◌++◌, arith, ltb, if◌then◌else◌, ltb→lt, Bool-cases, none≢some, some_injective,
  Within, Within-append,
}
use gowebfilter.State.Match.{Narrow, keep_narrower}
use gowebfilter.State.Match.First.{same_group}

-- A fold of `keep_narrower` over a list of candidates, in order.
unfoldable pub narrowest : Option Narrow → List Narrow → Option Narrow
narrowest s [] = s
narrowest s (a ∷ xs) = narrowest (keep_narrower a s) xs

-- Longest prefix of all, and the least index among those.
abbrev pub IsBest : Narrow → List Narrow → Type 0
IsBest b xs = Within b xs × ((a : Narrow) → Within a xs → (a.1 ≤ b.1) × (a.1 ≡ b.1 → b.0 ≤ a.0))

abbrev pub Ordered : List Narrow → Type 0
Ordered [] = Unit
Ordered (x ∷ xs) = ((a : Narrow) → Within a xs → x.0 ≤ a.0) × Ordered xs

narrowest-IsBest :
    (b : Narrow) (xs : List Narrow)
    → Ordered (b ∷ xs)
    → (r : Narrow) × (narrowest (some b) xs ≡ some r) × IsBest r (b ∷ xs)
unfolding narrowest keep_narrower
narrowest-IsBest b [] o = (b, refl, (Within.here, only))
  where
    only : (a : Narrow) → Within a (b ∷ []) → (a.1 ≤ b.1) × (a.1 ≡ b.1 → b.0 ≤ a.0)
    only a Within.here = (omega arith, λ _. omega arith)
    only a (Within.there w) = elim w [ ]
narrowest-IsBest b (x ∷ xs) (o, o') = elim (Bool-cases (ltb b.1 x.1)) [
  | inl lt ↦
      let (r, e, (w, top)) = narrowest-IsBest x xs o' in
      (r, rw lt e, (Within.there w, with_b r (top x Within.here).0 top (ltb→lt b.1 x.1 lt)))
  | inr ge ↦
      let (r, e, (w, top)) = narrowest-IsBest b xs (λ a v. o a (Within.there v), o'.1) in
      (r, rw ge e, (past r w, with_x r top (ground arith)))
]
  where
    past : (r : Narrow) → Within r (b ∷ xs) → Within r (b ∷ x ∷ xs)
    past r Within.here = Within.here
    past r (Within.there w) = Within.there (Within.there w)

    with_b :
        (r : Narrow)
        → x.1 ≤ r.1
        → ((a : Narrow) → Within a (x ∷ xs) → (a.1 ≤ r.1) × (a.1 ≡ r.1 → r.0 ≤ a.0))
        → b.1 < x.1
        → (a : Narrow) → Within a (b ∷ x ∷ xs)
        → (a.1 ≤ r.1) × (a.1 ≡ r.1 → r.0 ≤ a.0)
    with_b r le top lt a Within.here = (omega arith, λ e. absurd (omega arith))
    with_b r le top lt a (Within.there w) = top a w

    with_x :
        (r : Narrow)
        → ((a : Narrow) → Within a (b ∷ xs) → (a.1 ≤ r.1) × (a.1 ≡ r.1 → r.0 ≤ a.0))
        → x.1 ≤ b.1
        → (a : Narrow) → Within a (b ∷ x ∷ xs)
        → (a.1 ≤ r.1) × (a.1 ≡ r.1 → r.0 ≤ a.0)
    with_x r top le a Within.here = top a Within.here
    with_x r top le a (Within.there Within.here) =
        let t = top b Within.here in
        let first = o x Within.here in
        (omega (arith, t.0), λ e. let q : r.0 ≤ b.0 = t.1 (omega arith) in omega (arith, first))
    with_x r top le a (Within.there (Within.there w)) = top a (Within.there w)

pub Ordered-append :
    (i : ℕ) (xs ys : List Narrow)
    → Ordered xs
    → ((a : Narrow) → Within a xs → a.0 ≡ i)
    → ((a : Narrow) → Within a ys → i ≤ a.0)
    → Ordered ys
    → Ordered (xs ++ ys)
Ordered-append i [] ys o same later o' = o'
Ordered-append i (x ∷ xs) ys (first, o) same later o' = (
  λ a w. elim (Within-append xs ys w) [
    | inl v ↦ first a v
    | inr v ↦ omega (arith, same x Within.here, later a v)
  ],
  Ordered-append i xs ys o (λ a w. same a (Within.there w)) later o',
)

pub kept_Ordered : (b : Bool) (xs : List Narrow) → Ordered xs → Ordered (if b then xs else [])
kept_Ordered true xs o = o
kept_Ordered false xs o = tt

pub kept-Within :
    (b : Bool) (xs : List Narrow) {a : Narrow} → Within a (if b then xs else []) → Within a xs
kept-Within true xs w = w
kept-Within false xs w = elim w [ ]

pub narrowest_from_none :
    (xs : List Narrow) → Ordered xs → (r : Narrow) → narrowest none xs ≡ some r → IsBest r xs
unfolding narrowest keep_narrower
narrowest_from_none [] o r e = absurd (none≢some e)
narrowest_from_none (x ∷ xs) o r e =
    let (b, f, best) = narrowest-IsBest x xs o in
    subst (λ t. IsBest t (x ∷ xs)) (some_injective (sym f ∙ e)) best

pub narrowest_empty : (xs : List Narrow) → Ordered xs → narrowest none xs ≡ none → xs ≡ []
unfolding narrowest keep_narrower
narrowest_empty [] o e = refl
narrowest_empty (x ∷ xs) o e =
    let (b, f, best) = narrowest-IsBest x xs o in absurd (none≢some (sym e ∙ f))

pub group_parts : (b g e : Bool) → b && same_group g e ≡ true → (b ≡ true) × (e ≡ g)
group_parts b true e h = ground arith
group_parts b false e h = ground arith

pub group_on : (b g e : Bool) → b ≡ true → e ≡ g → b && same_group g e ≡ true
group_on b true e h k = ground arith
group_on b false e h k = ground arith
