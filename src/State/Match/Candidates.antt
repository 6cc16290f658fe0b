-- ===== src/State/Match/Candidates.antt =====
-- The candidates of the loop over address blocks, in its order, and what the loop keeps of them.
use gowebfilter.Base.{
  ℕ, zero, suc, ◌+◌, ◌≤◌, ◌≡◌, refl, sym, ap, ◌∙◌, subst, inl, inr, Bool, true, false, ◌&&◌, not,
  Option, none, some, List, [], ◌∷◌, ◌++◌, arith, if◌then◌else◌, Bool-cases, Option-cases,
  none≢some, some_injective, get_elem?, Bytes, Within, Within-append, Within-cons, append_left,
  append_right, no_member,
}
use gowebfilter.Models.Policy.{Policy}
use gowebfilter.Models.Schedule.{Time}
use gowebfilter.Net.{Net}
use gowebfilter.State.Match.{
  Narrow, Slots, block_loop, block_ones, block_round, block_sources, is_eligible, keep_narrower,
}
use gowebfilter.State.Match.Best.{
  Ordered, Ordered-append, group_on, group_parts, kept-Within, kept_Ordered, narrowest,
}
use gowebfilter.State.Match.First.{same_group}

abbrev add_if : ℕ → Option ℕ → Bytes → List Narrow → List Narrow
add_if i none src rest = rest
add_if i (some n) src rest = (i, n, src) ∷ rest

module _ (net : Net) (addr : net.Addr) (now : Time) where
  -- The candidates of one policy, and of the policies from an index on, for a slot.
  unfoldable pub of_sources : ℕ → List Bytes → List Narrow
  of_sources i [] = []
  of_sources i (src ∷ rest) = add_if i (block_ones net addr src) src (of_sources i rest)

  unfoldable pub of_policies : Bool → ℕ → List Policy → List Narrow
  of_policies g i [] = []
  of_policies g i (p ∷ ps) =
      (if is_eligible now p && same_group g p.schedule.enabled
        then of_sources i p.source_ips
        else [])
      ++ of_policies g (suc i) ps

  unfoldable pub slot : Bool → Slots Narrow → Option Narrow
  slot true s = s.scheduled
  slot false s = s.fallback

  narrowest-append :
      (s : Option Narrow) (xs ys : List Narrow)
      → narrowest s (xs ++ ys) ≡ narrowest (narrowest s xs) ys
  unfolding narrowest
  narrowest-append s [] ys = refl
  narrowest-append s (x ∷ xs) ys = narrowest-append (keep_narrower x s) xs ys

  block_sources_same :
      (g : Bool) (i : ℕ) (srcs : List Bytes) (s : Slots Narrow)
      → slot g (block_sources net addr i g srcs s) ≡ narrowest (slot g s) (of_sources i srcs)
  unfolding block_sources narrowest of_sources slot
  block_sources_same true i [] s = refl
  block_sources_same false i [] s = refl
  block_sources_same true i (src ∷ rest) s =
      ground (arith, block_sources_same true i rest (block_round net addr i true src s))
  block_sources_same false i (src ∷ rest) s =
      ground (arith, block_sources_same false i rest (block_round net addr i false src s))

  block_sources_alt :
      (g : Bool) (i : ℕ) (srcs : List Bytes) (s : Slots Narrow)
      → slot g (block_sources net addr i (not g) srcs s) ≡ slot g s
  unfolding block_sources slot
  block_sources_alt true i [] s = refl
  block_sources_alt false i [] s = refl
  block_sources_alt true i (src ∷ rest) s =
      ground (arith, block_sources_alt true i rest (block_round net addr i false src s))
  block_sources_alt false i (src ∷ rest) s =
      ground (arith, block_sources_alt false i rest (block_round net addr i true src s))

  one_group :
      (g e : Bool) (i : ℕ) (srcs : List Bytes) (s : Slots Narrow)
      → slot g (block_sources net addr i e srcs s)
        ≡ narrowest (slot g s) (if same_group g e then of_sources i srcs else [])
  unfolding narrowest
  one_group true true i srcs s = block_sources_same true i srcs s
  one_group true false i srcs s = block_sources_alt true i srcs s
  one_group false true i srcs s = block_sources_alt false i srcs s
  one_group false false i srcs s = block_sources_same false i srcs s

  one_policy :
      (g b e : Bool) (i : ℕ) (srcs : List Bytes) (s : Slots Narrow)
      → slot g (if b then block_sources net addr i e srcs s else s)
        ≡ narrowest (slot g s) (if b && same_group g e then of_sources i srcs else [])
  unfolding narrowest
  one_policy g true e i srcs s = one_group g e i srcs s
  one_policy g false e i srcs s = refl

  pub block_loop_lem :
      (g : Bool) (i : ℕ) (ps : List Policy) (s : Slots Narrow)
      → slot g (block_loop net addr now i ps s) ≡ narrowest (slot g s) (of_policies g i ps)
  unfolding block_loop narrowest of_policies
  block_loop_lem g i [] s = refl
  block_loop_lem g i (p ∷ ps) s =
      block_loop_lem g (suc i) ps (
        if is_eligible now p then block_sources net addr i p.schedule.enabled p.source_ips s else s)
      ∙ ap (λ t. narrowest t (of_policies g (suc i) ps))
          (one_policy g (is_eligible now p) p.schedule.enabled i p.source_ips s)
      ∙ sym (
          narrowest-append (slot g s)
            (if is_eligible now p && same_group g p.schedule.enabled
              then of_sources i p.source_ips
              else [])
            (of_policies g (suc i) ps))

  -- The entry of the policy at an index holds the address, with a prefix of this length.
  abbrev pub BlockCandidate : List Policy → ℕ → Policy → ℕ → Bytes → Type 0
  BlockCandidate ps j q n src =
      (get_elem? ps j ≡ some q)
      × (is_eligible now q ≡ true)
      × Within src q.source_ips
      × (block_ones net addr src ≡ some n)

  Within-sources :
      (i : ℕ) (srcs : List Bytes) (a : Narrow)
      → Within a (of_sources i srcs)
      → (a.0 ≡ i) × Within a.2 srcs × (block_ones net addr a.2 ≡ some a.1)
  unfolding of_sources
  Within-sources i [] a w = elim w [ ]
  Within-sources i (src ∷ rest) a w = elim (Option-cases (block_ones net addr src)) [
    | inl miss ↦ let (e, v, h) = Within-sources i rest a (rw miss at w) in (e, Within.there v, h)
    | inr (n, hit) ↦ elim (Within-cons (rw hit at w)) [
      | inl same ↦
          subst (λ t. (t.0 ≡ i) × Within t.2 (src ∷ rest) × (block_ones net addr t.2 ≡ some t.1))
            (sym same) (refl, Within.here, hit)
      | inr v ↦ let (e, u, h) = Within-sources i rest a v in (e, Within.there u, h)
    ]
  ]

  sources-Within :
      (i n : ℕ) {src : Bytes} {srcs : List Bytes}
      → Within src srcs
      → block_ones net addr src ≡ some n
      → Within (i, n, src) (of_sources i srcs)
  unfolding of_sources
  sources-Within i n {srcs = []} w h = elim w [ ]
  sources-Within i n {srcs = s ∷ srcs} Within.here h = rw h Within.here
  sources-Within i n {srcs = s ∷ srcs} (Within.there w) h =
      elim (Option-cases (block_ones net addr s)) [
        | inl miss ↦ rw miss (sources-Within i n w h)
        | inr (m, hit) ↦ rw hit (Within.there (sources-Within i n w h))
      ]

  pub Within-policies :
      (g : Bool) (i : ℕ) (ps : List Policy) (a : Narrow)
      → Within a (of_policies g i ps)
      → (j : ℕ) × (q : Policy) × (a.0 ≡ i + j)
        × BlockCandidate ps j q a.1 a.2
        × (q.schedule.enabled ≡ g)
  unfolding of_policies
  Within-policies g i [] a w = elim w [ ]
  Within-policies g i (p ∷ ps) a w = elim (Within-append _ (of_policies g (suc i) ps) w) [
    | inr v ↦
        let (j, q, e, c, en) = Within-policies g (suc i) ps a v in (suc j, q, omega arith, c, en)
    | inl v ↦ elim (Bool-cases (is_eligible now p && same_group g p.schedule.enabled)) [
      | inr idle ↦ absurd (no_member (rw idle at v))
      | inl on ↦
          let (e, u, h) = Within-sources i p.source_ips a (rw on at v) in
          let (ok, en) = group_parts (is_eligible now p) g p.schedule.enabled on in
          (0, p, omega arith, (refl, ok, u, h), en)
    ]
  ]

  pub policies-Within :
      (g : Bool) (i : ℕ) (ps : List Policy) (j : ℕ) (q : Policy) (n : ℕ) (src : Bytes)
      → BlockCandidate ps j q n src
      → q.schedule.enabled ≡ g
      → Within (i + j, n, src) (of_policies g i ps)
  unfolding of_policies
  policies-Within g i [] j q n src (e, _, _, _) en = absurd (none≢some e)
  policies-Within g i (p ∷ ps) zero q n src (e, ok, w, h) en =
      let same : p ≡ q = some_injective e in
      append_left (of_policies g (suc i) ps) (
        rw
          (group_on (is_eligible now p) g p.schedule.enabled
            (subst (λ t. is_eligible now t ≡ true) (sym same) ok)
            (subst (λ t. t.schedule.enabled ≡ g) (sym same) en))
          (subst (λ k. Within (k, n, src) (of_sources i p.source_ips)) (omega arith)
            (sources-Within i n (subst (λ t. Within src t.source_ips) (sym same) w) h)))
  policies-Within g i (p ∷ ps) (suc j) q n src (e, ok, w, h) en = append_right _ (
      subst (λ k. Within (k, n, src) (of_policies g (suc i) ps)) (omega arith)
        (policies-Within g (suc i) ps j q n src (e, ok, w, h) en))

  sources_index : (i : ℕ) (srcs : List Bytes) (a : Narrow) → Within a (of_sources i srcs) → a.0 ≡ i
  sources_index i srcs a w = (Within-sources i srcs a w).0

  policies_index :
      (g : Bool) (i : ℕ) (ps : List Policy) (a : Narrow) → Within a (of_policies g i ps) → i ≤ a.0
  policies_index g i ps a w = let (j, q, e, c, en) = Within-policies g i ps a w in omega arith

  Ordered-sources : (i : ℕ) (srcs : List Bytes) → Ordered (of_sources i srcs)
  unfolding of_sources
  Ordered-sources i [] = tt
  Ordered-sources i (src ∷ rest) = elim (Option-cases (block_ones net addr src)) [
    | inl miss ↦ rw miss (Ordered-sources i rest)
    | inr (n, hit) ↦ rw hit (λ a w. omega (arith, sources_index i rest a w), Ordered-sources i rest)
  ]

  pub Ordered-policies : (g : Bool) (i : ℕ) (ps : List Policy) → Ordered (of_policies g i ps)
  unfolding of_policies
  Ordered-policies g i [] = tt
  Ordered-policies g i (p ∷ ps) =
      Ordered-append i
        (if is_eligible now p && same_group g p.schedule.enabled
          then of_sources i p.source_ips
          else [])
        (of_policies g (suc i) ps)
        (kept_Ordered (is_eligible now p && same_group g p.schedule.enabled) _
          (Ordered-sources i p.source_ips))
        (λ a w.
          sources_index i p.source_ips a
            (kept-Within (is_eligible now p && same_group g p.schedule.enabled) _ w))
        (λ a w. omega (arith, policies_index g (suc i) ps a w)) (Ordered-policies g (suc i) ps)
