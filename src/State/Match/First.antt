-- ===== src/State/Match/First.antt =====
-- The loops of policy_match.go that keep the first match: what they leave in the two slots.
use gowebfilter.Base.{
  ℕ, zero, suc, ◌+◌, ◌≤◌, ◌≡◌, refl, sym, ◌∙◌, subst, ◌≢◌, ◌⊎◌, inl, inr, Bool, true, false, ◌&&◌,
  not, Option, none, some, List, [], ◌∷◌, arith, if◌then◌else◌, Option-cases, none≢some, get_elem?,
  Bytes,
}
use gowebfilter.Models.Policy.{Policy}
use gowebfilter.Models.Schedule.{Time}
use gowebfilter.State.Match.{
  Slots, first_loop, first_of_slots, first_round, is_eligible, no_slots, or_first,
}

-- The first policy with a value, and its index.
find : {T A : Type 0} → (T → Option A) → ℕ → List T → Option (ℕ × A)
find h i [] = none
find h i (p ∷ ps) =
    let later = find h (suc i) ps in elim (h p) [ some a ↦ some (i, a) | none ↦ later ]

-- The policies that a slot may take: eligible, with a schedule or without, and matching.
abbrev pub same_group : Bool → Bool → Bool
same_group true b = b
same_group false b = not b

module _ (hit : Policy → Option Bytes) (now : Time) where
  abbrev group_hit : Bool → Policy → Option Bytes
  group_hit g p = if is_eligible now p && same_group g p.schedule.enabled then hit p else none

  scheduled_lem :
      (i : ℕ) (ps : List Policy) (s : Slots (ℕ × Bytes))
      → (first_loop hit now i ps s).scheduled ≡ or_first s.scheduled (find (group_hit true) i ps)
  unfolding first_loop find
  scheduled_lem i [] s = ground arith
  scheduled_lem i (p ∷ ps) s = ground (arith, scheduled_lem (suc i) ps (first_round hit now i p s))

  fallback_lem :
      (i : ℕ) (ps : List Policy) (s : Slots (ℕ × Bytes))
      → (first_loop hit now i ps s).fallback ≡ or_first s.fallback (find (group_hit false) i ps)
  unfolding first_loop find
  fallback_lem i [] s = ground arith
  fallback_lem i (p ∷ ps) s = ground (arith, fallback_lem (suc i) ps (first_round hit now i p s))

module _ {T : Type 0} (h : T → Option Bytes) where
  find-some :
      (i : ℕ) (ps : List T) (k : ℕ) (src : Bytes)
      → find h i ps ≡ some (k, src)
      → (j : ℕ) × (p : T) × (k ≡ i + j) × (get_elem? ps j ≡ some p) × (h p ≡ some src)
  unfolding find
  find-some i [] k src e = absurd (none≢some e)
  find-some i (p ∷ ps) k src e = elim (Option-cases (h p)) [
    | inr (a, hp) ↦ (0, p, ground arith, refl, ground arith)
    | inl miss ↦
        let (j, q, ek, eq, hq) = find-some (suc i) ps k src (ground arith) in
        (suc j, q, omega arith, eq, hq)
  ]

  find_first :
      (i : ℕ) (ps : List T) (k : ℕ) (src : Bytes)
      → find h i ps ≡ some (k, src)
      → (m : ℕ) (q : T) → get_elem? ps m ≡ some q
      → h q ≢ none
      → k ≤ i + m
  unfolding find
  find_first i [] k src e m q eq hq = absurd (none≢some eq)
  find_first i (p ∷ ps) k src e zero q eq hq = ground arith
  find_first i (p ∷ ps) k src e (suc m) q eq hq = elim (Option-cases (h p)) [
    | inr (a, hp) ↦ ground arith
    | inl miss ↦
        let rest : k ≤ suc i + m = find_first (suc i) ps k src (ground arith) m q eq hq in
        omega arith
  ]

  find-none :
      (i : ℕ) (ps : List T)
      → find h i ps ≡ none
      → (m : ℕ) (q : T) → get_elem? ps m ≡ some q
      → h q ≡ none
  unfolding find
  find-none i [] e m q eq = absurd (none≢some eq)
  find-none i (p ∷ ps) e zero q eq = ground arith
  find-none i (p ∷ ps) e (suc m) q eq = find-none (suc i) ps (ground arith) m q eq

pub not-true : (b : Bool) → b ≢ true → b ≡ false
not-true true h = absurd (h refl)
not-true false h = refl

module _ (hit : Policy → Option Bytes) (now : Time) (ps : List Policy) where
  -- The policy at an index may be chosen by the tier, for an entry that matches.
  abbrev pub Candidate : ℕ → Policy → Bytes → Type 0
  Candidate j q src = (get_elem? ps j ≡ some q) × (is_eligible now q ≡ true) × (hit q ≡ some src)

  -- The choice of a tier: a candidate with a schedule before one without, and the earlier before
  -- the later.
  abbrev pub FirstChoice : ℕ → Bytes → Type 0
  FirstChoice i src =
      (p : Policy) × Candidate i p src
      × ((j : ℕ) (q : Policy) (alt : Bytes)
          → Candidate j q alt
          → ((p.schedule.enabled ≡ true) ⊎ (q.schedule.enabled ≡ false))
            × (q.schedule.enabled ≡ p.schedule.enabled → i ≤ j))

  chosen_lem :
      first_of_slots (first_loop hit now 0 ps no_slots)
      ≡ or_first (find (group_hit hit now true) 0 ps) (find (group_hit hit now false) 0 ps)
  chosen_lem = rw (scheduled_lem hit now 0 ps no_slots, fallback_lem hit now 0 ps no_slots) refl

  group_hit-some :
      (g : Bool) (p : Policy) (src : Bytes)
      → group_hit hit now g p ≡ some src
      → (is_eligible now p ≡ true) × (p.schedule.enabled ≡ g) × (hit p ≡ some src)
  group_hit-some true p src e = ground arith
  group_hit-some false p src e = ground arith

  in_group :
      (g : Bool) (j : ℕ) (q : Policy) (src : Bytes)
      → Candidate j q src
      → q.schedule.enabled ≡ g
      → group_hit hit now g q ≡ some src
  in_group true j q src (a, b, c) e = simp (b, e) c
  in_group false j q src (a, b, c) e = simp (b, e) c

  -- Whatever the slot finds is a candidate of its group, before any other of the group.
  found_in_group :
      (g : Bool) (i : ℕ) (src : Bytes)
      → find (group_hit hit now g) 0 ps ≡ some (i, src)
      → (p : Policy) × Candidate i p src
        × (p.schedule.enabled ≡ g)
        × ((j : ℕ) (q : Policy) (alt : Bytes) → Candidate j q alt → q.schedule.enabled ≡ g → i ≤ j)
  found_in_group g i src e =
      let (j, p, ek, eq, hp) = find-some (group_hit hit now g) 0 ps i src e in
      let (ok, en, ht) = group_hit-some g p src hp in
      let same : j ≡ i = omega arith in
      (
        p,
        (subst (λ k. get_elem? ps k ≡ some p) same eq, ok, ht),
        en,
        λ m q alt c en_q.
            let hq = in_group g m q alt c en_q in
            let least : i ≤ 0 + m =
              find_first (group_hit hit now g) 0 ps i src e m q c.0
                (λ miss. none≢some (sym miss ∙ hq)) in
            omega arith,
      )

  none_in_group :
      (g : Bool)
      → find (group_hit hit now g) 0 ps ≡ none
      → (j : ℕ) (q : Policy) (alt : Bytes) → Candidate j q alt
      → q.schedule.enabled ≢ g
  none_in_group g e j q alt c en =
      none≢some (sym (find-none (group_hit hit now g) 0 ps e j q c.0) ∙ in_group g j q alt c en)

  pub first_loop-FirstChoice :
      (i : ℕ) (src : Bytes)
      → first_of_slots (first_loop hit now 0 ps no_slots) ≡ some (i, src)
      → FirstChoice i src
  first_loop-FirstChoice i src e =
      let r = sym chosen_lem ∙ e in
      elim (Option-cases (find (group_hit hit now true) 0 ps)) [
        | inr ((k, s), on) ↦
            let (p, c, en, least) = found_in_group true i src (on ∙ (rw on at r)) in
            (p, c, λ j q alt cq. (inl en, λ same. least j q alt cq (same ∙ en)))
        | inl idle ↦
            let (p, c, en, least) = found_in_group false i src (rw idle at r) in
            (
              p,
              c,
              λ j q alt cq. (
                inr (not-true _ (none_in_group true idle j q alt cq)),
                λ same. least j q alt cq (same ∙ en),
              ),
            )
      ]

  pub first_loop-none :
      first_of_slots (first_loop hit now 0 ps no_slots) ≡ none
      → (j : ℕ) (q : Policy) (alt : Bytes) → ¬ Candidate j q alt
  first_loop-none e j q alt c =
      let r = sym chosen_lem ∙ e in
      elim (Option-cases (find (group_hit hit now true) 0 ps)) [
        | inr (a, on) ↦ none≢some (sym (rw on at r))
        | inl idle ↦
            none_in_group false (rw idle at r) j q alt c
              (not-true _ (none_in_group true idle j q alt c))
      ]
