-- ===== src/State/Match/Narrowest.antt =====
-- The loop of policy_match.go over address blocks: which policy it leaves in each slot.
use gowebfilter.Base.{
  ℕ, ◌+◌, ◌≤◌, ◌≡◌, sym, ◌∙◌, subst, ◌≢◌, ◌⊎◌, inl, inr, Bool, true, false, none, some, List, [],
  arith, Option-cases, none≢some, Bytes, Within, no_member,
}
use gowebfilter.Models.Policy.{Policy}
use gowebfilter.Models.Schedule.{Time}
use gowebfilter.Net.{Net}
use gowebfilter.State.Match.{Narrow, block_loop, first_of_slots, no_slots}
use gowebfilter.State.Match.Best.{IsBest, narrowest_empty, narrowest_from_none}
use gowebfilter.State.Match.Candidates.{
  BlockCandidate, Ordered-policies, Within-policies, block_loop_lem, of_policies, policies-Within,
  slot,
}
use gowebfilter.State.Match.First.{not-true}

module _ (net : Net) (addr : net.Addr) (now : Time) where
  -- What the slot of a group holds after the loop.
  slot-IsBest :
      (g : Bool) (ps : List Policy) (r : Narrow)
      → slot net addr now g (block_loop net addr now 0 ps no_slots) ≡ some r
      → IsBest r (of_policies net addr now g 0 ps)
  unfolding slot
  slot-IsBest true ps r e =
      narrowest_from_none (of_policies net addr now true 0 ps)
        (Ordered-policies net addr now true 0 ps) r
        (sym (block_loop_lem net addr now true 0 ps no_slots) ∙ e)
  slot-IsBest false ps r e =
      narrowest_from_none (of_policies net addr now false 0 ps)
        (Ordered-policies net addr now false 0 ps) r
        (sym (block_loop_lem net addr now false 0 ps no_slots) ∙ e)

  slot-none :
      (g : Bool) (ps : List Policy)
      → slot net addr now g (block_loop net addr now 0 ps no_slots) ≡ none
      → of_policies net addr now g 0 ps ≡ []
  unfolding slot
  slot-none true ps e =
      narrowest_empty (of_policies net addr now true 0 ps) (Ordered-policies net addr now true 0 ps)
        (sym (block_loop_lem net addr now true 0 ps no_slots) ∙ e)
  slot-none false ps e =
      narrowest_empty (of_policies net addr now false 0 ps)
        (Ordered-policies net addr now false 0 ps)
        (sym (block_loop_lem net addr now false 0 ps no_slots) ∙ e)

  -- The choice among blocks: a policy with a schedule before one without, then the longest prefix,
  -- then the earlier policy.
  abbrev pub NarrowChoice : List Policy → ℕ → ℕ → Bytes → Type 0
  NarrowChoice ps i n src =
      (p : Policy) × BlockCandidate net addr now ps i p n src
      × ((j : ℕ) (q : Policy) (m : ℕ) (alt : Bytes)
          → BlockCandidate net addr now ps j q m alt
          → ((p.schedule.enabled ≡ true) ⊎ (q.schedule.enabled ≡ false))
            × (q.schedule.enabled ≡ p.schedule.enabled → (m ≤ n) × (m ≡ n → i ≤ j)))

  best_in_group :
      (g : Bool) (ps : List Policy) (i n : ℕ) (src : Bytes)
      → slot net addr now g (block_loop net addr now 0 ps no_slots) ≡ some (i, n, src)
      → (p : Policy) × BlockCandidate net addr now ps i p n src
        × (p.schedule.enabled ≡ g)
        × ((j : ℕ) (q : Policy) (m : ℕ) (alt : Bytes)
            → BlockCandidate net addr now ps j q m alt
            → q.schedule.enabled ≡ g
            → (m ≤ n) × (m ≡ n → i ≤ j))
  best_in_group g ps i n src e =
      let (w, top) = slot-IsBest g ps (i, n, src) e in
      let (j, p, ei, c, en) = Within-policies net addr now g 0 ps (i, n, src) w in
      let same : j ≡ i = omega arith in
      (
        p,
        subst (λ k. BlockCandidate net addr now ps k p n src) same c,
        en,
        λ k q m alt cq en_q.
            top (k, m, alt)
              (subst (λ x. Within (x, m, alt) (of_policies net addr now g 0 ps)) (omega arith)
                (policies-Within net addr now g 0 ps k q m alt cq en_q)),
      )

  none_in_group :
      (g : Bool) (ps : List Policy)
      → slot net addr now g (block_loop net addr now 0 ps no_slots) ≡ none
      → (j : ℕ) (q : Policy) (m : ℕ) (alt : Bytes) → BlockCandidate net addr now ps j q m alt
      → q.schedule.enabled ≢ g
  none_in_group g ps e j q m alt c en = no_member (
      subst (λ xs. Within (0 + j, m, alt) xs) (slot-none g ps e)
        (policies-Within net addr now g 0 ps j q m alt c en))

  pub block_loop-NarrowChoice :
      (ps : List Policy) (i n : ℕ) (src : Bytes)
      → first_of_slots (block_loop net addr now 0 ps no_slots) ≡ some (i, n, src)
      → NarrowChoice ps i n src
  unfolding slot
  block_loop-NarrowChoice ps i n src e =
      elim (Option-cases (block_loop net addr now 0 ps no_slots).scheduled) [
        | inr (a, on) ↦
            let (p, c, en, top) = best_in_group true ps i n src (on ∙ (rw on at e)) in
            (p, c, λ j q m alt cq. (inl en, λ same. top j q m alt cq (same ∙ en)))
        | inl idle ↦
            let (p, c, en, top) = best_in_group false ps i n src (rw idle at e) in
            (
              p,
              c,
              λ j q m alt cq. (
                inr (not-true _ (none_in_group true ps idle j q m alt cq)),
                λ same. top j q m alt cq (same ∙ en),
              ),
            )
      ]

  pub block_loop-none :
      (ps : List Policy)
      → first_of_slots (block_loop net addr now 0 ps no_slots) ≡ none
      → (j : ℕ) (q : Policy) (m : ℕ) (alt : Bytes) → ¬ BlockCandidate net addr now ps j q m alt
  unfolding slot
  block_loop-none ps e j q m alt c =
      elim (Option-cases (block_loop net addr now 0 ps no_slots).scheduled) [
        | inr (a, on) ↦ none≢some (sym (rw on at e))
        | inl idle ↦
            none_in_group false ps (rw idle at e) j q m alt c
              (not-true _ (none_in_group true ps idle j q m alt c))
      ]
