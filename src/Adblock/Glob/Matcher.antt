-- ===== src/Adblock/Glob/Matcher.antt =====
-- The matcher with one point of return decides what a pattern means.
use gowebfilter.Base.{
  ℕ, zero, suc, ◌≤◌, ◌<◌, ◌≡◌, refl, sym, ap, ◌∙◌, subst, inl, inr, Bool, true, false, ◌||◌, not,
  [], ◌∷◌, ◌++◌, append_assoc, arith, ◌==◌, if◌then◌else◌, Bool-cases, length, length-append, drop,
  Bytes,
}
use gowebfilter.Adblock.Glob.{byte_fits, glob_loop, glob_match, glob_rounds}
use gowebfilter.Adblock.Glob.Reference.{
  any_suffix, any_suffix-drop, glob_means, later, later-cons, later-means, means-nil, or_absorbs,
  star_means, stars, stars-append,
}

anchored_end : (e a b : Bool) → a ≡ b → (if e then a else true) ≡ (not e || false) || b
anchored_end true a b same = same
anchored_end false a b same = refl

star_absorbs :
    (e : Bool) (c : ℕ) (q1 p front t mark : Bytes)
    → (c == b'*') ≡ true
    → stars q1 ≡ 0
    → length front ≡ length q1
    → mark ≡ front ++ t
    → later (glob_means e (q1 ++ c ∷ p)) mark ≡ true
    → any_suffix (glob_means e p) t ≡ true
star_absorbs e c q1 p front t mark star none_ same at_mark h =
    let (j, m) =
      later-means e q1 (c ∷ p) front t none_ same
        (subst (λ (u : Bytes). later (glob_means e (q1 ++ c ∷ p)) u ≡ true) at_mark h) in
    any_suffix-drop (glob_means e p) (suc j) t (sym (star_means e c p (drop (suc j) t) star) ∙ m)

module _ (e : Bool) (enter : Bytes → Bytes → Bool) (bound : ℕ)
    (enters : (p s : Bytes) → stars p < bound → enter p s ≡ any_suffix (glob_means e p) s) where
  rounds_once : (q p s : Bytes) → stars p ≤ bound → glob_rounds enter e q [] p s ≡ glob_means e p s
  unfolding glob_rounds glob_means
  rounds_once q [] [] le = ground arith
  rounds_once q (c ∷ p) [] le = sym (means-nil e (c ∷ p))
  rounds_once q [] (d ∷ s) le = ground arith
  rounds_once q (c ∷ p) (d ∷ s) le = elim (Bool-cases (c == b'*')) [
    | inl star ↦ rw star (enters p (d ∷ s) (ground arith))
    | inr plain ↦ elim (Bool-cases (byte_fits c d)) [
      | inl fits ↦ rw (plain, fits) (rounds_once q p s (ground arith))
      | inr apart ↦ rw (plain, apart) refl
    ]
  ]

  -- The text at `mark` begins with as many bytes as the pattern `q` has before what is left of it.
  rounds_again :
      (q1 front mark p s : Bytes)
      → stars q1 ≡ 0
      → length front ≡ length q1
      → mark ≡ front ++ s
      → stars p ≤ bound
      → glob_rounds enter e (q1 ++ p) mark p s
        ≡ glob_means e p s || later (glob_means e (q1 ++ p)) mark
  unfolding glob_rounds glob_means later
  rounds_again q1 front mark [] [] none_ same at_mark le = ground arith
  rounds_again q1 front mark (c ∷ p) [] none_ same at_mark le =
      sym (means-nil e (c ∷ p))
      ∙ or_absorbs (glob_means e (c ∷ p) []) _ (λ h.
        let (j, m) =
          later-means e q1 (c ∷ p) front [] none_ same
            (subst (λ (t : Bytes). later (glob_means e (q1 ++ c ∷ p)) t ≡ true) at_mark h) in
        m)
  rounds_again q1 front [] p (d ∷ s) none_ same at_mark le =
      absurd (ground (arith, ap length at_mark, length-append front (d ∷ s)))
  rounds_again q1 front (x ∷ mark) [] (d ∷ s) none_ same at_mark le = anchored_end e _ _ (
      rounds_again [] [] mark (q1 ++ []) mark refl refl refl (ground (arith, stars-append q1 []))
      ∙ later-cons (glob_means e (q1 ++ [])) mark)
  rounds_again q1 front (x ∷ mark) (c ∷ p) (d ∷ s) none_ same at_mark le =
      elim (Bool-cases (c == b'*')) [
        | inl star ↦ rw star (
            enters p (d ∷ s) (ground (arith, star, le))
            ∙ or_absorbs (any_suffix (glob_means e p) (d ∷ s))
                (later (glob_means e (q1 ++ c ∷ p)) (x ∷ mark))
                (star_absorbs e c q1 p front (d ∷ s) (x ∷ mark) star none_ same at_mark))
        | inr plain ↦ elim (Bool-cases (byte_fits c d)) [
          | inl fits ↦
              rw (plain, fits)
                (subst
                  (λ (q : Bytes).
                    glob_rounds enter e q (x ∷ mark) p s
                    ≡ glob_means e p s || later (glob_means e q) (x ∷ mark))
                  (append_assoc q1 (c ∷ []) p)
                  (rounds_again (q1 ++ (c ∷ [])) (front ++ (d ∷ [])) (x ∷ mark) p s
                    (ground (arith, stars-append q1 (c ∷ [])))
                    (ground (arith, length-append front (d ∷ []), length-append q1 (c ∷ [])))
                    (at_mark ∙ sym (append_assoc front (d ∷ []) s)) (ground arith)))
          | inr apart ↦
              rw (plain, apart)
                (rounds_again [] [] mark (q1 ++ c ∷ p) mark refl refl refl
                    (ground (arith, stars-append q1 (c ∷ p)))
                  ∙ later-cons (glob_means e (q1 ++ c ∷ p)) mark)
        ]
      ]

stars_le : (p : Bytes) → stars p ≤ length p
stars_le [] = omega arith
stars_le (c ∷ p) = ground (arith, stars_le p)

loop_anywhere :
    (k : ℕ) (e : Bool) (q mark : Bytes)
    → stars q ≤ k
    → glob_loop k e q mark q mark ≡ any_suffix (glob_means e q) mark
unfolding glob_loop
loop_anywhere zero e q mark le =
    rounds_again e (λ p' s'. false) 0 (λ p' s' lt. absurd (omega arith)) [] [] mark q mark refl refl
      refl le
    ∙ later-cons (glob_means e q) mark
loop_anywhere (suc k) e q mark le =
    rounds_again e (λ p' s'. glob_loop k e p' s' p' s') (suc k)
      (λ p' s' lt. loop_anywhere k e p' s' (omega arith)) [] [] mark q mark refl refl refl le
    ∙ later-cons (glob_means e q) mark

loop_here :
    (k : ℕ) (e : Bool) (q p s : Bytes) → stars p ≤ k → glob_loop k e q [] p s ≡ glob_means e p s
unfolding glob_loop
loop_here zero e q p s le =
    rounds_once e (λ p' s'. false) 0 (λ p' s' lt. absurd (omega arith)) q p s le
loop_here (suc k) e q p s le =
    rounds_once e (λ p' s'. glob_loop k e p' s' p' s') (suc k)
      (λ p' s' lt. loop_anywhere k e p' s' (omega arith)) q p s le

-- For every pattern and text, globMatch with one point of return answers what the pattern means:
-- anchored, that the text begins with what it describes; otherwise that some end of the text does;
-- with the end anchor, up to the end of the text. Its fuel, the length of the pattern, is enough.
pub glob_match-glob_means :
    (p s : Bytes) (anchored anchor_end : Bool)
    → glob_match p s anchored anchor_end
      ≡ (if anchored then glob_means anchor_end p s else any_suffix (glob_means anchor_end p) s)
unfolding glob_match
glob_match-glob_means p s true e = loop_here (length p) e p p s (stars_le p)
glob_match-glob_means p s false e = loop_anywhere (length p) e p s (stars_le p)
