-- ===== src/Adblock/Index/Lowered.antt =====
-- A pattern that matches a text matches it in lower case.
use gowebfilter.Base.{
  ℕ, zero, suc, ◌≡◌, refl, sym, ap, ◌∙◌, subst, inl, inr, Bool, true, ◌||◌, [], ◌∷◌, arith, ◌==◌,
  ==_iff, Bool-cases, drop, Bytes, to_lower, lower_byte, both,
}
use gowebfilter.Adblock.Glob.{byte_fits, is_separator}
use gowebfilter.Adblock.Glob.Reference.{
  any_suffix, any_suffix-place, any_suffix_at, glob_means, means_plain, means_wild, plain_means,
  star_means,
}

lower_caret : (c : ℕ) → (lower_byte c == b'^') ≡ (c == b'^')
unfolding lower_byte
lower_caret c = ground arith

lower_separator : (d : ℕ) → is_separator (lower_byte d) ≡ is_separator d
unfolding lower_byte is_separator
lower_separator d = ground arith

same_byte : (c d : ℕ) → (c == d) ≡ true → (lower_byte c == lower_byte d) ≡ true
same_byte c d same = (==_iff (lower_byte c) (lower_byte d)).1 (ap lower_byte ((==_iff c d).0 same))

lower_fits : (c d : ℕ) → byte_fits c d ≡ true → byte_fits (lower_byte c) (lower_byte d) ≡ true
lower_fits c d fits = elim (Bool-cases (c == b'^')) [
  | inl caret ↦ rw (lower_caret c, lower_separator d, caret) (rw caret at fits)
  | inr literal ↦ rw (lower_caret c, literal) (same_byte c d (rw literal at fits))
]

lower_star : (c : ℕ) → (lower_byte c == b'*') ≡ (c == b'*')
unfolding lower_byte
lower_star c = ground arith

lower_wild : (c : ℕ) → (lower_byte c == b'*' || lower_byte c == b'^') ≡ (c == b'*' || c == b'^')
unfolding lower_byte
lower_wild c = ground arith

pub drop-to_lower : (n : ℕ) (s : Bytes) → drop n (to_lower s) ≡ to_lower (drop n s)
unfolding to_lower
drop-to_lower zero s = refl
drop-to_lower (suc n) [] = refl
drop-to_lower (suc n) (c ∷ s) = drop-to_lower n s

any_suffix-to_lower :
    (f g : Bytes → Bool)
    → ((t : Bytes) → f t ≡ true → g (to_lower t) ≡ true)
    → (s : Bytes) → any_suffix f s ≡ true
    → any_suffix g (to_lower s) ≡ true
unfolding any_suffix
any_suffix-to_lower f g keeps s h =
    let (j, m) = any_suffix-place f s h in
    any_suffix_at g j (to_lower s)
      (subst (λ (u : Bytes). g u ≡ true) (sym (drop-to_lower j s)) (keeps (drop j s) m))

pub means-to_lower :
    (e : Bool) (p s : Bytes)
    → glob_means e p s ≡ true
    → glob_means e (to_lower p) (to_lower s) ≡ true
unfolding glob_means to_lower
means-to_lower e [] [] h = h
means-to_lower e [] (d ∷ s) h = h
means-to_lower e (c ∷ p) [] h =
    let (wild, rest) = both (c == b'*' || c == b'^') (glob_means e p []) h in
    means_wild e (lower_byte c) (to_lower p) (lower_wild c ∙ wild) (means-to_lower e p [] rest)
means-to_lower e (c ∷ p) (d ∷ s) h = elim (Bool-cases (c == b'*')) [
  | inl star ↦
      star_means e (lower_byte c) (to_lower p) (to_lower (d ∷ s)) (lower_star c ∙ star)
      ∙ any_suffix-to_lower (glob_means e p) (glob_means e (to_lower p)) (λ t. means-to_lower e p t)
          (d ∷ s) (sym (star_means e c p (d ∷ s) star) ∙ h)
  | inr literal ↦
      let (fits, rest) = plain_means e c d p s literal h in
      means_plain e (lower_byte c) (lower_byte d) (to_lower p) (to_lower s) (lower_star c ∙ literal)
        (lower_fits c d fits) (means-to_lower e p s rest)
]
