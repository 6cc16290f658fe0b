-- ===== src/Adblock/Index/Aligned.antt =====
-- Where a pattern matches, a token of it that no `*` touches stands in the text as a whole token.
use gowebfilter.Base.{
  ℕ, ◌≡◌, refl, sym, ap, ap₂, ◌∙◌, subst, ◌⊎◌, inl, inr, Bool, true, false, ◌||◌, Option, none,
  some, [], ◌∷◌, ◌++◌, append_assoc, arith, ◌==◌, Bool-cases, false≢true, or_else, length,
  length-append, take, drop, take-append-drop, Bytes, is_some, both, not-true, is_empty,
}
use gowebfilter.Adblock.Context.{is_token_byte}
use gowebfilter.Adblock.Glob.{byte_fits, is_separator}
use gowebfilter.Adblock.Glob.Reference.{
  any_suffix-place, glob_means, nil_rest, plain_means, star_means,
}
use gowebfilter.Adblock.Index.Runs.{all_tokens, head_of, is_clear, last_of, last_of-append}

abbrev pub is_star : Option ℕ → Bool
is_star none = false
is_star (some b) = b == b'*'

-- What the text has before the token, by what the pattern has.
abbrev pub Bounded : Bytes → Bytes → Type 0
Bounded front a =
    ((front ≡ []) × (a ≡ [])) ⊎ ((b : ℕ) × (last_of a ≡ some b) × (is_token_byte b ≡ false))

carry_plain : {c d : ℕ} → c ≡ d → is_token_byte c ≡ false → is_token_byte d ≡ false
carry_plain same plain = subst (λ b. is_token_byte b ≡ false) same plain

-- A byte that is no token byte, nor a `*`, takes a byte that is no token byte.
clear_fits : (c d : ℕ) → is_token_byte c ≡ false → byte_fits c d ≡ true → is_token_byte d ≡ false
unfolding is_token_byte is_separator
clear_fits c d plain fits = elim (Bool-cases (c == b'^')) [
  | inl caret ↦ elim (Bool-cases (is_token_byte d)) [
    | inl token ↦ absurd (ground (arith, caret, fits, token))
    | inr clear ↦ clear
  ]
  | inr same ↦ carry_plain {c = c} {d = d} (ground (arith, same, fits)) plain
]

token_no_star : (c : ℕ) → is_token_byte c ≡ true → (c == b'*') ≡ false
unfolding is_token_byte
token_no_star c token = ground (arith, token)

token_no_caret : (c : ℕ) → is_token_byte c ≡ true → (c == b'^') ≡ false
unfolding is_token_byte
token_no_caret c token = ground (arith, token)

-- A token byte takes itself.
token_fits : (c d : ℕ) → is_token_byte c ≡ true → byte_fits c d ≡ true → c ≡ d
unfolding is_token_byte
token_fits c d token fits = ground (arith, token_no_caret c token, fits)

pub after_token :
    (e : Bool) (back s : Bytes)
    → is_clear (head_of back) ≡ true
    → is_star (head_of back) ≡ false
    → is_some (head_of back) || e ≡ true
    → glob_means e back s ≡ true
    → is_clear (head_of s) ≡ true
unfolding glob_means
after_token e back [] clear plain anchored h = refl
after_token e [] (d ∷ s) clear plain anchored h = absurd (ground (arith, anchored, h))
after_token e (c ∷ back) (d ∷ s) clear plain anchored h =
    let (fits, rest) = plain_means e c d back s plain h in
    rw (clear_fits c d (not-true (is_token_byte c) clear) fits) refl

pub token_taken :
    (e : Bool) (tok back s : Bytes)
    → all_tokens tok ≡ true
    → glob_means e (tok ++ back) s ≡ true
    → (b : Bytes) × (s ≡ tok ++ b) × (glob_means e back b ≡ true)
unfolding glob_means all_tokens
token_taken e [] back s tokens_ h = (s, refl, h)
token_taken e (c ∷ tok) back [] tokens_ h =
    let (token, others) = both (is_token_byte c) (all_tokens tok) tokens_ in
    absurd (ground (arith, token_no_star c token, token_no_caret c token, h))
token_taken e (c ∷ tok) back (d ∷ s) tokens_ h =
    let (token, others) = both (is_token_byte c) (all_tokens tok) tokens_ in
    let (fits, rest) = plain_means e c d (tok ++ back) s (token_no_star c token) h in
    let (b, same, m) = token_taken e tok back s others rest in
    (b, ap₂ (λ (x : ℕ) (u : Bytes). x ∷ u) (sym (token_fits c d token fits)) same, m)

-- `Bounded` behind one more byte on each side.
step-Bounded :
    (c d : ℕ) (front a : Bytes)
    → is_clear (last_of (c ∷ front)) ≡ true
    → (is_token_byte c ≡ false → is_token_byte d ≡ false)
    → Bounded front a
    → (b : ℕ) × (last_of (d ∷ a) ≡ some b) × (is_token_byte b ≡ false)
unfolding last_of
step-Bounded c d front a clear fits (inl (none_, empty)) = (
  d,
  ap (λ (u : Bytes). last_of (d ∷ u)) empty,
  fits (
      not-true (is_token_byte c)
        (subst (λ (u : Bytes). is_clear (last_of (c ∷ u)) ≡ true) none_ clear)),
)
step-Bounded c d front a clear fits (inr (b, ends, plain)) = (b, rw ends refl, plain)

behind_clear : (c : ℕ) (o : Option ℕ) → is_clear (some (or_else o c)) ≡ true → is_clear o ≡ true
behind_clear c none h = refl
behind_clear c (some b) h = h

behind_plain : (c : ℕ) (o : Option ℕ) → is_star (some (or_else o c)) ≡ false → is_star o ≡ false
behind_plain c none h = refl
behind_plain c (some b) h = h

nil_has_none : (a tok b : Bytes) → is_empty tok ≡ false → ◌≡◌ {A = Bytes} [] (a ++ (tok ++ b)) → ⊥
nil_has_none a [] b filled same = false≢true (sym filled)
nil_has_none a (c ∷ tok) b filled same =
    ground (arith, ap length same, length-append a (c ∷ (tok ++ b)))

starred-Bounded :
    (c : ℕ) (front x a : Bytes)
    → (c == b'*') ≡ true
    → is_star (last_of (c ∷ front)) ≡ false
    → Bounded front a
    → Bounded (c ∷ front) (x ++ a)
unfolding last_of
starred-Bounded c front x a star plain (inl (none_, empty)) =
    absurd (
      false≢true
        (sym (subst (λ (u : Bytes). is_star (last_of (c ∷ u)) ≡ false) none_ plain) ∙ star))
starred-Bounded c front x a star plain (inr (b, ends, clear)) =
    inr (b, last_of-append x a b ends, clear)

-- The front of the pattern takes the front of the text.
pub front_taken :
    (e : Bool) (front tok back s : Bytes)
    → is_empty tok ≡ false
    → all_tokens tok ≡ true
    → is_clear (last_of front) ≡ true
    → is_star (last_of front) ≡ false
    → glob_means e (front ++ (tok ++ back)) s ≡ true
    → (a b : Bytes) × (s ≡ a ++ (tok ++ b)) × (glob_means e back b ≡ true) × Bounded front a
unfolding last_of
front_taken e [] tok back s filled in_run clear plain h =
    let (b, same, m) = token_taken e tok back s in_run h in ([], b, same, m, inl (refl, refl))
front_taken e (c ∷ front) tok back [] filled in_run clear plain h =
    let rest =
      front_taken e front tok back [] filled in_run (behind_clear c (last_of front) clear)
        (behind_plain c (last_of front) plain) (nil_rest e c (front ++ (tok ++ back)) h) in
    absurd (nil_has_none rest.0 tok rest.1 filled rest.2)
front_taken e (c ∷ front) tok back (d ∷ s) filled in_run clear plain h =
    elim (Bool-cases (c == b'*')) [
      | inl star ↦
          let (j, m0) =
            any_suffix-place (glob_means e (front ++ (tok ++ back))) (d ∷ s)
              (sym (star_means e c (front ++ (tok ++ back)) (d ∷ s) star) ∙ h) in
          let (a, b, same, m, bounded) =
            front_taken e front tok back (drop j (d ∷ s)) filled in_run
              (behind_clear c (last_of front) clear) (behind_plain c (last_of front) plain) m0 in
          (
            take j (d ∷ s) ++ a,
            b,
            sym (take-append-drop j (d ∷ s))
                ∙ ap (λ (u : Bytes). take j (d ∷ s) ++ u) same
                ∙ sym (append_assoc (take j (d ∷ s)) a (tok ++ b)),
            m,
            starred-Bounded c front (take j (d ∷ s)) a star plain bounded,
          )
      | inr literal ↦
          let (fits, rest) = plain_means e c d (front ++ (tok ++ back)) s literal h in
          let (a, b, same, m, bounded) =
            front_taken e front tok back s filled in_run (behind_clear c (last_of front) clear)
              (behind_plain c (last_of front) plain) rest in
          (
            d ∷ a,
            b,
            ap (λ (u : Bytes). d ∷ u) same,
            m,
            inr (step-Bounded c d front a clear (λ p. clear_fits c d p fits) bounded),
          )
    ]
