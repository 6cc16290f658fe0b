-- ===== src/Mac/Laws.antt =====
-- What the canonical form of a MAC address keeps.
use gowebfilter.Base.{
  ℕ, ◌+◌, ◌-◌, ◌≡◌, refl, sym, ap, ◌∙◌, subst, ◌≢◌, ◌⊎◌, inl, inr, true, ◌&&◌, ◌||◌, Option, none,
  some, [], ◌∷◌, ◌++◌, arith, leb, ◌==◌, Bool-cases, none≢some, some_injective, length, Bytes,
}
use gowebfilter.Mac.{append_digits, hex_digits, join_pairs, mac_char, normalize, twelve_digits}

-- A digit that is its own canonical form.
abbrev IsLowerHex : ℕ → Type 0
IsLowerHex c = mac_char c ≡ some (c ∷ [])

abbrev AllLowerHex : Bytes → Type 0
AllLowerHex [] = Unit
AllLowerHex (c ∷ s) = IsLowerHex c × AllLowerHex s

AllLowerHex-append : (a b : Bytes) → AllLowerHex a → AllLowerHex b → AllLowerHex (a ++ b)
AllLowerHex-append [] b ha hb = hb
AllLowerHex-append (c ∷ a) b (h, ha) hb = (h, AllLowerHex-append a b ha hb)

lowered : (c : ℕ) → (leb b'A' c && leb c b'F') ≡ true → IsLowerHex (c - b'A' + b'a')
unfolding mac_char
lowered c h = ground arith

mac_char_cases :
    (c : ℕ)
    → (mac_char c ≡ some [])
      ⊎ (mac_char c ≡ none)
      ⊎ ((d : ℕ) × (mac_char c ≡ some (d ∷ [])) × IsLowerHex d)
unfolding mac_char
mac_char_cases c = elim (Bool-cases (c == b':' || c == b'-' || c == b'.')) [
  | inl separator ↦ inl (rw separator)
  | inr digit ↦ elim (Bool-cases (leb b'0' c && leb c b'9' || leb b'a' c && leb c b'f')) [
    | inl lower ↦ inr (inr (c, rw (digit, lower), rw (digit, lower)))
    | inr other_ ↦ elim (Bool-cases (leb b'A' c && leb c b'F')) [
      | inl upper ↦ inr (inr (c - b'A' + b'a', rw (digit, other_, upper), lowered c upper))
      | inr bad ↦ inr (inl (rw (digit, other_, bad)))
    ]
  ]
]

mac_char-AllLowerHex : (c : ℕ) (s : Bytes) → mac_char c ≡ some s → AllLowerHex s
mac_char-AllLowerHex c s h = elim (mac_char_cases c) [
  | inl e ↦ subst AllLowerHex (some_injective (sym e ∙ h)) tt
  | inr (inl e) ↦ absurd (none≢some (sym e ∙ h))
  | inr (inr (d, e, l)) ↦ subst AllLowerHex (some_injective (sym e ∙ h)) (l, tt)
]

append_digits-AllLowerHex :
    (a b : Option Bytes) (s : Bytes)
    → ((t : Bytes) → a ≡ some t → AllLowerHex t)
    → ((t : Bytes) → b ≡ some t → AllLowerHex t)
    → append_digits a b ≡ some s
    → AllLowerHex s
append_digits-AllLowerHex none b s ha hb e = cc
append_digits-AllLowerHex (some a) none s ha hb e = cc
append_digits-AllLowerHex (some a) (some b) s ha hb e =
    subst AllLowerHex (some_injective e) (AllLowerHex-append a b (ha a refl) (hb b refl))

hex_digits-AllLowerHex : (s h : Bytes) → hex_digits s ≡ some h → AllLowerHex h
unfolding hex_digits
hex_digits-AllLowerHex [] h e = subst AllLowerHex (some_injective e) tt
hex_digits-AllLowerHex (c ∷ s) h e =
    append_digits-AllLowerHex (mac_char c) (hex_digits s) h (mac_char-AllLowerHex c)
      (hex_digits-AllLowerHex s) e

colon_skipped : (h : Bytes) → append_digits (mac_char b':') (some h) ≡ some h
unfolding mac_char
colon_skipped h = refl

-- The colons between the pairs are passed over.
hex_digits-join_pairs : (h : Bytes) → AllLowerHex h → hex_digits (join_pairs h) ≡ some h
unfolding hex_digits join_pairs
hex_digits-join_pairs [] l = refl
hex_digits-join_pairs (a ∷ []) (la, l) = rw la
hex_digits-join_pairs (a ∷ b ∷ []) (la, (lb, l)) = rw (la, lb)
hex_digits-join_pairs (a ∷ b ∷ c ∷ h) (la, (lb, l)) =
    rw (la, lb, hex_digits-join_pairs (c ∷ h) l)
      (ap (λ o. append_digits (some (a ∷ [])) (append_digits (some (b ∷ [])) o))
        (colon_skipped (c ∷ h)))

digits_of_canonical :
    (o : Option Bytes)
    → ((h : Bytes) → o ≡ some h → AllLowerHex h)
    → twelve_digits o ≢ []
    → hex_digits (twelve_digits o) ≡ o
digits_of_canonical none l ne = absurd (ne refl)
digits_of_canonical (some h) l ne = elim (Bool-cases (length h == 12)) [
  | inl twelve ↦ rw twelve (hex_digits-join_pairs h (l h refl))
  | inr wrong ↦ absurd (ne (rw wrong))
]

-- The canonical form of a text that is an address has the text's own digits.
hex_digits-normalize : (s : Bytes) → normalize s ≢ [] → hex_digits (normalize s) ≡ hex_digits s
unfolding normalize
hex_digits-normalize s ne = digits_of_canonical (hex_digits s) (hex_digits-AllLowerHex s) ne

normalize-twice :
    (s : Bytes) → (normalize s ≡ []) ⊎ (normalize s ≢ []) → normalize (normalize s) ≡ normalize s
unfolding normalize hex_digits
normalize-twice s (inl e) = rw e
normalize-twice s (inr ne) = ap twelve_digits (hex_digits-normalize s ne)

-- Normalizing a canonical form gives it back, the empty one included.
pub normalize-normalize : (s : Bytes) → normalize (normalize s) ≡ normalize s
normalize-normalize s = normalize-twice s (empty_or_not (normalize s))
  where
    empty_or_not : (t : Bytes) → (t ≡ []) ⊎ (t ≢ [])
    empty_or_not [] = inl refl
    empty_or_not (c ∷ t) = inr (λ e. cc)
