-- ===== src/Mac/Spelling.antt =====
-- Which texts name a hardware address, and what its canonical form is.
use gowebfilter.Base.{
  ℕ, ◌+◌, ◌-◌, ◌≡◌, refl, sym, ap, ◌∙◌, ◌≢◌, ◌↔◌, ◌⊎◌, inl, inr, ◌&&◌, Option, none, some, List, [],
  ◌∷◌, ◌++◌, map, arith, leb, ◌==◌, ==_iff, Bool-cases, none≢some, some_injective, length, Bytes,
  hex_digit, hex_value,
}
use gowebfilter.Mac.{append_digits, hex_digits, join_pairs, mac_char, normalize, twelve_digits}

-- A text spells the values of hexadecimal digits of either case, with separators anywhere.
pub data Spells : List ℕ → Bytes → Type 0 where
  spells_end : Spells [] []
  spells_separator :
      {c : ℕ} {vs : List ℕ} {s : Bytes}
      → (c ≡ 58) ⊎ ((c ≡ 45) ⊎ (c ≡ 46))
      → Spells vs s
      → Spells vs (c ∷ s)
  spells_digit :
      {c v : ℕ} {vs : List ℕ} {s : Bytes}
      → hex_value c ≡ some v
      → Spells vs s
      → Spells (v ∷ vs) (c ∷ s)

-- The values in lower case, with a colon between the pairs.
unfoldable pub colon_pairs : List ℕ → Bytes
colon_pairs (a ∷ b ∷ c ∷ vs) = hex_digit a ∷ hex_digit b ∷ 58 ∷ colon_pairs (c ∷ vs)
colon_pairs vs = map hex_digit vs

abbrev pub IsAddressOf : Bytes → Bytes → Type 0
IsAddressOf s t = (vs : List ℕ) × Spells vs s × (length vs ≡ 12) × (t ≡ colon_pairs vs)

join_pairs-map : (vs : List ℕ) → join_pairs (map hex_digit vs) ≡ colon_pairs vs
unfolding join_pairs colon_pairs
join_pairs-map [] = refl
join_pairs-map (a ∷ []) = refl
join_pairs-map (a ∷ b ∷ []) = refl
join_pairs-map (a ∷ b ∷ c ∷ vs) = rw (join_pairs-map (c ∷ vs)) refl

length-map_digits : (vs : List ℕ) → length (map hex_digit vs) ≡ length vs
length-map_digits [] = refl
length-map_digits (v ∷ vs) = rw (length-map_digits vs) refl

mac_char_digit : (c v : ℕ) → hex_value c ≡ some v → mac_char c ≡ some (hex_digit v ∷ [])
unfolding mac_char hex_value
mac_char_digit c v h = ground arith

mac_char_separator : (c : ℕ) → (c ≡ 58) ⊎ ((c ≡ 45) ⊎ (c ≡ 46)) → mac_char c ≡ some []
unfolding mac_char
mac_char_separator c (inl e) = rw e refl
mac_char_separator c (inr (inl e)) = rw e refl
mac_char_separator c (inr (inr e)) = rw e refl

mac_char_cases :
    (c : ℕ)
    → ((v : ℕ) × (hex_value c ≡ some v))
      ⊎ (((c ≡ 58) ⊎ ((c ≡ 45) ⊎ (c ≡ 46))) ⊎ (mac_char c ≡ none))
unfolding mac_char hex_value
mac_char_cases c = elim (Bool-cases (leb 48 c && leb c 57)) [
  | inl digit ↦ inl (c - 48, rw digit refl)
  | inr other_ ↦ elim (Bool-cases (leb 97 c && leb c 102)) [
    | inl lower ↦ inl (c - 97 + 10, rw (other_, lower) refl)
    | inr others ↦ elim (Bool-cases (leb 65 c && leb c 70)) [
      | inl upper ↦ inl (c - 65 + 10, rw (other_, others, upper) refl)
      | inr none_ ↦ elim (Bool-cases (c == 58)) [
        | inl colon ↦ inr (inl (inl ((==_iff c 58).0 colon)))
        | inr nocolon ↦ elim (Bool-cases (c == 45)) [
          | inl dash ↦ inr (inl (inr (inl ((==_iff c 45).0 dash))))
          | inr nodash ↦ elim (Bool-cases (c == 46)) [
            | inl dot ↦ inr (inl (inr (inr ((==_iff c 46).0 dot))))
            | inr nodot ↦ inr (inr (rw (nocolon, nodash, nodot, other_, others, none_) refl))
          ]
        ]
      ]
    ]
  ]
]

hex_digits_spelled :
    (vs : List ℕ) (s : Bytes) → Spells vs s → hex_digits s ≡ some (map hex_digit vs)
unfolding hex_digits
hex_digits_spelled [] [] spells_end = refl
hex_digits_spelled (v ∷ vs) [] w = elim w [ ]
hex_digits_spelled vs (c ∷ s) (spells_separator sep w) =
    rw (mac_char_separator c sep, hex_digits_spelled vs s w) refl
hex_digits_spelled (v ∷ vs) (c ∷ s) (spells_digit e w) =
    rw (mac_char_digit c v e, hex_digits_spelled vs s w) refl

-- The digits that the scan keeps of a text that it takes.
unappended :
    (c : ℕ) (a : Bytes) (o : Option Bytes) (h : Bytes)
    → mac_char c ≡ some a
    → append_digits (mac_char c) o ≡ some h
    → (rest : Bytes) × (o ≡ some rest) × (h ≡ a ++ rest)
unappended c a none h e full = absurd (none≢some (rw e at full))
unappended c a (some rest) h e full = (rest, refl, sym (some_injective (rw e at full)))

spelled :
    (s h : Bytes) → hex_digits s ≡ some h → (vs : List ℕ) × Spells vs s × (h ≡ map hex_digit vs)
unfolding hex_digits
spelled [] h e = ([], spells_end, sym (some_injective e))
spelled (c ∷ s) h e = elim (mac_char_cases c) [
  | inl (v, digit) ↦
      let (rest, o, same) =
        unappended c (hex_digit v ∷ []) (hex_digits s) h (mac_char_digit c v digit) e in
      let (vs, w, m) = spelled s rest o in
      (v ∷ vs, spells_digit digit w, same ∙ ap (λ (u : Bytes). hex_digit v ∷ u) m)
  | inr (inl sep) ↦
      let (rest, o, same) = unappended c [] (hex_digits s) h (mac_char_separator c sep) e in
      let (vs, w, m) = spelled s rest o in (vs, spells_separator sep w, same ∙ m)
  | inr (inr bad) ↦ absurd (none≢some (rw bad at e))
]

address_found :
    (o : Option Bytes) (s t : Bytes)
    → hex_digits s ≡ o
    → t ≢ []
    → twelve_digits o ≡ t
    → IsAddressOf s t
address_found none s t e ne h = absurd (ne (sym h))
address_found (some d) s t e ne h = elim (Bool-cases (length d == 12)) [
  | inl twelve ↦
      let (vs, w, m) = spelled s d e in
      (
        vs,
        w,
        sym (length-map_digits vs)
            ∙ ap (λ (u : Bytes). length u) (sym m)
            ∙ (==_iff (length d) 12).0 twelve,
        sym (rw twelve at h) ∙ ap join_pairs m ∙ join_pairs-map vs,
      )
  | inr wrong ↦ absurd (ne (sym (rw wrong at h)))
]

twelve_kept : (h : Bytes) → length h ≡ 12 → twelve_digits (some h) ≡ join_pairs h
twelve_kept h e = rw e refl

address_normal : (s t : Bytes) → IsAddressOf s t → normalize s ≡ t
unfolding normalize
address_normal s t (vs, w, size, same) =
    ap twelve_digits (hex_digits_spelled vs s w)
    ∙ twelve_kept (map hex_digit vs) (length-map_digits vs ∙ size)
    ∙ join_pairs-map vs
    ∙ sym same

-- A text other than the empty one is the canonical form of `s` exactly when `s` spells twelve
-- hexadecimal digits, of either case and with colons, dashes and dots anywhere among them, and the text
-- is their values in lower case with a colon between the pairs.
pub normalize_iff : (s t : Bytes) → t ≢ [] → (normalize s ≡ t) ↔ IsAddressOf s t
unfolding normalize
normalize_iff s t ne = (λ h. address_found (hex_digits s) s t refl ne h, λ a. address_normal s t a)
