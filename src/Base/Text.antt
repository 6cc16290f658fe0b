-- ===== src/Base/Text.antt =====
-- Go strings as byte sequences, and the operations of `strings` and `bytes` that the program calls.
-- Case and white space are those of ASCII.
use Prim.Native.Char.{code}
use Prim.Native.String.{String}
use Prim.Native.Nat.{ℕ, ◌+◌}
use mathlib.Core.Path.{◌≡◌, refl, ap}
use mathlib.Core.Logic.{◌≢◌, ◌↔◌, inl, inr}
use mathlib.Core.Bool.{Bool, true, false, ◌&&◌, ◌||◌}
use mathlib.Core.Option.{Option, none, some}
use mathlib.Core.List.{List, [], ◌∷◌, ◌++◌}
use native.Mathlib.Omega.{arith}
use gowebfilter.Base.Tests.{leb, ◌==◌, if◌then◌else◌, Bool-cases}

abbrev pub Bytes : Type 0
Bytes = List ℕ

-- The bytes of an ASCII literal.
abbrev pub codes : String → Bytes
codes String.[] = []
codes (String.◌∷◌ c s) = code c ∷ codes s

-- `s == t` on strings.
unfoldable pub bytes_eq : Bytes → Bytes → Bool
bytes_eq [] [] = true
bytes_eq (a ∷ s) (b ∷ t) = a == b && bytes_eq s t
bytes_eq _ _ = false

bytes_eq→eq : (s t : Bytes) → bytes_eq s t ≡ true → s ≡ t
unfolding bytes_eq
bytes_eq→eq [] [] h = refl
bytes_eq→eq (a ∷ s) (b ∷ t) h = ground (arith, bytes_eq→eq s t)
bytes_eq→eq [] (b ∷ t) h = cc
bytes_eq→eq (a ∷ s) [] h = cc

pub bytes_eq_refl : (s : Bytes) → bytes_eq s s ≡ true
unfolding bytes_eq
bytes_eq_refl [] = refl
bytes_eq_refl (a ∷ s) = ground (arith, bytes_eq_refl s)

pub bytes_eq_iff : (s t : Bytes) → (bytes_eq s t ≡ true) ↔ (s ≡ t)
bytes_eq_iff s t = (bytes_eq→eq s t, λ e. rw e (bytes_eq_refl t))

-- strings.HasPrefix, with the rest that follows the prefix (strings.CutPrefix).
unfoldable pub cut_prefix : Bytes → Bytes → Option Bytes
cut_prefix s [] = some s
cut_prefix [] (b ∷ p) = none
cut_prefix (a ∷ s) (b ∷ p) = let rest = cut_prefix s p in if a == b then rest else none

pub cut_prefix-some : (s p rest : Bytes) → cut_prefix s p ≡ some rest → s ≡ p ++ rest
unfolding cut_prefix
cut_prefix-some s [] rest h = ground arith
cut_prefix-some [] (b ∷ p) rest h = cc
cut_prefix-some (a ∷ s) (b ∷ p) rest h = ground (arith, cut_prefix-some s p rest)

pub cut_prefix-append : (p rest : Bytes) → cut_prefix (p ++ rest) p ≡ some rest
unfolding cut_prefix
cut_prefix-append [] rest = refl
cut_prefix-append (b ∷ p) rest = ground (arith, cut_prefix-append p rest)

abbrev pub is_some {ℓ} : {A : Type ℓ} → Option A → Bool
is_some none = false
is_some (some a) = true

abbrev pub has_prefix : Bytes → Bytes → Bool
has_prefix s p = is_some (cut_prefix s p)

-- strings.TrimPrefix
unfoldable pub trim_prefix : Bytes → Bytes → Bytes
trim_prefix s p = elim (cut_prefix s p) [ none ↦ s | some rest ↦ rest ]

-- strings.HasSuffix: the suffix is what is left after some number of bytes.
unfoldable pub has_suffix : Bytes → Bytes → Bool
unfolding bytes_eq
has_suffix [] t = bytes_eq [] t
has_suffix (a ∷ s) t = bytes_eq (a ∷ s) t || has_suffix s t

-- `s` ends in `t`.
abbrev pub EndsIn : Bytes → Bytes → Type 0
EndsIn s t = (front : Bytes) × (s ≡ front ++ t)

has_suffix→EndsIn : (s t : Bytes) → has_suffix s t ≡ true → EndsIn s t
unfolding has_suffix
has_suffix→EndsIn [] t h = ([], (bytes_eq_iff [] t).0 h)
has_suffix→EndsIn (a ∷ s) t h = elim (Bool-cases (bytes_eq (a ∷ s) t)) [
  | inl same ↦ ([], (bytes_eq_iff _ t).0 same)
  | inr other ↦
      let (front, e) = has_suffix→EndsIn s t (rw other at h) in
      (a ∷ front, ap (λ (x : Bytes). a ∷ x) e)
]

has_suffix-append : (front t : Bytes) → has_suffix (front ++ t) t ≡ true
unfolding has_suffix
has_suffix-append [] [] = refl
has_suffix-append [] (b ∷ t) = rw (bytes_eq_refl (b ∷ t)) refl
has_suffix-append (a ∷ front) t = ground (arith, has_suffix-append front t)

pub has_suffix_iff : (s t : Bytes) → (has_suffix s t ≡ true) ↔ EndsIn s t
has_suffix_iff s t = (has_suffix→EndsIn s t, λ (front, e). rw e (has_suffix-append front t))

-- strings.Contains / strings.IndexByte(…) >= 0 for one byte
unfoldable pub has_byte : ℕ → Bytes → Bool
has_byte b [] = false
has_byte b (a ∷ s) = a == b || has_byte b s

-- The part before the first `b`, and what follows it if there is one (strings.Cut on one byte).
unfoldable pub cut_byte : ℕ → Bytes → Bytes × Option Bytes
cut_byte b [] = ([], none)
cut_byte b (a ∷ s) =
    let (front, rest) = cut_byte b s in if a == b then ([], some s) else (a ∷ front, rest)

-- White space of strings.TrimSpace, within ASCII.
unfoldable pub is_space : ℕ → Bool
is_space c = c == 32 || leb 9 c && leb c 13

unfoldable pub trim_left : Bytes → Bytes
unfolding is_space
trim_left [] = []
trim_left (c ∷ s) = let rest = trim_left s in if is_space c then rest else c ∷ s

-- Drops the white space at the end.
unfoldable pub trim_right : Bytes → Bytes
unfolding is_space
trim_right [] = []
trim_right (c ∷ s) = elim (trim_right s) [
  | [] ↦ if is_space c then [] else c ∷ []
  | d ∷ t ↦ c ∷ d ∷ t
]

-- strings.TrimSpace
unfoldable pub trim_space : Bytes → Bytes
unfolding trim_left trim_right
trim_space s = trim_right (trim_left s)

-- strings.ToLower within ASCII
unfoldable pub lower_byte : ℕ → ℕ
lower_byte c = if leb b'A' c && leb c b'Z' then c + 32 else c

unfoldable pub to_lower : Bytes → Bytes
unfolding lower_byte
to_lower [] = []
to_lower (c ∷ s) = lower_byte c ∷ to_lower s

-- strings.Split on one byte
unfoldable pub split_byte : ℕ → Bytes → List Bytes
split_byte b [] = [] ∷ []
split_byte b (a ∷ s) = elim (split_byte b s) [
  | [] ↦ []
  | part ∷ parts ↦ if a == b then [] ∷ part ∷ parts else (a ∷ part) ∷ parts
]

-- A split has a first part.
pub split_byte-cons :
    (b : ℕ) (s : Bytes) → (part : Bytes) × (parts : List Bytes) × (split_byte b s ≡ part ∷ parts)
unfolding split_byte
split_byte-cons b [] = ([], [], refl)
split_byte-cons b (a ∷ s) =
    let (part, parts, e) = split_byte-cons b s in
    elim (Bool-cases (a == b)) [
      | inl same ↦ ([], part ∷ parts, rw e (rw same refl))
      | inr ne ↦ (a ∷ part, parts, rw e (rw ne refl))
    ]

pub eq_ne : (a b : ℕ) → a ≢ b → (a == b) ≡ false
eq_ne a b h = ground arith

-- strings.Contains: `sub` begins somewhere in `s`.
unfoldable pub contains : Bytes → Bytes → Bool
unfolding cut_prefix
contains [] sub = has_prefix [] sub
contains (a ∷ s) sub = has_prefix (a ∷ s) sub || contains s sub

-- `s == ""`
abbrev pub is_empty {ℓ} : {A : Type ℓ} → List A → Bool
is_empty [] = true
is_empty (a ∷ s) = false
