-- ===== src/Base/Cuts.antt =====
-- Cutting a text at a substring, at its last byte of a kind, and at its end.
use Prim.Native.Nat.{ℕ}
use mathlib.Core.Bool.{Bool, false, ◌||◌}
use mathlib.Core.Option.{Option, none, some}
use mathlib.Core.Path.{◌≡◌, refl, ap, subst}
use mathlib.Core.List.{List, [], ◌∷◌, ◌++◌}
use gowebfilter.Base.Tests.{◌==◌, if◌then◌else◌, none≢some, some_injective}
use gowebfilter.Base.Lists.{any_of}
use gowebfilter.Base.Text.{Bytes, bytes_eq, cut_prefix, cut_prefix-some, has_byte}

-- strings.Cut and strings.Index: what stands before the first occurrence of the text, and after it.
abbrev with_front : ℕ → Option (Bytes × Bytes) → Option (Bytes × Bytes)
with_front c none = none
with_front c (some (front, rest)) = some (c ∷ front, rest)

abbrev or_at_start : Option Bytes → Option (Bytes × Bytes) → Option (Bytes × Bytes)
or_at_start none later = later
or_at_start (some rest) later = some ([], rest)

unfoldable pub cut_text : Bytes → Bytes → Option (Bytes × Bytes)
unfolding cut_prefix
cut_text sep [] = or_at_start (cut_prefix [] sep) none
cut_text sep (c ∷ s) = or_at_start (cut_prefix (c ∷ s) sep) (with_front c (cut_text sep s))

-- strings.LastIndexByte: what stands before the last occurrence of the byte, and after it.
unfoldable pub cut_last_byte : ℕ → Bytes → Option (Bytes × Bytes)
cut_last_byte b [] = none
cut_last_byte b (c ∷ s) = elim (cut_last_byte b s) [
  | some (front, rest) ↦ some (c ∷ front, rest)
  | none ↦ if c == b then some ([], s) else none
]

-- strings.ContainsAny
unfoldable pub contains_any : Bytes → Bytes → Bool
unfolding has_byte
contains_any [] bytes = false
contains_any (c ∷ s) bytes = has_byte c bytes || contains_any s bytes

-- strings.TrimSuffix
unfoldable pub trim_suffix : Bytes → Bytes → Bytes
unfolding bytes_eq
trim_suffix [] suffix = []
trim_suffix (c ∷ s) suffix =
    let rest = trim_suffix s suffix in if bytes_eq (c ∷ s) suffix then [] else c ∷ rest

-- The test of a list of texts for one of them.
abbrev pub is_one_of : List Bytes → Bytes → Bool
is_one_of names s = any_of (λ n. bytes_eq n s) names

-- The two parts, with the separator between them, are the text.
parts_of :
    (sep s front rest : Bytes) (o : Option Bytes) (later : Option (Bytes × Bytes))
    → ((r : Bytes) → o ≡ some r → s ≡ sep ++ r)
    → ((f r : Bytes) → later ≡ some (f, r) → s ≡ f ++ (sep ++ r))
    → or_at_start o later ≡ some (front, rest)
    → s ≡ front ++ (sep ++ rest)
parts_of sep s front rest none later here there h = there front rest h
parts_of sep s front rest (some r) later here there h =
    subst (λ (x : Bytes × Bytes). s ≡ x.0 ++ (sep ++ x.1)) (some_injective h) (here r refl)

parts_behind :
    (c : ℕ) (sep s front rest : Bytes) (later : Option (Bytes × Bytes))
    → ((f r : Bytes) → later ≡ some (f, r) → s ≡ f ++ (sep ++ r))
    → with_front c later ≡ some (front, rest)
    → c ∷ s ≡ front ++ (sep ++ rest)
parts_behind c sep s front rest none there h = absurd (none≢some h)
parts_behind c sep s front rest (some (f, r)) there h =
    subst (λ (x : Bytes × Bytes). c ∷ s ≡ x.0 ++ (sep ++ x.1)) (some_injective h)
      (ap (λ (u : Bytes). c ∷ u) (there f r refl))

pub cut_text-parts :
    (sep s front rest : Bytes) → cut_text sep s ≡ some (front, rest) → s ≡ front ++ (sep ++ rest)
unfolding cut_text
cut_text-parts sep [] front rest h =
    parts_of sep [] front rest (cut_prefix [] sep) none (λ r e. cut_prefix-some [] sep r e)
      (λ f r e. absurd (none≢some e)) h
cut_text-parts sep (c ∷ s) front rest h =
    parts_of sep (c ∷ s) front rest (cut_prefix (c ∷ s) sep) (with_front c (cut_text sep s))
      (λ r e. cut_prefix-some (c ∷ s) sep r e)
      (λ f r e. parts_behind c sep s f r (cut_text sep s) (cut_text-parts sep s) e) h
