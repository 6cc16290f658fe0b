-- ===== src/Models/Schedule/Clock.antt =====
-- The clock texts of internal/models/schedule.go.
use gowebfilter.Base.{
  ℕ, ◌+◌, ◌/◌, ◌%◌, ◌≤◌, ◌<◌, ◌≡◌, refl, sym, ap, ap₂, ◌∙◌, subst, ◌↔◌, inl, inr, false, Option,
  none, some, [], ◌∷◌, ◌++◌, arith, ◌==◌, ==_iff, Bool-cases, false≢true, Option-cases, none≢some,
  some_injective, Bytes, has_byte, cut_byte, ℤ, pos, negsuc, atoi, atoi_two, itoa_digit,
}
use gowebfilter.Adblock.Index.{first}
use gowebfilter.Models.Schedule.{clock_time, hhmm, parse_hhmm, split_hhmm}

-- What a clock text that is in range and zero-padded looks like.
abbrev pub IsCanonical : Bytes → Type 0
IsCanonical t = (h m : ℕ) × (h ≤ 23) × (m ≤ 59) × (t ≡ hhmm h m)

hhmm_digits :
    (h m : ℕ)
    → h ≤ 23
    → m ≤ 59
    → hhmm h m ≡ (48 + h / 10) ∷ (48 + h % 10) ∷ 58 ∷ (48 + m / 10) ∷ (48 + m % 10) ∷ []
unfolding hhmm
hhmm_digits h m p q = rw (
  itoa_digit (h / 10) (omega arith),
  itoa_digit (h % 10) (omega arith),
  itoa_digit (m / 10) (omega arith),
  itoa_digit (m % 10) (omega arith),
)

cut_hhmm :
    (a b c d : ℕ)
    → a < 10
    → b < 10
    → cut_byte b':' ((48 + a) ∷ (48 + b) ∷ 58 ∷ c ∷ d ∷ [])
      ≡ ((48 + a) ∷ (48 + b) ∷ [], some (c ∷ d ∷ []))
unfolding cut_byte
cut_hhmm a b c d p q = ground arith

cut-hhmm :
    (h m : ℕ)
    → h ≤ 23
    → m ≤ 59
    → cut_byte b':' (hhmm h m)
      ≡ ((48 + h / 10) ∷ (48 + h % 10) ∷ [], some ((48 + m / 10) ∷ (48 + m % 10) ∷ []))
cut-hhmm h m p q =
    rw (hhmm_digits h m p q)
      (cut_hhmm (h / 10) (h % 10) (48 + m / 10) (48 + m % 10) (omega arith) (omega arith))

atoi_parts : (n : ℕ) → n ≤ 99 → atoi ((48 + n / 10) ∷ (48 + n % 10) ∷ []) ≡ some (pos n)
atoi_parts n p =
    atoi_two (n / 10) (n % 10) (omega arith) (omega arith) ∙ ap (λ k. some (pos k)) (omega arith)

-- A canonical text splits into its hour and minute.
pub split-hhmm : (h m : ℕ) → h ≤ 23 → m ≤ 59 → split_hhmm (hhmm h m) ≡ (h, m)
unfolding split_hhmm
split-hhmm h m p q = rw (cut-hhmm h m p q, atoi_parts h (omega arith), atoi_parts m (omega arith))

pub parse-hhmm : (h m : ℕ) → h ≤ 23 → m ≤ 59 → parse_hhmm (hhmm h m) ≡ some (hhmm h m)
unfolding parse_hhmm clock_time
parse-hhmm h m p q =
    rw (cut-hhmm h m p q, atoi_parts h (omega arith), atoi_parts m (omega arith)) (ground arith)

clock_time-IsCanonical : (x y : Option ℤ) (t : Bytes) → clock_time x y ≡ some t → IsCanonical t
unfolding clock_time
clock_time-IsCanonical (some (pos h)) (some (pos m)) t e =
    (h, m, ground arith, ground arith, ground arith)
clock_time-IsCanonical (some (pos h)) (some (negsuc m)) t e = cc
clock_time-IsCanonical (some (pos h)) none t e = cc
clock_time-IsCanonical (some (negsuc h)) y t e = cc
clock_time-IsCanonical none y t e = cc

pub parse_hhmm-IsCanonical : (v t : Bytes) → parse_hhmm v ≡ some t → IsCanonical t
unfolding parse_hhmm
parse_hhmm-IsCanonical v t e = elim (Option-cases (cut_byte b':' v).1) [
  | inl none_e ↦ absurd (none≢some (rw none_e at e))
  | inr (rest, some_e) ↦ clock_time-IsCanonical _ _ t (rw some_e at e)
]

-- Every text that `parse_hhmm` accepts comes out as HH:MM of an hour up to 23 and a minute up to
-- 59, which `split_hhmm` reads back and which a second parse leaves as it is.
pub parse_hhmm_canonical :
    (v t : Bytes)
    → parse_hhmm v ≡ some t
    → (h m : ℕ) × (h ≤ 23)
      × (m ≤ 59)
      × (t ≡ hhmm h m)
      × (split_hhmm t ≡ (h, m))
      × (parse_hhmm t ≡ some t)
parse_hhmm_canonical v t e =
    let (h, m, p, q, same) = parse_hhmm-IsCanonical v t e in
    (
      h,
      m,
      p,
      q,
      same,
      rw same (split-hhmm h m p q),
      subst (λ x. parse_hhmm x ≡ some x) (sym same) (parse-hhmm h m p q),
    )

-- The two texts around the first colon, and the numbers they are.
abbrev pub IsClockText : Bytes → ℕ → ℕ → Type 0
IsClockText v h m =
    (a b : Bytes) × (v ≡ a ++ (58 ∷ b))
    × (has_byte 58 a ≡ false)
    × (atoi a ≡ some (pos h))
    × (atoi b ≡ some (pos m))

-- HH:MM of an hour and a minute below a hundred.
abbrev pub two_digits : ℕ → ℕ → Bytes
two_digits h m = (48 + h / 10) ∷ (48 + h % 10) ∷ 58 ∷ (48 + m / 10) ∷ (48 + m % 10) ∷ []

cut_byte-parts :
    (s b : Bytes)
    → (cut_byte 58 s).1 ≡ some b
    → (s ≡ (cut_byte 58 s).0 ++ (58 ∷ b)) × (has_byte 58 (cut_byte 58 s).0 ≡ false)
unfolding cut_byte has_byte
cut_byte-parts [] b h = absurd (none≢some h)
cut_byte-parts (c ∷ s) b h = elim (Bool-cases (c == 58)) [
  | inl colon ↦ rw colon (
    ap₂ (λ (x : ℕ) (u : Bytes). x ∷ u) ((==_iff c 58).0 colon) (some_injective (rw colon at h)),
    refl,
  )
  | inr plain ↦
      let (whole, none_) = cut_byte-parts s b (rw plain at h) in
      rw plain (ap (λ (u : Bytes). c ∷ u) whole, rw (plain, none_) refl)
]

cut_byte-first : (a b : Bytes) → has_byte 58 a ≡ false → cut_byte 58 (a ++ (58 ∷ b)) ≡ (a, some b)
unfolding cut_byte has_byte
cut_byte-first [] b h = refl
cut_byte-first (c ∷ a) b h = elim (Bool-cases (c == 58)) [
  | inl colon ↦ absurd (false≢true (sym (rw colon at h)))
  | inr plain ↦ rw (plain, cut_byte-first a b (rw plain at h)) refl
]

in_range :
    (x y : Option ℤ) (t : Bytes)
    → clock_time x y ≡ some t
    → (h m : ℕ) × (x ≡ some (pos h)) × (y ≡ some (pos m)) × (h ≤ 23) × (m ≤ 59) × (t ≡ hhmm h m)
unfolding clock_time
in_range (some (pos h)) (some (pos m)) t e =
    (h, m, refl, refl, ground arith, ground arith, ground arith)
in_range (some (pos h)) (some (negsuc m)) t e = cc
in_range (some (pos h)) none t e = cc
in_range (some (negsuc h)) y t e = cc
in_range none y t e = cc

range_kept :
    (h m : ℕ) → h ≤ 23 → m ≤ 59 → clock_time (some (pos h)) (some (pos m)) ≡ some (hhmm h m)
unfolding clock_time
range_kept h m p q = ground arith

-- What an accepted text and its canonical form have in common.
abbrev pub IsClockOf : Bytes → Bytes → Type 0
IsClockOf v t =
    (h m : ℕ) × IsClockText v h m
    × (h ≤ 23)
    × (m ≤ 59)
    × (t ≡ two_digits h m)
    × (split_hhmm t ≡ (h, m))
    × (parse_hhmm t ≡ some t)

parsed_clock : (v t : Bytes) → parse_hhmm v ≡ some t → IsClockOf v t
unfolding parse_hhmm
parsed_clock v t e = elim (Option-cases (cut_byte 58 v).1) [
  | inl none_e ↦ absurd (none≢some (rw none_e at e))
  | inr (b, some_e) ↦
      let (h, m, x, y, p, q, same) = in_range _ _ t (rw some_e at e) in
      let (whole, first) = cut_byte-parts v b some_e in
      (
        h,
        m,
        ((cut_byte 58 v).0, b, whole, first, x, y),
        p,
        q,
        same ∙ hhmm_digits h m p q,
        rw same (split-hhmm h m p q),
        subst (λ u. parse_hhmm u ≡ some u) (sym same) (parse-hhmm h m p q),
      )
]

clock_parsed : (v t : Bytes) → IsClockOf v t → parse_hhmm v ≡ some t
unfolding parse_hhmm
clock_parsed v t (h, m, (a, b, whole, first, x, y), p, q, same, reads, again) =
    rw (whole, cut_byte-first a b first, x, y, range_kept h m p q, hhmm_digits h m p q, same) refl

-- A text is accepted and comes out as `t` exactly when what stands before its first colon is an hour
-- up to 23, what stands behind it a minute up to 59, and `t` is the two digits of that hour, a colon
-- and the two digits of that minute. Then `split_hhmm` reads the same hour and minute from `t`, and
-- a second parse leaves it as it is.
pub parse_hhmm_iff : (v t : Bytes) → (parse_hhmm v ≡ some t) ↔ IsClockOf v t
parse_hhmm_iff v t = (parsed_clock v t, clock_parsed v t)
