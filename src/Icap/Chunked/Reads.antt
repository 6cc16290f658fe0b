-- ===== src/Icap/Chunked/Reads.antt =====
-- The reads of a chunked body end, and take no more bytes than there are.
use gowebfilter.Base.{
  ℕ, zero, suc, ◌≤◌, ◌<◌, ◌≡◌, refl, ap, inl, inr, Option, none, some, [], ◌∷◌, ◌++◌, arith, ◌==◌,
  Bool-cases, length, Bytes,
}
use gowebfilter.Icap.Chunked.{
  Read, bad_size, discard_trailer, done, eof, expect_crlf, expected_crlf, fail, line_too_long,
  max_chunk_line_bytes, on_blank, out_of_fuel, read_chunk_header, read_full, read_line,
  read_line_from, size_or_error, then_read,
}

-- A result that is not for lack of fuel, and of which `P` holds if it is not an error.
abbrev pub Ends {ℓ} : {A : Type ℓ} → (A → Bytes → Type 0) → Read A → Type 0
Ends P (done a s) = P a s
Ends P (fail eof) = Unit
Ends P (fail line_too_long) = Unit
Ends P (fail bad_size) = Unit
Ends P (fail expected_crlf) = Unit
Ends P (fail out_of_fuel) = ⊥

pub Ends-then_read {ℓ κ} :
    {A : Type ℓ} {B : Type κ} (P : A → Bytes → Type 0) (Q : B → Bytes → Type 0) (r : Read A)
    (f : A → Bytes → Read B)
    → Ends P r
    → ((a : A) (s : Bytes) → P a s → Ends Q (f a s))
    → Ends Q (then_read r f)
Ends-then_read P Q (done a s) f p q = q a s p
Ends-then_read P Q (fail eof) f p q = tt
Ends-then_read P Q (fail line_too_long) f p q = tt
Ends-then_read P Q (fail bad_size) f p q = tt
Ends-then_read P Q (fail expected_crlf) f p q = tt
Ends-then_read P Q (fail out_of_fuel) f p q = absurd p

pub Ends-weaken {ℓ} :
    {A : Type ℓ} (P Q : A → Bytes → Type 0) (r : Read A)
    → Ends P r
    → ((a : A) (s : Bytes) → P a s → Q a s)
    → Ends Q r
Ends-weaken P Q (done a s) p q = q a s p
Ends-weaken P Q (fail eof) p q = tt
Ends-weaken P Q (fail line_too_long) p q = tt
Ends-weaken P Q (fail bad_size) p q = tt
Ends-weaken P Q (fail expected_crlf) p q = tt
Ends-weaken P Q (fail out_of_fuel) p q = absurd p

-- At most as many bytes are left as before, or fewer.
abbrev pub NoMore : {A : Type 0} → Bytes → A → Bytes → Type 0
NoMore s a rest = length rest ≤ length s

abbrev pub Fewer : {A : Type 0} → Bytes → A → Bytes → Type 0
Fewer s a rest = length rest < length s

pub read_line_from-Ends :
    (line : Bytes) (room : ℕ) (s : Bytes) → Ends (Fewer s) (read_line_from line room s)
unfolding read_line_from
read_line_from-Ends line room [] = tt
read_line_from-Ends line zero (b ∷ s) = elim (Bool-cases (b == 10)) [
  | inl stop ↦ rw stop (omega arith)
  | inr more ↦ rw more tt
]
read_line_from-Ends line (suc room) (b ∷ s) = elim (Bool-cases (b == 10)) [
  | inl stop ↦ rw stop (omega arith)
  | inr more ↦ rw more (
      Ends-weaken (Fewer s) (Fewer (b ∷ s)) (read_line_from (line ++ b ∷ []) room s)
        (read_line_from-Ends (line ++ b ∷ []) room s) (λ a rest lt. omega (arith, lt)))
]

pub read_line-Ends : (limit : ℕ) (s : Bytes) → Ends (Fewer s) (read_line limit s)
unfolding read_line
read_line-Ends limit s = read_line_from-Ends [] limit s

pub size_or_error-Ends : (o : Option ℕ) (ext s : Bytes) → Ends (NoMore s) (size_or_error o ext s)
size_or_error-Ends none ext s = tt
size_or_error-Ends (some n) ext s = omega arith

pub read_chunk_header-Ends : (s : Bytes) → Ends (Fewer s) (read_chunk_header s)
unfolding read_chunk_header
read_chunk_header-Ends s =
    Ends-then_read (Fewer s) (Fewer s) (read_line max_chunk_line_bytes s) _
      (read_line-Ends max_chunk_line_bytes s)
      (λ line rest lt.
        Ends-weaken (NoMore rest) (Fewer s) _ (size_or_error-Ends _ _ rest)
          (λ a after le. omega (arith, le, lt)))

pub on_blank-Ends {ℓ} :
    {A : Type ℓ} (P : A → Bytes → Type 0) (line : Bytes) (x y : Read A)
    → Ends P x
    → Ends P y
    → Ends P (on_blank line x y)
on_blank-Ends P [] x y p q = p
on_blank-Ends P (c ∷ line) x y p q = q

pub discard_trailer-Ends :
    (f : ℕ) (s : Bytes) → length s < f → Ends (NoMore s) (discard_trailer f s)
unfolding discard_trailer
discard_trailer-Ends zero s fuel = absurd (ground arith)
discard_trailer-Ends (suc f) s fuel =
    Ends-then_read (Fewer s) (NoMore s) (read_line max_chunk_line_bytes s) _
      (read_line-Ends max_chunk_line_bytes s)
      (λ line rest lt.
        on_blank-Ends (NoMore s) line (done tt rest) (discard_trailer f rest) (omega (arith, lt)) (
          Ends-weaken (NoMore rest) (NoMore s) (discard_trailer f rest)
            (discard_trailer-Ends f rest (omega (arith, lt, fuel)))
            (λ a after le. omega (arith, le, lt))))

pub expect_crlf-Ends : (s : Bytes) → Ends (NoMore s) (expect_crlf s)
unfolding expect_crlf
expect_crlf-Ends s =
    Ends-then_read (Fewer s) (NoMore s) (read_line 2 s) _ (read_line-Ends 2 s) (λ line rest lt.
      on_blank-Ends (NoMore s) line (done tt rest) (fail expected_crlf) (omega (arith, lt)) tt)

-- A full read gives as many bytes as it is asked for.
abbrev pub Full : ℕ → Bytes → Bytes → Bytes → Type 0
Full n s chunk rest = (length chunk ≡ n) × (length rest ≤ length s)

pub read_full-Ends : (n : ℕ) (s : Bytes) → Ends (Full n s) (read_full n s)
unfolding read_full
read_full-Ends zero s = (refl, omega arith)
read_full-Ends (suc n) [] = tt
read_full-Ends (suc n) (b ∷ s) =
    Ends-then_read (Full n s) (Full (suc n) (b ∷ s)) (read_full n s) _ (read_full-Ends n s)
      (λ chunk rest (e, le). (ap suc e, omega (arith, le)))
