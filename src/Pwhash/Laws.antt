-- ===== src/Pwhash/Laws.antt =====
-- Password hashes: what `hash` prints is what `verify` takes apart.
use gowebfilter.Base.{
  ℕ, ◌/◌, ◌%◌, ◌<◌, ◌≡◌, refl, ap, ◌∙◌, ◌≢◌, ◌↔◌, true, some, [], ◌∷◌, ◌++◌, arith, length, Bytes,
  codes, bytes_eq_iff, bytes_eq_refl, split_byte, pos, atoi, itoa, hex_digit, hex_value-hex_digit,
  split_byte-cons, eq_ne,
}
use gowebfilter.Pwhash.{Derive, hash, hex_decode, hex_encode, iterations, key_bytes, scheme, verify}

-- Every byte of the text is a byte.
abbrev pub AreBytes : Bytes → Type 0
AreBytes [] = Unit
AreBytes (b ∷ s) = (b < 256) × AreBytes s

hex_decode-hex_encode : (s : Bytes) → AreBytes s → hex_decode (hex_encode s) ≡ some s
unfolding hex_decode hex_encode
hex_decode-hex_encode [] h = refl
hex_decode-hex_encode (b ∷ s) (lt, h) =
    rw
      (
        hex_value-hex_digit (b / 16) (omega arith),
        hex_value-hex_digit (b % 16) (omega arith),
        hex_decode-hex_encode s h,
      )
      (ap (λ (x : ℕ). some (x ∷ s)) (omega arith))

-- A text without a byte is one part.
abbrev Lacks : ℕ → Bytes → Type 0
Lacks b [] = Unit
Lacks b (a ∷ s) = (a ≢ b) × Lacks b s

Lacks-hex_encode : (s : Bytes) → AreBytes s → Lacks b'$' (hex_encode s)
unfolding hex_encode
Lacks-hex_encode [] h = tt
Lacks-hex_encode (b ∷ s) (lt, h) = (digit_ne (b / 16), (digit_ne (b % 16), Lacks-hex_encode s h))
  where
    digit_ne : (d : ℕ) → hex_digit d ≢ b'$'
    digit_ne d e = ground arith

split_lacking :
    (b : ℕ) (s rest : Bytes) → Lacks b s → split_byte b (s ++ b ∷ rest) ≡ s ∷ split_byte b rest
unfolding split_byte
split_lacking b [] rest h = let (part, parts, e) = split_byte-cons b rest in rw e (ground arith)
split_lacking b (a ∷ s) rest (ne, h) = rw (split_lacking b s rest h) (rw (eq_ne a b ne) refl)

split_last : (b : ℕ) (s : Bytes) → Lacks b s → split_byte b s ≡ s ∷ []
unfolding split_byte
split_last b [] h = refl
split_last b (a ∷ s) (ne, h) = rw (split_last b s h) (rw (eq_ne a b ne) refl)

atoi-iterations : atoi (itoa iterations) ≡ some (pos iterations)
unfolding atoi itoa
atoi-iterations = refl

split_nil : split_byte b'$' [] ≡ [] ∷ []
unfolding split_byte
split_nil = refl

atoi_one : atoi (codes "1") ≡ some (pos 1)
unfolding atoi
atoi_one = refl

decode_nil : hex_decode [] ≡ some []
unfolding hex_decode
decode_nil = refl

four_parts :
    (derive : Derive) (password salt key : Bytes)
    → AreBytes salt
    → AreBytes key
    → split_byte b'$' (
        scheme
        ++ (b'$' ∷ (itoa iterations ++ (b'$' ∷ (hex_encode salt ++ (b'$' ∷ hex_encode key))))))
      ≡ scheme ∷ itoa iterations ∷ hex_encode salt ∷ hex_encode key ∷ []
unfolding itoa
four_parts derive password salt key hs hk =
    split_lacking b'$' scheme _ (omega arith)
    ∙ ap (λ t. scheme ∷ t)
        (split_lacking b'$' (itoa iterations) _ (omega arith)
          ∙ ap (λ t. itoa iterations ∷ t)
              (split_lacking b'$' (hex_encode salt) _ (Lacks-hex_encode salt hs)
                ∙ ap (λ t. hex_encode salt ∷ t)
                    (split_last b'$' (hex_encode key) (Lacks-hex_encode key hk))))

-- Where the derivation gives bytes, a key as long as asked for, `verify` accepts a password against
-- the hash of another, with any salt of bytes, exactly when both derive the same key of 32 bytes in
-- 200000 iterations: no format, sign or digit of the stored text stands in between.
pub verify-hash :
    (derive : Derive) (password stored_password salt : Bytes)
    → ((p s : Bytes) (n k : ℕ) → AreBytes (derive p s n k) × (length (derive p s n k) ≡ k))
    → AreBytes salt
    → (verify derive password (hash derive stored_password salt) ≡ true)
      ↔ (derive password salt 200_000 32 ≡ derive stored_password salt 200_000 32)
unfolding verify hash
verify-hash derive password stored_password salt law hs =
    let key = derive stored_password salt iterations key_bytes in
    let (hk, len) = law stored_password salt iterations key_bytes in
    rw
      (
        four_parts derive password salt key hs hk,
        bytes_eq_refl scheme,
        atoi-iterations,
        hex_decode-hex_encode salt hs,
        hex_decode-hex_encode key hk,
        len,
      )
      (bytes_eq_iff (derive password salt 200_000 32) key)

-- A stored value with one iteration, a well-formed salt and an empty key accepts every password, if
-- the derivation of a key of length 0 is empty: `verify` asks for no least length.
pub verify_empty_key :
    (derive : Derive) (password salt : Bytes)
    → AreBytes salt
    → derive password salt 1 0 ≡ []
    → verify derive password
        (scheme ++ (b'$' ∷ (codes "1" ++ (b'$' ∷ (hex_encode salt ++ (b'$' ∷ []))))))
      ≡ true
unfolding verify
verify_empty_key derive password salt hs e =
    rw
      (
        split_lacking b'$' scheme (codes "1" ++ (b'$' ∷ (hex_encode salt ++ (b'$' ∷ []))))
            (omega arith),
        split_lacking b'$' (codes "1") (hex_encode salt ++ (b'$' ∷ [])) (omega arith),
        split_lacking b'$' (hex_encode salt) [] (Lacks-hex_encode salt hs),
        split_nil,
        bytes_eq_refl scheme,
        atoi_one,
        hex_decode-hex_encode salt hs,
        decode_nil,
        e,
      )
      (bytes_eq_refl [])
