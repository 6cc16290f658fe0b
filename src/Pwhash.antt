-- ===== src/Pwhash.antt =====
-- internal/pwhash/pbkdf2.go: stored password hashes. The key derivation of x/crypto is a parameter,
-- from a password, a salt, an iteration count and a key length.
pub mod Laws
use gowebfilter.Base.{
  ℕ, zero, suc, ◌+◌, ◌-◌, ◌*◌, ◌/◌, ◌%◌, ◌^◌, ◌≤◌, ◌<◌, ◌≡◌, refl, sym, ap, ap₂, ◌∙◌, subst, ◌≢◌,
  ◌↔◌, ◌⊎◌, inl, inr, Bool, true, false, ◌&&◌, ◌||◌, not, Option, none, some, List, [], ◌∷◌, ◌++◌,
  map, append-nil, append_assoc, arith, ltb, leb, ◌==◌, if◌then◌else◌, ltb→lt, lt→ltb, leb→le,
  ==_iff, Bool-cases, Option-cases, or_else, none≢some, some_injective, length, length-append, take,
  drop, get_elem?, Bytes, codes, bytes_eq, bytes_eq_iff, bytes_eq_refl, cut_prefix, cut_prefix-some,
  cut_prefix-append, is_some, has_prefix, trim_prefix, has_suffix, EndsIn, has_suffix_iff, has_byte,
  cut_byte, is_space, trim_space, to_lower, lower_byte, split_byte, contains, is_empty, ℤ, pos,
  negsuc, atoi, atoi_two, itoa, itoa_digit, digits, IsDigit, hex_digit, hex_value,
  hex_value-hex_digit, split_byte-cons, eq_ne, is_digit, Within, Within-append, Within-cons,
  append_left, append_right, no_member, Any, any_of, any_of_iff,
}

abbrev pub Derive : Type 0
Derive = Bytes → Bytes → ℕ → ℕ → Bytes

abbrev pub iterations : ℕ
iterations = 200_000

abbrev pub key_bytes : ℕ
key_bytes = 32

-- hex.EncodeToString
unfoldable pub hex_encode : Bytes → Bytes
hex_encode [] = []
hex_encode (b ∷ s) = hex_digit (b / 16) ∷ hex_digit (b % 16) ∷ hex_encode s

abbrev pub hex_byte : Option ℕ → Option ℕ → Option Bytes → Option Bytes
hex_byte (some h) (some l) (some rest) = some ((h * 16 + l) ∷ rest)
hex_byte _ _ _ = none

-- hex.DecodeString
unfoldable pub hex_decode : Bytes → Option Bytes
unfolding hex_value
hex_decode [] = some []
hex_decode (a ∷ []) = none
hex_decode (a ∷ b ∷ s) = hex_byte (hex_value a) (hex_value b) (hex_decode s)

abbrev pub scheme : Bytes
scheme = codes "pbkdf2_sha256"

-- Hash, for a salt that the random source gave.
unfoldable pub hash : Derive → Bytes → Bytes → Bytes
unfolding hex_encode itoa
hash derive password salt =
    scheme
    ++ (b'$'
        ∷ (itoa iterations
            ++ (b'$'
                ∷ (hex_encode salt
                    ++ (b'$' ∷ hex_encode (derive password salt iterations key_bytes))))))

abbrev check : Derive → Bytes → Option ℤ → Option Bytes → Option Bytes → Bool
check derive password (some (pos n)) (some salt) (some want) =
    ltb 0 n && bytes_eq (derive password salt n (length want)) want
check _ _ _ _ _ = false

abbrev pub verify_parts : Derive → Bytes → List Bytes → Bool
verify_parts derive password (name ∷ iters ∷ salt ∷ want ∷ []) =
    bytes_eq name scheme && check derive password (atoi iters) (hex_decode salt) (hex_decode want)
verify_parts _ _ _ = false

unfoldable pub verify : Derive → Bytes → Bytes → Bool
verify derive password stored = verify_parts derive password (split_byte b'$' stored)
