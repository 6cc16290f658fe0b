-- ===== src/Icap/Chunked.antt =====
-- internal/icap/chunked.go: chunked bodies. The input is the list of the bytes that the connection
-- still gives; running out of it is the error `eof`.
pub mod Reads
pub mod Bounds
use gowebfilter.Base.{
  ℕ, zero, suc, ◌+◌, ◌-◌, ◌*◌, ◌/◌, ◌%◌, ◌^◌, ◌≤◌, ◌<◌, ◌≡◌, refl, sym, ap, ap₂, ◌∙◌, subst, ◌≢◌,
  ◌↔◌, ◌⊎◌, inl, inr, Bool, true, false, ◌&&◌, ◌||◌, not, Option, none, some, List, [], ◌∷◌, ◌++◌,
  map, append-nil, append_assoc, arith, ltb, leb, ◌==◌, if◌then◌else◌, ltb→lt, lt→ltb, leb→le,
  ==_iff, Bool-cases, false≢true, Option-cases, or_else, none≢some, some_injective, length,
  length-append, take, drop, take-append-drop, length-take, get_elem?, Bytes, codes, bytes_eq,
  bytes_eq_iff, bytes_eq_refl, cut_prefix, cut_prefix-some, cut_prefix-append, is_some, has_prefix,
  trim_prefix, has_suffix, EndsIn, has_suffix_iff, has_byte, cut_byte, is_space, trim_space,
  to_lower, lower_byte, split_byte, contains, cut_text, cut_text-parts, cut_last_byte, contains_any,
  trim_suffix, is_one_of, and_then, on_some, both, not-true, is_empty, ℤ, pos, negsuc, atoi,
  atoi_two, itoa, itoa_digit, digits, IsDigit, hex_digit, hex_value, hex_value-hex_digit,
  split_byte-cons, eq_ne, is_digit, Within, Within-append, Within-cons, append_left, append_right,
  no_member, Any, any_of, any_of_iff,
}

pub data ChunkError : Type 0 where
  eof line_too_long bad_size expected_crlf out_of_fuel : ChunkError

pub data Read {ℓ} (A : Type ℓ) : Type ℓ where
  done : A → Bytes → Read A
  fail : ChunkError → Read A

-- What follows a read that gave something.
abbrev pub then_read {ℓ κ} : {A : Type ℓ} {B : Type κ} → Read A → (A → Bytes → Read B) → Read B
then_read (done a s) f = f a s
then_read (fail e) f = fail e

infixl 5 ◌>>=◌
abbrev pub ◌>>=◌ {ℓ κ} :
    {A : Type ℓ} {B : Type κ} → (Bytes → Read A) → (A → Bytes → Read B) → Bytes → Read B
◌>>=◌ m f s = then_read (m s) f

abbrev pub max_chunk_line_bytes : ℕ
max_chunk_line_bytes = 1024

-- strings.TrimSuffix(s, "\r")
unfoldable pub trim_cr : Bytes → Bytes
trim_cr [] = []
trim_cr (c ∷ s) = let rest = trim_cr s in if is_empty s && c == 13 then [] else c ∷ rest

-- readLine: the line so far, and how many bytes it may still take.
unfoldable pub read_line_from : Bytes → ℕ → Bytes → Read Bytes
unfolding trim_cr
read_line_from line room [] = fail eof
read_line_from line zero (b ∷ s) = if b == 10 then done (trim_cr line) s else fail line_too_long
read_line_from line (suc room) (b ∷ s) =
    let rest = read_line_from (line ++ b ∷ []) room s in
    if b == 10 then done (trim_cr line) s else rest

unfoldable pub read_line : ℕ → Bytes → Read Bytes
unfolding read_line_from
read_line limit s = read_line_from [] limit s

unfoldable pub hex_from : ℕ → Bytes → Option ℕ
unfolding hex_value
hex_from n [] = some n
hex_from n (c ∷ s) = elim (hex_value c) [ none ↦ none | some d ↦ hex_from (n * 16 + d) s ]

-- strconv.ParseUint(s, 16, 31)
unfoldable pub parse_hex : Bytes → Option ℕ
unfolding hex_from
parse_hex [] = none
parse_hex (c ∷ s) = elim (hex_from 0 (c ∷ s)) [
  | none ↦ none
  | some n ↦ if ltb n (2 ^ 31) then some n else none
]

-- readChunkHeader: the size and the raw extension.
abbrev pub size_or_error : Option ℕ → Bytes → Bytes → Read (ℕ × Bytes)
size_or_error none ext s = fail bad_size
size_or_error (some n) ext s = done (n, ext) s

abbrev pub header_of : Bytes → Bytes → Bytes → Read (ℕ × Bytes)
header_of size ext s = size_or_error (parse_hex (trim_space size)) ext s

unfoldable pub read_chunk_header : Bytes → Read (ℕ × Bytes)
unfolding read_line parse_hex cut_byte trim_space
read_chunk_header = do
  line ← read_line max_chunk_line_bytes
  header_of (cut_byte b';' line).0 (or_else (cut_byte b';' line).1 [])

unfoldable pub has_ieof : Bytes → Bool
unfolding any_of split_byte to_lower trim_space bytes_eq
has_ieof ext =
    any_of (λ part. bytes_eq (to_lower (trim_space part)) (codes "ieof")) (split_byte b';' ext)

-- The test for an empty line.
abbrev pub on_blank {ℓ} : {A : Type ℓ} → Bytes → Read A → Read A → Read A
on_blank [] x y = x
on_blank (c ∷ line) x y = y

-- discardTrailer, with fuel for the number of lines.
unfoldable pub discard_trailer : ℕ → Bytes → Read (Unit {0})
unfolding read_line
discard_trailer zero s = fail out_of_fuel
discard_trailer (suc f) s =
    then_read (read_line max_chunk_line_bytes s)
      (λ line rest. let more = discard_trailer f rest in on_blank line (done tt rest) more)

unfoldable pub expect_crlf : Bytes → Read (Unit {0})
unfolding read_line
expect_crlf s =
    then_read (read_line 2 s) (λ line rest. on_blank line (done tt rest) (fail expected_crlf))

-- io.ReadFull and io.CopyN: the first n bytes.
unfoldable pub read_full : ℕ → Bytes → Read Bytes
read_full zero s = done [] s
read_full (suc n) [] = fail eof
read_full (suc n) (b ∷ s) = then_read (read_full n s) (λ chunk rest. done (b ∷ chunk) rest)

pub record Body : Type 0 where
  pub bytes : Bytes
  pub ieof : Bool
  pub truncated : Bool

-- What readChunkedBody gives, or one round of its loop: on an error what is read so far goes with it.
pub data Gather {ℓ} (A : Type ℓ) : Type ℓ where
  gathered : A → Bytes → Gather A
  stopped : ChunkError → Body → Gather A

abbrev pub part_read : Bytes → Bool → Body
part_read buf truncated = record { bytes = buf; ieof = false; truncated = truncated }

-- What follows a read with that much in the buffer.
abbrev pub then_gather {ℓ κ} :
    {A : Type ℓ} {B : Type κ} → Read A → Body → (A → Bytes → Gather B) → Gather B
then_gather (done a s) part f = f a s
then_gather (fail e) part f = stopped e part

abbrev pub then_next {ℓ κ} :
    {A : Type ℓ} {B : Type κ} → Gather A → (A → Bytes → Gather B) → Gather B
then_next (gathered a s) f = f a s
then_next (stopped e part) f = stopped e part

-- The CRLF behind a chunk.
abbrev pub end_chunk : Bytes → Bool → Bytes → Gather (Bytes × Bool)
end_chunk buf truncated s =
    then_gather (expect_crlf s) (part_read buf truncated) (λ _ rest. gathered (buf, truncated) rest)

-- The part of a chunk that is kept, with the buffer and the flag behind it. What does not fit is
-- taken off the wire and dropped.
unfoldable pub take_chunk : ℕ → ℕ → Bytes → Bool → Bytes → Gather (Bytes × Bool)
unfolding read_full expect_crlf
take_chunk limit size buf truncated s =
    if leb size (limit - length buf)
    then then_gather (read_full size s) (part_read buf truncated)
        (λ chunk rest. end_chunk (buf ++ chunk) truncated rest)
    else then_gather (read_full (limit - length buf) s) (part_read buf true) (λ chunk rest.
      then_gather (read_full (size - (limit - length buf)) rest) (part_read (buf ++ chunk) true)
        (λ _ after. end_chunk (buf ++ chunk) true after))

-- The zero chunk ends the body.
abbrev pub last_chunk : Bytes → Bool → Bytes → Bytes → Gather Body
last_chunk buf truncated ext s =
    then_gather (discard_trailer (suc (length s)) s) (part_read buf truncated)
      (λ _ rest. gathered (record { bytes = buf; ieof = has_ieof ext; truncated = truncated }) rest)

-- The loop of readChunkedBody, with fuel for the number of chunks.
unfoldable pub read_chunks : ℕ → ℕ → Bytes → Bool → Bytes → Gather Body
unfolding read_chunk_header take_chunk discard_trailer has_ieof
read_chunks zero limit buf truncated s = stopped out_of_fuel (part_read buf truncated)
read_chunks (suc f) limit buf truncated s =
    then_gather (read_chunk_header s) (part_read buf truncated) (λ header rest. elim header.0 [
      | zero ↦ last_chunk buf truncated header.1 rest
      | suc n ↦
          then_next (take_chunk limit (suc n) buf truncated rest)
            (λ kept after. read_chunks f limit kept.0 kept.1 after)
    ])

-- Every chunk takes bytes of the input, so its length is fuel enough.
unfoldable pub read_chunked_body : ℕ → Bytes → Gather Body
unfolding read_chunks
read_chunked_body limit s = read_chunks (suc (length s)) limit [] false s

-- fmt's %x of a number that is not negative.
unfoldable pub hex_print : ℕ → ℕ → Bytes → Bytes
hex_print zero n out = out
hex_print (suc f) n out =
    let rest = hex_print f (n / 16) (hex_digit (n % 16) ∷ out) in
    if ltb n 16 then hex_digit n ∷ out else rest

unfoldable pub format_hex : ℕ → Bytes
unfolding hex_print
format_hex n = hex_print (suc n) n []

abbrev pub crlf : Bytes
crlf = 13 ∷ 10 ∷ []

-- writeChunkedBody
unfoldable pub write_chunked_body : Bytes → Bytes
unfolding format_hex
write_chunked_body [] = codes "0" ++ (crlf ++ crlf)
write_chunked_body (b ∷ body) =
    format_hex (length (b ∷ body))
    ++ (crlf ++ ((b ∷ body) ++ (crlf ++ (codes "0" ++ (crlf ++ crlf)))))
