-- ===== src/Icap/Chunked/Bounds.antt =====
-- Reading a chunked body ends, and never takes more memory than its limit.
use gowebfilter.Base.{
  ℕ, zero, suc, ◌-◌, ◌≤◌, ◌<◌, ◌≡◌, refl, sym, ap, ◌∙◌, ◌≢◌, inl, inr, Bool, true, false, [], ◌++◌,
  arith, leb, leb→le, Bool-cases, false≢true, length, length-append, Bytes,
}
use gowebfilter.Icap.Chunked.{
  Body, ChunkError, Gather, Read, bad_size, discard_trailer, done, end_chunk, eof, expect_crlf,
  expected_crlf, fail, gathered, last_chunk, line_too_long, out_of_fuel, part_read,
  read_chunk_header, read_chunked_body, read_chunks, read_full, stopped, take_chunk, then_gather,
  then_next,
}
use gowebfilter.Icap.Chunked.Reads.{
  Ends, Fewer, Full, NoMore, discard_trailer-Ends, expect_crlf-Ends, read_chunk_header-Ends,
  read_full-Ends,
}

-- A result that is not for lack of fuel, and what holds of what it gives: `P` of a result, and the limit
-- for what an error leaves in the buffer.
abbrev pub Gathers {ℓ} : {A : Type ℓ} → ℕ → (A → Bytes → Type 0) → Gather A → Type 0
Gathers limit P (gathered a s) = P a s
Gathers limit P (stopped e part) = (e ≢ out_of_fuel) × (length part.bytes ≤ limit)

is_fuel : ChunkError → Bool
is_fuel out_of_fuel = true
is_fuel eof = false
is_fuel line_too_long = false
is_fuel bad_size = false
is_fuel expected_crlf = false

enough_fuel : (e : ChunkError) → is_fuel e ≡ false → e ≢ out_of_fuel
unfolding is_fuel
enough_fuel e h same = false≢true (sym h ∙ ap is_fuel same)

fail-Ends {ℓ} :
    {A : Type ℓ} (P : A → Bytes → Type 0) (e : ChunkError) → Ends P (fail e) → is_fuel e ≡ false
unfolding is_fuel
fail-Ends P eof h = refl
fail-Ends P line_too_long h = refl
fail-Ends P bad_size h = refl
fail-Ends P expected_crlf h = refl
fail-Ends P out_of_fuel h = absurd h

Gathers-then_gather {ℓ κ} :
    {A : Type ℓ} {B : Type κ} (limit : ℕ) (P : A → Bytes → Type 0) (Q : B → Bytes → Type 0)
    (r : Read A) (part : Body) (f : A → Bytes → Gather B)
    → Ends P r
    → length part.bytes ≤ limit
    → ((a : A) (s : Bytes) → P a s → Gathers limit Q (f a s))
    → Gathers limit Q (then_gather r part f)
Gathers-then_gather limit P Q (done a s) part f p le q = q a s p
Gathers-then_gather limit P Q (fail e) part f p le q = (enough_fuel e (fail-Ends P e p), le)

Gathers-then_next {ℓ κ} :
    {A : Type ℓ} {B : Type κ} (limit : ℕ) (P : A → Bytes → Type 0) (Q : B → Bytes → Type 0)
    (r : Gather A) (f : A → Bytes → Gather B)
    → Gathers limit P r
    → ((a : A) (s : Bytes) → P a s → Gathers limit Q (f a s))
    → Gathers limit Q (then_next r f)
Gathers-then_next limit P Q (gathered a s) f p q = q a s p
Gathers-then_next limit P Q (stopped e part) f p q = p

-- The buffer behind a chunk is within its limit.
abbrev Kept : ℕ → Bytes → Bytes × Bool → Bytes → Type 0
Kept limit s kept rest = (length kept.0 ≤ limit) × (length rest ≤ length s)

end_chunk-Gathers :
    (limit : ℕ) (buf : Bytes) (truncated : Bool) (s : Bytes)
    → length buf ≤ limit
    → Gathers limit (Kept limit s) (end_chunk buf truncated s)
end_chunk-Gathers limit buf truncated s le =
    Gathers-then_gather limit (NoMore s) (Kept limit s) (expect_crlf s) (part_read buf truncated) _
      (expect_crlf-Ends s) le (λ _ rest less. (le, less))

Kept-weaken :
    (limit : ℕ) (s t : Bytes) (r : Gather (Bytes × Bool))
    → length t ≤ length s
    → Gathers limit (Kept limit t) r
    → Gathers limit (Kept limit s) r
Kept-weaken limit s t (gathered a rest) le (fits, less) = (fits, omega (arith, le, less))
Kept-weaken limit s t (stopped e part) le h = h

take_chunk-Gathers :
    (limit size : ℕ) (buf : Bytes) (truncated : Bool) (s : Bytes)
    → length buf ≤ limit
    → Gathers limit (Kept limit s) (take_chunk limit size buf truncated s)
unfolding take_chunk
take_chunk-Gathers limit size buf truncated s le =
    elim (Bool-cases (leb size (limit - length buf))) [
      | inl fits ↦ rw fits (
          Gathers-then_gather limit (Full size s) (Kept limit s) (read_full size s)
            (part_read buf truncated) _ (read_full-Ends size s) le
            (λ chunk rest (e, less).
              Kept-weaken limit s rest (end_chunk (buf ++ chunk) truncated rest) less (
                end_chunk-Gathers limit (buf ++ chunk) truncated rest (
                  ground (arith, length-append buf chunk, leb→le size (limit - length buf) fits)))))
      | inr over ↦
          let room : ℕ = limit - length buf in
          rw over (
            Gathers-then_gather limit (Full room s) (Kept limit s) (read_full room s)
              (part_read buf true) _ (read_full-Ends room s) le
              (λ chunk rest (e, less).
                let fits : length (buf ++ chunk) ≤ limit =
                  ground (arith, length-append buf chunk) in
                Gathers-then_gather limit (Full (size - room) rest) (Kept limit s)
                  (read_full (size - room) rest) (part_read (buf ++ chunk) true) _
                  (read_full-Ends (size - room) rest) fits
                  (λ _ after (e', less').
                    Kept-weaken limit s after (end_chunk (buf ++ chunk) true after)
                      (omega (arith, less, less'))
                      (end_chunk-Gathers limit (buf ++ chunk) true after fits))))
    ]

-- The body that is given is within the limit.
abbrev pub IsBounded : ℕ → Body → Bytes → Type 0
IsBounded limit body rest = length body.bytes ≤ limit

last_chunk-Gathers :
    (limit : ℕ) (buf : Bytes) (truncated : Bool) (ext s : Bytes)
    → length buf ≤ limit
    → Gathers limit (IsBounded limit) (last_chunk buf truncated ext s)
last_chunk-Gathers limit buf truncated ext s le =
    Gathers-then_gather limit (NoMore s) (IsBounded limit) (discard_trailer (suc (length s)) s)
      (part_read buf truncated) _ (discard_trailer-Ends (suc (length s)) s (omega arith)) le
      (λ _ rest less. le)

read_chunks-Gathers :
    (f limit : ℕ) (buf : Bytes) (truncated : Bool) (s : Bytes)
    → length buf ≤ limit
    → length s < f
    → Gathers limit (IsBounded limit) (read_chunks f limit buf truncated s)
unfolding read_chunks
read_chunks-Gathers zero limit buf truncated s le fuel = absurd (ground arith)
read_chunks-Gathers (suc f) limit buf truncated s le fuel =
    Gathers-then_gather limit (Fewer s) (IsBounded limit) (read_chunk_header s)
      (part_read buf truncated) _ (read_chunk_header-Ends s) le
      (λ header rest lt.
        elim header.0
          as (λ k. Gathers limit (IsBounded limit) (elim k [
            | zero ↦ last_chunk buf truncated header.1 rest
            | suc n ↦
                then_next (take_chunk limit (suc n) buf truncated rest)
                  (λ kept after. read_chunks f limit kept.0 kept.1 after)
          ])) [
            | zero ↦ last_chunk-Gathers limit buf truncated header.1 rest le
            | suc n ↦
                Gathers-then_next limit (Kept limit rest) (IsBounded limit)
                  (take_chunk limit (suc n) buf truncated rest) _
                  (take_chunk-Gathers limit (suc n) buf truncated rest le)
                  (λ kept after (le', less).
                    read_chunks-Gathers f limit kept.0 kept.1 after le'
                      (omega (arith, less, lt, fuel)))
          ])

-- Reading a chunked body from any bytes ends, with a body or with one of the errors of the code and
-- never for lack of fuel, and the body that it gives, and what it gives beside an error, has at most
-- `limit` bytes.
pub read_chunked_body-Gathers :
    (limit : ℕ) (s : Bytes) → Gathers limit (IsBounded limit) (read_chunked_body limit s)
unfolding read_chunked_body
read_chunked_body-Gathers limit s =
    read_chunks-Gathers (suc (length s)) limit [] false s (omega arith) (omega arith)
