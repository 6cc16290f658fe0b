-- ===== src/Categories/Hash.antt =====
-- internal/categories/store.go: the two representations of a set of domains.
pub mod Search
pub mod Sorting
use gowebfilter.Base.{
  ℕ, zero, suc, ◌+◌, ◌*◌, ◌/◌, ◌%◌, ◌^◌, Bool, false, none, some, List, [], ◌∷◌, ltb, leb, ◌==◌,
  if◌then◌else◌, or_else, length, get_elem?, Bytes, bytes_eq, any_of,
}
use Prim.Native.Nat.{bit_xor}

-- FNV-1a on 64-bit words.
abbrev pub offset_basis : ℕ
offset_basis = 14695981039346656037

abbrev pub fnv_prime : ℕ
fnv_prime = 1099511628211

unfoldable pub fnv1a_from : ℕ → Bytes → ℕ
fnv1a_from h [] = h
fnv1a_from h (b ∷ s) = fnv1a_from (bit_xor h b * fnv_prime % 2 ^ 64) s

unfoldable pub fnv1a_hash : Bytes → ℕ
unfolding fnv1a_from
fnv1a_hash s = fnv1a_from offset_basis s

-- The loop of sort.Search over [i, j), with fuel.
unfoldable pub search_from : ℕ → (ℕ → Bool) → ℕ → ℕ → ℕ
search_from zero f i j = i
search_from (suc k) f i j =
    let h = (i + j) / 2 in
    let upper = search_from k f (h + 1) j in
    let lower = search_from k f i h in if ltb i j then (if f h then lower else upper) else i

-- sort.Search: a round shortens the interval, so its length is fuel enough.
unfoldable pub search_index : ℕ → (ℕ → Bool) → ℕ
unfolding search_from
search_index n f = search_from n f 0 n

-- `h[i]` for an index below the length.
abbrev pub at : List ℕ → ℕ → ℕ
at h i = or_else (get_elem? h i) 0

-- hashSet.contains
unfoldable pub hash_contains : List ℕ → ℕ → Bool
unfolding search_index
hash_contains h v =
    let i = search_index (length h) (λ k. leb v (at h k)) in
    elim (get_elem? h i) [ none ↦ false | some x ↦ x == v ]

pub data DomainSet : Type 0 where
  exact : List Bytes → DomainSet
  hashes : List ℕ → DomainSet

-- The interface method `contains` of both representations.
unfoldable pub set_contains : DomainSet → Bytes → Bool
unfolding hash_contains fnv1a_hash any_of
set_contains (exact m) domain = any_of (λ d. bytes_eq d domain) m
set_contains (hashes h) domain = hash_contains h (fnv1a_hash domain)

-- sort.Slice by `<`, as an insertion sort, and the loop that drops repeated neighbours.
unfoldable pub insert_hash : ℕ → List ℕ → List ℕ
insert_hash v [] = v ∷ []
insert_hash v (x ∷ xs) = let rest = insert_hash v xs in if ltb x v then x ∷ rest else v ∷ x ∷ xs

unfoldable pub sort_hashes : List ℕ → List ℕ
unfolding insert_hash
sort_hashes [] = []
sort_hashes (v ∷ vs) = insert_hash v (sort_hashes vs)

unfoldable pub dedupe_after : ℕ → List ℕ → List ℕ
dedupe_after prev [] = []
dedupe_after prev (x ∷ xs) = let rest = dedupe_after x xs in if x == prev then rest else x ∷ rest

unfoldable pub dedupe : List ℕ → List ℕ
unfolding dedupe_after
dedupe [] = []
dedupe (x ∷ xs) = x ∷ dedupe_after x xs
