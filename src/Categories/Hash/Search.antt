-- ===== src/Categories/Hash/Search.antt =====
-- The binary search of sort.Search, and membership in a sorted set of hashes.
use gowebfilter.Base.{
  ℕ, zero, suc, ◌+◌, ◌/◌, ◌≤◌, ◌<◌, ◌≡◌, refl, sym, ap, ◌∙◌, subst, ◌⊎◌, inl, inr, Bool, true,
  false, none, some, List, [], ◌∷◌, arith, ltb, leb, ◌==◌, ltb→lt, leb→le, Bool-cases, false≢true,
  length, get_elem?, Within,
}
use gowebfilter.Categories.Hash.{at, hash_contains, search_from, search_index}

module _ (f : ℕ → Bool) where
  beyond :
      (mid j m : ℕ) → f mid ≡ false → mid < j → ((h : ℕ) → m ≤ h → h < j → f h ≡ true) → mid + 1 ≤ m
  beyond mid j m no_ lt up = elim (Bool-cases (leb m mid)) [
    | inl le ↦ absurd (false≢true (sym no_ ∙ up mid (leb→le m mid le) lt))
    | inr gt ↦ ground arith
  ]

  -- A place where the test holds, if it holds from there up to the end, bounds the search.
  search_from_least :
      (k i j m : ℕ) → i ≤ m → ((h : ℕ) → m ≤ h → h < j → f h ≡ true) → search_from k f i j ≤ m
  unfolding search_from
  search_from_least zero i j m le up = le
  search_from_least (suc k) i j m le up = elim (Bool-cases (ltb i j)) [
    | inr done_ ↦ rw done_ le
    | inl more ↦ elim (Bool-cases (f ((i + j) / 2))) [
      | inl yes_ ↦
          rw (more, yes_)
            (search_from_least k i ((i + j) / 2) m le (λ h p q. up h p (ltb→lt h j (ground arith))))
      | inr no_ ↦
          rw (more, no_)
            (search_from_least k ((i + j) / 2 + 1) j m
              (beyond ((i + j) / 2) j m no_ (ground arith) up) up)
    ]
  ]

  -- With fuel for the interval the search ends inside it, at its end or where the test holds.
  search_from_hit :
      (k i j : ℕ)
      → i ≤ j
      → j ≤ i + k
      → (search_from k f i j ≤ j) × ((f (search_from k f i j) ≡ true) ⊎ (search_from k f i j ≡ j))
  unfolding search_from
  search_from_hit zero i j le fuel = (le, inr (omega arith))
  search_from_hit (suc k) i j le fuel = elim (Bool-cases (ltb i j)) [
    | inr done_ ↦ rw done_ (le, inr (ground arith))
    | inl more ↦ elim (Bool-cases (f ((i + j) / 2))) [
      | inl yes_ ↦
          let (p, q) = search_from_hit k i ((i + j) / 2) (ground arith) (ground arith) in
          rw (more, yes_) (ground arith, inl (elim q [ inl at_r ↦ at_r | inr e ↦ ap f e ∙ yes_ ]))
      | inr no_ ↦
          rw (more, no_) (search_from_hit k ((i + j) / 2 + 1) j (ground arith) (ground arith))
    ]
  ]

-- The hashes do not descend.
abbrev pub Ascending : List ℕ → Type 0
Ascending [] = Unit
Ascending (x ∷ xs) = ((y : ℕ) → Within y xs → x ≤ y) × Ascending xs

get_elem?-at :
    (xs : List ℕ) (i : ℕ) → i < length xs → (get_elem? xs i ≡ some (at xs i)) × Within (at xs i) xs
get_elem?-at [] i lt = absurd (ground arith)
get_elem?-at (x ∷ xs) zero lt = (refl, Within.here)
get_elem?-at (x ∷ xs) (suc i) lt =
    let (e, w) = get_elem?-at xs i (omega arith) in (e, Within.there w)

at-Ascending : (xs : List ℕ) → Ascending xs → (a b : ℕ) → a ≤ b → b < length xs → at xs a ≤ at xs b
at-Ascending [] asc a b le lt = absurd (ground arith)
at-Ascending (x ∷ xs) (first, asc) zero zero le lt = omega arith
at-Ascending (x ∷ xs) (first, asc) zero (suc b) le lt =
    first (at xs b) (get_elem?-at xs b (omega arith)).1
at-Ascending (x ∷ xs) (first, asc) (suc a) zero le lt = absurd (ground arith)
at-Ascending (x ∷ xs) (first, asc) (suc a) (suc b) le lt =
    at-Ascending xs asc a b (omega arith) (omega arith)

Within-place : {v : ℕ} (xs : List ℕ) → Within v xs → (m : ℕ) × (m < length xs) × (at xs m ≡ v)
Within-place (x ∷ xs) Within.here = (0, omega arith, refl)
Within-place (x ∷ xs) (Within.there w) =
    let (m, lt, e) = Within-place xs w in (suc m, omega arith, e)
Within-place [] w = elim w [ ]

le→leb : (a b : ℕ) → a ≤ b → leb a b ≡ true
le→leb a b h = ground arith

found :
    (h : List ℕ) (v r : ℕ)
    → r < length h
    → at h r ≡ v
    → elim (get_elem? h r) [ none ↦ false | some x ↦ x == v ] ≡ true
found h v r lt e = rw (get_elem?-at h r lt).0 (ground (arith, e))

-- The search in a list of hashes that does not descend finds every hash of the list.
pub hash_contains_complete :
    (h : List ℕ) (v : ℕ) → Ascending h → Within v h → hash_contains h v ≡ true
unfolding hash_contains search_index
hash_contains_complete h v asc w =
    let (m, lt, e) = Within-place h w in
    let f : ℕ → Bool = λ k. leb v (at h k) in
    let up : ((k : ℕ) → m ≤ k → k < length h → f k ≡ true) =
      λ k le k_lt. le→leb v (at h k) (subst (λ t. t ≤ at h k) e (at-Ascending h asc m k le k_lt)) in
    let r : ℕ = search_from (length h) f 0 (length h) in
    let small : r ≤ m = search_from_least f (length h) 0 (length h) m (omega arith) up in
    let hit = search_from_hit f (length h) 0 (length h) (omega arith) (omega arith) in
    let below : r < length h = omega (arith, small, lt) in
    let high : v ≤ at h r = elim hit.1 [
      | inl yes_ ↦ leb→le v (at h r) yes_
      | inr end_ ↦ absurd (ground (arith, end_, below))
    ] in
    let low : at h r ≤ v = subst (λ t. at h r ≤ t) e (at-Ascending h asc r m small lt) in
    found h v r below (omega (arith, high, low))
