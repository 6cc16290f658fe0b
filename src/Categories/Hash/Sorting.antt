-- ===== src/Categories/Hash/Sorting.antt =====
-- The sorted list of hashes without repetitions has the hashes it began with.
use gowebfilter.Base.{
  ℕ, ◌≤◌, ◌≡◌, refl, sym, ◌∙◌, subst, ◌⊎◌, inl, inr, false, List, [], ◌∷◌, arith, ltb, ◌==◌, ==_iff,
  Bool-cases, Within, Within-cons, no_member,
}
use gowebfilter.Categories.Hash.{dedupe, dedupe_after, insert_hash, sort_hashes}
use gowebfilter.Categories.Hash.Search.{Ascending}

Within-insert_hash :
    {v : ℕ} (x : ℕ) (xs : List ℕ) → (v ≡ x) ⊎ Within v xs → Within v (insert_hash x xs)
unfolding insert_hash
Within-insert_hash x [] (inl e) = subst (λ t. Within t (x ∷ [])) (sym e) Within.here
Within-insert_hash x [] (inr w) = elim w [ ]
Within-insert_hash {v} x (y ∷ ys) h = elim (Bool-cases (ltb y x)) [
  | inr stop ↦ rw stop (elim h [
    | inl e ↦ subst (λ t. Within t (x ∷ y ∷ ys)) (sym e) Within.here
    | inr w ↦ Within.there w
  ])
  | inl more ↦ rw more (elim h [
    | inl e ↦ Within.there (Within-insert_hash x ys (inl e))
    | inr w ↦ elim (Within-cons w) [
      | inl e ↦ subst (λ t. Within t (y ∷ insert_hash x ys)) (sym e) Within.here
      | inr w' ↦ Within.there (Within-insert_hash x ys (inr w'))
    ]
  ])
]

insert_hash-Within :
    {v : ℕ} (x : ℕ) (xs : List ℕ) → Within v (insert_hash x xs) → (v ≡ x) ⊎ Within v xs
unfolding insert_hash
insert_hash-Within x [] w = Within-cons w
insert_hash-Within x (y ∷ ys) w = elim (Bool-cases (ltb y x)) [
  | inr stop ↦ Within-cons (rw stop at w)
  | inl more ↦ elim (Within-cons (rw more at w)) [
    | inl e ↦ inr (subst (λ t. Within t (y ∷ ys)) (sym e) Within.here)
    | inr w' ↦ elim (insert_hash-Within x ys w') [ inl e ↦ inl e | inr v ↦ inr (Within.there v) ]
  ]
]

insert_hash-Ascending : (x : ℕ) (xs : List ℕ) → Ascending xs → Ascending (insert_hash x xs)
unfolding insert_hash
insert_hash-Ascending x [] asc = (λ z w. absurd (no_member w), tt)
insert_hash-Ascending x (y ∷ ys) (first, asc) = elim (Bool-cases (ltb y x)) [
  | inr stop ↦ rw stop (
    λ z w. elim (Within-cons w) [
      | inl e ↦ ground (arith, stop, e)
      | inr v ↦ omega (arith, first z v, not_below y x stop)
    ],
    (first, asc),
  )
  | inl more ↦ rw more (
    λ z w. elim (insert_hash-Within x ys w) [ inl e ↦ ground (arith, more, e) | inr v ↦ first z v ],
    insert_hash-Ascending x ys asc,
  )
]
  where
    not_below : (a b : ℕ) → ltb a b ≡ false → b ≤ a
    not_below a b h = ground arith

sort_hashes-Ascending : (xs : List ℕ) → Ascending (sort_hashes xs)
unfolding sort_hashes
sort_hashes-Ascending [] = tt
sort_hashes-Ascending (x ∷ xs) = insert_hash-Ascending x (sort_hashes xs) (sort_hashes-Ascending xs)

Within-sort_hashes : {v : ℕ} (xs : List ℕ) → Within v xs → Within v (sort_hashes xs)
unfolding sort_hashes
Within-sort_hashes (x ∷ xs) Within.here = Within-insert_hash x (sort_hashes xs) (inl refl)
Within-sort_hashes (x ∷ xs) (Within.there w) =
    Within-insert_hash x (sort_hashes xs) (inr (Within-sort_hashes xs w))
Within-sort_hashes [] w = elim w [ ]

dedupe_after-Within :
    {v : ℕ} (prev : ℕ) (xs : List ℕ) → Within v (dedupe_after prev xs) → Within v xs
unfolding dedupe_after
dedupe_after-Within prev [] w = w
dedupe_after-Within prev (x ∷ xs) w = elim (Bool-cases (x == prev)) [
  | inl same ↦ Within.there (dedupe_after-Within x xs (rw same at w))
  | inr new_ ↦ elim (Within-cons (rw new_ at w)) [
    | inl e ↦ subst (λ t. Within t (x ∷ xs)) (sym e) Within.here
    | inr v ↦ Within.there (dedupe_after-Within x xs v)
  ]
]

dedupe_after-Ascending : (prev : ℕ) (xs : List ℕ) → Ascending xs → Ascending (dedupe_after prev xs)
unfolding dedupe_after
dedupe_after-Ascending prev [] asc = tt
dedupe_after-Ascending prev (x ∷ xs) (first, asc) = elim (Bool-cases (x == prev)) [
  | inl same ↦ rw same (dedupe_after-Ascending x xs asc)
  | inr new_ ↦
      rw new_ (λ z w. first z (dedupe_after-Within x xs w), dedupe_after-Ascending x xs asc)
]

Within-dedupe_after :
    {v : ℕ} (prev : ℕ) (xs : List ℕ) → Within v xs → (v ≡ prev) ⊎ Within v (dedupe_after prev xs)
unfolding dedupe_after
Within-dedupe_after prev [] w = inr w
Within-dedupe_after {v} prev (x ∷ xs) w =
    let rest : (v ≡ x) ⊎ Within v (dedupe_after x xs) = elim (Within-cons w) [
      | inl e ↦ inl e
      | inr w' ↦ Within-dedupe_after x xs w'
    ] in
    elim (Bool-cases (x == prev)) [
      | inl same ↦ elim rest [
        | inl e ↦ inl (e ∙ (==_iff x prev).0 same)
        | inr w' ↦ inr (rw same w')
      ]
      | inr new_ ↦ elim rest [
        | inl e ↦ inr (rw new_ (subst (λ t. Within t (x ∷ dedupe_after x xs)) (sym e) Within.here))
        | inr w' ↦ inr (rw new_ (Within.there w'))
      ]
    ]

dedupe-Ascending : (xs : List ℕ) → Ascending xs → Ascending (dedupe xs)
unfolding dedupe
dedupe-Ascending [] asc = tt
dedupe-Ascending (x ∷ xs) (first, asc) =
    (λ z w. first z (dedupe_after-Within x xs w), dedupe_after-Ascending x xs asc)

Within-dedupe : {v : ℕ} (xs : List ℕ) → Within v xs → Within v (dedupe xs)
unfolding dedupe
Within-dedupe (x ∷ xs) Within.here = Within.here
Within-dedupe (x ∷ xs) (Within.there w) = elim (Within-dedupe_after x xs w) [
  | inl e ↦ subst (λ t. Within t (x ∷ dedupe_after x xs)) (sym e) Within.here
  | inr v ↦ Within.there v
]
Within-dedupe [] w = elim w [ ]

-- The finished list of hashes does not descend and has every hash.
pub finished :
    (hs : List ℕ)
    → Ascending (dedupe (sort_hashes hs))
      × ((v : ℕ) → Within v hs → Within v (dedupe (sort_hashes hs)))
finished hs = (
  dedupe-Ascending (sort_hashes hs) (sort_hashes-Ascending hs),
  λ v w. Within-dedupe (sort_hashes hs) (Within-sort_hashes hs w),
)
