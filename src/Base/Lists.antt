-- ===== src/Base/Lists.antt =====
-- Lists measured and indexed by native numbers, under the library's names.
use Prim.Native.Nat.{ℕ, zero, suc, ◌+◌, ◌-◌, min}
use mathlib.Core.Path.{◌≡◌, refl}
use mathlib.Core.Logic.{◌⊎◌, ◌↔◌, inl, inr}
use mathlib.Core.Bool.{Bool, true, false, ◌||◌, false≢true}
use gowebfilter.Base.Tests.{Bool-cases}
use mathlib.Core.List.{List, [], ◌∷◌, ◌++◌}
use mathlib.Core.Option.{Option, none, some}
use native.Mathlib.Omega.{arith}

-- Membership, as data that can be matched.
pub data Within {ℓ} {A : Type ℓ} (x : A) : List A → Type ℓ where
  here : {xs : List A} → Within x (x ∷ xs)
  there : {y : A} {xs : List A} → Within x xs → Within x (y ∷ xs)

module _ {ℓ} {A : Type ℓ} where
  abbrev pub length : List A → ℕ
  length [] = 0
  length (x ∷ xs) = suc (length xs)

  abbrev pub get_elem? : List A → ℕ → Option A
  get_elem? [] i = none
  get_elem? (x ∷ xs) zero = some x
  get_elem? (x ∷ xs) (suc i) = get_elem? xs i

  pub length-append : (xs ys : List A) → length (xs ++ ys) ≡ length xs + length ys
  length-append [] ys = omega arith
  length-append (x ∷ xs) ys = omega (arith, length-append xs ys)

module _ {ℓ} {A : Type ℓ} where
  abbrev pub take : ℕ → List A → List A
  take zero xs = []
  take (suc n) [] = []
  take (suc n) (x ∷ xs) = x ∷ take n xs

  abbrev pub drop : ℕ → List A → List A
  drop zero xs = xs
  drop (suc n) [] = []
  drop (suc n) (x ∷ xs) = drop n xs

  pub take-append-drop : (n : ℕ) (xs : List A) → take n xs ++ drop n xs ≡ xs
  take-append-drop zero xs = refl
  take-append-drop (suc n) [] = refl
  take-append-drop (suc n) (x ∷ xs) = rw (take-append-drop n xs)

  pub length-take : (n : ℕ) (xs : List A) → length (take n xs) ≡ min n (length xs)
  length-take zero xs = omega arith
  length-take (suc n) [] = omega arith
  length-take (suc n) (x ∷ xs) = omega (arith, length-take n xs)

  pub length-drop : (n : ℕ) (xs : List A) → length (drop n xs) ≡ length xs - n
  length-drop zero xs = omega arith
  length-drop (suc n) [] = omega arith
  length-drop (suc n) (x ∷ xs) = omega (arith, length-drop n xs)

pub Within-append {ℓ} :
    {A : Type ℓ} {a : A} (xs ys : List A) → Within a (xs ++ ys) → Within a xs ⊎ Within a ys
Within-append [] ys w = inr w
Within-append (x ∷ xs) ys Within.here = inl Within.here
Within-append (x ∷ xs) ys (Within.there w) = elim (Within-append xs ys w) [
  | inl v ↦ inl (Within.there v)
  | inr v ↦ inr v
]

pub append_left {ℓ} :
    {A : Type ℓ} {a : A} {xs : List A} (ys : List A) → Within a xs → Within a (xs ++ ys)
append_left ys Within.here = Within.here
append_left ys (Within.there w) = Within.there (append_left ys w)

pub append_right {ℓ} :
    {A : Type ℓ} {a : A} (xs : List A) {ys : List A} → Within a ys → Within a (xs ++ ys)
append_right [] w = w
append_right (x ∷ xs) w = Within.there (append_right xs w)

pub no_member {ℓ} : {A : Type ℓ} {a : A} → ¬ Within a []
no_member w = elim w [ ]

pub Within-cons {ℓ} :
    {A : Type ℓ} {a x : A} {xs : List A} → Within a (x ∷ xs) → (a ≡ x) ⊎ Within a xs
Within-cons Within.here = inl refl
Within-cons (Within.there w) = inr w

-- Some element of the list satisfies `P`: the meaning of a search loop.
abbrev pub Any {ℓ κ} : {A : Type ℓ} → (A → Type κ) → List A → Type (ℓ ⊔ κ)
Any {A} P xs = (x : A) × Within x xs × P x

-- The loop `for x in xs { if p(x) { return true } } return false`.
unfoldable pub any_of {ℓ} : {A : Type ℓ} → (A → Bool) → List A → Bool
any_of p [] = false
any_of p (x ∷ xs) = p x || any_of p xs

module _ {ℓ κ} {A : Type ℓ} (p : A → Bool) (P : A → Type κ)
    (p_iff : (x : A) → (p x ≡ true) ↔ P x) where
  any_of-Any : (xs : List A) → any_of p xs ≡ true → Any P xs
  unfolding any_of
  any_of-Any [] h = absurd (false≢true h)
  any_of-Any (x ∷ xs) h = elim (Bool-cases (p x)) [
    | inl yes_x ↦ (x, Within.here, (p_iff x).0 yes_x)
    | inr no_x ↦ let (y, w, py) = any_of-Any xs (rw no_x at h) in (y, Within.there w, py)
  ]

  Within→any_of : {x : A} {xs : List A} → Within x xs → p x ≡ true → any_of p xs ≡ true
  unfolding any_of
  Within→any_of Within.here h = rw h refl
  Within→any_of {xs = y ∷ ys} (Within.there w) h = elim (Bool-cases (p y)) [
    | inl e ↦ rw e refl
    | inr e ↦ rw e (Within→any_of w h)
  ]

  pub any_of_iff : (xs : List A) → (any_of p xs ≡ true) ↔ Any P xs
  any_of_iff xs = (any_of-Any xs, λ (x, w, px). Within→any_of w ((p_iff x).1 px))
