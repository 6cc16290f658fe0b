-- ===== src/Adblock/Index/Runs.antt =====
-- The runs of token bytes in a text: where they stand, and that each is found.
use gowebfilter.Base.{
  ℕ, ◌≡◌, refl, sym, ap, ◌∙◌, subst, inl, inr, Bool, true, false, ◌&&◌, not, Option, none, some,
  List, [], ◌∷◌, ◌++◌, Bool-cases, or_else, Bytes, Within, no_member,
}
use gowebfilter.Adblock.Context.{Run, is_token_byte, leading_run, push_run, token_runs}
use gowebfilter.Categories.Hash.{at}

-- The last byte and the first.
unfoldable pub last_of : Bytes → Option ℕ
last_of [] = none
last_of (c ∷ s) = some (or_else (last_of s) c)

abbrev pub head_of : Bytes → Option ℕ
head_of [] = none
head_of (c ∷ s) = some c

-- No token byte stands there.
abbrev pub is_clear : Option ℕ → Bool
is_clear none = true
is_clear (some b) = not (is_token_byte b)

unfoldable pub all_tokens : Bytes → Bool
unfolding is_token_byte
all_tokens [] = true
all_tokens (c ∷ s) = is_token_byte c && all_tokens s

pub last_of-append : (x a : Bytes) (b : ℕ) → last_of a ≡ some b → last_of (x ++ a) ≡ some b
unfolding last_of
last_of-append [] a b h = h
last_of-append (c ∷ x) a b h = rw (last_of-append x a b h) refl

-- A run in its place.
pub record IsRunOf (s : Bytes) (run : Run) : Type 0 where
  pub front : Bytes
  pub back : Bytes
  pub whole : s ≡ front ++ (run.token ++ back)
  pub at_left : last_of front ≡ run.left
  pub at_right : head_of back ≡ run.right
  pub in_run : all_tokens run.token ≡ true
  pub left_clear : is_clear run.left ≡ true
  pub right_clear : is_clear run.right ≡ true

-- What leading_run is to answer of a text.
pub record IsLeading (s t : Bytes) (r : Option ℕ) (rs : List Run) : Type 0 where
  pub rest : Bytes
  pub whole : s ≡ t ++ rest
  pub at_right : head_of rest ≡ r
  pub in_run : all_tokens t ≡ true
  pub right_clear : is_clear r ≡ true
  pub later_runs : (run : Run) → Within run rs → IsRunOf s run × (l : ℕ) × (run.left ≡ some l)

abbrev IsLeadingOf : Bytes → (Bytes × Option ℕ) × List Run → Type 0
IsLeadingOf s x = IsLeading s x.0.0 x.0.1 x.1

pub leading_run-token :
    (c : ℕ) (s : Bytes)
    → is_token_byte c ≡ true
    → leading_run (c ∷ s) ≡ ((c ∷ (leading_run s).0.0, (leading_run s).0.1), (leading_run s).1)
unfolding leading_run
leading_run-token c s token = rw token refl

pub leading_run-plain :
    (c : ℕ) (s : Bytes)
    → is_token_byte c ≡ false
    → leading_run (c ∷ s)
      ≡ (([], some c), push_run (some c) (leading_run s).0.0 (leading_run s).0.1 (leading_run s).1)
unfolding leading_run
leading_run-plain c s plain = rw plain refl

last_of-cons : (c l : ℕ) (front : Bytes) → last_of front ≡ some l → last_of (c ∷ front) ≡ some l
unfolding last_of
last_of-cons c l front h = rw h refl

later_run :
    (c : ℕ) (s : Bytes) (run : Run)
    → IsRunOf s run × (l : ℕ) × (run.left ≡ some l)
    → IsRunOf (c ∷ s) run × (l : ℕ) × (run.left ≡ some l)
later_run c s run (at, l, left) = (
  record {
    front = c ∷ at.front;
    back = at.back;
    whole = ap (λ (u : Bytes). c ∷ u) at.whole;
    at_left = last_of-cons c l at.front (at.at_left ∙ left) ∙ sym left;
    at_right = at.at_right;
    in_run = at.in_run;
    left_clear = at.left_clear;
    right_clear = at.right_clear;
  },
  l,
  left,
)

pushed_runs :
    (c : ℕ) (s t : Bytes) (r : Option ℕ) (rs : List Run)
    → is_token_byte c ≡ false
    → IsLeading s t r rs
    → (run : Run) → Within run (push_run (some c) t r rs)
    → IsRunOf (c ∷ s) run × (l : ℕ) × (run.left ≡ some l)
unfolding last_of
pushed_runs c s [] r rs plain leading run w = later_run c s run (leading.later_runs run w)
pushed_runs c s (d ∷ t) r rs plain leading run (Within.there w) =
    later_run c s run (leading.later_runs run w)
pushed_runs c s (d ∷ t) r rs plain leading run Within.here = (
  record {
    front = c ∷ [];
    back = leading.rest;
    whole = ap (λ (u : Bytes). c ∷ u) leading.whole;
    at_left = refl;
    at_right = leading.at_right;
    in_run = leading.in_run;
    left_clear = rw plain refl;
    right_clear = leading.right_clear;
  },
  c,
  refl,
)

pub leading_run-IsLeading : (s : Bytes) → IsLeadingOf s (leading_run s)
unfolding leading_run all_tokens
leading_run-IsLeading [] = record {
  rest = [];
  whole = refl;
  at_right = refl;
  in_run = refl;
  right_clear = refl;
  later_runs = λ run w. absurd (no_member w);
}
leading_run-IsLeading (c ∷ s) =
    let leading = leading_run-IsLeading s in
    elim (Bool-cases (is_token_byte c)) [
      | inl token ↦ subst (IsLeadingOf (c ∷ s)) (sym (leading_run-token c s token)) (record {
        rest = leading.rest;
        whole = ap (λ (u : Bytes). c ∷ u) leading.whole;
        at_right = leading.at_right;
        in_run = rw (token, leading.in_run) refl;
        right_clear = leading.right_clear;
        later_runs = λ run w. later_run c s run (leading.later_runs run w);
      })
      | inr plain ↦ subst (IsLeadingOf (c ∷ s)) (sym (leading_run-plain c s plain)) (record {
        rest = c ∷ s;
        whole = refl;
        at_right = refl;
        in_run = refl;
        right_clear = rw plain refl;
        later_runs = pushed_runs c s _ _ _ plain leading;
      })
    ]

first_runs :
    (s t : Bytes) (r : Option ℕ) (rs : List Run)
    → IsLeading s t r rs
    → (run : Run) → Within run (push_run none t r rs)
    → IsRunOf s run
unfolding last_of
first_runs s [] r rs leading run w = (leading.later_runs run w).0
first_runs s (d ∷ t) r rs leading run (Within.there w) = (leading.later_runs run w).0
first_runs s (d ∷ t) r rs leading run Within.here = record {
  front = [];
  back = leading.rest;
  whole = leading.whole;
  at_left = refl;
  at_right = leading.at_right;
  in_run = leading.in_run;
  left_clear = refl;
  right_clear = leading.right_clear;
}

pub token_runs-IsRunOf : (s : Bytes) (run : Run) → Within run (token_runs s) → IsRunOf s run
unfolding token_runs
token_runs-IsRunOf s run w = first_runs s _ _ _ (leading_run-IsLeading s) run w
