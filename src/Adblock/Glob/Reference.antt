-- ===== src/Adblock/Glob/Reference.antt =====
-- What a pattern means, apart from how the matcher goes about it.
-- The test holds of some end of the text.
use gowebfilter.Base.{
  ℕ, zero, suc, ◌+◌, ◌≡◌, refl, sym, ap, ◌∙◌, subst, inl, inr, Bool, true, false, ◌&&◌, ◌||◌, not,
  [], ◌∷◌, ◌++◌, arith, ◌==◌, if◌then◌else◌, Bool-cases, false≢true, length, drop, Bytes, both,
  is_empty,
}
use gowebfilter.Adblock.Glob.{byte_fits, only_wild}

unfoldable pub any_suffix : (Bytes → Bool) → Bytes → Bool
any_suffix f [] = f []
any_suffix f (d ∷ s) = f (d ∷ s) || any_suffix f s

-- A pattern on a text, from the start: `*` is any run of bytes, `^` one separator or the end of the
-- text, any other byte itself. Without the end anchor the text may go on.
unfoldable pub glob_means : Bool → Bytes → Bytes → Bool
unfolding any_suffix
glob_means anchor_end [] s = not anchor_end || is_empty s
glob_means anchor_end (c ∷ p) [] = (c == b'*' || c == b'^') && glob_means anchor_end p []
glob_means anchor_end (c ∷ p) (d ∷ s) =
    let starred = any_suffix (glob_means anchor_end p) (d ∷ s) in
    let next = glob_means anchor_end p s in if c == b'*' then starred else byte_fits c d && next

-- The same, of the ends of the text that begin behind its first byte.
unfoldable pub later : (Bytes → Bool) → Bytes → Bool
unfolding any_suffix
later f [] = false
later f (d ∷ s) = any_suffix f s

abbrev pub stars : Bytes → ℕ
stars [] = 0
stars (c ∷ p) = if c == b'*' then suc (stars p) else stars p

pub means-nil : (e : Bool) (p : Bytes) → glob_means e p [] ≡ only_wild p
unfolding glob_means only_wild
means-nil true [] = refl
means-nil false [] = refl
means-nil e (c ∷ p) = rw (means-nil e p)

pub stars-append : (p q : Bytes) → stars (p ++ q) ≡ stars p + stars q
stars-append [] q = omega arith
stars-append (c ∷ p) q = ground (arith, stars-append p q)

-- Ends of ends.
pub any_suffix_at :
    (f : Bytes → Bool) (j : ℕ) (t : Bytes) → f (drop j t) ≡ true → any_suffix f t ≡ true
unfolding any_suffix
any_suffix_at f zero [] h = h
any_suffix_at f zero (d ∷ t) h = rw h
any_suffix_at f (suc j) [] h = h
any_suffix_at f (suc j) (d ∷ t) h = or_right (f (d ∷ t)) (any_suffix f t) (any_suffix_at f j t h)
  where
    or_right : (a b : Bool) → b ≡ true → a || b ≡ true
    or_right true b h = refl
    or_right false b h = h

pub any_suffix-drop :
    (f : Bytes → Bool) (j : ℕ) (t : Bytes) → any_suffix f (drop j t) ≡ true → any_suffix f t ≡ true
unfolding any_suffix
any_suffix-drop f zero t h = h
any_suffix-drop f (suc j) [] h = h
any_suffix-drop f (suc j) (d ∷ t) h = elim (Bool-cases (f (d ∷ t))) [
  | inl found ↦ rw found
  | inr missed ↦ rw missed (any_suffix-drop f j t h)
]

pub any_suffix-place :
    (f : Bytes → Bool) (t : Bytes) → any_suffix f t ≡ true → (j : ℕ) × (f (drop j t) ≡ true)
unfolding any_suffix
any_suffix-place f [] h = (0, h)
any_suffix-place f (d ∷ t) h = elim (Bool-cases (f (d ∷ t))) [
  | inl found ↦ (0, found)
  | inr missed ↦ let (j, e) = any_suffix-place f t (rw missed at h) in (suc j, e)
]

later-place :
    (f : Bytes → Bool) (t : Bytes) → later f t ≡ true → (j : ℕ) × (f (drop (suc j) t) ≡ true)
unfolding later
later-place f [] h = absurd (false≢true h)
later-place f (d ∷ t) h = any_suffix-place f t h

pub later-cons : (f : Bytes → Bool) (t : Bytes) → f t || later f t ≡ any_suffix f t
unfolding later any_suffix
later-cons f [] = or_false (f [])
  where
    or_false : (b : Bool) → b || false ≡ b
    or_false true = refl
    or_false false = refl
later-cons f (d ∷ t) = refl

drop-nil : (n : ℕ) → drop {A = ℕ} n [] ≡ []
drop-nil zero = refl
drop-nil (suc n) = refl

drop-suc : (n : ℕ) (t : Bytes) → drop (suc n) t ≡ drop 1 (drop n t)
drop-suc zero t = refl
drop-suc (suc n) [] = refl
drop-suc (suc n) (x ∷ t) = drop-suc n t

drop_one : (n : ℕ) (t : Bytes) → drop n (drop 1 t) ≡ drop 1 (drop n t)
drop_one n [] = rw (drop-nil n) refl
drop_one n (x ∷ t) = drop-suc n (x ∷ t)

drop_swap : (n j : ℕ) (t : Bytes) → drop n (drop j t) ≡ drop j (drop n t)
drop_swap n zero t = refl
drop_swap n (suc j) t =
    ap (λ (u : Bytes). drop n u) (drop-suc j t)
    ∙ drop_one n (drop j t)
    ∙ ap (λ (u : Bytes). drop 1 u) (drop_swap n j t)
    ∙ sym (drop-suc j (drop n t))

drop-append : (front rest : Bytes) → drop (length front) (front ++ rest) ≡ rest
drop-append [] rest = refl
drop-append (x ∷ front) rest = drop-append front rest

pub or_absorbs : (b l : Bool) → (l ≡ true → b ≡ true) → b ≡ b || l
or_absorbs true l h = refl
or_absorbs false true h = h refl
or_absorbs false false h = refl

-- A part of a pattern without `*` takes a byte of the text for each of its own, up to the end.
means-drop :
    (e : Bool) (q p t : Bytes)
    → stars q ≡ 0
    → glob_means e (q ++ p) t ≡ true
    → glob_means e p (drop (length q) t) ≡ true
unfolding glob_means
means-drop e [] p t none_ h = h
means-drop e (c ∷ q) p [] none_ h =
    subst (λ u. glob_means e p u ≡ true) (drop-nil (length q))
      (means-drop e q p [] (ground (arith, none_)) (ground arith))
means-drop e (c ∷ q) p (d ∷ t) none_ h = elim (Bool-cases (c == b'*')) [
  | inl star ↦ absurd (ground arith)
  | inr plain ↦ means-drop e q p t (ground arith) (ground arith)
]

pub star_means :
    (e : Bool) (c : ℕ) (p t : Bytes)
    → (c == b'*') ≡ true
    → glob_means e (c ∷ p) t ≡ any_suffix (glob_means e p) t
unfolding glob_means any_suffix
star_means e c p [] star = rw star
star_means e c p (d ∷ t) star = rw star

-- A later start for the pattern behind a `*` is no gain over going on from here.
pub later-means :
    (e : Bool) (q1 p front s : Bytes)
    → stars q1 ≡ 0
    → length front ≡ length q1
    → later (glob_means e (q1 ++ p)) (front ++ s) ≡ true
    → (j : ℕ) × (glob_means e p (drop (suc j) s) ≡ true)
later-means e q1 p front s none_ same h =
    let (j, m) = later-place (glob_means e (q1 ++ p)) (front ++ s) h in
    (
      j,
      subst (λ (u : Bytes). glob_means e p u ≡ true)
          (drop_swap (length q1) (suc j) (front ++ s)
            ∙ ap (λ (u : Bytes). drop (suc j) u)
                (subst (λ n. drop n (front ++ s) ≡ s) same (drop-append front s)))
          (means-drop e q1 p (drop (suc j) (front ++ s)) none_ m),
    )

pub plain_means :
    (e : Bool) (c d : ℕ) (p s : Bytes)
    → (c == b'*') ≡ false
    → glob_means e (c ∷ p) (d ∷ s) ≡ true
    → (byte_fits c d ≡ true) × (glob_means e p s ≡ true)
unfolding glob_means
plain_means e c d p s plain h = both (byte_fits c d) (glob_means e p s) (rw plain at h)

pub nil_rest :
    (e : Bool) (c : ℕ) (p : Bytes) → glob_means e (c ∷ p) [] ≡ true → glob_means e p [] ≡ true
unfolding glob_means
nil_rest e c p h = (both (c == b'*' || c == b'^') (glob_means e p []) h).1

pub means_plain :
    (e : Bool) (c d : ℕ) (p s : Bytes)
    → (c == b'*') ≡ false
    → byte_fits c d ≡ true
    → glob_means e p s ≡ true
    → glob_means e (c ∷ p) (d ∷ s) ≡ true
unfolding glob_means
means_plain e c d p s plain fits rest = rw (plain, fits, rest) refl

pub means_wild :
    (e : Bool) (c : ℕ) (p : Bytes)
    → (c == b'*' || c == b'^') ≡ true
    → glob_means e p [] ≡ true
    → glob_means e (c ∷ p) [] ≡ true
unfolding glob_means
means_wild e c p wild rest = rw (wild, rest) refl
