-- ===== src/Adblock/Matching/Literal.antt =====
-- The search of a pattern from the places of its leading literal.
use gowebfilter.Base.{
  ◌≡◌, refl, inl, inr, Bool, true, false, ◌&&◌, ◌||◌, not, List, [], ◌∷◌, arith, ◌==◌,
  if◌then◌else◌, Bool-cases, drop, Bytes, cut_prefix, has_prefix, is_empty, any_of,
}
use gowebfilter.Adblock.Context.{MatchCtx}
use gowebfilter.Adblock.Glob.Matcher.{glob_match-glob_means}
use gowebfilter.Adblock.Glob.Reference.{any_suffix, glob_means}
use gowebfilter.Adblock.Matching.{pattern_matches, pattern_means, try_literal}
use gowebfilter.Adblock.Parse.{literal_of}
use gowebfilter.Adblock.Rules.{NetRule}

literal_lem :
    (e : Bool) (p s : Bytes) → glob_means e p s ≡ true → has_prefix s (literal_of p) ≡ true
unfolding glob_means literal_of cut_prefix
literal_lem e [] [] h = refl
literal_lem e [] (d ∷ s) h = refl
literal_lem e (c ∷ p) [] h = ground arith
literal_lem e (c ∷ p) (d ∷ s) h = elim (Bool-cases (c == b'*' || c == b'^')) [
  | inl wild ↦ rw wild refl
  | inr plain ↦ ground (arith, literal_lem e p s)
]

guarded : (b : Bool) {x y : Bool} → x ≡ y → (y ≡ true → b ≡ true) → b && x ≡ y
guarded true same begins = same
guarded false {y = true} same begins = begins refl
guarded false {y = false} same begins = refl

or_if : (x r : Bool) → (if x then true else r) ≡ x || r
or_if true r = refl
or_if false r = refl

try_literal_all :
    (lit : Bytes) (f g : Bytes → Bool) (s : Bytes)
    → ((t : Bytes) → f t ≡ g t)
    → ((t : Bytes) → g t ≡ true → has_prefix t lit ≡ true)
    → try_literal lit f s ≡ any_suffix g s
unfolding try_literal any_suffix
try_literal_all lit f g [] same begins = guarded (has_prefix [] lit) (same []) (begins [])
try_literal_all lit f g (d ∷ s) same begins =
    rw
      (
        guarded (has_prefix (d ∷ s) lit) (same (d ∷ s)) (begins (d ∷ s)),
        try_literal_all lit f g s same begins,
      )
      (or_if (g (d ∷ s)) (any_suffix g s))

choice :
    (a b n : Bool) {x x' y y' z w w' : Bool}
    → x ≡ x'
    → y ≡ y'
    → z ≡ w'
    → w ≡ w'
    → (if a then x else if b then y else if n then z else w)
      ≡ (if a then x' else if b then y' else w')
choice true b n ex ey ez ew = ex
choice false true n ex ey ez ew = ey
choice false false true ex ey ez ew = ez
choice false false false ex ey ez ew = ew

any_of-same :
    {A : Type 0} (f g : A → Bool) (xs : List A) → ((x : A) → f x ≡ g x) → any_of f xs ≡ any_of g xs
unfolding any_of
any_of-same f g [] same = refl
any_of-same f g (x ∷ xs) same = rw (same x, any_of-same f g xs same) refl

-- A text pattern with its leading literal matches an address exactly where what it describes stands:
-- at the start of a label of the host, at the start, or anywhere, by its anchor. The search from the
-- places of the literal misses nothing.
pub pattern_matches-pattern_means :
    (r : NetRule) (c : MatchCtx)
    → r.lit ≡ literal_of r.pattern_text
    → pattern_matches r c ≡ pattern_means r c
unfolding pattern_matches pattern_means
pattern_matches-pattern_means r c lit =
    let subject : Bytes = if r.match_case then c.url else c.url_lower in
    let here = λ (s : Bytes). glob_match-glob_means r.pattern_text s true r.anchor_end in
    choice r.anchor_host r.anchor_start (not (is_empty r.lit))
      (any_of-same _ _ c.host_starts (λ n. here (drop n subject))) (here subject)
      (try_literal_all r.lit _ (glob_means r.anchor_end r.pattern_text) subject here
        (λ t m. rw lit (literal_lem r.anchor_end r.pattern_text t m)))
      (glob_match-glob_means r.pattern_text subject false r.anchor_end)
