-- ===== src/Adblock/Index/Tokens.antt =====
-- The token that a rule is kept under is one of the tokens of every address that its pattern matches.
use gowebfilter.Base.{
  ℕ, ◌≡◌, refl, sym, ap, ◌∙◌, subst, ◌⊎◌, inl, inr, Bool, true, false, ◌&&◌, ◌||◌, not, Option,
  none, some, List, [], ◌∷◌, ◌++◌, append-nil, append_assoc, ltb, ◌==◌, if◌then◌else◌, Bool-cases,
  false≢true, length, take, drop, take-append-drop, Bytes, bytes_eq, bytes_eq_iff, is_some,
  to_lower, is_one_of, not-true, is_empty, Within, Within-cons, no_member, Any, any_of, any_of_iff,
}
use gowebfilter.Adblock.Context.{
  MatchCtx, Run, distinct_tokens, find_host_starts, is_index_token, token_runs, tokens,
}
use gowebfilter.Adblock.Glob.Reference.{any_suffix, any_suffix-place, glob_means, later}
use gowebfilter.Adblock.Index.{best_of, best_token, better_token, side_holds}
use gowebfilter.Adblock.Index.Aligned.{Bounded, after_token, front_taken, is_star}
use gowebfilter.Adblock.Index.Found.{token_found}
use gowebfilter.Adblock.Index.Lowered.{drop-to_lower, means-to_lower}
use gowebfilter.Adblock.Index.Runs.{
  IsRunOf, head_of, is_clear, last_of, last_of-append, token_runs-IsRunOf,
}
use gowebfilter.Adblock.Index.Starts.{host_start_clear}
use gowebfilter.Adblock.Matching.{pattern_means}
use gowebfilter.Adblock.Rules.{NetRule}
use gowebfilter.Categories.Hash.{at}

-- A run of the pattern that may serve, by both its sides.
abbrev Facts : NetRule → Bytes → Run → Type 0
Facts r tok run =
    (run.token ≡ tok)
    × (side_holds (r.anchor_host || r.anchor_start) run.left ≡ true)
    × (side_holds r.anchor_end run.right ≡ true)
    × (is_index_token tok ≡ true)

abbrev Serves : NetRule → Bytes → List Run → Type 0
Serves r tok rs = (run : Run) × Within run rs × Facts r tok run

better-Serves :
    (r : NetRule) (best : Bytes) (run : Run) (rs : List Run)
    → (better_token r best run ≡ best) ⊎ Serves r (better_token r best run) (run ∷ rs)
unfolding better_token
better-Serves r best run rs =
    by_cases (side_holds (r.anchor_host || r.anchor_start) run.left)
      (side_holds r.anchor_end run.right) (ltb (length best) (length run.token))
      (is_index_token run.token) refl refl refl
  where
    by_cases :
        (a b l t : Bool)
        → side_holds (r.anchor_host || r.anchor_start) run.left ≡ a
        → side_holds r.anchor_end run.right ≡ b
        → is_index_token run.token ≡ t
        → ((if a && b && l && t then run.token else best) ≡ best)
          ⊎ Serves r (if a && b && l && t then run.token else best) (run ∷ rs)
    by_cases true true true true ea eb et = inr (run, Within.here, (refl, ea, eb, et))
    by_cases true true true false ea eb et = inl refl
    by_cases true true false t ea eb et = inl refl
    by_cases true false l t ea eb et = inl refl
    by_cases false b l t ea eb et = inl refl

Serves-there :
    (r : NetRule) (tok : Bytes) (run : Run) (rs : List Run)
    → Serves r tok rs
    → Serves r tok (run ∷ rs)
Serves-there r tok run rs (found, w, facts) = (found, Within.there w, facts)

Serves-same : (r : NetRule) (a b : Bytes) (rs : List Run) → a ≡ b → Serves r b rs → Serves r a rs
Serves-same r a b rs same = subst (λ (t : Bytes). Serves r t rs) (sym same)

best-Serves :
    (r : NetRule) (best : Bytes) (rs : List Run)
    → (best_of r best rs ≡ best) ⊎ Serves r (best_of r best rs) rs
unfolding best_of
best-Serves r best [] = inl refl
best-Serves r best (run ∷ rs) = elim (best-Serves r (better_token r best run) rs) [
  | inl same ↦ elim (better-Serves r best run rs) [
    | inl kept ↦ inl (same ∙ kept)
    | inr taken ↦ inr (Serves-same r _ _ (run ∷ rs) same taken)
  ]
  | inr found ↦ inr (Serves-there r _ run rs found)
]

-- Each token that may be indexed is kept, unless it has been seen.
kept_either :
    (b : Bool) (t x : Bytes) (rest : List Bytes)
    → Within t rest
    → Within t (if b then x ∷ rest else rest)
kept_either true t x rest w = Within.there w
kept_either false t x rest w = w

still_unseen :
    (b : Bool) (x tok : Bytes) (seen : List Bytes)
    → bytes_eq x tok ≡ false
    → is_one_of seen tok ≡ false
    → is_one_of (if b then x ∷ seen else seen) tok ≡ false
unfolding any_of
still_unseen true x tok seen apart unseen = rw (apart, unseen) refl
still_unseen false x tok seen apart unseen = unseen

distinct_has :
    (tok : Bytes) (rs : List Run) (seen : List Bytes)
    → is_index_token tok ≡ true
    → is_one_of seen tok ≡ false
    → Any (λ (run : Run). run.token ≡ tok) rs
    → Within tok (distinct_tokens seen rs)
unfolding distinct_tokens
distinct_has tok [] seen good unseen (found, w, same) = absurd (no_member w)
distinct_has tok (run ∷ rs) seen good unseen (found, w, same) =
    elim (Bool-cases (bytes_eq run.token tok)) [
      | inl eq ↦
          let e : run.token ≡ tok = (bytes_eq_iff run.token tok).0 eq in
          rw (e, good, unseen) Within.here
      | inr apart ↦ elim (Within-cons w) [
        | inl here ↦ absurd (
            false≢true (
              sym apart
              ∙ (bytes_eq_iff run.token tok).1 (ap (λ (u : Run). u.token) (sym here) ∙ same)))
        | inr later ↦
            kept_either (is_index_token run.token && not (is_one_of seen run.token)) tok run.token _
              (distinct_has tok rs _ good
                (still_unseen (is_index_token run.token && not (is_one_of seen run.token)) run.token
                  tok seen apart unseen)
                (found, later, same))
      ]
    ]

-- Where the pattern may begin, in the lower-case address: what stands there is what the tokenised
-- pattern describes, and behind an anchor no token byte comes before.
abbrev token_pattern : NetRule → Bytes
token_pattern r = if r.match_case then to_lower r.pattern_text else r.pattern_text

abbrev Begins : NetRule → MatchCtx → ℕ → Type 0
Begins r c n =
    (glob_means r.anchor_end (token_pattern r) (drop n c.url_lower) ≡ true)
    × (r.anchor_host || r.anchor_start ≡ true → is_clear (last_of (take n c.url_lower)) ≡ true)

lowered :
    (match_case e : Bool) (p url low : Bytes) (n : ℕ)
    → low ≡ to_lower url
    → glob_means e p (drop n (if match_case then url else low)) ≡ true
    → glob_means e (if match_case then to_lower p else p) (drop n low) ≡ true
lowered true e p url low n same m =
    subst (λ (u : Bytes). glob_means e (to_lower p) u ≡ true)
      (sym (drop-to_lower n url) ∙ ap (λ (u : Bytes). drop n u) (sym same))
      (means-to_lower e p (drop n url) m)
lowered false e p url low n same m = m

-- Where the test that a rule's anchor asks for holds.
locate :
    (host start : Bool) (f : Bytes → Bool) (subject : Bytes) (starts : List ℕ)
    → (if host
        then any_of (λ s. f (drop s subject)) starts
        else if start
        then f subject
        else any_suffix f subject)
      ≡ true
    → (n : ℕ) × (f (drop n subject) ≡ true) × (host || start ≡ true → Within n starts ⊎ (n ≡ 0))
locate true start f subject starts m =
    let (n, w, e) =
      (any_of_iff (λ s. f (drop s subject)) (λ s. f (drop s subject) ≡ true) (λ s. (λ h. h, λ h. h))
          starts).0
        m in
    (n, e, λ h. inl w)
locate false true f subject starts m = (0, m, λ h. inr refl)
locate false false f subject starts m =
    let (n, e) = any_suffix-place f subject m in (n, e, λ h. absurd (false≢true h))

pub begins :
    (r : NetRule) (c : MatchCtx)
    → c.url_lower ≡ to_lower c.url
    → c.host_starts ≡ find_host_starts c.url_lower
    → pattern_means r c ≡ true
    → (n : ℕ) × Begins r c n
unfolding pattern_means last_of
begins r c lower starts m =
    let (n, e, place) =
      locate r.anchor_host r.anchor_start (glob_means r.anchor_end r.pattern_text)
        (if r.match_case then c.url else c.url_lower) c.host_starts m in
    (
      n,
      (
        lowered r.match_case r.anchor_end r.pattern_text c.url c.url_lower n lower e,
        λ h. elim (place h) [
          | inl w ↦ host_start_clear c.url_lower n (subst (λ ns. Within n ns) starts w)
          | inr zero_ ↦ subst (λ k. is_clear (last_of (take k c.url_lower)) ≡ true) (sym zero_) refl
        ],
      ),
    )

side_star : (a : Bool) (o : Option ℕ) → side_holds a o ≡ true → is_star o ≡ false
side_star a none h = refl
side_star a (some b) h = not-true (b == b'*') h

side_end : (a : Bool) (o : Option ℕ) → side_holds a o ≡ true → is_some o || a ≡ true
side_end a none h = h
side_end a (some b) h = refl

side_anchored : (a : Bool) (o : Option ℕ) → o ≡ none → side_holds a o ≡ true → a ≡ true
side_anchored a o same h = subst (λ (x : Option ℕ). side_holds a x ≡ true) same h

-- What comes before the token in the address ends in no token byte.
before_clear :
    (a : Bool) (front x y : Bytes)
    → side_holds a (last_of front) ≡ true
    → (a ≡ true → is_clear (last_of x) ≡ true)
    → Bounded front y
    → is_clear (last_of (x ++ y)) ≡ true
unfolding last_of
before_clear a front x y side clear (inl (none_, empty)) =
    subst (λ (u : Bytes). is_clear (last_of u) ≡ true)
      (sym (append-nil x) ∙ ap (λ (u : Bytes). x ++ u) (sym empty))
      (clear (side_anchored a (last_of front) (ap last_of none_) side))
before_clear a front x y side clear (inr (b, ends, plain)) =
    rw (last_of-append x y b ends, plain) refl

run_found :
    (r : NetRule) (c : MatchCtx) (n : ℕ) (run : Run)
    → Begins r c n
    → is_empty run.token ≡ false
    → IsRunOf (token_pattern r) run
    → Facts r run.token run
    → Within run.token (tokens c)
unfolding tokens
run_found r c n run (m, clear) filled at (same, left, right, good) =
    let u : Bytes = c.url_lower in
    let left_side : side_holds (r.anchor_host || r.anchor_start) (last_of at.front) ≡ true =
      subst (λ o. side_holds (r.anchor_host || r.anchor_start) o ≡ true) (sym at.at_left) left in
    let right_side : side_holds r.anchor_end (head_of at.back) ≡ true =
      subst (λ o. side_holds r.anchor_end o ≡ true) (sym at.at_right) right in
    let (a, b, parts, rest, bounded) =
      front_taken r.anchor_end at.front run.token at.back (drop n u) filled at.in_run
        (subst (λ o. is_clear o ≡ true) (sym at.at_left) at.left_clear)
        (side_star _ (last_of at.front) left_side)
        (subst (λ (p : Bytes). glob_means r.anchor_end p (drop n u) ≡ true) at.whole m) in
    let whole : (take n u ++ a) ++ (run.token ++ b) ≡ u =
      append_assoc (take n u) a (run.token ++ b)
      ∙ ap (λ (v : Bytes). take n u ++ v) (sym parts)
      ∙ take-append-drop n u in
    let right_clear : is_clear (head_of b) ≡ true =
      after_token r.anchor_end at.back b
        (subst (λ o. is_clear o ≡ true) (sym at.at_right) at.right_clear)
        (side_star _ (head_of at.back) right_side) (side_end _ (head_of at.back) right_side) rest in
    distinct_has run.token (token_runs u) [] good refl (
      subst (λ (v : Bytes). Any (λ (x : Run). x.token ≡ run.token) (token_runs v)) whole
        (token_found (take n u ++ a) run.token b filled at.in_run right_clear
          (before_clear _ at.front (take n u) a left_side clear bounded)))

pub token_lem :
    (r : NetRule) (c : MatchCtx) (n : ℕ)
    → Begins r c n
    → is_empty (best_token r) ≡ false
    → Within (best_token r) (tokens c)
unfolding best_token
token_lem r c n at filled = elim (best-Serves r [] (token_runs (token_pattern r))) [
  | inl same ↦ absurd (false≢true (sym filled ∙ ap (λ (t : Bytes). is_empty t) same))
  | inr (run, w, facts) ↦
      let (same, left, right, good) = facts in
      subst (λ (t : Bytes). Within t (tokens c)) same
        (run_found r c n run at (subst (λ (t : Bytes). is_empty t ≡ false) (sym same) filled)
          (token_runs-IsRunOf (token_pattern r) run w)
          (refl, left, right, subst (λ (t : Bytes). is_index_token t ≡ true) (sym same) good))
]
