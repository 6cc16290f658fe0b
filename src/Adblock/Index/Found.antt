-- ===== src/Adblock/Index/Found.antt =====
-- A stretch of token bytes that nothing extends is one of the runs of the text, and its token one of
-- the tokens of the address.
use gowebfilter.Base.{
  ℕ, ◌≡◌, refl, sym, ap, ◌∙◌, subst, inl, inr, true, false, Option, none, some, List, [], ◌∷◌, ◌++◌,
  arith, Bool-cases, false≢true, length, Bytes, both, not-true, is_empty, Within, Any,
}
use gowebfilter.Adblock.Context.{Run, is_token_byte, leading_run, push_run, token_runs}
use gowebfilter.Adblock.Index.Runs.{
  all_tokens, head_of, is_clear, last_of, leading_run-plain, leading_run-token,
}

abbrev HasToken : Bytes → List Run → Type 0
HasToken tok rs = Any (λ (run : Run). run.token ≡ tok) rs

leads :
    (tok back : Bytes)
    → all_tokens tok ≡ true
    → is_clear (head_of back) ≡ true
    → (leading_run (tok ++ back)).0.0 ≡ tok
unfolding leading_run all_tokens
leads [] [] tokens_ clear = refl
leads [] (b ∷ back) tokens_ clear = ground (arith, clear)
leads (c ∷ tok) back tokens_ clear =
    let (token, others) = both (is_token_byte c) (all_tokens tok) tokens_ in
    ap (λ x. x.0.0) (leading_run-token c (tok ++ back) token)
    ∙ ap (λ (u : Bytes). c ∷ u) (leads tok back others clear)

pushed :
    (l : Option ℕ) (t tok : Bytes) (r : Option ℕ) (rs : List Run)
    → t ≡ tok
    → is_empty tok ≡ false
    → HasToken tok (push_run l t r rs)
pushed l [] [] r rs same filled = absurd (false≢true (sym filled))
pushed l [] (d ∷ tok) r rs same filled = absurd (ground (arith, ap length same))
pushed l (c ∷ t) tok r rs same filled =
    (record { left = l; token = c ∷ t; right = r }, Within.here, same)

push_keeps :
    (l : Option ℕ) (t tok : Bytes) (r : Option ℕ) (rs : List Run)
    → HasToken tok rs
    → HasToken tok (push_run l t r rs)
push_keeps l [] tok r rs has = has
push_keeps l (c ∷ t) tok r rs (run, w, same) = (run, Within.there w, same)

-- Behind a byte that is no token byte, the run is found whatever comes before.
later_has :
    (front tok back : Bytes)
    → is_empty tok ≡ false
    → all_tokens tok ≡ true
    → is_clear (head_of back) ≡ true
    → is_empty front ≡ false
    → is_clear (last_of front) ≡ true
    → HasToken tok (leading_run (front ++ (tok ++ back))).1
unfolding last_of
later_has [] tok back filled in_run clear nonempty ends = absurd (false≢true (sym nonempty))
later_has (x ∷ []) tok back filled in_run clear nonempty ends =
    subst (HasToken tok)
      (sym (ap (λ x. x.1) (leading_run-plain x (tok ++ back) (not-true (is_token_byte x) ends))))
      (pushed (some x) _ tok _ _ (leads tok back in_run clear) filled)
later_has (x ∷ y ∷ front) tok back filled in_run clear nonempty ends =
    let rest : Bytes = y ∷ (front ++ (tok ++ back)) in
    let has = later_has (y ∷ front) tok back filled in_run clear refl ends in
    elim (Bool-cases (is_token_byte x)) [
      | inl token ↦
          subst (HasToken tok) (sym (ap (λ x'. x'.1) (leading_run-token x rest token))) has
      | inr plain ↦
          subst (HasToken tok) (sym (ap (λ x'. x'.1) (leading_run-plain x rest plain)))
            (push_keeps (some x) _ tok _ _ has)
    ]

pub token_found :
    (front tok back : Bytes)
    → is_empty tok ≡ false
    → all_tokens tok ≡ true
    → is_clear (head_of back) ≡ true
    → is_clear (last_of front) ≡ true
    → HasToken tok (token_runs (front ++ (tok ++ back)))
unfolding token_runs
token_found [] tok back filled in_run clear ends =
    pushed none _ tok _ _ (leads tok back in_run clear) filled
token_found (x ∷ front) tok back filled in_run clear ends =
    push_keeps none _ tok _ _ (later_has (x ∷ front) tok back filled in_run clear refl ends)
