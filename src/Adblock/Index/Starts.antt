-- ===== src/Adblock/Index/Starts.antt =====
-- Where a pattern that is anchored to the host may begin: behind a byte that is no token byte.
use gowebfilter.Base.{
  ℕ, suc, ◌+◌, ◌≡◌, refl, sym, ◌∙◌, subst, inl, inr, true, false, ◌||◌, Option, none, some, [], ◌∷◌,
  ◌++◌, append_assoc, arith, ◌==◌, Bool-cases, length, length-append, take, Bytes, codes, has_byte,
  cut_text, cut_text-parts, Within, Within-cons, no_member,
}
use gowebfilter.Adblock.Context.{find_host_starts, is_token_byte, label_starts, starts_behind}
use gowebfilter.Adblock.Glob.Reference.{later}
use gowebfilter.Adblock.Index.Runs.{is_clear, last_of, last_of-append}

abbrev ClearAt : Bytes → ℕ → Type 0
ClearAt u n = is_clear (last_of (take n u)) ≡ true

take_front : (pre s : Bytes) → take (length pre) (pre ++ s) ≡ pre
take_front [] s = refl
take_front (c ∷ pre) s = rw (take_front pre s) refl

last_is : (pre : Bytes) (c : ℕ) → last_of (pre ++ (c ∷ [])) ≡ some c
unfolding last_of
last_is pre c = last_of-append pre (c ∷ []) c refl

clear_behind :
    (pre : Bytes) (c : ℕ) (s : Bytes)
    → is_token_byte c ≡ false
    → ClearAt ((pre ++ (c ∷ [])) ++ s) (length (pre ++ (c ∷ [])))
clear_behind pre c s plain = rw (take_front (pre ++ (c ∷ [])) s, last_is pre c, plain) refl

one_more : (pre : Bytes) (c : ℕ) → length (pre ++ (c ∷ [])) ≡ suc (length pre)
one_more pre c = omega (arith, length-append pre (c ∷ []))

dot_plain : (c : ℕ) → (c == b'.' || c == b'@') ≡ true → is_token_byte c ≡ false
unfolding is_token_byte
dot_plain c h = ground arith

label_clear :
    (pre s : Bytes) (n : ℕ) → Within n (label_starts (length pre) s) → ClearAt (pre ++ s) n
unfolding label_starts
label_clear pre [] n w = absurd (no_member w)
label_clear pre (c ∷ s) n w =
    let moved : ClearAt ((pre ++ (c ∷ [])) ++ s) n → ClearAt (pre ++ c ∷ s) n =
      subst (λ (u : Bytes). ClearAt u n) (append_assoc pre (c ∷ []) s) in
    let further : Within n (label_starts (suc (length pre)) s) → ClearAt (pre ++ c ∷ s) n = λ later.
      moved (
        label_clear (pre ++ (c ∷ [])) s n
          (subst (λ k. Within n (label_starts k s)) (sym (one_more pre c)) later)) in
    elim (Bool-cases (has_byte c (codes "/?#"))) [
      | inl ends ↦ absurd (no_member (rw ends at w))
      | inr goes ↦ elim (Bool-cases (c == b'.' || c == b'@')) [
        | inl dot ↦ elim (Within-cons (rw (goes, dot) at w)) [
          | inl here ↦ moved (
              subst (λ k. ClearAt ((pre ++ (c ∷ [])) ++ s) k) (one_more pre c ∙ sym here)
                (clear_behind pre c s (dot_plain c dot)))
          | inr later ↦ further later
        ]
        | inr plain ↦ further (rw (goes, plain) at w)
      ]
    ]

slashes : (front : Bytes) → is_clear (last_of (front ++ codes "://")) ≡ true
unfolding last_of is_token_byte
slashes front = rw (last_of-append front (codes "://") b'/' refl) refl

scheme_clear :
    (u front rest : Bytes) (n : ℕ)
    → u ≡ front ++ (codes "://" ++ rest)
    → Within n ((length front + 3) ∷ label_starts (length front + 3) rest)
    → ClearAt u n
scheme_clear u front rest n parts w =
    let pre : Bytes = front ++ codes "://" in
    let whole : pre ++ rest ≡ u = append_assoc front (codes "://") rest ∙ sym parts in
    let size : length pre ≡ length front + 3 = omega (arith, length-append front (codes "://")) in
    subst (λ (v : Bytes). ClearAt v n) whole
      (elim (Within-cons w) [
        | inl here ↦
            subst (λ k. ClearAt (pre ++ rest) k) (size ∙ sym here)
              (rw (take_front pre rest, slashes front) refl)
        | inr later ↦
            label_clear pre rest n (subst (λ k. Within n (label_starts k rest)) (sym size) later)
      ])

starts_clear :
    (u : Bytes) (n : ℕ) (o : Option (Bytes × Bytes))
    → cut_text (codes "://") u ≡ o
    → Within n (starts_behind o)
    → ClearAt u n
starts_clear u n none same w = absurd (no_member w)
starts_clear u n (some (front, rest)) same w =
    scheme_clear u front rest n (cut_text-parts (codes "://") u front rest same) w

pub host_start_clear : (u : Bytes) (n : ℕ) → Within n (find_host_starts u) → ClearAt u n
unfolding find_host_starts
host_start_clear u n w = starts_clear u n (cut_text (codes "://") u) refl w
