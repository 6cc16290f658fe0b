-- ===== src/Adblock/Glob.antt =====
-- The pattern matcher of internal/adblock/engine.go. An index into a text is the text that is left
-- from there.
pub mod Reference
pub mod Matcher
use gowebfilter.Base.{
  ℕ, zero, suc, ◌+◌, ◌-◌, ◌*◌, ◌/◌, ◌%◌, ◌^◌, ◌≤◌, ◌<◌, ◌≡◌, refl, sym, ap, ap₂, ◌∙◌, subst, ◌≢◌,
  ◌↔◌, ◌⊎◌, inl, inr, Bool, true, false, ◌&&◌, ◌||◌, not, Option, none, some, List, [], ◌∷◌, ◌++◌,
  map, append-nil, append_assoc, arith, ltb, leb, ◌==◌, if◌then◌else◌, ltb→lt, lt→ltb, leb→le,
  ==_iff, Bool-cases, false≢true, Option-cases, or_else, none≢some, some_injective, length,
  length-append, take, drop, get_elem?, Bytes, codes, bytes_eq, bytes_eq_iff, bytes_eq_refl,
  cut_prefix, cut_prefix-some, cut_prefix-append, is_some, has_prefix, trim_prefix, has_suffix,
  EndsIn, has_suffix_iff, has_byte, cut_byte, is_space, trim_space, to_lower, lower_byte,
  split_byte, contains, cut_text, cut_last_byte, contains_any, trim_suffix, is_one_of, is_empty, ℤ,
  pos, negsuc, atoi, atoi_two, itoa, itoa_digit, digits, IsDigit, hex_digit, hex_value,
  hex_value-hex_digit, split_byte-cons, eq_ne, is_digit, Within, Within-append, Within-cons,
  append_left, append_right, no_member, Any, any_of, any_of_iff,
}

-- isSeparator: `^` stands for anything but a letter, a digit, or one of _ - . %
unfoldable pub is_separator : ℕ → Bool
is_separator b =
    if leb b'a' b && leb b b'z' || leb b'A' b && leb b b'Z' || leb b'0' b && leb b b'9'
    then false
    else if b == b'_' || b == b'-' || b == b'.' || b == b'%'
    then false
    else true

-- The last loop: what is left of the pattern may only be `*` and `^`.
unfoldable pub only_wild : Bytes → Bool
only_wild [] = true
only_wild (c ∷ p) = (c == b'*' || c == b'^') && only_wild p

-- One byte of the pattern, other than `*`, on one byte of the text.
abbrev pub byte_fits : ℕ → ℕ → Bool
byte_fits c d = if c == b'^' then is_separator d else c == d

-- The rounds of globMatch up to the next `*`, which `enter` goes on from. `q` is the pattern behind the
-- last `*` and `mark` the text at `mark`; an empty `mark` with text left stands for `!hasStar`.
unfoldable pub glob_rounds : (Bytes → Bytes → Bool) → Bool → Bytes → Bytes → Bytes → Bytes → Bool
unfolding is_separator only_wild
glob_rounds enter anchor_end q mark [] [] = true
glob_rounds enter anchor_end q mark (c ∷ p) [] = only_wild (c ∷ p)
glob_rounds enter anchor_end q [] [] (d ∷ s) = not anchor_end
glob_rounds enter anchor_end q (x ∷ mark) [] (d ∷ s) =
    let again = glob_rounds enter anchor_end q mark q mark in if anchor_end then again else true
glob_rounds enter anchor_end q [] (c ∷ p) (d ∷ s) =
    let next = glob_rounds enter anchor_end q [] p s in
    if c == b'*' then enter p (d ∷ s) else if byte_fits c d then next else false
glob_rounds enter anchor_end q (x ∷ mark) (c ∷ p) (d ∷ s) =
    let next = glob_rounds enter anchor_end q (x ∷ mark) p s in
    let again = glob_rounds enter anchor_end q mark q mark in
    if c == b'*' then enter p (d ∷ s) else if byte_fits c d then next else again

-- The loop, with fuel for the `*` that are still to come.
unfoldable pub glob_loop : ℕ → Bool → Bytes → Bytes → Bytes → Bytes → Bool
unfolding glob_rounds
glob_loop zero anchor_end q mark p s = glob_rounds (λ p' s'. false) anchor_end q mark p s
glob_loop (suc k) anchor_end q mark p s =
    glob_rounds (λ p' s'. glob_loop k anchor_end p' s' p' s') anchor_end q mark p s

-- globMatch
unfoldable pub glob_match : Bytes → Bytes → Bool → Bool → Bool
unfolding glob_loop
glob_match p s anchored anchor_end =
    if anchored
    then glob_loop (length p) anchor_end p [] p s
    else glob_loop (length p) anchor_end p s p s
