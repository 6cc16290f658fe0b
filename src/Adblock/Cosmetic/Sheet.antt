-- ===== src/Adblock/Cosmetic/Sheet.antt =====
-- CosmeticCSS read back by its braces, for the selectors that come from lists. The reader knows braces
-- and the line break behind a block; it does not know the comments, strings and brackets of CSS.
use gowebfilter.Base.{
  ℕ, ◌≡◌, refl, sym, ap, ◌∙◌, Bool, true, false, ◌||◌, Option, List, [], ◌∷◌, ◌++◌, map, append-nil,
  append_assoc, ◌==◌, if◌then◌else◌, false≢true, Bytes, codes, has_byte, contains_any, Within,
  no_member,
}
use gowebfilter.Adblock.Cosmetic.{cosmetic_css, cosmetic_selectors}
use gowebfilter.Adblock.Cosmetic.Selectors.{Every, build-EverySelector, cosmetic_selectors-Every}
use gowebfilter.Adblock.Engine.{build}
use gowebfilter.Adblock.Glob.Reference.{later}
use gowebfilter.Adblock.Lines.{parse_lists}
use gowebfilter.Adblock.Parse.Safety.{IsHarmless, parse_lists-AllHarmless}
use gowebfilter.Adblock.Rules.{Parsed}

-- Where a reader of the sheet stands: before a block, in it, or just after it.
pub data Place : Type 0 where
  before_block : Bytes → Place
  in_block : Bytes → Bytes → Place
  after_block : Place

-- The rules read so far, each a selector and what its block says.
abbrev pub Reading : Type 0
Reading = List (Bytes × Bytes) × Place

unfoldable pub read_byte : ℕ → Reading → Reading
read_byte c (rules, before_block front) =
    (rules, if b'{' == c then in_block front [] else before_block (front ++ (c ∷ [])))
read_byte c (rules, in_block front block) =
    if b'}' == c
    then (rules ++ ((front, block) ∷ []), after_block)
    else (rules, in_block front (block ++ (c ∷ [])))
read_byte c (rules, after_block) = (
  rules,
  if b'\n' == c
      then before_block []
      else if b'{' == c
      then in_block [] []
      else before_block (c ∷ []),
)

unfoldable pub read_sheet : Bytes → Reading → Reading
unfolding read_byte
read_sheet [] r = r
read_sheet (c ∷ s) r = read_sheet s (read_byte c r)

abbrev pub hiding_rule : Bytes → Bytes × Bytes
hiding_rule sel = (sel, codes "display:none!important")

four_fail :
    (p q r s : Bool)
    → p || (q || (r || (s || false))) ≡ false
    → (q ≡ false) × (p || (s || false) ≡ false)
four_fail true q r s h = absurd (false≢true (sym h))
four_fail false true r s h = absurd (false≢true (sym h))
four_fail false false true s h = absurd (false≢true (sym h))
four_fail false false false s h = (refl, h)

both_fail : (a b : Bool) → a || b ≡ false → (a ≡ false) × (b ≡ false)
both_fail true b h = absurd (false≢true (sym h))
both_fail false b h = (refl, h)

no_brace :
    (c : ℕ)
    → has_byte c (codes "<{}\\") ≡ false
    → (b'{' == c ≡ false) × (has_byte c (codes "<\\") ≡ false)
unfolding has_byte
no_brace c h = four_fail (b'<' == c) (b'{' == c) (b'}' == c) (b'\\' == c) h

plain_byte :
    (c : ℕ) (front : Bytes) (rules : List (Bytes × Bytes))
    → b'{' == c ≡ false
    → read_byte c (rules, before_block front) ≡ (rules, before_block (front ++ (c ∷ [])))
unfolding read_byte
plain_byte c front rules h = rw h refl

read_selector :
    (sel : Bytes) (front rest : Bytes) (rules : List (Bytes × Bytes))
    → contains_any sel (codes "<{}\\") ≡ false
    → read_sheet (sel ++ rest) (rules, before_block front)
      ≡ read_sheet rest (rules, before_block (front ++ sel))
unfolding read_sheet contains_any
read_selector [] front rest rules h = rw (append-nil front) refl
read_selector (c ∷ sel) front rest rules h =
    let (here, later) =
      both_fail (has_byte c (codes "<{}\\")) (contains_any sel (codes "<{}\\")) h in
    ap (read_sheet (sel ++ rest)) (plain_byte c front rules (no_brace c here).0)
    ∙ read_selector sel (front ++ (c ∷ [])) rest rules later
    ∙ ap (λ f. read_sheet rest (rules, before_block f)) (append_assoc front (c ∷ []) sel)

read_rule :
    (sel rest : Bytes) (rules : List (Bytes × Bytes))
    → IsHarmless sel
    → read_sheet (sel ++ (codes "{display:none!important}\n" ++ rest)) (rules, before_block [])
      ≡ read_sheet rest (rules ++ (hiding_rule sel ∷ []), before_block [])
unfolding read_sheet
read_rule sel rest rules (_, plain, _) =
    read_selector sel [] (codes "{display:none!important}\n" ++ rest) rules plain

read_rules :
    (sels : List Bytes) (rules : List (Bytes × Bytes))
    → Every IsHarmless sels
    → read_sheet (cosmetic_css sels) (rules, before_block [])
      ≡ (rules ++ map hiding_rule sels, before_block [])
unfolding cosmetic_css read_sheet
read_rules [] rules all = ap (λ r. (r, before_block [])) (sym (append-nil rules))
read_rules (sel ∷ sels) rules all =
    read_rule sel (cosmetic_css sels) rules (all sel Within.here)
    ∙ read_rules sels (rules ++ (hiding_rule sel ∷ [])) (λ x w. all x (Within.there w))
    ∙ ap (λ r. (r, before_block []))
        (append_assoc rules (hiding_rule sel ∷ []) (map hiding_rule sels))

neither_in :
    (s t bad : Bytes)
    → contains_any s bad ≡ false
    → contains_any t bad ≡ false
    → contains_any (s ++ t) bad ≡ false
unfolding contains_any
neither_in [] t bad hs ht = ht
neither_in (c ∷ s) t bad hs ht =
    let (here, later) = both_fail (has_byte c bad) (contains_any s bad) hs in
    rw here (neither_in s t bad later ht)

fewer_bad :
    (sel : Bytes)
    → contains_any sel (codes "<{}\\") ≡ false
    → contains_any sel (codes "<\\") ≡ false
unfolding contains_any
fewer_bad [] h = refl
fewer_bad (c ∷ sel) h =
    let (here, later) =
      both_fail (has_byte c (codes "<{}\\")) (contains_any sel (codes "<{}\\")) h in
    rw (no_brace c here).1 (fewer_bad sel later)

no_escape :
    (sels : List Bytes)
    → Every IsHarmless sels
    → contains_any (cosmetic_css sels) (codes "<\\") ≡ false
unfolding cosmetic_css contains_any has_byte
no_escape [] all = refl
no_escape (sel ∷ sels) all =
    neither_in sel _ (codes "<\\") (fewer_bad sel (all sel Within.here).1)
      (no_escape sels (λ x w. all x (Within.there w)))

abbrev pub nothing_parsed : Parsed
nothing_parsed = record { net = []; cosmetic = []; skipped = 0 }

module _ (tld : Bytes → Option Bytes) (re_matches : Bytes → Bytes → Bool)
    (compiles is_ip : Bytes → Bool) where
  abbrev pub selectors_on : List (List Bytes) → Bytes → Bytes → List Bytes → List Bytes
  selectors_on lists page_host page_url names =
      cosmetic_selectors tld re_matches (build (parse_lists compiles is_ip lists nothing_parsed))
        page_host page_url names

  -- Whatever the lines of the lists are, the style sheet of a page, read by its braces, has one rule for
  -- each selector that is given for the page, in their order, whose block is the declaration that hides, and
  -- ends outside of a block; and there is no `<` and no backslash in it.
  pub cosmetic_css-read_sheet :
      (lists : List (List Bytes)) (page_host page_url : Bytes) (names : List Bytes)
      → (read_sheet
            (cosmetic_css (selectors_on lists page_host page_url names))
            ([], before_block [])
          ≡ (map hiding_rule (selectors_on lists page_host page_url names), before_block []))
        × (contains_any (cosmetic_css (selectors_on lists page_host page_url names)) (codes "<\\")
            ≡ false)
  cosmetic_css-read_sheet lists page_host page_url names =
      let all =
        cosmetic_selectors-Every tld re_matches IsHarmless
          (build (parse_lists compiles is_ip lists nothing_parsed)) page_host page_url names
          (build-EverySelector IsHarmless (parse_lists compiles is_ip lists nothing_parsed) (
            parse_lists-AllHarmless compiles is_ip lists nothing_parsed
              (λ c w. absurd (no_member w)))) in
      (read_rules _ [] all, no_escape _ all)
