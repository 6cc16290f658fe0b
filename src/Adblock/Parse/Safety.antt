-- ===== src/Adblock/Parse/Safety.antt =====
-- What the selectors that are kept never have in them.
use gowebfilter.Base.{
  suc, ◌≡◌, refl, sym, ap, subst, inl, inr, Bool, true, false, ◌&&◌, ◌||◌, not, Option, none, some,
  List, [], ◌∷◌, leb, if◌then◌else◌, Bool-cases, false≢true, none≢some, some_injective, Bytes,
  codes, has_prefix, trim_space, to_lower, split_byte, contains, cut_text, contains_any, is_empty,
  Within, Within-append, Within-cons, no_member, any_of,
}
use gowebfilter.Adblock.Lines.{
  ListState, clean_host, count_line, hosts_line, is_bare_domain, is_hosts_comment, is_no_host,
  is_title, keep_host, parse_list, parse_lists, rule_line, rule_of, take_line, take_lines,
}
use gowebfilter.Adblock.Parse.{
  add_cosmetic, add_net, cosmetic_domains, parse_abp_line, parse_cosmetic, parse_net_rule,
  procedural_pseudo, refuses_selector, unsupported_cosmetic_markers,
}
use gowebfilter.Adblock.Rules.{CosmeticRule, NetRule, Parsed}

cosmetic_domains-selector :
    (entries : List Bytes) (rule out : CosmeticRule)
    → cosmetic_domains entries rule ≡ some out
    → out.selector ≡ rule.selector
unfolding cosmetic_domains
cosmetic_domains-selector [] rule out h =
    ap (λ (r : CosmeticRule). r.selector) (sym (some_injective h))
cosmetic_domains-selector (entry ∷ entries) rule out h =
    let d : Bytes = to_lower (trim_space entry) in
    elim (Bool-cases (is_empty d)) [
      | inl none_ ↦ cosmetic_domains-selector entries rule out (rw none_ at h)
      | inr filled ↦ elim (Bool-cases (has_prefix d (codes "~"))) [
        | inl excluded ↦ cosmetic_domains-selector entries _ out (rw (filled, excluded) at h)
        | inr named ↦ elim (Bool-cases (contains_any d (codes "*/"))) [
          | inl entity ↦ absurd (none≢some (rw (filled, named, entity) at h))
          | inr plain ↦ cosmetic_domains-selector entries _ out (rw (filled, named, plain) at h)
        ]
      ]
    ]

-- The tests of the selector are made before the rule is: a refused selector gives no rule.
kept_selector :
    (domain_part selector : Bytes) (is_exception : Bool) (out : CosmeticRule)
    → parse_cosmetic domain_part selector is_exception ≡ some out
    → (out.selector ≡ trim_space selector) × (refuses_selector (trim_space selector) ≡ false)
unfolding parse_cosmetic
kept_selector domain_part selector is_exception out h =
    elim (Bool-cases (refuses_selector (trim_space selector))) [
      | inl bad ↦ absurd (none≢some (rw bad at h))
      | inr fine ↦ elim (Bool-cases (is_empty domain_part)) [
        | inl everywhere ↦ (
          ap (λ (r : CosmeticRule). r.selector) (sym (some_injective (rw (fine, everywhere) at h))),
          fine,
        )
        | inr sites ↦
            let rule : CosmeticRule = record {
              selector = trim_space selector;
              domains = [];
              not_domains = [];
              is_exception = is_exception;
            } in
            (
              cosmetic_domains-selector (split_byte b',' domain_part) rule out
                  (rw (fine, sites) at h),
              fine,
            )
      ]
    ]

neither : (a b : Bool) → a || b ≡ false → (a ≡ false) × (b ≡ false)
neither true b h = absurd (false≢true (sym h))
neither false b h = (refl, h)

all_fail :
    (a b c d e f : Bool)
    → a || b || c || d || e || f ≡ false
    → (a ≡ false) × (d ≡ false) × (f ≡ false)
all_fail a b c d e f h =
    let (h5, hf) = neither (a || b || c || d || e) f h in
    let (h4, he) = neither (a || b || c || d) e h5 in
    let (h3, hd) = neither (a || b || c) d h4 in ((neither a b (neither (a || b) c h3).0).0, hd, hf)

-- What holds of a selector that is kept.
abbrev pub IsHarmless : Bytes → Type 0
IsHarmless sel =
    (is_empty sel ≡ false)
    × (contains_any sel (codes "<{}\\") ≡ false)
    × (any_of (contains (to_lower sel)) procedural_pseudo ≡ false)

fine_selector : (sel : Bytes) → refuses_selector sel ≡ false → IsHarmless sel
unfolding refuses_selector
fine_selector sel h = all_fail _ _ _ _ _ _ h

pub parse_cosmetic-selector :
    (domain_part selector : Bytes) (is_exception : Bool) (out : CosmeticRule)
    → parse_cosmetic domain_part selector is_exception ≡ some out
    → IsHarmless out.selector
parse_cosmetic-selector domain_part selector is_exception out h =
    let (same, fine) = kept_selector domain_part selector is_exception out h in
    subst IsHarmless (sym same) (fine_selector (trim_space selector) fine)

-- The selectors of all rules that the lists have given.
abbrev pub AllHarmless : Parsed → Type 0
AllHarmless p = (c : CosmeticRule) → Within c p.cosmetic → IsHarmless c.selector

one_more :
    (o : Option CosmeticRule) (p : Parsed)
    → ((c : CosmeticRule) → o ≡ some c → IsHarmless c.selector)
    → AllHarmless p
    → AllHarmless (add_cosmetic o p).0
one_more none p new all c w = all c w
one_more (some r) p new all c w = elim (Within-append p.cosmetic (r ∷ []) w) [
  | inl before ↦ all c before
  | inr last ↦ elim (Within-cons last) [
    | inl same ↦ new c (ap (λ (x : CosmeticRule). some x) (sym same))
    | inr none_ ↦ absurd (no_member none_)
  ]
]

net_only : (o : Option NetRule) (p : Parsed) → AllHarmless p → AllHarmless (add_net o p).0
net_only none p all = all
net_only (some r) p all = all

after_line :
    (compiles : Bytes → Bool) (line : Bytes) (p : Parsed) (x y : Option (Bytes × Bytes))
    → AllHarmless p
    → AllHarmless (
        let out : Parsed × Bool = elim x [
          | some (front, rest) ↦ add_cosmetic (parse_cosmetic front rest true) p
          | none ↦ elim y [
            | some (front, rest) ↦ add_cosmetic (parse_cosmetic front rest false) p
            | none ↦ add_net (parse_net_rule compiles line) p
          ]
        ] in
        out.0)
after_line compiles line p (some (front, rest)) y all =
    one_more (parse_cosmetic front rest true) p (λ c e. parse_cosmetic-selector front rest true c e)
      all
after_line compiles line p none (some (front, rest)) all =
    one_more (parse_cosmetic front rest false) p
      (λ c e. parse_cosmetic-selector front rest false c e) all
after_line compiles line p none none all = net_only (parse_net_rule compiles line) p all

parse_abp_line-AllHarmless :
    (compiles : Bytes → Bool) (line : Bytes) (p : Parsed)
    → AllHarmless p
    → AllHarmless (parse_abp_line compiles line p).0
unfolding parse_abp_line
parse_abp_line-AllHarmless compiles line p all =
    elim (Bool-cases (any_of (contains line) unsupported_cosmetic_markers)) [
      | inl marked ↦ rw marked all
      | inr plain ↦ rw plain (
          after_line compiles line p (cut_text (codes "#@#") line) (cut_text (codes "##") line) all)
    ]

counted :
    (st : ListState) (x : Parsed × Bool) → AllHarmless x.0 → AllHarmless (count_line st x).into
counted st (p, true) all = all
counted st (p, false) all = all

either_state :
    (b : Bool) (x y : ListState)
    → AllHarmless x.into
    → AllHarmless y.into
    → AllHarmless (if b then x else y).into
either_state true x y hx hy = hx
either_state false x y hx hy = hy

module _ (compiles is_ip : Bytes → Bool) where
  host_or_rule :
      (o : Option Bytes) (line : Bytes) (st : ListState)
      → AllHarmless st.into
      → AllHarmless (rule_of compiles is_ip o line st).into
  host_or_rule (some h) line st all =
      either_state (is_no_host (clean_host h)) st (keep_host line (clean_host h) st) all all
  host_or_rule none line st all =
      either_state (not st.abp && is_bare_domain compiles is_ip line)
        (keep_host line (clean_host line) st) (count_line st (parse_abp_line compiles line st.into))
        all
        (counted st (parse_abp_line compiles line st.into)
          (parse_abp_line-AllHarmless compiles line st.into all))

  take_line-AllHarmless :
      (line : Bytes) (st : ListState)
      → AllHarmless st.into
      → AllHarmless (take_line compiles is_ip line st).into
  unfolding take_line rule_line
  take_line-AllHarmless line before all =
      let st : ListState = record before { line_no = suc before.line_no } in
      either_state (is_empty line) st _ all (
        either_state (leb st.line_no 5 && is_title line) (record st { abp = true }) _ all
          (either_state (has_prefix line (codes "!")) (record st { abp = true }) _ all
            (either_state (is_hosts_comment line) st _ all
              (host_or_rule (hosts_line line) line st all))))

  take_lines-AllHarmless :
      (lines : List Bytes) (st : ListState)
      → AllHarmless st.into
      → AllHarmless (take_lines compiles is_ip lines st).into
  unfolding take_lines
  take_lines-AllHarmless [] st all = all
  take_lines-AllHarmless (line ∷ lines) st all =
      take_lines-AllHarmless lines (take_line compiles is_ip (trim_space line) st)
        (take_line-AllHarmless (trim_space line) st all)

  parse_list-AllHarmless :
      (lines : List Bytes) (p : Parsed)
      → AllHarmless p
      → AllHarmless (parse_list compiles is_ip lines p).1
  unfolding parse_list
  parse_list-AllHarmless lines p all = take_lines-AllHarmless lines _ all

  pub parse_lists-AllHarmless :
      (lists : List (List Bytes)) (p : Parsed)
      → AllHarmless p
      → AllHarmless (parse_lists compiles is_ip lists p)
  unfolding parse_lists
  parse_lists-AllHarmless [] p all = all
  parse_lists-AllHarmless (lines ∷ lists) p all =
      parse_lists-AllHarmless lists (parse_list compiles is_ip lines p).1
        (parse_list-AllHarmless lines p all)
