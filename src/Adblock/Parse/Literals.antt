-- ===== src/Adblock/Parse/Literals.antt =====
-- Every rule that parsing gives has the leading literal of its pattern.
use gowebfilter.Base.{
  ◌≡◌, refl, sym, ap, ◌∙◌, subst, inl, inr, Bool, true, false, ◌&&◌, not, Option, none, some, List,
  [], ◌∷◌, ◌++◌, ltb, if◌then◌else◌, Bool-cases, none≢some, some_injective, length, drop, Bytes,
  codes, has_prefix, trim_prefix, has_suffix, cut_byte, trim_space, to_lower, split_byte,
  contains_any, and_then, on_some, is_empty,
}
use gowebfilter.Adblock.Index.Linear.{HasLiteral}
use gowebfilter.Adblock.Options.{
  OptionKind, OptionState, apply_option, kind_all, kind_domain, kind_elem_hide, kind_generic_hide,
  kind_important, kind_match_case, kind_party, kind_type, kind_unknown, option_kind, parse_options,
  settle_types, take_domains, take_option, take_options, value_or_empty,
}
use gowebfilter.Adblock.Parse.{
  drop_last, finish_pattern, finish_rule, host_of_pattern, host_or_pattern, literal_of,
  parse_net_rule, regexp_of, split_options, strip_end, strip_start, with_pattern,
}
use gowebfilter.Adblock.Rules.{NetRule, raw_rule}
use gowebfilter.Categories.Hash.Sorting.{finished}

-- The options leave the pattern and its literal alone.
abbrev Untouched : NetRule → NetRule → Type 0
Untouched r out = (out.lit ≡ r.lit) × (out.pattern_text ≡ r.pattern_text)

same_rule : (r s out : NetRule) → Untouched r s → some s ≡ some out → Untouched r out
same_rule r s out u h = subst (Untouched r) (some_injective h) u

take_domains-Untouched :
    (entries : List Bytes) (r out : NetRule) → take_domains entries r ≡ some out → Untouched r out
unfolding take_domains
take_domains-Untouched [] r out h = same_rule r r out (refl, refl) h
take_domains-Untouched (entry ∷ entries) r out h =
    let d : Bytes = to_lower (trim_space entry) in
    elim (Bool-cases (is_empty d)) [
      | inl none_ ↦ take_domains-Untouched entries r out (rw none_ at h)
      | inr filled ↦ elim (Bool-cases (contains_any d (codes "*/"))) [
        | inl entity ↦ absurd (none≢some (rw (filled, entity) at h))
        | inr plain ↦ elim (Bool-cases (has_prefix d (codes "~"))) [
          | inl excluded ↦
              take_domains-Untouched entries
                (record r { not_domains = r.not_domains ++ (drop 1 d ∷ []) }) out
                (rw (filled, plain, excluded) at h)
          | inr named ↦
              take_domains-Untouched entries (record r { domains = r.domains ++ (d ∷ []) }) out
                (rw (filled, plain, named) at h)
        ]
      ]
    ]

same_state :
    (r : NetRule) (s out : OptionState)
    → Untouched r s.rule
    → some s ≡ some out
    → Untouched r out.rule
same_state r s out u h = subst (λ (x : OptionState). Untouched r x.rule) (some_injective h) u

if_exception :
    (b : Bool) (r : NetRule) (s out : OptionState)
    → Untouched r s.rule
    → (if b then some s else none) ≡ some out
    → Untouched r out.rule
if_exception true r s out u h = same_state r s out u h
if_exception false r s out u h = absurd (none≢some h)

with_domains :
    (o : Option NetRule) (st out : OptionState)
    → ((r : NetRule) → o ≡ some r → Untouched st.rule r)
    → on_some (λ r. record st { rule = r }) o ≡ some out
    → Untouched st.rule out.rule
with_domains none st out u h = absurd (none≢some h)
with_domains (some r) st out u h = same_state st.rule (record st { rule = r }) out (u r refl) h

apply_option-Untouched :
    (kind : OptionKind) (neg : Bool) (value : Bytes) (st out : OptionState)
    → apply_option kind neg value st ≡ some out
    → Untouched st.rule out.rule
apply_option-Untouched (kind_type t) true value st out h = same_state st.rule _ out (refl, refl) h
apply_option-Untouched (kind_type t) false value st out h = same_state st.rule _ out (refl, refl) h
apply_option-Untouched (kind_party third) neg value st out h =
    same_state st.rule _ out (refl, refl) h
apply_option-Untouched kind_domain neg value st out h =
    with_domains (take_domains (split_byte b'|' value) st.rule) st out
      (λ r e. take_domains-Untouched (split_byte b'|' value) st.rule r e) h
apply_option-Untouched kind_important neg value st out h = same_state st.rule _ out (refl, refl) h
apply_option-Untouched kind_match_case neg value st out h = same_state st.rule _ out (refl, refl) h
apply_option-Untouched kind_all neg value st out h = same_state st.rule _ out (refl, refl) h
apply_option-Untouched kind_elem_hide neg value st out h =
    if_exception st.rule.is_exception st.rule _ out (refl, refl) h
apply_option-Untouched kind_generic_hide neg value st out h =
    if_exception st.rule.is_exception st.rule _ out (refl, refl) h
apply_option-Untouched kind_unknown neg value st out h = absurd (none≢some h)

chained :
    {A B : Type 0} (o : Option A) (f : A → Option B) (out : B)
    → and_then o f ≡ some out
    → (a : A) × (o ≡ some a) × (f a ≡ some out)
chained none f out h = absurd (none≢some h)
chained (some a) f out h = (a, refl, h)

both-Untouched : (r s t : NetRule) → Untouched r s → Untouched s t → Untouched r t
both-Untouched r s t (l, p) (m, q) = (m ∙ l, q ∙ p)

take_option-Untouched :
    (opt : Bytes) (st out : OptionState)
    → take_option opt st ≡ some out
    → Untouched st.rule out.rule
unfolding take_option
take_option-Untouched opt st out h =
    let cut = cut_byte b'=' opt in
    let low : Bytes = to_lower cut.0 in
    apply_option-Untouched (option_kind (trim_prefix low (codes "~"))) (has_prefix low (codes "~"))
      (value_or_empty cut.1) st out h

take_options-Untouched :
    (opts : List Bytes) (st out : OptionState)
    → take_options opts st ≡ some out
    → Untouched st.rule out.rule
unfolding take_options
take_options-Untouched [] st out h = same_state st.rule st out (refl, refl) h
take_options-Untouched (opt ∷ opts) st out h = elim (Bool-cases (is_empty (trim_space opt))) [
  | inl none_ ↦ take_options-Untouched opts st out (rw none_ at h)
  | inr filled ↦
      let (next, taken, rest) =
        chained (take_option (trim_space opt) st) (λ st'. take_options opts st') out
          (rw filled at h) in
      both-Untouched st.rule next.rule out.rule
        (take_option-Untouched (trim_space opt) st next taken)
        (take_options-Untouched opts next out rest)
]

settled_rule :
    (a b : Bool) (r s t out : NetRule)
    → Untouched r s
    → Untouched r t
    → (if a then none else if b then some s else some t) ≡ some out
    → Untouched r out
settled_rule true b r s t out us ut h = absurd (none≢some h)
settled_rule false true r s t out us ut h = same_rule r s out us h
settled_rule false false r s t out us ut h = same_rule r t out ut h

parse_options-Untouched :
    (opts : Bytes) (r out : NetRule) → parse_options opts r ≡ some out → Untouched r out
unfolding parse_options settle_types
parse_options-Untouched opts r out h =
    let start : OptionState = record { rule = r; include = 0; exclude = 0 } in
    let (st, taken, settled) =
      chained (take_options (split_byte b',' opts) start) settle_types out h in
    both-Untouched r st.rule out (take_options-Untouched (split_byte b',' opts) start st taken)
      (settled_rule _ _ st.rule _ _ out (refl, refl) (refl, refl) settled)

-- The literal is kept where only a host or an expression is added, and set with a pattern.
with_pattern-HasLiteral : (p : Bytes) (r : NetRule) → HasLiteral (with_pattern p r)
with_pattern-HasLiteral p r = refl

host-HasLiteral :
    (o : Option Bytes) (p : Bytes) (r : NetRule) → HasLiteral r → HasLiteral (host_or_pattern o p r)
host-HasLiteral none p r lit = refl
host-HasLiteral (some h) p r lit = lit

either-HasLiteral :
    (b : Bool) (r s : NetRule) → HasLiteral r → HasLiteral s → HasLiteral (if b then r else s)
either-HasLiteral true r s hr hs = hr
either-HasLiteral false r s hr hs = hs

not_none :
    (b : Bool) (r out : NetRule)
    → HasLiteral r
    → (if b then none else some r) ≡ some out
    → HasLiteral out
not_none true r out lit h = absurd (none≢some h)
not_none false r out lit h = subst HasLiteral (some_injective h) lit

finish_rule-HasLiteral :
    (p : Bytes) (r out : NetRule) → HasLiteral r → finish_rule (p, r) ≡ some out → HasLiteral out
unfolding finish_rule
finish_rule-HasLiteral p r out lit h =
    let q : Bytes = if r.match_case then p else to_lower p in
    not_none _
      (if r.anchor_host && not r.anchor_end
        then host_or_pattern (host_of_pattern q) q r
        else with_pattern q r)
      out
      (either-HasLiteral (r.anchor_host && not r.anchor_end) _ (with_pattern q r)
        (host-HasLiteral (host_of_pattern q) q r lit) refl)
      h

stripped-HasLiteral :
    (p : Bytes) (r : NetRule) → HasLiteral r → HasLiteral (strip_end (strip_start p r)).1
unfolding strip_end strip_start
stripped-HasLiteral p r lit = anchored (has_prefix p (codes "||")) (has_prefix p (codes "|")) _
  where
    ended :
        (b : Bool) (x y : Bytes × NetRule)
        → HasLiteral x.1
        → HasLiteral y.1
        → HasLiteral (if b then x else y).1
    ended true x y hx hy = hx
    ended false x y hx hy = hy

    anchored :
        (a b c : Bool)
        → HasLiteral
            (let x : Bytes × NetRule =
                if a
                then (drop 2 p, record r { anchor_host = true })
                else if b
                then (drop 1 p, record r { anchor_start = true })
                else (p, r) in
              if c then (drop_last x.0, record x.1 { anchor_end = true }) else x).1
    anchored true b true = lit
    anchored true b false = lit
    anchored false true true = lit
    anchored false true false = lit
    anchored false false true = lit
    anchored false false false = lit

if_compiled :
    (b : Bool) (r out : NetRule)
    → HasLiteral r
    → (if b then some r else none) ≡ some out
    → HasLiteral out
if_compiled true r out lit h = subst HasLiteral (some_injective h) lit
if_compiled false r out lit h = absurd (none≢some h)

module _ (compiles : Bytes → Bool) where
  finish_pattern-HasLiteral :
      (p : Bytes) (r out : NetRule)
      → HasLiteral r
      → finish_pattern compiles p r ≡ some out
      → HasLiteral out
  unfolding finish_pattern
  finish_pattern-HasLiteral p r out lit h =
      elim (Bool-cases (ltb 2 (length p) && has_prefix p (codes "/") && has_suffix p (codes "/"))) [
        | inl slashes ↦
            if_compiled (compiles (regexp_of p r.match_case))
              (record r { re = some (regexp_of p r.match_case) }) out lit (rw slashes at h)
        | inr plain ↦
            finish_rule-HasLiteral (strip_end (strip_start p r)).0 (strip_end (strip_start p r)).1
              out (stripped-HasLiteral p r lit) (rw plain at h)
      ]

  options-HasLiteral :
      (b : Bool) (opts : Bytes) (r out : NetRule)
      → HasLiteral r
      → (if b then some r else parse_options opts r) ≡ some out
      → HasLiteral out
  options-HasLiteral true opts r out lit h = subst HasLiteral (some_injective h) lit
  options-HasLiteral false opts r out lit h =
      let (l, p) = parse_options-Untouched opts r out h in l ∙ lit ∙ ap literal_of (sym p)

  -- Every rule that parseNetRule gives has for its leading literal the part of its pattern before the
  -- first `*` or `^`, whatever options it has.
  pub parse_net_rule-HasLiteral :
      (line : Bytes) (out : NetRule) → parse_net_rule compiles line ≡ some out → HasLiteral out
  unfolding parse_net_rule literal_of
  parse_net_rule-HasLiteral line out h =
      let is_exception = has_prefix line (codes "@@") in
      let r : NetRule = record (raw_rule line) { is_exception = is_exception } in
      let parts = split_options (if is_exception then drop 2 line else line) in
      let (next, opted, finished) =
        chained (if is_empty parts.1 then some r else parse_options parts.1 r)
          (finish_pattern compiles parts.0) out h in
      finish_pattern-HasLiteral parts.0 next out
        (options-HasLiteral (is_empty parts.1) parts.1 r next refl opted) finished
