-- ===== src/Adblock/Lines.antt =====
-- parseList of internal/adblock/parse.go: the lines of a filter list, each by its format.
use gowebfilter.Base.{
  ℕ, suc, Bool, true, false, ◌&&◌, ◌||◌, not, Option, none, some, List, [], ◌∷◌, ◌++◌, leb, ◌==◌,
  if◌then◌else◌, Bytes, codes, bytes_eq, cut_prefix, has_prefix, trim_space, to_lower, split_byte,
  contains, contains_any, trim_suffix, is_empty,
}
use gowebfilter.Adblock.Parse.{parse_abp_line}
use gowebfilter.Adblock.Rules.{Parsed, raw_rule}

-- `\s` of a regular expression.
unfoldable pub is_regexp_space : ℕ → Bool
is_regexp_space b = b == 9 || b == 10 || b == 12 || b == 13 || b == 32

unfoldable pub skip_spaces : Bytes → Bytes
unfolding is_regexp_space
skip_spaces [] = []
skip_spaces (c ∷ s) = let rest = skip_spaces s in if is_regexp_space c then rest else c ∷ s

-- `[^\s#]+`: the longest run.
unfoldable pub host_field : Bytes → Bytes
unfolding is_regexp_space
host_field [] = []
host_field (c ∷ s) =
    let rest = host_field s in if is_regexp_space c || c == b'#' then [] else c ∷ rest

-- Behind the address: spaces, at least one, and the field, not empty.
unfoldable pub field_after : Option Bytes → Option Bytes
unfolding host_field skip_spaces is_regexp_space
field_after none = none
field_after (some []) = none
field_after (some (c ∷ s)) =
    if is_regexp_space c && not (is_empty (host_field (skip_spaces s)))
    then some (host_field (skip_spaces s))
    else none

abbrev pub first_some {ℓ} : {A : Type ℓ} → Option A → Option A → Option A
first_some none o = o
first_some (some a) o = some a

-- hostsLineRe: the addresses of a hosts file in the order of the alternatives.
unfoldable pub hosts_line : Bytes → Option Bytes
unfolding field_after cut_prefix
hosts_line line = first_some (field_after (cut_prefix line (codes "0.0.0.0"))) (
    first_some (field_after (cut_prefix line (codes "127.0.0.1"))) (
      first_some (field_after (cut_prefix line (codes "::1")))
        (field_after (cut_prefix line (codes "::")))))

unfoldable pub clean_host : Bytes → Bytes
unfolding to_lower trim_suffix trim_space contains_any
clean_host host =
    let h = to_lower (trim_suffix (trim_space host) (codes ".")) in
    if is_empty h || contains_any h (codes "/*^|$ ") then [] else h

-- bareDomainRe: labels of letters, digits and inner dashes, at least two, and perhaps a dot at the
-- end.
unfoldable pub is_alnum : ℕ → Bool
is_alnum b = leb b'A' b && leb b b'Z' || leb b'a' b && leb b b'z' || leb b'0' b && leb b b'9'

unfoldable pub label_rest : Bytes → Bool
unfolding is_alnum
label_rest [] = true
label_rest (c ∷ s) =
    let rest = label_rest s in if is_empty s then is_alnum c else (is_alnum c || c == b'-') && rest

unfoldable pub is_label : Bytes → Bool
unfolding label_rest is_alnum
is_label [] = false
is_label (c ∷ s) = is_alnum c && label_rest s

abbrev pub two_labels : List Bytes → Bool
two_labels [] = false
two_labels (part ∷ []) = false
two_labels (part ∷ next ∷ parts) = true

unfoldable pub all_labels : List Bytes → Bool
unfolding is_label
all_labels [] = true
all_labels (part ∷ parts) = is_label part && all_labels parts

unfoldable pub looks_like_domain : Bytes → Bool
unfolding all_labels trim_suffix split_byte
looks_like_domain s =
    let parts = split_byte b'.' (trim_suffix s (codes ".")) in two_labels parts && all_labels parts

-- The list so far: the number of lines read, whether a line has shown the list to be in Adblock
-- syntax, the number of rules, and the rules.
pub record ListState : Type 0 where
  pub line_no : ℕ
  pub abp : Bool
  pub rules : ℕ
  pub into : Parsed

abbrev pub keep_host : Bytes → Bytes → ListState → ListState
keep_host line h st = record st {
  rules = suc st.rules;
  into = record st.into { net = st.into.net ++ (record (raw_rule line) { host_only = h } ∷ []) };
}

abbrev pub is_no_host : Bytes → Bool
is_no_host h = is_empty h || bytes_eq h (codes "localhost") || bytes_eq h (codes "0.0.0.0")

abbrev pub count_line : ListState → Parsed × Bool → ListState
count_line st (into, true) = record st { into = into; rules = suc st.rules }
count_line st (into, false) = record st { into = record into { skipped = suc into.skipped } }

-- The title of a list in Adblock syntax, and the comments.
unfoldable pub is_title : Bytes → Bool
unfolding cut_prefix contains to_lower
is_title line = has_prefix line (codes "[") && contains (to_lower line) (codes "adblock")

unfoldable pub is_hosts_comment : Bytes → Bool
unfolding cut_prefix
is_hosts_comment line =
    has_prefix line (codes "#")
    && not (has_prefix line (codes "##"))
    && not (has_prefix line (codes "#@#"))

-- `compiles` is regexp.Compile, `is_ip` that net.ParseIP takes the text.
module _ (compiles is_ip : Bytes → Bool) where
  unfoldable pub is_bare_domain : Bytes → Bool
  unfolding looks_like_domain
  is_bare_domain s = looks_like_domain s && not (is_ip s)

  -- A line of a hosts file, a bare domain, or a rule in Adblock syntax.
  abbrev pub rule_of : Option Bytes → Bytes → ListState → ListState
  rule_of (some h) line st =
      if is_no_host (clean_host h) then st else keep_host line (clean_host h) st
  rule_of none line st =
      if not st.abp && is_bare_domain line
      then keep_host line (clean_host line) st
      else count_line st (parse_abp_line compiles line st.into)

  unfoldable pub rule_line : Bytes → ListState → ListState
  unfolding hosts_line clean_host is_bare_domain parse_abp_line bytes_eq
  rule_line line st = rule_of (hosts_line line) line st

  -- A line, once its spaces are trimmed.
  unfoldable pub take_line : Bytes → ListState → ListState
  unfolding rule_line is_title is_hosts_comment cut_prefix
  take_line line before =
      let st = record before { line_no = suc before.line_no } in
      if is_empty line
      then st
      else if leb st.line_no 5 && is_title line
      then record st { abp = true }
      else if has_prefix line (codes "!")
      then record st { abp = true }
      else if is_hosts_comment line
      then st
      else rule_line line st

  unfoldable pub take_lines : List Bytes → ListState → ListState
  unfolding take_line trim_space
  take_lines [] st = st
  take_lines (line ∷ lines) st = take_lines lines (take_line (trim_space line) st)

  -- parseList on the lines that the scanner gives.
  unfoldable pub parse_list : List Bytes → Parsed → ℕ × Parsed
  unfolding take_lines
  parse_list lines into =
      let st = take_lines lines (record { line_no = 0; abp = false; rules = 0; into = into }) in
      (st.rules, st.into)

  -- The lists of Compile, one after the other.
  unfoldable pub parse_lists : List (List Bytes) → Parsed → Parsed
  unfolding parse_list
  parse_lists [] into = into
  parse_lists (lines ∷ lists) into = parse_lists lists (parse_list lines into).1
