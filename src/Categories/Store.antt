-- ===== src/Categories/Store.antt =====
-- internal/categories/store.go: loading a list of domains, and looking a host up in it.
pub mod Listed
use gowebfilter.Base.{
  ℕ, zero, suc, ◌+◌, ◌-◌, ◌*◌, ◌/◌, ◌%◌, ◌^◌, ◌≤◌, ◌<◌, ◌≡◌, refl, sym, ap, ap₂, ◌∙◌, subst, ◌≢◌,
  ◌↔◌, ◌⊎◌, inl, inr, Bool, true, false, ◌&&◌, ◌||◌, not, Option, none, some, List, [], ◌∷◌, ◌++◌,
  map, append-nil, append_assoc, arith, ltb, leb, ◌==◌, if◌then◌else◌, ltb→lt, lt→ltb, leb→le,
  ==_iff, Bool-cases, false≢true, Option-cases, or_else, none≢some, some_injective, length,
  length-append, take, drop, get_elem?, Bytes, codes, bytes_eq, bytes_eq_iff, bytes_eq_refl,
  cut_prefix, cut_prefix-some, cut_prefix-append, is_some, has_prefix, trim_prefix, has_suffix,
  EndsIn, has_suffix_iff, has_byte, cut_byte, is_space, trim_space, to_lower, lower_byte,
  split_byte, contains, is_empty, ℤ, pos, negsuc, atoi, atoi_two, itoa, itoa_digit, digits, IsDigit,
  hex_digit, hex_value, hex_value-hex_digit, split_byte-cons, eq_ne, is_digit, Within,
  Within-append, Within-cons, append_left, append_right, no_member, Any, any_of, any_of_iff,
}
use gowebfilter.Categories.Hash.{DomainSet, dedupe, fnv1a_hash, set_contains, sort_hashes}

abbrev pub hash_set_threshold : ℕ
hash_set_threshold = 100_000

-- The domain of a line, if it has one.
unfoldable pub line_domain : Bytes → Option Bytes
unfolding to_lower trim_space
line_domain line =
    let d : Bytes = to_lower (trim_space line) in
    if is_empty d || has_prefix d (codes "#") then none else some d

-- `exact[line] = struct{}{}`
unfoldable pub add_domain : Bytes → List Bytes → List Bytes
add_domain d m = if any_of (λ e. bytes_eq e d) m then m else d ∷ m

-- The variables of the loop: `exact`, which is none once it has grown too big, and `hashes`.
pub record Loading : Type 0 where
  pub exact : Option (List Bytes)
  pub hashes : List ℕ

-- `exact` is given up for good once it has more domains than the threshold.
abbrev pub within_threshold : List Bytes → Option (List Bytes)
within_threshold m = if ltb hash_set_threshold (length m) then none else some m

abbrev pub add_exact : Bytes → Option (List Bytes) → Option (List Bytes)
add_exact d none = none
add_exact d (some m) = within_threshold (add_domain d m)

unfoldable pub load_domain : Bytes → Loading → Loading
unfolding fnv1a_hash add_domain
load_domain d l = record { exact = add_exact d l.exact; hashes = l.hashes ++ fnv1a_hash d ∷ [] }

abbrev pub load_if : Option Bytes → Loading → Loading
load_if none l = l
load_if (some d) l = load_domain d l

unfoldable pub load_line : Bytes → Loading → Loading
unfolding line_domain load_domain
load_line line l = load_if (line_domain line) l

unfoldable pub load_lines : List Bytes → Loading → Loading
unfolding load_line
load_lines [] l = l
load_lines (line ∷ lines) l = load_lines lines (load_line line l)

abbrev pub set_of : Option (List Bytes) → List ℕ → DomainSet
set_of (some m) hs = DomainSet.exact m
set_of none hs = DomainSet.hashes (dedupe (sort_hashes hs))

abbrev pub finish : Loading → DomainSet
finish l = set_of l.exact l.hashes

-- buildDomainSet, on the lines that the scanner gives.
unfoldable pub build_domain_set : List Bytes → DomainSet
unfolding load_lines dedupe sort_hashes
build_domain_set lines = finish (load_lines lines (record { exact = some []; hashes = [] }))

-- strings.TrimSuffix(host, ".")
unfoldable pub trim_suffix_dot : Bytes → Bytes
trim_suffix_dot [] = []
trim_suffix_dot (c ∷ s) =
    let rest = trim_suffix_dot s in if is_empty s && c == b'.' then [] else c ∷ rest

-- strings.Join of labels by dots
unfoldable pub join_dots : List Bytes → Bytes
join_dots [] = []
join_dots (l ∷ []) = l
join_dots (l ∷ m ∷ ms) = l ++ (b'.' ∷ join_dots (m ∷ ms))

-- The loop of `hostInSet` over the labels, short of the last one.
unfoldable pub labels_in_set : DomainSet → List Bytes → Bool
unfolding set_contains join_dots
labels_in_set set [] = false
labels_in_set set (l ∷ []) = false
labels_in_set set (l ∷ m ∷ ms) =
    set_contains set (join_dots (l ∷ m ∷ ms)) || labels_in_set set (m ∷ ms)

unfoldable pub host_in_set : Bytes → DomainSet → Bool
unfolding labels_in_set split_byte to_lower trim_suffix_dot
host_in_set host set = labels_in_set set (split_byte b'.' (to_lower (trim_suffix_dot host)))

-- A store as the sets that `domains` returns for its names. When a file changes on disk the store
-- is another one; the cache's clock is left out.
pub record Store : Type 0 where
  pub domains : Bytes → DomainSet

-- Store.HostMatches
abbrev pub store_host_matches : Store → Bytes → Bytes → Bool
store_host_matches s host name = host_in_set host (s.domains name)

-- Store.MatchAny: the first name whose set holds the host; the empty text where none does.
unfoldable pub match_any : Store → Bytes → List Bytes → Bytes
unfolding host_in_set
match_any s host [] = []
match_any s host (name ∷ names) =
    let rest = match_any s host names in
    if not (is_empty name) && store_host_matches s host name then name else rest
