-- ===== src/Categories/Store/Listed.antt =====
-- A set built from a list has every domain of the list, in both representations.
-- The domain is in what has been read so far.
use gowebfilter.Base.{
  ℕ, ◌≡◌, refl, sym, subst, inl, inr, true, Option, none, some, List, [], ◌∷◌, ltb, Bool-cases,
  none≢some, some_injective, length, Bytes, bytes_eq, bytes_eq_iff, Within, append_left,
  append_right, any_of, any_of_iff,
}
use gowebfilter.Categories.Hash.{dedupe, fnv1a_hash, set_contains, sort_hashes}
use gowebfilter.Categories.Hash.Search.{hash_contains_complete}
use gowebfilter.Categories.Hash.Sorting.{finished}
use gowebfilter.Categories.Store.{
  Loading, add_domain, add_exact, build_domain_set, hash_set_threshold, line_domain, load_domain,
  load_if, load_line, load_lines, set_of, within_threshold,
}

abbrev pub IsLoaded : Bytes → Loading → Type 0
IsLoaded d l = ((m : List Bytes) → l.exact ≡ some m → Within d m) × Within (fnv1a_hash d) l.hashes

Within-add_domain-new : (d : Bytes) (m : List Bytes) → Within d (add_domain d m)
unfolding add_domain
Within-add_domain-new d m = elim (Bool-cases (any_of (λ e. bytes_eq e d) m)) [
  | inr absent ↦ rw absent Within.here
  | inl present ↦
      let (e, w, same) =
        (any_of_iff (λ e. bytes_eq e d) (λ e. e ≡ d) (λ e. bytes_eq_iff e d) m).0 present in
      rw present (subst (λ t. Within t m) same w)
]

Within-add_domain : (d e : Bytes) (m : List Bytes) → Within d m → Within d (add_domain e m)
unfolding add_domain
Within-add_domain d e m w = elim (Bool-cases (any_of (λ c. bytes_eq c e) m)) [
  | inr absent ↦ rw absent (Within.there w)
  | inl present ↦ rw present w
]

threshold-same : (m n : List Bytes) → within_threshold m ≡ some n → m ≡ n
threshold-same m n e = elim (Bool-cases (ltb hash_set_threshold (length m))) [
  | inl big ↦ absurd (none≢some (rw big at e))
  | inr small ↦ some_injective (rw small at e)
]

add_exact-Within :
    (d e : Bytes) (x : Option (List Bytes)) (n : List Bytes)
    → ((m : List Bytes) → x ≡ some m → Within d (add_domain e m))
    → add_exact e x ≡ some n
    → Within d n
add_exact-Within d e none n h eq = absurd (none≢some eq)
add_exact-Within d e (some m) n h eq =
    subst (λ t. Within d t) (threshold-same (add_domain e m) n eq) (h m refl)

load_domain-IsLoaded-new : (d : Bytes) (l : Loading) → IsLoaded d (load_domain d l)
unfolding load_domain
load_domain-IsLoaded-new d l = (
  λ n e. add_exact-Within d d l.exact n (λ m _. Within-add_domain-new d m) e,
  append_right l.hashes Within.here,
)

load_domain-IsLoaded : (d e : Bytes) (l : Loading) → IsLoaded d l → IsLoaded d (load_domain e l)
unfolding load_domain
load_domain-IsLoaded d e l (in_exact, in_hashes) = (
  λ n eq. add_exact-Within d e l.exact n (λ m h. Within-add_domain d e m (in_exact m h)) eq,
  append_left (fnv1a_hash e ∷ []) in_hashes,
)

load_if-IsLoaded :
    (d : Bytes) (o : Option Bytes) (l : Loading) → IsLoaded d l → IsLoaded d (load_if o l)
load_if-IsLoaded d none l h = h
load_if-IsLoaded d (some e) l h = load_domain-IsLoaded d e l h

load_lines-IsLoaded :
    (d : Bytes) (lines : List Bytes) (l : Loading) → IsLoaded d l → IsLoaded d (load_lines lines l)
unfolding load_lines load_line
load_lines-IsLoaded d [] l h = h
load_lines-IsLoaded d (line ∷ lines) l h =
    load_lines-IsLoaded d lines (load_if (line_domain line) l)
      (load_if-IsLoaded d (line_domain line) l h)

load_lines-Within :
    (d line : Bytes) (lines : List Bytes) (l : Loading)
    → Within line lines
    → line_domain line ≡ some d
    → IsLoaded d (load_lines lines l)
unfolding load_lines load_line
load_lines-Within d line (line' ∷ lines) l Within.here e =
    load_lines-IsLoaded d lines (load_if (line_domain line) l)
      (subst (λ o. IsLoaded d (load_if o l)) (sym e) (load_domain-IsLoaded-new d l))
load_lines-Within d line (line' ∷ lines) l (Within.there w) e =
    load_lines-Within d line lines (load_if (line_domain line') l) w e
load_lines-Within d line [] l w e = elim w [ ]

set_of-contains :
    (d : Bytes) (x : Option (List Bytes)) (hs : List ℕ)
    → ((m : List Bytes) → x ≡ some m → Within d m)
    → Within (fnv1a_hash d) hs
    → set_contains (set_of x hs) d ≡ true
unfolding set_contains
set_of-contains d (some m) hs in_exact in_hashes =
    (any_of_iff (λ e. bytes_eq e d) (λ e. e ≡ d) (λ e. bytes_eq_iff e d) m).1
      (d, in_exact m refl, refl)
set_of-contains d none hs in_exact in_hashes =
    let (asc, all_) = finished hs in
    hash_contains_complete (dedupe (sort_hashes hs)) (fnv1a_hash d) asc
      (all_ (fnv1a_hash d) in_hashes)

-- The set built from a list of lines has the domain of every line that names one, however long the
-- list is: past the threshold, where only sorted hashes are kept, the binary search finds its hash.
pub build_domain_set-contains :
    (lines : List Bytes) (line d : Bytes)
    → Within line lines
    → line_domain line ≡ some d
    → set_contains (build_domain_set lines) d ≡ true
unfolding build_domain_set
build_domain_set-contains lines line d w e =
    let l : Loading = load_lines lines (record { exact = some []; hashes = [] }) in
    let (in_exact, in_hashes) =
      load_lines-Within d line lines (record { exact = some []; hashes = [] }) w e in
    set_of-contains d l.exact l.hashes in_exact in_hashes
