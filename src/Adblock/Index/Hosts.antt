-- ===== src/Adblock/Index/Hosts.antt =====
-- The loop over a host and its parents comes to every domain that the host matches.
use gowebfilter.Base.{
  ℕ, zero, suc, ◌-◌, ◌≤◌, ◌≡◌, refl, sym, ap, ◌∙◌, subst, ◌⊎◌, inl, inr, true, false, [], ◌∷◌,
  arith, ltb, ◌==◌, Bool-cases, false≢true, or_else, length, drop, get_elem?, Bytes, bytes_eq,
  bytes_eq_iff, cut_byte, both, is_empty, Within,
}
use gowebfilter.Adblock.Index.{host_and_parents, parent_domain, parents}
use gowebfilter.Adblock.Matching.{domain_matches}
use gowebfilter.Categories.Hash.{at}

-- The domain stands behind a dot of the host.
abbrev Behind : Bytes → Bytes → Type 0
Behind d h = (j : ℕ) × ◌≡◌ {A = Bytes} (drop j h) (b'.' ∷ d)

nil_drop : (j : ℕ) (d : Bytes) → ¬ ◌≡◌ {A = Bytes} (drop j []) (b'.' ∷ d)
nil_drop zero d e = absurd (ground (arith, ap length e))
nil_drop (suc j) d e = absurd (ground (arith, ap length e))

parent_domain-dot : (c : ℕ) (s : Bytes) → (c == b'.') ≡ true → parent_domain (c ∷ s) ≡ s
unfolding parent_domain cut_byte
parent_domain-dot c s dot = rw dot refl

parent_domain-skip :
    (c : ℕ) (s : Bytes) → (c == b'.') ≡ false → parent_domain (c ∷ s) ≡ parent_domain s
unfolding parent_domain cut_byte
parent_domain-skip c s plain = rw plain refl

parent_domain-nil : parent_domain [] ≡ []
unfolding parent_domain cut_byte
parent_domain-nil = refl

length-parent_domain : (c : ℕ) (s : Bytes) → length (parent_domain (c ∷ s)) ≤ length s
length-parent_domain c s = elim (Bool-cases (c == b'.')) [
  | inl dot ↦ rw (parent_domain-dot c s dot) (omega arith)
  | inr plain ↦ rw (parent_domain-skip c s plain) (shorter s)
]
  where
    shorter : (t : Bytes) → length (parent_domain t) ≤ length t
    shorter [] = rw parent_domain-nil (omega arith)
    shorter (d ∷ t) = elim (Bool-cases (d == b'.')) [
      | inl dot ↦ rw (parent_domain-dot d t dot) (omega arith)
      | inr plain ↦ rw (parent_domain-skip d t plain) (omega (arith, shorter t))
    ]

Behind-parent : (d h : Bytes) → Behind d h → (parent_domain h ≡ d) ⊎ Behind d (parent_domain h)
Behind-parent d [] (j, e) = absurd (nil_drop j d e)
Behind-parent d (c ∷ s) (zero, e) = elim (Bool-cases (c == b'.')) [
  | inl dot ↦ inl (parent_domain-dot c s dot ∙ ap (λ (u : Bytes). drop 1 u) e)
  | inr plain ↦ absurd (ground (arith, plain, ap (λ (u : Bytes). or_else (get_elem? u 0) 0) e))
]
Behind-parent d (c ∷ s) (suc j, e) = elim (Bool-cases (c == b'.')) [
  | inl dot ↦ inr (subst (Behind d) (sym (parent_domain-dot c s dot)) (j, e))
  | inr plain ↦
      subst (λ (u : Bytes). (u ≡ d) ⊎ Behind d u) (sym (parent_domain-skip c s plain))
        (Behind-parent d s (j, e))
]

itself_in : (d : Bytes) (k : ℕ) → is_empty d ≡ false → length d ≤ k → Within d (parents k d)
unfolding parents
itself_in [] k filled le = absurd (false≢true (sym filled))
itself_in (x ∷ d) zero filled le = absurd (omega (arith, le))
itself_in (x ∷ d) (suc k) filled le = Within.here

Behind-parents :
    (d : Bytes) (k : ℕ) (h : Bytes)
    → is_empty d ≡ false
    → length h ≤ k
    → Behind d h
    → Within d (parents k h)
unfolding parents
Behind-parents d k [] filled le (j, e) = absurd (nil_drop j d e)
Behind-parents d zero (c ∷ s) filled le at = absurd (omega (arith, le))
Behind-parents d (suc k) (c ∷ s) filled le at = Within.there (elim (Behind-parent d (c ∷ s) at) [
  | inl same ↦
      subst (λ (u : Bytes). Within d (parents k u)) (sym same)
        (itself_in d k filled
          (subst (λ (u : Bytes). length u ≤ k) same (omega (arith, le, length-parent_domain c s))))
  | inr behind ↦
      Behind-parents d k (parent_domain (c ∷ s)) filled
        (omega (arith, le, length-parent_domain c s)) behind
])

pub domain_matches-Within :
    (host d : Bytes)
    → is_empty d ≡ false
    → domain_matches host d ≡ true
    → Within d (host_and_parents host)
unfolding domain_matches
domain_matches-Within host d filled h = elim (Bool-cases (length host == length d)) [
  | inl same ↦
      let e : host ≡ d = (bytes_eq_iff host d).0 (rw same at h) in
      subst (λ (u : Bytes). Within d (host_and_parents u)) (sym e)
        (itself_in d (length d) filled (omega arith))
  | inr differ ↦
      let k = length host - length d - 1 in
      Behind-parents d (length host) host filled (omega arith) (
        k,
        (bytes_eq_iff (drop k host) (b'.' ∷ d)).0
            (both (ltb (length d) (length host)) (bytes_eq (drop k host) (b'.' ∷ d))
              (rw differ at h)).1,
      )
]
