-- ===== src/Proxy/Matching/Domains.antt =====
-- The domain lists of matching.go.
use gowebfilter.Base.{
  ◌≡◌, refl, ◌≢◌, ◌↔◌, ◌⊎◌, inl, inr, true, List, [], ◌∷◌, arith, Bool-cases, Bytes, bytes_eq,
  bytes_eq_iff, EndsIn, has_suffix_iff, Any, any_of_iff,
}
use gowebfilter.Proxy.Matching.{domain_hit, domain_in_list, domain_pattern, is_under}

-- The host is the domain or a name below it: it ends in a dot and the domain.
abbrev pub Under : Bytes → Bytes → Type 0
Under host s = (host ≡ s) ⊎ EndsIn host (b'.' ∷ s)

pub is_under_iff : (host s : Bytes) → (is_under host s ≡ true) ↔ Under host s
unfolding is_under
is_under_iff host s = (
  λ h. elim (Bool-cases (bytes_eq host s)) [
    | inl e ↦ inl ((bytes_eq_iff host s).0 e)
    | inr ne ↦ inr ((has_suffix_iff host (b'.' ∷ s)).0 (rw ne at h))
  ],
  elim [
    | inl e ↦ rw ((bytes_eq_iff host s).1 e) refl
    | inr w ↦ rw ((has_suffix_iff host (b'.' ∷ s)).1 w) (ground arith)
  ],
)

hit_iff : (host s : Bytes) → (domain_hit host s ≡ true) ↔ ((s ≢ []) × Under host s)
hit_iff host [] = (λ h. cc, λ h. absurd (h.0 refl))
hit_iff host (c ∷ s) =
    (λ h. (λ e. cc, (is_under_iff host (c ∷ s)).0 h), λ h. (is_under_iff host (c ∷ s)).1 h.1)

-- `domain_in_list` holds exactly when some pattern of the list, trimmed and without its leading
-- "*.", is not empty and is the host or a suffix of it behind a dot. So "evil-example.com" is not
-- under "example.com".
pub domain_in_list_iff :
    (host : Bytes) (patterns : List Bytes)
    → (domain_in_list host patterns ≡ true)
      ↔ Any (λ p. (domain_pattern p ≢ []) × Under host (domain_pattern p)) patterns
unfolding domain_in_list
domain_in_list_iff host patterns =
    any_of_iff (λ p. domain_hit host (domain_pattern p))
      (λ p. (domain_pattern p ≢ []) × Under host (domain_pattern p))
      (λ p. hit_iff host (domain_pattern p)) patterns
