-- ===== src/Proxy/HostGate/Categories.antt =====
-- The category rules of hostgate.go: what they decide.
use gowebfilter.Base.{
  ◌≡◌, refl, ◌≢◌, ◌↔◌, ◌⊎◌, inl, inr, true, ◌&&◌, not, some, List, [], ◌∷◌, arith, Bool-cases,
  Bytes, is_empty, Within, Any,
}
use gowebfilter.Categories.Store.{Store, match_any, store_host_matches}
use gowebfilter.Models.Policy.{ListMode, UrlFilterConfig, blacklist, whitelist}
use gowebfilter.Models.UrlFilter.{allow_categories, block_categories}
use gowebfilter.Proxy.HostGate.{by_category, category_blocked, category_verdict}

-- The host is in a category of the list.
abbrev pub InSome : Store → Bytes → List Bytes → Type 0
InSome cats host names = Any (λ n. (n ≢ []) × (store_host_matches cats host n ≡ true)) names

named : (name : Bytes) → not (is_empty name) ≡ true → name ≢ []
named [] h = cc
named (c ∷ s) h = λ e. cc

not_empty : (name : Bytes) → name ≢ [] → not (is_empty name) ≡ true
not_empty [] h = absurd (h refl)
not_empty (c ∷ s) h = refl

match_any→InSome :
    (cats : Store) (host : Bytes) (names : List Bytes)
    → match_any cats host names ≢ []
    → InSome cats host names
unfolding match_any
match_any→InSome cats host [] h = absurd (h refl)
match_any→InSome cats host (n ∷ ns) h =
    elim (Bool-cases (not (is_empty n) && store_host_matches cats host n)) [
      | inl hit ↦ (n, Within.here, (named n (ground arith), ground arith))
      | inr miss ↦
          let (m, w, p) = match_any→InSome cats host ns (rw miss at h) in (m, Within.there w, p)
    ]

InSome→match_any :
    (cats : Store) (host : Bytes) {n : Bytes} {names : List Bytes}
    → Within n names
    → n ≢ []
    → store_host_matches cats host n ≡ true
    → match_any cats host names ≢ []
unfolding match_any
InSome→match_any cats host {n} {names = n' ∷ ns} Within.here ne h = rw (not_empty n ne, h) ne
InSome→match_any cats host {names = m ∷ ns} (Within.there w) ne h =
    elim (Bool-cases (not (is_empty m) && store_host_matches cats host m)) [
      | inl hit ↦ rw hit (named m (ground arith))
      | inr miss ↦ rw miss (InSome→match_any cats host w ne h)
    ]
InSome→match_any cats host {names = []} w ne h = elim w [ ]

by_category_iff :
    (a b : Bytes) (m : ListMode)
    → (by_category a b m).0 ≡ category_blocked ↔ (a ≡ []) × ((b ≢ []) ⊎ (m ≡ whitelist))
by_category_iff (c ∷ a) b m = (λ e. cc, λ (e, rest). cc)
by_category_iff [] (c ∷ b) m = (λ e. (refl, inl (λ e. cc)), λ h. refl)
by_category_iff [] [] whitelist = (λ e. (refl, inr refl), λ h. refl)
by_category_iff [] [] blacklist =
    (λ e. cc, λ (e, h). elim h [ inl ne ↦ absurd (ne refl) | inr m ↦ cc ])

match_any-InSome :
    (cats : Store) (host : Bytes) (names : List Bytes)
    → match_any cats host names ≢ [] ↔ InSome cats host names
match_any-InSome cats host names =
    (match_any→InSome cats host names, λ (n, w, (ne, held)). InSome→match_any cats host w ne held)

empty_cases : (s : Bytes) → (s ≡ []) ⊎ (s ≢ [])
empty_cases [] = inl refl
empty_cases (c ∷ s) = inr (λ e. cc)

no_match_iff :
    (cats : Store) (host : Bytes) (names : List Bytes)
    → match_any cats host names ≡ [] ↔ ¬ InSome cats host names
no_match_iff cats host names = (
  λ e i. (match_any-InSome cats host names).1 i e,
  λ n. elim (empty_cases (match_any cats host names)) [
    | inl e ↦ e
    | inr ne ↦ absurd (n ((match_any-InSome cats host names).0 ne))
  ],
)

-- What a site's categories decide: the site is blocked exactly when no category of the allow list
-- holds it and either a category of the block list does, or the mode is whitelist.
pub category_verdict_iff :
    (cats : Store) (host : Bytes) (cfg : UrlFilterConfig)
    → (category_verdict (some cats) host cfg).0 ≡ category_blocked
      ↔ ¬ InSome cats host (allow_categories cfg)
        × (InSome cats host (block_categories cfg) ⊎ (cfg.mode ≡ whitelist))
unfolding category_verdict
category_verdict_iff cats host cfg =
    let (only, blocks) =
      by_category_iff (match_any cats host (allow_categories cfg))
        (match_any cats host (block_categories cfg)) cfg.mode in
    let (unlisted, unlisted_back) = no_match_iff cats host (allow_categories cfg) in
    let (has, held) = match_any-InSome cats host (block_categories cfg) in
    (
      λ e. let (a, b) = only e in (unlisted a, elim b [ inl ne ↦ inl (has ne) | inr m ↦ inr m ]),
      λ (n, b). blocks (unlisted_back n, elim b [ inl i ↦ inl (held i) | inr m ↦ inr m ]),
    )
