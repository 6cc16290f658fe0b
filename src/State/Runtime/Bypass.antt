-- ===== src/State/Runtime/Bypass.antt =====
-- Which hosts are not intercepted after a reload of the policies.
use gowebfilter.Base.{
  ◌≡◌, refl, sym, ◌∙◌, subst, ◌≢◌, ◌↔◌, ◌⊎◌, inl, inr, Bool, true, false, ◌||◌, some, List, [], ◌∷◌,
  ◌++◌, arith, if◌then◌else◌, Bool-cases, false≢true, Bytes, bytes_eq, bytes_eq_iff, has_suffix,
  to_lower, is_empty, Within, Within-append, Within-cons, append_left, append_right, no_member, Any,
  any_of, any_of_iff,
}
use gowebfilter.Models.Policy.{Policy}
use gowebfilter.Proxy.Matching.{is_under}
use gowebfilter.Proxy.Matching.Domains.{Under, is_under_iff}
use gowebfilter.State.Runtime.{
  Runtime, add_site, add_sites, bypass_domain, bypass_from, excludes, mitm_bypass_of,
  reload_policies, should_bypass_mitm,
}

abbrev any_is : Bytes → List Bytes → Bool
any_is d ds = any_of (λ e. bytes_eq e d) ds

any_is_iff : (d : Bytes) (ds : List Bytes) → (any_is d ds ≡ true) ↔ Any (λ e. e ≡ d) ds
any_is_iff d ds = any_of_iff (λ e. bytes_eq e d) (λ e. e ≡ d) (λ e. bytes_eq_iff e d) ds

module _ (x d : Bytes) (ds : List Bytes) where
  -- A domain is added unless it is empty or there already.
  abbrev added : List Bytes
  added = if is_empty d || any_is d ds then ds else ds ++ d ∷ []

  Within-added : Within x added → Within x ds ⊎ ((x ≡ d) × (d ≢ []))
  Within-added w = elim (Bool-cases (is_empty d || any_is d ds)) [
    | inl old ↦ inl (rw old at w)
    | inr new ↦ elim (Within-append ds (d ∷ []) (rw new at w)) [
      | inl v ↦ inl v
      | inr v ↦ elim (Within-cons v) [
        | inl e ↦ inr (e, not_empty d (ground arith))
        | inr u ↦ absurd (no_member u)
      ]
    ]
  ]
    where
      not_empty : (s : Bytes) → is_empty s ≡ false → s ≢ []
      not_empty [] h = cc
      not_empty (c ∷ s) h = λ e. cc

  added-Within : Within x ds ⊎ ((x ≡ d) × (d ≢ [])) → Within x added
  added-Within h = elim (Bool-cases (is_empty d || any_is d ds)) [
    | inl old ↦ rw old (elim h [ inl v ↦ v | inr (e, ne) ↦ there_already e ne old ])
    | inr new ↦ rw new (elim h [
      | inl v ↦ append_left (d ∷ []) v
      | inr (e, ne) ↦ subst (λ y. Within y (ds ++ d ∷ [])) (sym e) (append_right ds Within.here)
    ])
  ]
    where
      there_already : x ≡ d → d ≢ [] → is_empty d || any_is d ds ≡ true → Within x ds
      there_already e ne old =
          let (y, w, same) = (any_is_iff d ds).0 (second d ne old) in
          subst (λ z. Within z ds) (same ∙ sym e) w
        where
          second : (s : Bytes) → s ≢ [] → is_empty s || any_is d ds ≡ true → any_is d ds ≡ true
          second [] n o = absurd (n refl)
          second (c ∷ s) n o = o

-- The domain comes from one of the sites.
abbrev ListedIn : Bytes → List Bytes → Type 0
ListedIn x sites = Any (λ site. (x ≡ bypass_domain site) × (bypass_domain site ≢ [])) sites

Any-cons : {A : Type 0} (P : A → Type 0) (a : A) (xs : List A) → Any P (a ∷ xs) → P a ⊎ Any P xs
Any-cons P a xs (y, w, p) = elim (Within-cons w) [
  | inl e ↦ inl (subst P e p)
  | inr v ↦ inr (y, v, p)
]

Any-there : {A : Type 0} (P : A → Type 0) (a : A) (xs : List A) → Any P xs → Any P (a ∷ xs)
Any-there P a xs (y, w, p) = (y, Within.there w, p)

Within-add_sites :
    (x : Bytes) (sites ds : List Bytes)
    → Within x (add_sites sites ds) ↔ (Within x ds ⊎ ListedIn x sites)
unfolding add_sites add_site
Within-add_sites x [] ds = (λ w. inl w, elim [ inl w ↦ w | inr (y, w, p) ↦ absurd (no_member w) ])
Within-add_sites x (site ∷ sites) ds =
    let (to, from) = Within-add_sites x sites (add_site site ds) in
    (
      λ w. elim (to w) [
        | inl v ↦ elim (Within-added x (bypass_domain site) ds v) [
          | inl u ↦ inl u
          | inr h ↦ inr (site, Within.here, h)
        ]
        | inr a ↦ inr (Any-there _ site sites a)
      ],
      elim [
        | inl u ↦ from (inl (added-Within x (bypass_domain site) ds (inl u)))
        | inr a ↦ elim (Any-cons _ site sites a) [
          | inl h ↦ from (inl (added-Within x (bypass_domain site) ds (inr h)))
          | inr b ↦ from (inr b)
        ]
      ],
    )

-- An exclude-mode policy lists a site of this domain.
abbrev Excluding : Bytes → Policy → Type 0
Excluding x p = (excludes p.mitm.mode ≡ true) × ListedIn x p.mitm.sites

Within-bypass_from :
    (x : Bytes) (ps : List Policy) (ds : List Bytes)
    → Within x (bypass_from ps ds) ↔ (Within x ds ⊎ Any (Excluding x) ps)
unfolding bypass_from
Within-bypass_from x [] ds = (λ w. inl w, elim [ inl w ↦ w | inr (y, w, p) ↦ absurd (no_member w) ])
Within-bypass_from x (p ∷ ps) ds =
    let next = if excludes p.mitm.mode then add_sites p.mitm.sites ds else ds in
    let (to, from) = Within-bypass_from x ps next in
    let (here_to, here_from) = one x p ds in
    (
      λ w. elim (to w) [
        | inl v ↦ elim (here_to v) [ inl u ↦ inl u | inr h ↦ inr (p, Within.here, h) ]
        | inr a ↦ inr (Any-there _ p ps a)
      ],
      elim [
        | inl u ↦ from (inl (here_from (inl u)))
        | inr a ↦ elim (Any-cons _ p ps a) [
          | inl h ↦ from (inl (here_from (inr h)))
          | inr b ↦ from (inr b)
        ]
      ],
    )
  where
    one :
        (x : Bytes) (p : Policy) (ds : List Bytes)
        → Within x (if excludes p.mitm.mode then add_sites p.mitm.sites ds else ds)
          ↔ (Within x ds ⊎ Excluding x p)
    one x p ds = elim (Bool-cases (excludes p.mitm.mode)) [
      | inl on ↦
          let (to, from) = Within-add_sites x p.mitm.sites ds in
          simp on (
            λ w. elim (to w) [ inl v ↦ inl v | inr l ↦ inr (refl, l) ],
            elim [ inl v ↦ from (inl v) | inr l ↦ from (inr l.1) ],
          )
      | inr idle ↦ simp idle (λ w. inl w, elim [ inl v ↦ v | inr l ↦ absurd (false≢true l.0) ])
    ]

hit_iff : (host d : Bytes) → (bytes_eq host d || has_suffix host (b'.' ∷ d) ≡ true) ↔ Under host d
unfolding is_under
hit_iff host d = is_under_iff host d

-- After a reload of the policies a host bypasses interception exactly when a policy in exclude mode
-- lists a site whose domain (trimmed, without a leading "*.", in lower case) is not empty and is the
-- host, in lower case, or a suffix of it behind a dot. What was loaded before does not matter, nor
-- does the client.
pub should_bypass_mitm_iff :
    (ps : List Policy) (rt : Runtime) (host : Bytes)
    → (should_bypass_mitm (reload_policies (some ps) rt) host ≡ true)
      ↔ Any
          (λ p.
            (excludes p.mitm.mode ≡ true)
            × Any
                (λ site. (bypass_domain site ≢ []) × Under (to_lower host) (bypass_domain site))
                p.mitm.sites)
          ps
unfolding should_bypass_mitm reload_policies mitm_bypass_of
should_bypass_mitm_iff ps rt host =
    let (to, from) =
      any_of_iff (λ d. bytes_eq (to_lower host) d || has_suffix (to_lower host) (b'.' ∷ d))
        (λ d. Under (to_lower host) d) (λ d. hit_iff (to_lower host) d) (bypass_from ps []) in
    (
      λ h.
          let (d, w, u) = to h in
          elim ((Within-bypass_from d ps []).0 w) [
            | inl v ↦ absurd (no_member v)
            | inr (p, wp, (on, (site, ws, (e, ne)))) ↦
                (p, wp, (on, (site, ws, (ne, subst (λ t. Under (to_lower host) t) e u))))
          ],
      λ (p, wp, (on, (site, ws, (ne, u)))). from (
        bypass_domain site,
        (Within-bypass_from (bypass_domain site) ps []).1
            (inr (p, wp, (on, (site, ws, (refl, ne))))),
        u,
      ),
    )
