-- ===== src/Proxy/Tunnel/Laws.antt =====
-- Which connections pass through without being looked into.
-- The connection is decrypted or read.
use gowebfilter.Base.{
  ℕ, ◌≡◌, refl, sym, ap, ◌∙◌, ◌≢◌, ◌↔◌, ◌⊎◌, inl, inr, Bool, true, false, ◌&&◌, ◌||◌, Option, none,
  some, ◌==◌, if◌then◌else◌, ==_iff, Bool-cases, false≢true, some_injective, Bytes,
}
use gowebfilter.Models.Policy.{Policy}
use gowebfilter.Models.Schedule.{Time}
use gowebfilter.Net.{Net}
use gowebfilter.Proxy.HostGate.{HostVerdict, dot_port, host_filter_verdict}
use gowebfilter.Proxy.Tunnel.{
  Outcome, categories_of, client_policy, dot_verdict, dropped, filters_dns, gate_splice,
  handle_tunnel, intercepted_http, intercepted_tls, never_intercepts, refuse, sniff, spliced,
  tunnel_with,
}
use gowebfilter.State.Runtime.{Runtime}

abbrev pub Intercepts : Outcome → Type 0
Intercepts o = (o ≡ intercepted_tls) ⊎ (o ≡ intercepted_http)

refused≢spliced :
    (v : HostVerdict) (host : Bytes) (port : ℕ) (policy : Option Policy) (client_ip : Bytes)
    → refuse v host port policy client_ip ≢ spliced
unfolding refuse
refused≢spliced v host port policy client_ip = λ e. cc

refuse-quiet :
    (v : HostVerdict) (host : Bytes) (port : ℕ) (policy : Option Policy) (client_ip : Bytes)
    → ¬ Intercepts (refuse v host port policy client_ip)
unfolding refuse
refuse-quiet v host port policy client_ip (inl e) = cc
refuse-quiet v host port policy client_ip (inr e) = cc

if_quiet : (b : Bool) (x : Outcome) → ¬ Intercepts x → ¬ Intercepts (if b then x else spliced)
if_quiet true x n = n
if_quiet false x n = elim [ inl e ↦ cc | inr e ↦ cc ]

if_spliced :
    (b : Bool) (x : Outcome) → x ≢ spliced → ((if b then x else spliced) ≡ spliced) ↔ (b ≡ false)
if_spliced true x n = (λ e. absurd (n e), λ e. cc)
if_spliced false x n = (λ e. refl, λ e. refl)

gate_splice-quiet :
    (v : Option HostVerdict) (host : Bytes) (port : ℕ) (policy : Option Policy) (client_ip : Bytes)
    → ¬ Intercepts (gate_splice v host port policy client_ip)
gate_splice-quiet none host port policy client_ip = elim [ inl e ↦ cc | inr e ↦ cc ]
gate_splice-quiet (some v) host port policy client_ip =
    if_quiet v.blocked (refuse v host port policy client_ip)
      (refuse-quiet v host port policy client_ip)

sniff≢spliced : (first : Option ℕ) → sniff first ≢ spliced
sniff≢spliced none = λ e. cc
sniff≢spliced (some b) = elim (Bool-cases (b == 0x16)) [
  | inl tls ↦ rw tls (λ e. cc)
  | inr plain ↦ rw plain (λ e. cc)
]

unready : (ready : Bool) (first : Option ℕ) → (if ready then sniff first else dropped) ≢ spliced
unready true first = sniff≢spliced first
unready false first = λ e. cc

by_port :
    (port : ℕ) (filters past : Bool)
    → (((port == 853) ≡ true) × (filters ≡ false) ⊎ ((port == 853) ≡ false) × (past ≡ true))
    → (port ≡ 853) × (filters ≡ false) ⊎ (port ≢ 853) × (past ≡ true)
by_port port filters past (inl (e, f)) = inl ((==_iff port 853).0 e, f)
by_port port filters past (inr (e, p)) = inr (λ is. false≢true (sym e ∙ (==_iff port 853).1 is), p)

by_test :
    (port : ℕ) (filters past : Bool)
    → (port ≡ 853) × (filters ≡ false) ⊎ (port ≢ 853) × (past ≡ true)
    → (((port == 853) ≡ true) × (filters ≡ false) ⊎ ((port == 853) ≡ false) × (past ≡ true))
by_test port filters past (inl (e, f)) = inl ((==_iff port 853).1 e, f)
by_test port filters past (inr (n, p)) = elim (Bool-cases (port == 853)) [
  | inl is ↦ absurd (n ((==_iff port 853).0 is))
  | inr differs ↦ inr (differs, p)
]

-- The branch that decides: a test for DNS over TLS, whether the policy filters DNS, and whether
-- the connection goes past interception.
splice_branch :
    (dot filters past : Bool) (x gate rest : Outcome)
    → x ≢ spliced
    → rest ≢ spliced
    → ((if dot && filters then x else if dot || past then gate else rest) ≡ spliced)
      ↔ (((dot ≡ true) × (filters ≡ false) ⊎ (dot ≡ false) × (past ≡ true)) × (gate ≡ spliced))
splice_branch true true past x gate rest nx nr =
    (λ e. absurd (nx e), λ (h, g). elim h [ inl w ↦ cc | inr w ↦ cc ])
splice_branch true false past x gate rest nx nr = (λ e. (inl (refl, refl), e), λ (h, g). g)
splice_branch false filters true x gate rest nx nr = (λ e. (inr (refl, refl), e), λ (h, g). g)
splice_branch false filters false x gate rest nx nr =
    (λ e. absurd (nr e), λ (h, g). elim h [ inl w ↦ cc | inr w ↦ cc ])

module _ (net : Net) (regexp : Bytes → Option (Bytes → Bool)) where
  gate_splice-spliced :
      (v : Option HostVerdict) (host : Bytes) (port : ℕ) (policy : Option Policy)
      (client_ip : Bytes)
      → (gate_splice v host port policy client_ip ≡ spliced)
        ↔ ((verdict : HostVerdict) × (v ≡ some verdict) × (verdict.blocked ≡ false))
  gate_splice-spliced none host port policy client_ip = (λ e. cc, λ (v, e, h). cc)
  gate_splice-spliced (some v) host port policy client_ip =
      let (to, from) =
        if_spliced v.blocked (refuse v host port policy client_ip)
          (refused≢spliced v host port policy client_ip) in
      (λ e. (v, refl, to e), λ (v', e, h). from (ap (λ w. w.blocked) (some_injective e) ∙ h))

  -- A tunnel is spliced without being looked into exactly when it is DNS over TLS of a client whose
  -- policy does not filter DNS, or a connection that interception does not take, and the host-level
  -- rules give a verdict on the host that does not block it.
  pub tunnel_spliced_iff :
      (rt : Option Runtime) (policy : Option Policy) (host : Bytes) (port : ℕ) (client_ip : Bytes)
      (ready : Bool) (first : Option ℕ)
      → (tunnel_with net regexp rt policy host port client_ip ready first ≡ spliced) ↔ (
          ((port ≡ 853) × (filters_dns policy ≡ false)
            ⊎ (port ≢ 853) × (never_intercepts rt host ≡ true))
          × ((verdict : HostVerdict) × (host_filter_verdict regexp (categories_of rt) policy host
                ≡ some verdict)
              × (verdict.blocked ≡ false)))
  unfolding tunnel_with
  tunnel_spliced_iff rt policy host port client_ip ready first =
      let (to, from) =
        splice_branch (port == dot_port) (filters_dns policy) (never_intercepts rt host)
          (refuse dot_verdict host port policy client_ip)
          (gate_splice (host_filter_verdict regexp (categories_of rt) policy host) host port policy
            client_ip)
          (if ready then sniff first else dropped)
          (refused≢spliced dot_verdict host port policy client_ip) (unready ready first) in
      let (gate_to, gate_from) =
        gate_splice-spliced (host_filter_verdict regexp (categories_of rt) policy host) host port
          policy client_ip in
      (
        λ e.
            let (h, g) = to e in
            (by_port port (filters_dns policy) (never_intercepts rt host) h, gate_to g),
        λ (h, g).
            from (by_test port (filters_dns policy) (never_intercepts rt host) h, gate_from g),
      )

  dot_branch :
      (rt : Option Runtime) (policy : Option Policy) (host client_ip : Bytes)
      → ¬ Intercepts (
          if filters_dns policy
          then refuse dot_verdict host 853 policy client_ip
          else gate_splice
              (host_filter_verdict regexp (categories_of rt) policy host)
              host
              853
              policy
              client_ip)
  dot_branch rt policy host client_ip = elim (Bool-cases (filters_dns policy)) [
    | inl on ↦ rw on (refuse-quiet dot_verdict host 853 policy client_ip)
    | inr idle ↦ rw idle (
        gate_splice-quiet (host_filter_verdict regexp (categories_of rt) policy host) host 853
          policy client_ip)
  ]

  -- A connection to port 853 is never intercepted: nothing on it is read as HTTP.
  pub handle_tunnel-dot :
      (rt : Option Runtime) (now : Time) (lookup_mac : Option (Bytes → Bytes)) (host : Bytes)
      (client_ip : Bytes) (ready : Bool) (first : Option ℕ)
      → ¬ Intercepts (handle_tunnel net regexp rt now lookup_mac host 853 client_ip ready first)
  unfolding handle_tunnel tunnel_with
  handle_tunnel-dot rt now lookup_mac host client_ip ready first =
      dot_branch rt (client_policy net regexp rt client_ip now lookup_mac) host client_ip
