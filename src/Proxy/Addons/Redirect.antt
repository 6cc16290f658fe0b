-- ===== src/Proxy/Addons/Redirect.antt =====
-- The redirect of the management host and its way through the request hooks.
-- The flow answers with `r` and no later addon takes part.
use gowebfilter.Base.{
  ℕ, ◌≡◌, refl, inl, inr, Bool, true, false, ◌||◌, not, Option, none, some, List, [], ◌∷◌,
  if◌then◌else◌, Bool-cases, bytes_eq, to_lower,
}
use gowebfilter.Models.Policy.{Policy}
use gowebfilter.Proxy.Addons.Auth.{auth_addon, auth_gate}
use gowebfilter.Proxy.Addons.Control.{
  mitm_addon, mitm_control, mitm_for, policy_router, router_addon, ua_rule,
}
use gowebfilter.Proxy.Addons.Env.{Env}
use gowebfilter.Proxy.Addons.Filter.{filter_for, filter_rules, url_filter, url_filter_addon}
use gowebfilter.Proxy.Addons.Management.{
  management_access, management_addon, mgmt_hostname_of, redirect_response,
}
use gowebfilter.Proxy.Flow.{FlowContext, Response, frontend_proxy, skips_frontend_addons}
use gowebfilter.Proxy.HostGate.{is_unlisted_site}
use gowebfilter.Proxy.Pipeline.{Addon, run_request}
use gowebfilter.Proxy.Pipeline.Rules.{AllKeep, Keeps, run_request-Keeps}
use gowebfilter.State.Match.{get_policy}

abbrev pub AnswersWith : Response → FlowContext → Type 0
AnswersWith r fc = (fc.response ≡ some r) × (fc.url_allowed ≡ true) × (fc.mitm_passthrough ≡ true)

skipped :
    (off_ by_flag : Bool) (fc : FlowContext) (rest : Option FlowContext)
    → by_flag ≡ true
    → (if off_ || by_flag then some fc else rest) ≡ some fc
skipped true by_flag fc rest h = refl
skipped false by_flag fc rest h = rw h

module _ (env : Env) (r : Response) where
  auth_gate-Keeps : (authed : List ℕ) → Keeps (AnswersWith r) (auth_gate env authed)
  unfolding auth_gate
  auth_gate-Keeps authed fc (e, u, m) = (fc, simp u, (e, u, m))

  policy_router-Keeps : Keeps (AnswersWith r) (policy_router env)
  unfolding policy_router
  policy_router-Keeps fc p = (
    record fc {
      policy = get_policy env.net env.runtime.policies fc.client_ip env.now env.lookup_mac;
    },
    refl,
    p,
  )

  mitm_for-Keeps :
      (fc : FlowContext)
      → AnswersWith r fc
      → (o : Option Policy) → (fc' : FlowContext) × (mitm_for o fc ≡ some fc') × AnswersWith r fc'
  mitm_for-Keeps fc p none = (fc, refl, p)
  mitm_for-Keeps fc (e, u, m) (some q) =
      elim (Bool-cases
        (is_unlisted_site q.mitm fc.request.hostname || ua_rule q.mitm fc.request.header)) [
          | inl out ↦ (record fc { mitm_passthrough = true }, rw (mitm_for, out), (e, u, refl))
          | inr stays ↦ (fc, rw (mitm_for, stays), (e, u, m))
        ]

  mitm_control-Keeps : Keeps (AnswersWith r) mitm_control
  unfolding mitm_control
  mitm_control-Keeps fc p = mitm_for-Keeps fc p fc.policy

  filter_for-Keeps :
      (fc : FlowContext)
      → AnswersWith r fc
      → (o : Option Policy)
      → (fc' : FlowContext) × (filter_for env o fc ≡ some fc') × AnswersWith r fc'
  filter_for-Keeps fc p none = (fc, refl, p)
  filter_for-Keeps fc (e, u, m) (some q) = (
    fc,
    skipped (not q.url_filter.enabled) fc.mitm_passthrough fc (filter_rules env q.url_filter fc) m,
    (e, u, m),
  )

  url_filter-Keeps : Keeps (AnswersWith r) (url_filter env)
  unfolding url_filter
  url_filter-Keeps fc p = filter_for-Keeps fc p fc.policy

-- The request hooks of the chain up to the URL filter, in the order of registration.
abbrev pub front_addons : Env → List ℕ → List Addon → List Addon
front_addons env authed later =
    auth_addon env authed ∷ router_addon env ∷ mitm_addon ∷ url_filter_addon env ∷ later

answers_proxy : (fc : FlowContext) → fc.frontend ≡ frontend_proxy → skips_frontend_addons fc ≡ false
unfolding skips_frontend_addons
answers_proxy fc front = rw front

management_access-answers :
    (env : Env) (fc : FlowContext)
    → fc.frontend ≡ frontend_proxy
    → bytes_eq (to_lower fc.request.hostname) (mgmt_hostname_of env env.runtime.settings) ≡ true
    → (fc' : FlowContext) × (management_access env fc ≡ some fc')
      × AnswersWith (redirect_response env env.runtime.settings fc.proxy_sock_name) fc'
unfolding management_access skips_frontend_addons
management_access-answers env fc front host = (
  record fc {
    response = some (redirect_response env env.runtime.settings fc.proxy_sock_name);
    response_body = [];
    url_allowed = true;
    mitm_passthrough = true;
  },
  rw (answers_proxy fc front, host),
  (refl, refl, refl),
)

-- A request on the proxy for the management host runs through the whole request chain without a
-- panic and comes out with the redirect to the management server, whoever the client is: neither
-- proxy authentication, nor the policy of the client, nor its URL rules change the answer. The
-- addons behind the URL filter are any that leave an answered flow with both flags as it is.
pub run_request-redirect :
    (env : Env) (authed : List ℕ) (later : List Addon) (fc : FlowContext)
    → fc.frontend ≡ frontend_proxy
    → bytes_eq (to_lower fc.request.hostname) (mgmt_hostname_of env env.runtime.settings) ≡ true
    → AllKeep (AnswersWith (redirect_response env env.runtime.settings fc.proxy_sock_name)) later
    → (fc' : FlowContext) × (run_request (management_addon env ∷ front_addons env authed later) fc
        ≡ some fc')
      × AnswersWith (redirect_response env env.runtime.settings fc.proxy_sock_name) fc'
unfolding run_request
run_request-redirect env authed later fc front host keep =
    let r : Response = redirect_response env env.runtime.settings fc.proxy_sock_name in
    let (first, e, answered) = management_access-answers env fc front host in
    let (last, e', answered') =
      run_request-Keeps (AnswersWith r) (front_addons env authed later)
        (
          auth_gate-Keeps env r authed,
          (policy_router-Keeps env r, (mitm_control-Keeps env r, (url_filter-Keeps env r, keep))),
        )
        first answered in
    (last, rw e e', answered')
