-- ===== src/Proxy/Addons/Control.antt =====
-- internal/proxy/addons/policy_router.go, mitm_control.go and quic_blocker.go.
use gowebfilter.Base.{
  Bool, true, false, ◌&&◌, ◌||◌, not, Option, none, some, List, if◌then◌else◌, Bytes, codes,
  trim_space, to_lower, contains, is_empty, any_of,
}
use gowebfilter.Models.Policy.{MitmConfig, MitmUaMode, Policy}
use gowebfilter.Proxy.Addons.Env.{Env}
use gowebfilter.Proxy.Flow.{Header, Response, header_del, header_get}
use gowebfilter.Proxy.HostGate.{is_unlisted_site}
use gowebfilter.Proxy.Matching.{domain_in_list}
use gowebfilter.Proxy.Pipeline.{Addon, Hook}
use gowebfilter.State.Match.{get_policy}

unfoldable pub ua_matches : Bytes → List Bytes → Bool
unfolding to_lower trim_space contains
ua_matches ua tokens =
    any_of
      (λ t.
        not (is_empty (to_lower (trim_space t)))
        && contains (to_lower ua) (to_lower (trim_space t)))
      tokens

-- Does a User-Agent rule take the flow out of the filter?
abbrev pub ua_passes : MitmUaMode → Bool → Bool
ua_passes MitmUaMode.exclude matched = matched
ua_passes MitmUaMode.include matched = not matched
ua_passes _ matched = false

abbrev pub ua_rule : MitmConfig → Header → Bool
ua_rule cfg header =
    not (is_empty cfg.user_agents)
    && ua_passes cfg.ua_mode (ua_matches (header_get header (codes "User-Agent")) cfg.user_agents)

abbrev pub mitm_for : Option Policy → Hook
mitm_for none fc = some fc
mitm_for (some p) fc =
    if is_unlisted_site p.mitm fc.request.hostname || ua_rule p.mitm fc.request.header
    then some (record fc { mitm_passthrough = true })
    else some fc

unfoldable pub mitm_control : Hook
unfolding ua_matches domain_in_list
mitm_control fc = mitm_for fc.policy fc

abbrev pub mitm_addon : Addon
mitm_addon = record {
  name = codes "mitm_control";
  on_request = some mitm_control;
  on_response = none;
  on_error = none;
}

module _ (env : Env) where
  unfoldable pub policy_router : Hook
  unfolding get_policy
  policy_router fc = some (record fc {
    policy = get_policy env.net env.runtime.policies fc.client_ip env.now env.lookup_mac;
  })

  abbrev pub router_addon : Addon
  router_addon = record {
    name = codes "policy_router";
    on_request = some policy_router;
    on_response = none;
    on_error = none;
  }

-- QuicBlocker's response hook on a response: the Alt-Svc header goes.
abbrev pub strip_alt_svc : Option Response → Option Response
strip_alt_svc none = none
strip_alt_svc (some r) =
    if is_empty (header_get r.header (codes "Alt-Svc"))
    then some r
    else some (record r { header = header_del r.header (codes "Alt-Svc") })

abbrev pub blocks_quic : Option Policy → Bool
blocks_quic none = false
blocks_quic (some p) = p.url_filter.block_quic

unfoldable pub quic_blocker : Hook
unfolding header_get header_del
quic_blocker fc =
    if fc.url_allowed || fc.mitm_passthrough || not (blocks_quic fc.policy)
    then some fc
    else some (record fc { response = strip_alt_svc fc.response })

abbrev pub quic_addon : Addon
quic_addon = record {
  name = codes "quic_blocker";
  on_request = none;
  on_response = some quic_blocker;
  on_error = none;
}
