-- ===== src/Proxy/Addons/Management.antt =====
-- internal/proxy/addons/management_access.go: the management server stays reachable.
use gowebfilter.Base.{
  ℕ, Bool, true, false, ◌&&◌, ◌||◌, not, Option, none, some, [], ◌∷◌, ◌++◌, ◌==◌, if◌then◌else◌,
  Bytes, codes, bytes_eq, cut_prefix, has_prefix, trim_prefix, has_byte, cut_byte, to_lower,
  is_empty, ℤ, pos, atoi, itoa,
}
use gowebfilter.Models.Settings.{Settings}
use gowebfilter.Proxy.Addons.Env.{Env}
use gowebfilter.Proxy.Flow.{FlowContext, Request, Response, skips_frontend_addons}
use gowebfilter.Proxy.Pipeline.{Addon, Hook}

unfoldable pub trim_suffix_byte : ℕ → Bytes → Bytes
trim_suffix_byte b [] = []
trim_suffix_byte b (c ∷ s) =
    let rest = trim_suffix_byte b s in if is_empty s && c == b then [] else c ∷ rest

module _ (env : Env) where
  -- isLocalHost
  unfoldable pub is_local_host : Bytes → Bool
  unfolding trim_prefix trim_suffix_byte cut_byte
  is_local_host host =
      let h : Bytes = trim_prefix (trim_suffix_byte b']' host) (codes "[") in
      elim (env.net.parse_ip (cut_byte b'%' h).0) [
        | none ↦ false
        | some addr ↦ env.net.is_loopback addr || env.net.is_unspecified addr
      ]

  unfoldable pub mgmt_hostname_of : Settings → Bytes
  unfolding to_lower
  mgmt_hostname_of s =
      if is_empty (to_lower s.mgmt_hostname) then codes "web.filter" else to_lower s.mgmt_hostname

  -- The address for the redirect, an IPv6 one in brackets.
  unfoldable pub redirect_address : Bytes → Bytes
  unfolding has_byte cut_prefix
  redirect_address sock_name =
      let ip : Bytes = if is_empty sock_name then codes "127.0.0.1" else sock_name in
      if has_byte b':' ip && not (has_prefix ip (codes "["))
      then codes "[" ++ (ip ++ codes "]")
      else ip

  unfoldable pub redirect_location : Settings → Bytes → Bytes
  unfolding redirect_address itoa
  redirect_location s sock_name =
      (if s.mgmt_tls then codes "https" else codes "http")
      ++ (codes "://"
          ++ (redirect_address sock_name ++ (codes ":" ++ (itoa s.mgmt_port ++ codes "/"))))

  unfoldable pub redirect_response : Settings → Bytes → Response
  unfolding redirect_location
  redirect_response s sock_name = record {
    status_code = 302;
    header =
        (codes "Location", redirect_location s sock_name)
        ∷ (codes "Content-Type", codes "text/plain")
        ∷ [];
  }

  -- The port of the request, or that of its scheme.
  unfoldable pub request_port : Request → Bytes
  unfolding bytes_eq
  request_port r =
      if is_empty r.port
      then (if bytes_eq r.scheme (codes "https") then codes "443" else codes "80")
      else r.port

  abbrev is_port : Option ℤ → ℕ → Bool
  is_port (some (pos n)) p = n == p
  is_port _ p = false

  -- A request for the management port of this host, or of the address that the client reached.
  unfoldable pub is_management_request : FlowContext → Bool
  unfolding request_port is_local_host to_lower atoi bytes_eq
  is_management_request fc =
      is_port (atoi (request_port fc.request)) env.runtime.settings.mgmt_port
      && (is_local_host (to_lower fc.request.hostname)
          || bytes_eq (to_lower fc.request.hostname) (to_lower fc.proxy_sock_name))

  unfoldable pub management_access : Hook
  unfolding redirect_response mgmt_hostname_of is_management_request skips_frontend_addons
  management_access fc =
      if skips_frontend_addons fc
      then some fc
      else if bytes_eq (to_lower fc.request.hostname) (mgmt_hostname_of env.runtime.settings)
      then some (record fc {
        response = some (redirect_response env.runtime.settings fc.proxy_sock_name);
        response_body = [];
        url_allowed = true;
        mitm_passthrough = true;
      })
      else if is_management_request fc
      then some (record fc { url_allowed = true; mitm_passthrough = true })
      else some fc

  abbrev pub management_addon : Addon
  management_addon = record {
    name = codes "management_access";
    on_request = some management_access;
    on_response = none;
    on_error = none;
  }
