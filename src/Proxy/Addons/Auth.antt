-- ===== src/Proxy/Addons/Auth.antt =====
-- internal/proxy/addons/proxy_auth.go: proxy authentication, with the connections that have passed.
pub mod Sessions
use gowebfilter.Base.{
  ℕ, zero, suc, ◌+◌, ◌-◌, ◌*◌, ◌/◌, ◌%◌, ◌^◌, ◌≤◌, ◌<◌, ◌≡◌, refl, sym, ap, ap₂, ◌∙◌, subst, ◌≢◌,
  ◌↔◌, ◌⊎◌, inl, inr, Bool, true, false, ◌&&◌, ◌||◌, not, Option, none, some, List, [], ◌∷◌, ◌++◌,
  map, append-nil, append_assoc, arith, ltb, leb, ◌==◌, if◌then◌else◌, ltb→lt, lt→ltb, leb→le,
  ==_iff, Bool-cases, false≢true, Option-cases, or_else, none≢some, some_injective, length,
  length-append, take, drop, get_elem?, Bytes, codes, bytes_eq, bytes_eq_iff, bytes_eq_refl,
  cut_prefix, cut_prefix-some, cut_prefix-append, is_some, has_prefix, trim_prefix, has_suffix,
  EndsIn, has_suffix_iff, has_byte, cut_byte, is_space, trim_space, to_lower, lower_byte,
  split_byte, contains, is_empty, ℤ, pos, negsuc, atoi, atoi_two, itoa, itoa_digit, digits, IsDigit,
  hex_digit, hex_value, hex_value-hex_digit, split_byte-cons, eq_ne, is_digit, Within,
  Within-append, Within-cons, append_left, append_right, no_member, Any, any_of, any_of_iff,
}
use gowebfilter.Proxy.Addons.Env.{Env}
use gowebfilter.Proxy.Flow.{Response, header_get, skips_frontend_addons}
use gowebfilter.Proxy.Pipeline.{Addon, Hook}
use gowebfilter.Pwhash.{verify}

unfoldable pub equal_fold : Bytes → Bytes → Bool
unfolding to_lower bytes_eq
equal_fold s t = bytes_eq (to_lower s) (to_lower t)

module _ (env : Env) where
  abbrev user_and_password : Bytes × Option Bytes → Bytes × Bytes
  user_and_password (user, none) = (user, [])
  user_and_password (user, some password) = (user, password)

  -- parseBasic; `basic ` has six bytes.
  unfoldable pub parse_basic : Bytes → Option (Bytes × Bytes)
  unfolding equal_fold cut_byte
  parse_basic header =
      if ltb (length header) 6 || not (equal_fold (take 6 header) (codes "basic "))
      then none
      else elim (env.base64 (drop 6 header)) [
        | none ↦ none
        | some decoded ↦ some (user_and_password (cut_byte b':' decoded))
      ]

  -- `ProxyAuthEnabled && ProxyAuthPasswordHash != ""`
  unfoldable pub auth_required : Bool
  auth_required =
      env.runtime.settings.proxy_auth_enabled
      && not (is_empty env.runtime.settings.proxy_auth_password_hash)

  unfoldable pub valid_credentials : Bytes → Bytes → Bool
  unfolding verify
  valid_credentials user password =
      bytes_eq user env.runtime.settings.proxy_auth_username
      && verify env.derive password env.runtime.settings.proxy_auth_password_hash

  unfoldable pub valid_header : Bytes → Bool
  unfolding parse_basic valid_credentials
  valid_header header = elim (parse_basic header) [
    | none ↦ false
    | some (user, password) ↦ valid_credentials user password
  ]

  -- `authedConns` as the list of the connections that map to true.
  abbrev pub Authed : Type 0
  Authed = List ℕ

  unfoldable pub is_authed : ℕ → Authed → Bool
  is_authed conn authed = any_of (λ c. c == conn) authed

  unfoldable pub mark_authed : ℕ → Authed → Authed
  mark_authed conn authed = conn ∷ authed

  unfoldable pub client_disconnected : ℕ → Authed → Authed
  client_disconnected conn [] = []
  client_disconnected conn (c ∷ authed) =
      let rest = client_disconnected conn authed in if c == conn then rest else c ∷ rest

  -- AuthorizeConnect, on the Proxy-Authorization header. With no runtime the code marks the
  -- connection and lets it pass, as it does where `auth_required` is false.
  unfoldable pub authorize_connect : Bytes → ℕ → Authed → Bool × Authed
  unfolding auth_required valid_header mark_authed
  authorize_connect header conn authed =
      if not auth_required
      then (true, mark_authed conn authed)
      else if valid_header header
      then (true, mark_authed conn authed)
      else (false, authed)

  -- AuthorizeSocks
  unfoldable pub authorize_socks : Bytes → Bytes → ℕ → Authed → Bool × Authed
  unfolding auth_required valid_credentials mark_authed
  authorize_socks user password conn authed =
      if not auth_required
      then (true, mark_authed conn authed)
      else if valid_credentials user password
      then (true, mark_authed conn authed)
      else (false, authed)

  abbrev pub challenge : Response
  challenge = record {
    status_code = 407;
    header =
        (codes "Proxy-Authenticate", codes "Basic realm=\"WebFilter Proxy\"")
        ∷ (codes "Content-Type", codes "text/plain")
        ∷ (codes "Proxy-Connection", codes "close")
        ∷ [];
  }

  unfoldable pub auth_gate : Authed → Hook
  unfolding skips_frontend_addons auth_required is_authed valid_header
  auth_gate authed fc =
      if fc.url_allowed
        || skips_frontend_addons fc
        || not auth_required
        || is_authed fc.client_conn_id authed
        || valid_header (header_get fc.request.header (codes "Proxy-Authorization"))
      then some fc
      else some (record fc {
        response = some challenge;
        response_body = codes "Proxy Authentication Required";
      })

  abbrev pub auth_addon : Authed → Addon
  auth_addon authed = record {
    name = codes "proxy_auth";
    on_request = some (auth_gate authed);
    on_response = none;
    on_error = none;
  }
