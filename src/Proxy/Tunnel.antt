-- ===== src/Proxy/Tunnel.antt =====
-- internal/proxy/handler.go: what becomes of a tunnel after its handshake. The dialling of the
-- target, the copying of bytes and the TLS handshake itself are not part of this.
pub mod Laws
use gowebfilter.Base.{
  ℕ, zero, suc, ◌+◌, ◌-◌, ◌*◌, ◌/◌, ◌%◌, ◌^◌, ◌≤◌, ◌<◌, ◌≡◌, refl, sym, ap, ap₂, ◌∙◌, subst, ◌≢◌,
  ◌↔◌, ◌⊎◌, inl, inr, Bool, true, false, ◌&&◌, ◌||◌, not, Option, none, some, List, [], ◌∷◌, ◌++◌,
  map, append-nil, append_assoc, arith, ltb, leb, ◌==◌, if◌then◌else◌, ltb→lt, lt→ltb, leb→le,
  ==_iff, Bool-cases, false≢true, Option-cases, or_else, none≢some, some_injective, length,
  length-append, take, drop, get_elem?, Bytes, codes, bytes_eq, bytes_eq_iff, bytes_eq_refl,
  cut_prefix, cut_prefix-some, cut_prefix-append, is_some, has_prefix, trim_prefix, has_suffix,
  EndsIn, has_suffix_iff, has_byte, cut_byte, is_space, trim_space, to_lower, lower_byte,
  split_byte, contains, is_empty, ℤ, pos, negsuc, atoi, atoi_two, itoa, itoa_digit, digits, IsDigit,
  hex_digit, hex_value, hex_value-hex_digit, split_byte-cons, eq_ne, is_digit, Within,
  Within-append, Within-cons, append_left, append_right, no_member, Any, any_of, any_of_iff,
}
use gowebfilter.Categories.Store.{Store}
use gowebfilter.Models.Policy.{Policy}
use gowebfilter.Models.Schedule.{Time}
use gowebfilter.Net.{Net}
use gowebfilter.Proxy.Flow.{BlockEntry}
use gowebfilter.Proxy.HostGate.{HostVerdict, connection_block, dot_port, host_filter_verdict}
use gowebfilter.State.Match.{get_policy}
use gowebfilter.State.Runtime.{Runtime, should_bypass_mitm}

-- What handleTunnel does with the connection: `dropped` closes it with nothing said.
pub data Outcome : Type 0 where
  refused : HostVerdict → BlockEntry → Outcome
  spliced : Outcome
  intercepted_tls : Outcome
  intercepted_http : Outcome
  dropped : Outcome
  panicked : Outcome

abbrev pub dot_reason : Bytes
dot_reason = codes "DNS-over-TLS blocked so DNS filtering applies (port 853)"

abbrev pub dot_verdict : HostVerdict
dot_verdict = record { blocked = true; reason = dot_reason; component = codes "doh" }

abbrev pub filters_dns : Option Policy → Bool
filters_dns none = false
filters_dns (some p) = p.doh.enabled

-- The closure `refuse`: the row of the block log goes with the verdict.
unfoldable pub refuse : HostVerdict → Bytes → ℕ → Option Policy → Bytes → Outcome
unfolding connection_block
refuse v host port policy client_ip = refused v (connection_block v host port policy client_ip)

-- The host-level gate in front of blindSplice; `none` is a panic of a pattern.
abbrev pub gate_splice : Option HostVerdict → Bytes → ℕ → Option Policy → Bytes → Outcome
gate_splice none host port policy client_ip = panicked
gate_splice (some v) host port policy client_ip =
    if v.blocked then refuse v host port policy client_ip else spliced

-- The sniff of the first byte behind the handshake.
abbrev pub sniff : Option ℕ → Outcome
sniff none = dropped
sniff (some b) = if b == 0x16 then intercepted_tls else intercepted_http

abbrev pub never_intercepts : Option Runtime → Bytes → Bool
never_intercepts none host = true
never_intercepts (some rt) host = should_bypass_mitm rt host

abbrev pub categories_of : Option Runtime → Option Store
categories_of none = none
categories_of (some rt) = rt.categories

module _ (net : Net) (regexp : Bytes → Option (Bytes → Bool)) where
  abbrev pub client_policy : Option Runtime → Bytes → Time → Option (Bytes → Bytes) → Option Policy
  client_policy none client_ip now lookup_mac = none
  client_policy (some rt) client_ip now lookup_mac =
      get_policy net rt.policies client_ip now lookup_mac

  -- `ready` tells whether the client takes the answer, `first` is the first byte that it sends.
  unfoldable pub tunnel_with :
      Option Runtime → Option Policy → Bytes → ℕ → Bytes → Bool → Option ℕ → Outcome
  unfolding refuse host_filter_verdict should_bypass_mitm
  tunnel_with rt policy host port client_ip ready first =
      if port == dot_port && filters_dns policy
      then refuse dot_verdict host port policy client_ip
      else if port == dot_port || never_intercepts rt host
      then gate_splice (host_filter_verdict regexp (categories_of rt) policy host) host port policy
          client_ip
      else if ready
      then sniff first
      else dropped

  -- handleTunnel
  unfoldable pub handle_tunnel :
      Option Runtime → Time → Option (Bytes → Bytes) → Bytes → ℕ → Bytes → Bool → Option ℕ → Outcome
  unfolding tunnel_with
  handle_tunnel rt now lookup_mac host port client_ip ready first =
      tunnel_with rt (client_policy rt client_ip now lookup_mac) host port client_ip ready first

-- udpVerdictFor; `dns_query` tells whether the payload is a plausible DNS query.
pub data UdpVerdict : Type 0 where
  udp_forward udp_resolve_dns udp_drop : UdpVerdict

unfoldable pub udp_verdict_for : (Bytes → Bool) → ℕ → Bytes → UdpVerdict
udp_verdict_for dns_query port payload =
    if port == 443 || port == 853
    then udp_drop
    else if port == 53
    then udp_resolve_dns
    else if dns_query payload
    then udp_resolve_dns
    else udp_forward
