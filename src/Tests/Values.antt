-- ===== src/Tests/Values.antt =====
-- The redirect, the authorised connections and passwords at concrete inputs.
use gowebfilter.Base.{
  ℕ, zero, suc, ◌%◌, ◌<◌, ◌≡◌, refl, ◌↔◌, true, false, none, some, [], ◌∷◌, ◌++◌, arith, length,
  Bytes, codes, bytes_eq, to_lower,
}
use gowebfilter.Models.Settings.{new_settings}
use gowebfilter.Net.Ip4.{ip4}
use gowebfilter.Proxy.Addons.Auth.{is_authed}
use gowebfilter.Proxy.Addons.Auth.Sessions.{
  authed_after, connects, disconnects, is_authed-authed_after, last_word,
}
use gowebfilter.Proxy.Addons.Control.{quic_addon}
use gowebfilter.Proxy.Addons.Env.{Env}
use gowebfilter.Proxy.Addons.Management.{management_addon, mgmt_hostname_of, redirect_response}
use gowebfilter.Proxy.Addons.Redirect.{AnswersWith, front_addons, run_request-redirect}
use gowebfilter.Proxy.Flow.{FlowContext, Response, frontend_proxy}
use gowebfilter.Proxy.Pipeline.{run_request}
use gowebfilter.Proxy.Pipeline.Rules.{AllKeep}
use gowebfilter.Pwhash.{Derive, hash, hex_encode, scheme, verify}
use gowebfilter.Pwhash.Laws.{AreBytes, verify-hash, verify_empty_key}
use gowebfilter.State.Runtime.{Runtime}

abbrev runtime : Runtime
runtime = record {
  settings = new_settings;
  categories = none;
  policies = [];
  mitm_bypass = [];
  generation = 0;
}

-- A derivation that repeats the length of the password.
unfoldable repeated : ℕ → ℕ → Bytes
repeated b zero = []
repeated b (suc n) = b ∷ repeated b n

unfoldable derive : Derive
unfolding repeated
derive password salt n k = repeated (length password % 256) k

repeated-AreBytes : (b n : ℕ) → b < 256 → AreBytes (repeated b n) × (length (repeated b n) ≡ n)
unfolding repeated
repeated-AreBytes b zero h = (tt, refl)
repeated-AreBytes b (suc n) h = let (bytes, len) = repeated-AreBytes b n h in ((h, bytes), rw len)

derive_law : (p s : Bytes) (n k : ℕ) → AreBytes (derive p s n k) × (length (derive p s n k) ≡ k)
unfolding derive
derive_law p s n k = repeated-AreBytes (length p % 256) k (omega arith)

verify-hash_example :
    (verify derive (codes "one") (hash derive (codes "two") (1 ∷ 2 ∷ [])) ≡ true)
    ↔ (derive (codes "one") (1 ∷ 2 ∷ []) 200_000 32 ≡ derive (codes "two") (1 ∷ 2 ∷ []) 200_000 32)
verify-hash_example =
    verify-hash derive (codes "one") (codes "two") (1 ∷ 2 ∷ []) derive_law
      (omega arith, (omega arith, tt))

empty_key : derive (codes "any") (1 ∷ []) 1 0 ≡ []
unfolding derive repeated
empty_key = refl

verify_empty_key_example :
    verify derive
      (codes "any")
      (scheme ++ (b'$' ∷ (codes "1" ++ (b'$' ∷ (hex_encode (1 ∷ []) ++ (b'$' ∷ []))))))
    ≡ true
verify_empty_key_example =
    verify_empty_key derive (codes "any") (1 ∷ []) (omega arith, tt) empty_key

unfoldable env : Env
env = record {
  net = ip4;
  regexp = λ pattern. none;
  render = λ page. [];
  base64 = λ text. none;
  derive = derive;
  lookup_mac = none;
  now = record { weekday = 1; hour = 12; minute = 0 };
  runtime = runtime;
}

abbrev request : FlowContext
request = record {
  client_ip = codes "10.0.0.9";
  client_conn_id = 1;
  proxy_sock_name = codes "10.0.0.1";
  frontend = frontend_proxy;
  request = record {
    method = codes "GET";
    scheme = codes "http";
    hostname = codes "web.filter";
    port = [];
    path = codes "/";
    url = codes "http://web.filter/";
    header = [];
  };
  response = none;
  response_body = [];
  url_allowed = false;
  mitm_passthrough = false;
  wf_action = [];
  wf_component = [];
  wf_logged = false;
  policy = none;
  blocks = [];
  requests = [];
}

management_host :
    bytes_eq (to_lower (codes "web.filter")) (mgmt_hostname_of env env.runtime.settings) ≡ true
unfolding env mgmt_hostname_of new_settings to_lower bytes_eq
management_host = refl

quic_keeps : (r : Response) → AllKeep (AnswersWith r) (quic_addon ∷ [])
quic_keeps r = (λ fc p. (fc, refl, p), tt)

run_request-redirect_example :
    (fc' : FlowContext) × (run_request
        (management_addon env ∷ front_addons env [] (quic_addon ∷ []))
        request
      ≡ some fc')
    × AnswersWith (redirect_response env env.runtime.settings (codes "10.0.0.1")) fc'
run_request-redirect_example =
    run_request-redirect env [] (quic_addon ∷ []) request refl management_host
      (quic_keeps (redirect_response env env.runtime.settings (codes "10.0.0.1")))

is_authed-authed_after_example :
    is_authed env 2 (authed_after env (disconnects 3 ∷ connects [] 2 ∷ disconnects 2 ∷ []))
    ≡ last_word env 2 (disconnects 3 ∷ connects [] 2 ∷ disconnects 2 ∷ [])
is_authed-authed_after_example =
    is_authed-authed_after env 2 (disconnects 3 ∷ connects [] 2 ∷ disconnects 2 ∷ [])
