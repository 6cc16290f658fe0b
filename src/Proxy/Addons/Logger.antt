-- ===== src/Proxy/Addons/Logger.antt =====
-- internal/proxy/addons/request_logger.go: one row for each request, written last.
use gowebfilter.Base.{ℕ, true, none, some, [], ◌∷◌, if◌then◌else◌, take, codes, is_empty}
use gowebfilter.Proxy.Flow.{FlowContext, header_get, policy_name_or}
use gowebfilter.Proxy.Pipeline.{Addon, Hook}

unfoldable pub record_request : ℕ → FlowContext → FlowContext
unfolding header_get
record_request status fc = record fc {
  wf_logged = true;
  requests =
      record {
        method = fc.request.method;
        host = fc.request.hostname;
        path = take 200 fc.request.path;
        status = status;
        action = if is_empty fc.wf_action then codes "ok" else fc.wf_action;
        component = fc.wf_component;
        policy = policy_name_or [] fc.policy;
        client_ip = fc.client_ip;
        user_agent = header_get fc.request.header (codes "User-Agent");
      }
      ∷ fc.requests;
}

unfoldable pub log_response : Hook
unfolding record_request
log_response fc = some (record_request (elim fc.response [ none ↦ 0 | some r ↦ r.status_code ]) fc)

unfoldable pub log_error : Hook
unfolding record_request
log_error fc = if fc.wf_logged then some fc else some (record_request 0 fc)

abbrev pub logger_addon : Addon
logger_addon = record {
  name = codes "request_logger";
  on_request = none;
  on_response = some log_response;
  on_error = some log_error;
}
