-- ===== src/Proxy/Flow.antt =====
-- internal/proxy/flow.go and block.go: a request and its response on their way through the addons.
use gowebfilter.Base.{
  ℕ, Bool, true, false, Option, none, some, List, [], ◌∷◌, ◌++◌, if◌then◌else◌, length, Bytes,
  codes, bytes_eq, is_empty, itoa, any_of,
}
use gowebfilter.Models.Policy.{Policy}

-- An http.Header as pairs of a canonical name and a value.
abbrev pub Header : Type 0
Header = List (Bytes × Bytes)

-- Header.Get: the first value, or the empty text.
unfoldable pub header_get : Header → Bytes → Bytes
header_get [] k = []
header_get ((j, v) ∷ h) k = let rest = header_get h k in if bytes_eq j k then v else rest

-- Header.Del
unfoldable pub header_del : Header → Bytes → Header
header_del [] k = []
header_del ((j, v) ∷ h) k =
    let rest = header_del h k in if bytes_eq j k then rest else (j, v) ∷ rest

-- What the code reads of an *http.Request: the parts of its URL as net/url gives them.
pub record Request : Type 0 where
  pub method : Bytes
  pub scheme : Bytes
  pub hostname : Bytes
  pub port : Bytes
  pub path : Bytes
  pub url : Bytes
  pub header : Header

pub record Response : Type 0 where
  pub status_code : ℕ
  pub header : Header

pub data Frontend : Type 0 where
  frontend_proxy frontend_icap : Frontend

-- logstore.BlockEntry and RequestEntry, without the time stamp.
pub record BlockEntry : Type 0 where
  pub domain : Bytes
  pub url : Bytes
  pub reason : Bytes
  pub component : Bytes
  pub policy : Bytes
  pub client_ip : Bytes

pub record RequestEntry : Type 0 where
  pub method : Bytes
  pub host : Bytes
  pub path : Bytes
  pub status : ℕ
  pub action : Bytes
  pub component : Bytes
  pub policy : Bytes
  pub client_ip : Bytes
  pub user_agent : Bytes

-- The flow, with the rows that it has added to the log store.
pub record FlowContext : Type 0 where
  pub client_ip : Bytes
  pub client_conn_id : ℕ
  pub proxy_sock_name : Bytes
  pub frontend : Frontend
  pub request : Request
  pub response : Option Response
  pub response_body : Bytes
  pub url_allowed : Bool
  pub mitm_passthrough : Bool
  pub wf_action : Bytes
  pub wf_component : Bytes
  pub wf_logged : Bool
  pub policy : Option Policy
  pub blocks : List BlockEntry
  pub requests : List RequestEntry

unfoldable pub skips_frontend_addons : FlowContext → Bool
skips_frontend_addons fc = elim fc.frontend [ frontend_icap ↦ true | frontend_proxy ↦ false ]

abbrev pub policy_name_or : Bytes → Option Policy → Bytes
policy_name_or d none = d
policy_name_or d (some p) = p.name

-- FlowContext.LogBlock; the newest row is the first.
unfoldable pub log_block : Bytes → Bytes → FlowContext → FlowContext
log_block reason component fc = record fc {
  wf_action = codes "blocked";
  wf_component = component;
  blocks =
      record {
        domain = fc.request.hostname;
        url = fc.request.url;
        reason = reason;
        component = component;
        policy = policy_name_or (codes "unknown") fc.policy;
        client_ip = fc.client_ip;
      }
      ∷ fc.blocks;
}

-- The languages of the block page's labels, and those that run right to left.
abbrev block_languages : List Bytes
block_languages =
    codes "en" ∷ codes "he" ∷ codes "yi" ∷ codes "es" ∷ codes "fr" ∷ codes "de" ∷ codes "zh" ∷ []

abbrev rtl_languages : List Bytes
rtl_languages = codes "he" ∷ codes "yi" ∷ []

-- The data of the block page; its labels follow from the language.
pub record BlockPage : Type 0 where
  pub domain : Bytes
  pub reason : Bytes
  pub component : Bytes
  pub policy_name : Bytes
  pub custom_message : Bytes
  pub lang : Bytes
  pub dir : Bytes

unfoldable pub block_page_of : Bytes → Bytes → Bytes → FlowContext → BlockPage
block_page_of ui_language reason component fc =
    let lang : Bytes =
      if any_of (λ l. bytes_eq l ui_language) block_languages then ui_language else codes "en" in
    record {
      domain = fc.request.hostname;
      reason = reason;
      component = component;
      policy_name = policy_name_or (codes "unknown") fc.policy;
      custom_message = elim fc.policy [ none ↦ [] | some p ↦ p.block_page.message ];
      lang = lang;
      dir = if any_of (λ l. bytes_eq l lang) rtl_languages then codes "rtl" else codes "ltr";
    }

-- FlowContext.Block; `render` is the execution of the HTML template.
unfoldable pub block : (BlockPage → Bytes) → Bytes → Bytes → Bytes → FlowContext → FlowContext
unfolding log_block
block render ui_language reason component fc =
    let logged : FlowContext = log_block reason component fc in
    record logged {
      response = some (record {
        status_code = 200;
        header = (codes "Content-Type", codes "text/html; charset=utf-8") ∷ [];
      });
      response_body = render (block_page_of ui_language reason component fc);
    }

abbrev transparent_gif : Bytes
transparent_gif =
    0x47 ∷ 0x49 ∷ 0x46 ∷ 0x38 ∷ 0x39 ∷ 0x61 ∷ 0x01 ∷ 0x00 ∷ 0x01 ∷ 0x00 ∷ 0x80 ∷ 0x00 ∷ 0x00 ∷ 0x00
    ∷ 0x00 ∷ 0x00 ∷ 0xff ∷ 0xff ∷ 0xff ∷ 0x21 ∷ 0xf9 ∷ 0x04 ∷ 0x01 ∷ 0x00 ∷ 0x00 ∷ 0x00 ∷ 0x00
    ∷ 0x2c ∷ 0x00 ∷ 0x00 ∷ 0x00 ∷ 0x00 ∷ 0x01 ∷ 0x00 ∷ 0x01 ∷ 0x00 ∷ 0x00 ∷ 0x02 ∷ 0x02 ∷ 0x44
    ∷ 0x01 ∷ 0x00 ∷ 0x3b ∷ []

-- The kinds of a blocked subresource: image, script, stylesheet, or another.
pub data ResourceType : Type 0 where
  image script stylesheet unknown : ResourceType

-- Status, content type (empty for none) and body of the stand-in.
unfoldable pub empty_answer : ResourceType → ℕ × Bytes × Bytes
empty_answer image = (200, codes "image/gif", transparent_gif)
empty_answer script = (200, codes "application/javascript", [])
empty_answer stylesheet = (200, codes "text/css", [])
empty_answer unknown = (204, [], [])

-- FlowContext.BlockEmpty
unfoldable pub block_empty : Bytes → Bytes → ResourceType → FlowContext → FlowContext
unfolding log_block empty_answer
block_empty reason component kind fc =
    let logged : FlowContext = log_block reason component fc in
    let (status, ctype, body) = empty_answer kind in
    let size : Header = (codes "Content-Length", itoa (length body)) ∷ [] in
    record logged {
      response = some (record {
        status_code = status;
        header = if is_empty ctype then size else size ++ (codes "Content-Type", ctype) ∷ [];
      });
      response_body = body;
    }
