-- ===== src/Models/Settings.antt =====
-- internal/models/settings.go: the settings that the modelled code reads.
use gowebfilter.Base.{
  ℕ, Bool, true, false, ◌&&◌, ◌||◌, List, [], ◌∷◌, ◌==◌, if◌then◌else◌, Bytes, codes, is_empty,
}

pub record Settings : Type 0 where
  pub proxy_listen : List Bytes
  pub mgmt_host : Bytes
  pub mgmt_port : ℕ
  pub mgmt_tls : Bool
  pub categories_dir : Bytes
  pub ui_language : Bytes
  pub log_blocks : Bool
  pub log_requests : Bool
  pub auth_enabled : Bool
  pub password_hash : Bytes
  pub mgmt_hostname : Bytes
  pub proxy_auth_enabled : Bool
  pub proxy_auth_username : Bytes
  pub proxy_auth_password_hash : Bytes

abbrev pub default_proxy_listen : List Bytes
default_proxy_listen = codes "0.0.0.0:8080" ∷ codes "socks5@127.0.0.1:1080" ∷ []

unfoldable pub new_settings : Settings
new_settings = record {
  proxy_listen = default_proxy_listen;
  mgmt_host = codes "0.0.0.0";
  mgmt_port = 8000;
  mgmt_tls = false;
  categories_dir = codes "./categories";
  ui_language = codes "en";
  log_blocks = true;
  log_requests = true;
  auth_enabled = false;
  password_hash = [];
  mgmt_hostname = codes "web.filter";
  proxy_auth_enabled = false;
  proxy_auth_username = [];
  proxy_auth_password_hash = [];
}

-- `trimSpace` of policy.go: blanks, tabs and line ends only.
abbrev pub is_blank : ℕ → Bool
is_blank c = c == 32 || c == 9 || c == 10 || c == 13

unfoldable pub trim_blanks_left : Bytes → Bytes
trim_blanks_left [] = []
trim_blanks_left (c ∷ s) = let rest = trim_blanks_left s in if is_blank c then rest else c ∷ s

unfoldable pub trim_blanks_right : Bytes → Bytes
trim_blanks_right [] = []
trim_blanks_right (c ∷ s) =
    let rest = trim_blanks_right s in if is_empty rest && is_blank c then [] else c ∷ rest

unfoldable pub trim_blanks : Bytes → Bytes
unfolding trim_blanks_left trim_blanks_right
trim_blanks s = trim_blanks_right (trim_blanks_left s)

-- cleanStringSlice
unfoldable pub clean_strings : List Bytes → List Bytes
unfolding trim_blanks
clean_strings [] = []
clean_strings (v ∷ vs) =
    let rest = clean_strings vs in if is_empty (trim_blanks v) then rest else trim_blanks v ∷ rest

-- The listeners that UnmarshalJSON leaves.
unfoldable pub clean_proxy_listen : List Bytes → List Bytes
unfolding clean_strings
clean_proxy_listen vs =
    if is_empty (clean_strings vs) then default_proxy_listen else clean_strings vs
