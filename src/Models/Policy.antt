-- ===== src/Models/Policy.antt =====
-- internal/models/policy.go: the policy and its sub-configurations, with their documented defaults.
-- A mode is the string of the file; `other` holds one that the code does not name. The thresholds
-- are floats in the source and thousandths here; the modelled code only stores them.
use gowebfilter.Base.{ℕ, Bool, true, false, List, [], ◌∷◌, Bytes, codes}
use gowebfilter.Models.Schedule.{ScheduleConfig}

pub record DohConfig : Type 0 where
  pub enabled : Bool
  pub server : Bytes
  pub exclude : List Bytes
  pub include_only : List Bytes

unfoldable pub new_doh_config : DohConfig
new_doh_config = record {
  enabled = false;
  server = codes "https://1.1.1.3/dns-query";
  exclude = [];
  include_only = [];
}

pub record AdblockConfig : Type 0 where
  pub enabled : Bool
  pub lists : List Bytes
  pub cosmetic : Bool
  pub allow : List Bytes

unfoldable pub new_adblock_config : AdblockConfig
new_adblock_config = record {
  enabled = false;
  lists = codes "easylist" ∷ codes "easyprivacy" ∷ [];
  cosmetic = true;
  allow = [];
}

pub data TextClassifierMode : Type 0 where
  block censor both : TextClassifierMode

-- TextClassifierMode.Blocks and Censors
unfoldable pub mode_blocks : TextClassifierMode → Bool
mode_blocks censor = false
mode_blocks _ = true

unfoldable pub mode_censors : TextClassifierMode → Bool
mode_censors block = false
mode_censors _ = true

pub record TextClassifierConfig : Type 0 where
  pub enabled : Bool
  pub mode : TextClassifierMode
  pub threshold : ℕ
  pub exclude : List Bytes
  pub include_only : List Bytes
  pub censor_words : List Bytes
  pub censor_languages : List Bytes

unfoldable pub new_text_classifier_config : TextClassifierConfig
new_text_classifier_config = record {
  enabled = false;
  mode = block;
  threshold = 800;
  exclude = [];
  include_only = [];
  censor_words = [];
  censor_languages = [];
}

pub record ImageClassifierConfig : Type 0 where
  pub enabled : Bool
  pub action : Bytes
  pub threshold : ℕ
  pub min_dimension : ℕ
  pub exclude : List Bytes
  pub include_only : List Bytes

unfoldable pub new_image_classifier_config : ImageClassifierConfig
new_image_classifier_config = record {
  enabled = false;
  action = codes "blur";
  threshold = 400;
  min_dimension = 100;
  exclude = [];
  include_only = [];
}

pub record SafeSearchEngineConfig : Type 0 where
  pub enabled : Bool
  pub block_images_tab : Bool
  pub block_videos_tab : Bool
  pub block_ai_tab : Bool

pub record SafeSearchConfig : Type 0 where
  pub enabled : Bool
  pub engines : List (Bytes × SafeSearchEngineConfig)
  pub exclude : List Bytes
  pub include_only : List Bytes

unfoldable pub new_safe_search_config : SafeSearchConfig
new_safe_search_config = record { enabled = false; engines = []; exclude = []; include_only = [] }

pub data ListMode : Type 0 where
  blacklist whitelist : ListMode

pub record YouTubeConfig : Type 0 where
  pub enabled : Bool
  pub mode : ListMode
  pub channels : List Bytes
  pub exclude : List Bytes
  pub include_only : List Bytes
  pub block_home : Bool
  pub remove_comments : Bool
  pub remove_recommendations : Bool

unfoldable pub new_you_tube_config : YouTubeConfig
new_you_tube_config = record {
  enabled = false;
  mode = blacklist;
  channels = [];
  exclude = [];
  include_only = [];
  block_home = true;
  remove_comments = false;
  remove_recommendations = false;
}

pub data MitmMode : Type 0 where
  exclude include : MitmMode
  other : Bytes → MitmMode

pub data MitmUaMode : Type 0 where
  off exclude include : MitmUaMode
  other : Bytes → MitmUaMode

pub record MitmConfig : Type 0 where
  pub mode : MitmMode
  pub sites : List Bytes
  pub ua_mode : MitmUaMode
  pub user_agents : List Bytes

unfoldable pub new_mitm_config : MitmConfig
new_mitm_config = record { mode = MitmMode.exclude; sites = []; ua_mode = off; user_agents = [] }

pub data CategoryAction : Type 0 where
  block allow : CategoryAction
  other : Bytes → CategoryAction

-- The Go map of category actions is a list of pairs; the keys of a map are distinct.
pub record UrlFilterConfig : Type 0 where
  pub enabled : Bool
  pub allow : List Bytes
  pub block : List Bytes
  pub mode : ListMode
  pub category_actions : List (Bytes × CategoryAction)
  pub categories : List Bytes
  pub block_quic : Bool

unfoldable pub new_url_filter_config : UrlFilterConfig
new_url_filter_config = record {
  enabled = false;
  allow = [];
  block = [];
  mode = blacklist;
  category_actions = [];
  categories = [];
  block_quic = true;
}

pub record BlockPageConfig : Type 0 where
  pub template : Bytes
  pub message : Bytes

pub record Policy : Type 0 where
  pub name : Bytes
  pub inactive : Bool
  pub source_ips : List Bytes
  pub source_macs : List Bytes
  pub schedule : ScheduleConfig
  pub doh : DohConfig
  pub text_classifier : TextClassifierConfig
  pub image_classifier : ImageClassifierConfig
  pub safe_search : SafeSearchConfig
  pub you_tube : YouTubeConfig
  pub mitm : MitmConfig
  pub url_filter : UrlFilterConfig
  pub adblock : AdblockConfig
  pub block_page : BlockPageConfig

unfoldable pub new_policy : Policy
new_policy = record {
  name = [];
  inactive = false;
  source_ips = [];
  source_macs = [];
  schedule = record { enabled = false; active_windows = [] };
  doh = new_doh_config;
  text_classifier = new_text_classifier_config;
  image_classifier = new_image_classifier_config;
  safe_search = new_safe_search_config;
  you_tube = new_you_tube_config;
  mitm = new_mitm_config;
  url_filter = new_url_filter_config;
  adblock = new_adblock_config;
  block_page = record { template = codes "default"; message = [] };
}
