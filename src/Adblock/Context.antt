-- ===== src/Adblock/Context.antt =====
-- What internal/adblock/engine.go computes of a request once, for every rule: matchCtx.
use gowebfilter.Base.{
  ℕ, suc, ◌+◌, Bool, ◌&&◌, ◌||◌, not, Option, none, some, List, [], ◌∷◌, leb, ◌==◌, if◌then◌else◌,
  or_else, length, Bytes, codes, bytes_eq, has_byte, to_lower, cut_text, trim_suffix, is_one_of,
  is_empty, any_of,
}
use gowebfilter.Adblock.Rules.{look_up, type_document, type_names, type_other}

-- Request of engine.go, with the type as text.
pub record AdRequest : Type 0 where
  pub url : Bytes
  pub host : Bytes
  pub source_host : Bytes
  pub source_url : Bytes
  pub kind : Bytes

pub record MatchCtx : Type 0 where
  pub url : Bytes
  pub url_lower : Bytes
  pub host : Bytes
  pub source_url : Bytes
  pub source_host : Bytes
  pub typ : ℕ
  pub third_party : Bool
  pub host_starts : List ℕ

unfoldable pub parse_type : Bytes → ℕ
unfolding look_up to_lower
parse_type s = or_else (look_up (to_lower s) type_names) type_other

-- Where a label of the host begins, behind the scheme: the text is the one from the index on.
unfoldable pub label_starts : ℕ → Bytes → List ℕ
unfolding has_byte
label_starts j [] = []
label_starts j (c ∷ s) =
    let rest = label_starts (suc j) s in
    if has_byte c (codes "/?#") then [] else if c == b'.' || c == b'@' then suc j ∷ rest else rest

abbrev pub starts_behind : Option (Bytes × Bytes) → List ℕ
starts_behind none = []
starts_behind (some (front, rest)) = (length front + 3) ∷ label_starts (length front + 3) rest

unfoldable pub find_host_starts : Bytes → List ℕ
unfolding label_starts cut_text
find_host_starts u = starts_behind (cut_text (codes "://") u)

unfoldable pub is_token_byte : ℕ → Bool
is_token_byte b = leb b'a' b && leb b b'z' || leb b'0' b && leb b b'9' || b == b'%'

-- A longest run of token bytes, and the bytes beside it.
pub record Run : Type 0 where
  pub left : Option ℕ
  pub token : Bytes
  pub right : Option ℕ

abbrev pub push_run : Option ℕ → Bytes → Option ℕ → List Run → List Run
push_run l [] r rs = rs
push_run l (c ∷ t) r rs = record { left = l; token = c ∷ t; right = r } ∷ rs

-- The run that the text begins with, perhaps empty, what follows it, and the runs after it.
unfoldable pub leading_run : Bytes → (Bytes × Option ℕ) × List Run
unfolding is_token_byte
leading_run [] = (([], none), [])
leading_run (c ∷ s) =
    let ((t, r), rs) = leading_run s in
    if is_token_byte c then ((c ∷ t, r), rs) else (([], some c), push_run (some c) t r rs)

unfoldable pub token_runs : Bytes → List Run
unfolding leading_run
token_runs s = let ((t, r), rs) = leading_run s in push_run none t r rs

abbrev pub min_token_len : ℕ
min_token_len = 3

abbrev pub stop_tokens : List Bytes
stop_tokens =
    codes "http"
    ∷ codes "https"
    ∷ codes "www"
    ∷ codes "com"
    ∷ codes "net"
    ∷ codes "org"
    ∷ codes "html"
    ∷ codes "php"
    ∷ codes "static"
    ∷ codes "assets"
    ∷ codes "cdn"
    ∷ codes "min"
    ∷ codes "png"
    ∷ codes "jpg"
    ∷ codes "gif"
    ∷ codes "css"
    ∷ codes "img"
    ∷ codes "images"
    ∷ []

-- A token that a rule may be kept under.
unfoldable pub is_index_token : Bytes → Bool
unfolding bytes_eq any_of
is_index_token t = leb min_token_len (length t) && not (is_one_of stop_tokens t)

-- matchCtx.tokens: the tokens of the address, each once.
unfoldable pub distinct_tokens : List Bytes → List Run → List Bytes
unfolding is_index_token bytes_eq any_of
distinct_tokens seen [] = []
distinct_tokens seen (run ∷ runs) =
    let fresh = is_index_token run.token && not (is_one_of seen run.token) in
    let rest = distinct_tokens (if fresh then run.token ∷ seen else seen) runs in
    if fresh then run.token ∷ rest else rest

unfoldable pub tokens : MatchCtx → List Bytes
unfolding distinct_tokens token_runs
tokens c = distinct_tokens [] (token_runs c.url_lower)

-- `effective_tld_plus_one` is publicsuffix.EffectiveTLDPlusOne, none on its error.
module _ (effective_tld_plus_one : Bytes → Option Bytes) where
  abbrev pub registrable : Bytes → Bytes
  registrable host = or_else (effective_tld_plus_one host) host

  unfoldable pub is_third_party : Bytes → Bytes → Bool
  unfolding bytes_eq
  is_third_party host source =
      not (is_empty source)
      && not (is_empty host)
      && not (bytes_eq (registrable host) (registrable source))

  unfoldable pub new_match_ctx : AdRequest → MatchCtx
  unfolding is_third_party find_host_starts parse_type to_lower trim_suffix
  new_match_ctx req =
      let host = to_lower (trim_suffix req.host (codes ".")) in
      let source = to_lower req.source_host in
      record {
        url = req.url;
        url_lower = to_lower req.url;
        host = host;
        source_url = req.source_url;
        source_host = source;
        typ = parse_type req.kind;
        third_party = is_third_party host source;
        host_starts = find_host_starts (to_lower req.url);
      }

  -- pageCtx: the request itself for a navigation, else its source page.
  unfoldable pub page_ctx : MatchCtx → Option MatchCtx
  unfolding new_match_ctx
  page_ctx c =
      if c.typ == type_document
      then some c
      else if is_empty c.source_url
      then none
      else some (
          new_match_ctx (record {
            url = c.source_url;
            host = c.source_host;
            source_host = [];
            source_url = [];
            kind = codes "document";
          }))
