-- ===== src/Adblock/Rules.antt =====
-- The rules of internal/adblock/parse.go, as they are kept once a list has been read.
use gowebfilter.Base.{
  ℕ, Bool, false, Option, none, some, List, [], ◌∷◌, ◌++◌, if◌then◌else◌, or_else, Bytes, codes,
  bytes_eq,
}
use Prim.Native.Nat.{bit_and, bit_xor}

-- Resource types, as a bit mask.
abbrev pub type_document : ℕ
type_document = 1

abbrev pub type_subdocument : ℕ
type_subdocument = 2

abbrev pub type_script : ℕ
type_script = 4

abbrev pub type_stylesheet : ℕ
type_stylesheet = 8

abbrev pub type_image : ℕ
type_image = 16

abbrev pub type_font : ℕ
type_font = 32

abbrev pub type_media : ℕ
type_media = 64

abbrev pub type_xhr : ℕ
type_xhr = 128

abbrev pub type_object : ℕ
type_object = 256

abbrev pub type_ping : ℕ
type_ping = 512

abbrev pub type_websocket : ℕ
type_websocket = 1024

abbrev pub type_other : ℕ
type_other = 2048

abbrev pub type_all_but_document : ℕ
type_all_but_document = 4094

abbrev pub type_all : ℕ
type_all = 4095

-- `a &^ b`
abbrev pub and_not : ℕ → ℕ → ℕ
and_not a b = bit_xor a (bit_and a b)

abbrev pub type_names : List (Bytes × ℕ)
type_names =
    (codes "document", type_document)
    ∷ (codes "doc", type_document)
    ∷ (codes "subdocument", type_subdocument)
    ∷ (codes "frame", type_subdocument)
    ∷ (codes "script", type_script)
    ∷ (codes "stylesheet", type_stylesheet)
    ∷ (codes "css", type_stylesheet)
    ∷ (codes "image", type_image)
    ∷ (codes "font", type_font)
    ∷ (codes "media", type_media)
    ∷ (codes "xmlhttprequest", type_xhr)
    ∷ (codes "xhr", type_xhr)
    ∷ (codes "object", type_object)
    ∷ (codes "object-subrequest", type_object)
    ∷ (codes "ping", type_ping)
    ∷ (codes "beacon", type_ping)
    ∷ (codes "websocket", type_websocket)
    ∷ (codes "other", type_other)
    ∷ []

-- A map from texts, kept as pairs: `m[k]`, and `m[k] = append(m[k], v)`.
unfoldable pub look_up {ℓ} : {A : Type ℓ} → Bytes → List (Bytes × A) → Option A
unfolding bytes_eq
look_up k [] = none
look_up k ((j, a) ∷ m) = let rest = look_up k m in if bytes_eq j k then some a else rest

unfoldable pub add_under {ℓ} :
    {A : Type ℓ} → Bytes → A → List (Bytes × List A) → List (Bytes × List A)
unfolding bytes_eq
add_under k a [] = (k, a ∷ []) ∷ []
add_under k a ((j, held) ∷ m) =
    let rest = add_under k a m in
    if bytes_eq j k then (j, held ++ (a ∷ [])) ∷ m else (j, held) ∷ rest

abbrev pub listed_under {ℓ} : {A : Type ℓ} → Bytes → List (Bytes × List A) → List A
listed_under k m = or_else (look_up k m) []

-- netRule. `re` is the expression of a /regex/ rule; `third_party` is 1, -1 or 0 of the source as
-- some true, some false and none.
pub record NetRule : Type 0 where
  pub raw : Bytes
  pub is_exception : Bool
  pub important : Bool
  pub match_case : Bool
  pub host_only : Bytes
  pub re : Option Bytes
  pub pattern_text : Bytes
  pub anchor_host : Bool
  pub anchor_start : Bool
  pub anchor_end : Bool
  pub lit : Bytes
  pub types : ℕ
  pub third_party : Option Bool
  pub domains : List Bytes
  pub not_domains : List Bytes
  pub elem_hide : Bool
  pub generic_hide : Bool

-- A rule of which only the text is known.
abbrev pub raw_rule : Bytes → NetRule
raw_rule line = record {
  raw = line;
  is_exception = false;
  important = false;
  match_case = false;
  host_only = [];
  re = none;
  pattern_text = [];
  anchor_host = false;
  anchor_start = false;
  anchor_end = false;
  lit = [];
  types = 0;
  third_party = none;
  domains = [];
  not_domains = [];
  elem_hide = false;
  generic_hide = false;
}

pub record CosmeticRule : Type 0 where
  pub selector : Bytes
  pub domains : List Bytes
  pub not_domains : List Bytes
  pub is_exception : Bool

-- parsed: what the lists have given so far.
pub record Parsed : Type 0 where
  pub net : List NetRule
  pub cosmetic : List CosmeticRule
  pub skipped : ℕ
