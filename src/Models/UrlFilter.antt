-- ===== src/Models/UrlFilter.antt =====
-- internal/models/policy.go: the category actions of a URL filter, and how JSON input is migrated.
use gowebfilter.Base.{
  Bool, true, false, ◌&&◌, ◌||◌, not, Option, none, some, List, [], ◌∷◌, ltb, ◌==◌, if◌then◌else◌,
  Bytes, codes, bytes_eq, trim_space, to_lower, is_empty,
}
use gowebfilter.Models.Policy.{CategoryAction, ListMode, UrlFilterConfig, blacklist, whitelist}

-- `m[k] = v` on a map kept as pairs with distinct keys, and `m[k]`.
unfoldable pub set_action :
    Bytes → CategoryAction → List (Bytes × CategoryAction) → List (Bytes × CategoryAction)
set_action k a [] = (k, a) ∷ []
set_action k a ((j, b) ∷ m) =
    let rest = set_action k a m in if bytes_eq j k then (k, a) ∷ m else (j, b) ∷ rest

unfoldable pub get_action : Bytes → List (Bytes × CategoryAction) → Option CategoryAction
get_action k [] = none
get_action k ((j, b) ∷ m) = let rest = get_action k m in if bytes_eq j k then some b else rest

abbrev legacy_action : ListMode → CategoryAction
legacy_action blacklist = CategoryAction.block
legacy_action whitelist = CategoryAction.allow

-- The legacy list as a map: every trimmed name that is not empty gets the action.
unfoldable pub legacy_actions :
    CategoryAction → List Bytes → List (Bytes × CategoryAction) → List (Bytes × CategoryAction)
unfolding set_action trim_space
legacy_actions act [] m = m
legacy_actions act (name ∷ names) m =
    legacy_actions act names
      (if is_empty (trim_space name) then m else set_action (trim_space name) act m)

unfoldable pub effective_category_actions : UrlFilterConfig → List (Bytes × CategoryAction)
unfolding legacy_actions
effective_category_actions c =
    if not (is_empty c.category_actions) || is_empty c.categories
    then c.category_actions
    else legacy_actions (legacy_action c.mode) c.categories []

-- The order of strings: bytewise.
unfoldable pub bytes_le : Bytes → Bytes → Bool
bytes_le [] t = true
bytes_le (a ∷ s) [] = false
bytes_le (a ∷ s) (b ∷ t) = let rest = bytes_le s t in if a == b then rest else ltb a b

unfoldable pub insert_name : Bytes → List Bytes → List Bytes
unfolding bytes_le
insert_name n [] = n ∷ []
insert_name n (m ∷ ms) =
    let rest = insert_name n ms in if bytes_le n m then n ∷ m ∷ ms else m ∷ rest

-- sort.Strings over the keys of a map
unfoldable pub sorted_names : List (Bytes × CategoryAction) → List Bytes
unfolding insert_name
sorted_names [] = []
sorted_names ((n, a) ∷ m) = insert_name n (sorted_names m)

unfoldable pub category_names : UrlFilterConfig → List Bytes
unfolding sorted_names effective_category_actions
category_names c = sorted_names (effective_category_actions c)

-- The two cases of the switch of `CategoryLists`.
abbrev is_allow : Option CategoryAction → Bool
is_allow none = false
is_allow (some CategoryAction.allow) = true
is_allow (some _) = false

abbrev is_block : Option CategoryAction → Bool
is_block none = false
is_block (some CategoryAction.block) = true
is_block (some _) = false

unfoldable pub keep_names : (Bytes → Bool) → List Bytes → List Bytes
keep_names p [] = []
keep_names p (n ∷ ns) = let rest = keep_names p ns in if p n then n ∷ rest else rest

-- UrlFilterConfig.CategoryLists
unfoldable pub allow_categories : UrlFilterConfig → List Bytes
unfolding keep_names category_names get_action
allow_categories c =
    keep_names (λ n. is_allow (get_action n (effective_category_actions c))) (category_names c)

unfoldable pub block_categories : UrlFilterConfig → List Bytes
unfolding keep_names category_names get_action
block_categories c =
    keep_names (λ n. is_block (get_action n (effective_category_actions c))) (category_names c)

-- The loop of UnmarshalJSON over category_actions: names and actions are trimmed, the action is
-- put in lower case, and an action that is neither is off.
unfoldable pub clean_action : CategoryAction → Option CategoryAction
unfolding to_lower trim_space bytes_eq
clean_action CategoryAction.block = some CategoryAction.block
clean_action CategoryAction.allow = some CategoryAction.allow
clean_action (CategoryAction.other a) =
    let text : Bytes = to_lower (trim_space a) in
    if bytes_eq text (codes "block")
    then some CategoryAction.block
    else if bytes_eq text (codes "allow")
    then some CategoryAction.allow
    else none

abbrev clean_entry :
    Bytes → Option CategoryAction → List (Bytes × CategoryAction) → List (Bytes × CategoryAction)
clean_entry name none m = m
clean_entry name (some a) m = if is_empty name then m else set_action name a m

unfoldable pub clean_actions :
    List (Bytes × CategoryAction) → List (Bytes × CategoryAction) → List (Bytes × CategoryAction)
unfolding clean_action set_action trim_space
clean_actions [] m = m
clean_actions ((n, a) ∷ rest) m = clean_actions rest (clean_entry (trim_space n) (clean_action a) m)

-- What UnmarshalJSON does with the decoded fields; `modern` tells whether the input has a
-- category_actions that is not null.
unfoldable pub migrate : Bool → UrlFilterConfig → UrlFilterConfig
unfolding clean_actions legacy_actions sorted_names
migrate modern c =
    let actions : List (Bytes × CategoryAction) =
      if modern
      then clean_actions c.category_actions []
      else legacy_actions (legacy_action c.mode) c.categories [] in
    let mode : ListMode = elim c.mode [
      | whitelist ↦ if not modern && is_empty actions then blacklist else whitelist
      | blacklist ↦ blacklist
    ] in
    record c { mode = mode; category_actions = actions; categories = sorted_names actions }
