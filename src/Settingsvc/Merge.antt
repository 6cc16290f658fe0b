-- ===== src/Settingsvc/Merge.antt =====
-- internal/settingsvc/policymerge.go: the merge of a patch into decoded JSON (RFC 7386). An object
-- is the list of its fields; the decoder keeps one field for each name. A value that is neither
-- null nor an object is kept as its text.
pub mod Laws
use gowebfilter.Base.{
  ℕ, zero, suc, ◌+◌, ◌-◌, ◌*◌, ◌/◌, ◌%◌, ◌^◌, ◌≤◌, ◌<◌, ◌≡◌, refl, sym, ap, ap₂, ◌∙◌, subst, ◌≢◌,
  ◌↔◌, ◌⊎◌, inl, inr, Bool, true, false, ◌&&◌, ◌||◌, not, Option, none, some, List, [], ◌∷◌, ◌++◌,
  map, append-nil, append_assoc, arith, ltb, leb, ◌==◌, if◌then◌else◌, ltb→lt, lt→ltb, leb→le,
  ==_iff, Bool-cases, false≢true, Option-cases, or_else, none≢some, some_injective, length,
  length-append, take, drop, get_elem?, Bytes, codes, bytes_eq, bytes_eq_iff, bytes_eq_refl,
  cut_prefix, cut_prefix-some, cut_prefix-append, is_some, has_prefix, trim_prefix, has_suffix,
  EndsIn, has_suffix_iff, has_byte, cut_byte, is_space, trim_space, to_lower, lower_byte,
  split_byte, contains, is_empty, ℤ, pos, negsuc, atoi, atoi_two, itoa, itoa_digit, digits, IsDigit,
  hex_digit, hex_value, hex_value-hex_digit, split_byte-cons, eq_ne, is_digit, Within,
  Within-append, Within-cons, append_left, append_right, no_member, Any, any_of, any_of_iff,
}

mutual
  pub data Json : Type 0 where
    json_null : Json
    json_value : Bytes → Json
    json_object : Fields → Json

  pub data Fields : Type 0 where
    no_fields : Fields
    field : Bytes → Json → Fields → Fields

unfoldable pub get_field : Bytes → Fields → Option Json
get_field k no_fields = none
get_field k (field j v m) = let rest = get_field k m in if bytes_eq j k then some v else rest

-- `delete(m, k)`
unfoldable pub delete_field : Bytes → Fields → Fields
delete_field k no_fields = no_fields
delete_field k (field j v m) =
    let rest = delete_field k m in if bytes_eq j k then rest else field j v rest

-- `m[k] = v`
unfoldable pub set_field : Bytes → Json → Fields → Fields
unfolding delete_field
set_field k v m = field k v (delete_field k m)

-- `tObj, tIsObj := out[k].(map[string]any)`, empty where it is not an object.
abbrev pub object_or_empty : Option Json → Fields
object_or_empty (some (json_object m)) = m
object_or_empty _ = no_fields

-- mergeJSONObjects: `out` is the copy of the target.
unfoldable pub merge_json_objects : Fields → Fields → Fields
unfolding set_field delete_field get_field
merge_json_objects out no_fields = out
merge_json_objects out (field k json_null rest) = merge_json_objects (delete_field k out) rest
merge_json_objects out (field k (json_value v) rest) =
    merge_json_objects (set_field k (json_value v) out) rest
merge_json_objects out (field k (json_object patch) rest) =
    merge_json_objects
      (set_field k (json_object (merge_json_objects (object_or_empty (get_field k out)) patch)) out)
      rest

abbrev pub has_field : Bytes → Fields → Bool
has_field k m = is_some (get_field k m)

-- The object in the field of a name.
abbrev pub object_at : Option Json → Option Fields
object_at (some (json_object m)) = some m
object_at _ = none

abbrev pub drop_actions : Option Fields → Fields → Fields
drop_actions none cur = cur
drop_actions (some filter) cur =
    set_field (codes "url_filter") (json_object (delete_field (codes "category_actions") filter))
      cur

abbrev pub drop_if_set : Option Fields → Fields → Fields
drop_if_set none cur = cur
drop_if_set (some filter) cur =
    if has_field (codes "categories") filter || has_field (codes "category_actions") filter
    then drop_actions (object_at (get_field (codes "url_filter") cur)) cur
    else cur

-- dropSupersededCategoryActions
unfoldable pub drop_superseded_category_actions : Fields → Fields → Fields
unfolding get_field set_field delete_field
drop_superseded_category_actions cur patch =
    drop_if_set (object_at (get_field (codes "url_filter") patch)) cur

-- The merge of MergePolicyPatch, between the decoding and the encoding.
unfoldable pub merge_policy_patch : Fields → Fields → Fields
unfolding drop_superseded_category_actions merge_json_objects
merge_policy_patch cur patch = merge_json_objects (drop_superseded_category_actions cur patch) patch
