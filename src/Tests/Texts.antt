-- ===== src/Tests/Texts.antt =====
-- The merge of patches, lists of domains and hardware addresses at concrete inputs.
use gowebfilter.Base.{
  ◌≡◌, refl, ◌≢◌, ◌↔◌, true, some, [], ◌∷◌, codes, bytes_eq, cut_prefix, trim_space, to_lower,
  Within,
}
use gowebfilter.Categories.Hash.{set_contains}
use gowebfilter.Categories.Store.{build_domain_set, line_domain}
use gowebfilter.Categories.Store.Listed.{build_domain_set-contains}
use gowebfilter.Mac.Laws.{normalize-normalize}
use gowebfilter.Mac.Spelling.{IsAddressOf, normalize_iff}
use gowebfilter.Settingsvc.Merge.{
  Fields, field, get_field, json_object, json_value, merge_json_objects, merge_policy_patch,
  no_fields,
}
use gowebfilter.Settingsvc.Merge.Laws.{
  Distinct, get-merge_json_objects, merge_policy_patch-actions, merged_field,
}

canonical-filled : codes "0a:1b:2c:3d:4e:5f" ≢ []
canonical-filled = λ e. cc

normalize_iff_example :
    (gowebfilter.Mac.normalize (codes "0A-1b-2C-3d-4E-5f") ≡ codes "0a:1b:2c:3d:4e:5f")
    ↔ IsAddressOf (codes "0A-1b-2C-3d-4E-5f") (codes "0a:1b:2c:3d:4e:5f")
normalize_iff_example =
    normalize_iff (codes "0A-1b-2C-3d-4E-5f") (codes "0a:1b:2c:3d:4e:5f") canonical-filled

normalize-normalize_example :
    gowebfilter.Mac.normalize (gowebfilter.Mac.normalize (codes "0A-1b-2C-3d-4E-5f"))
    ≡ gowebfilter.Mac.normalize (codes "0A-1b-2C-3d-4E-5f")
normalize-normalize_example = normalize-normalize (codes "0A-1b-2C-3d-4E-5f")

abbrev new_actions : Fields
new_actions = field (codes "games") (json_value (codes "block")) no_fields

abbrev new_filter : Fields
new_filter = field (codes "category_actions") (json_object new_actions) no_fields

abbrev patch : Fields
patch = field (codes "url_filter") (json_object new_filter) no_fields

abbrev stored : Fields
stored =
    field (codes "url_filter")
      (json_object (
        field (codes "category_actions")
          (json_object (field (codes "news") (json_value (codes "allow")) no_fields)) no_fields))
      no_fields

patch-Distinct : Distinct patch
unfolding get_field
patch-Distinct = (refl, tt)

filter-Distinct : Distinct new_filter
unfolding get_field
filter-Distinct = (refl, tt)

patch_filter : get_field (codes "url_filter") patch ≡ some (json_object new_filter)
unfolding get_field bytes_eq
patch_filter = refl

filter_actions : get_field (codes "category_actions") new_filter ≡ some (json_object new_actions)
unfolding get_field bytes_eq
filter_actions = refl

get-merge_json_objects_example :
    get_field (codes "url_filter") (merge_json_objects stored patch)
    ≡ merged_field (get_field (codes "url_filter") stored) (get_field (codes "url_filter") patch)
get-merge_json_objects_example =
    get-merge_json_objects (codes "url_filter") stored patch patch-Distinct

merge_policy_patch-actions_example :
    (merged : Fields) × (get_field (codes "url_filter") (merge_policy_patch stored patch)
      ≡ some (json_object merged))
    × (get_field (codes "category_actions") merged
        ≡ some (json_object (merge_json_objects no_fields new_actions)))
merge_policy_patch-actions_example =
    merge_policy_patch-actions stored patch new_filter new_actions patch-Distinct filter-Distinct
      patch_filter filter_actions

listed : line_domain (codes " Ads.Example ") ≡ some (codes "ads.example")
unfolding line_domain to_lower trim_space cut_prefix
listed = refl

build_domain_set-contains_example :
    set_contains
      (build_domain_set (codes "# list" ∷ codes " Ads.Example " ∷ []))
      (codes "ads.example")
    ≡ true
build_domain_set-contains_example =
    build_domain_set-contains (codes "# list" ∷ codes " Ads.Example " ∷ []) (codes " Ads.Example ")
      (codes "ads.example") (Within.there Within.here) listed
