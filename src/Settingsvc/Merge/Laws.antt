-- ===== src/Settingsvc/Merge/Laws.antt =====
-- What a merged object holds, field by field.
-- No name has two fields.
use gowebfilter.Base.{
  ◌≡◌, refl, sym, ap, ◌∙◌, subst, inl, inr, false, Option, none, some, if◌then◌else◌, Bool-cases,
  Bytes, codes, bytes_eq, bytes_eq_iff, bytes_eq_refl,
}
use gowebfilter.Settingsvc.Merge.{
  Fields, Json, delete_field, drop_actions, drop_if_set, drop_superseded_category_actions, field,
  get_field, has_field, json_null, json_object, json_value, merge_json_objects, merge_policy_patch,
  no_fields, object_at, object_or_empty, set_field,
}

abbrev pub Distinct : Fields → Type 0
Distinct no_fields = Unit
Distinct (field k v m) = (get_field k m ≡ none) × Distinct m

-- RFC 7386 on one field: the target's value and the patch's.
abbrev pub merged_field : Option Json → Option Json → Option Json
merged_field t none = t
merged_field t (some json_null) = none
merged_field t (some (json_value v)) = some (json_value v)
merged_field t (some (json_object patch)) =
    some (json_object (merge_json_objects (object_or_empty t) patch))

get-delete-same : (k : Bytes) (m : Fields) → get_field k (delete_field k m) ≡ none
unfolding get_field delete_field
get-delete-same k no_fields = refl
get-delete-same k (field j v m) = elim (Bool-cases (bytes_eq j k)) [
  | inl same ↦ rw same (get-delete-same k m)
  | inr differs ↦ rw (differs, differs) (get-delete-same k m)
]

get-delete-apart :
    (k j : Bytes) (m : Fields)
    → bytes_eq j k ≡ false
    → get_field k (delete_field j m) ≡ get_field k m
unfolding get_field delete_field
get-delete-apart k j no_fields d = refl
get-delete-apart k j (field i v m) d = elim (Bool-cases (bytes_eq i j)) [
  | inl same ↦
      rw (same, subst (λ t. bytes_eq t k ≡ false) (sym ((bytes_eq_iff i j).0 same)) d)
        (get-delete-apart k j m d)
  | inr differs ↦ rw (differs, get-delete-apart k j m d)
]

get-set-same : (k : Bytes) (v : Json) (m : Fields) → get_field k (set_field k v m) ≡ some v
unfolding get_field set_field
get-set-same k v m = rw (bytes_eq_refl k)

get-set-apart :
    (k j : Bytes) (v : Json) (m : Fields)
    → bytes_eq j k ≡ false
    → get_field k (set_field j v m) ≡ get_field k m
unfolding get_field set_field
get-set-apart k j v m d = rw d (get-delete-apart k j m d)

-- The field of a name after one round of the loop, for another name or for its own.
abbrev after_round : Bytes → Bytes → Json → Fields → Option Json
after_round k j v target =
    if bytes_eq j k then merged_field (get_field k target) (some v) else get_field k target

delete-round :
    (k j : Bytes) (target : Fields)
    → get_field k (delete_field j target) ≡ after_round k j json_null target
delete-round k j target = elim (Bool-cases (bytes_eq j k)) [
  | inl same ↦ rw same (
      subst (λ t. get_field k (delete_field t target) ≡ none) (sym ((bytes_eq_iff j k).0 same))
        (get-delete-same k target))
  | inr differs ↦ rw differs (get-delete-apart k j target differs)
]

set-round :
    (k j : Bytes) (v new : Json) (target : Fields)
    → ((j ≡ k) → some new ≡ merged_field (get_field k target) (some v))
    → get_field k (set_field j new target) ≡ after_round k j v target
set-round k j v new target e = elim (Bool-cases (bytes_eq j k)) [
  | inl same ↦ rw same (
      subst (λ t. get_field k (set_field t new target) ≡ some new) (sym ((bytes_eq_iff j k).0 same))
        (get-set-same k new target)
      ∙ e ((bytes_eq_iff j k).0 same))
  | inr differs ↦ rw differs (get-set-apart k j new target differs)
]

merge-round :
    (k j : Bytes) (v : Json) (target out rest : Fields)
    → get_field k out ≡ after_round k j v target
    → get_field j rest ≡ none
    → get_field k (merge_json_objects out rest) ≡ merged_field (get_field k out) (get_field k rest)
    → get_field k (merge_json_objects out rest)
      ≡ merged_field (get_field k target) (get_field k (field j v rest))
unfolding get_field
merge-round k j v target out rest round fresh ih = elim (Bool-cases (bytes_eq j k)) [
  | inl same ↦ rw same (
      ih
      ∙ (ap (λ o. merged_field (get_field k out) o)
            (subst (λ t. get_field t rest ≡ none) ((bytes_eq_iff j k).0 same) fresh)
          ∙ (rw same at round)))
  | inr differs ↦
      rw differs (ih ∙ ap (λ o. merged_field o (get_field k rest)) (rw differs at round))
]

-- A patch that has no name twice changes each field by the rules of RFC 7386 and no other: a field
-- that it does not name is the target's, null deletes, an object is merged with the target's
-- object, and any other value replaces it.
pub get-merge_json_objects :
    (k : Bytes) (target patch : Fields)
    → Distinct patch
    → get_field k (merge_json_objects target patch)
      ≡ merged_field (get_field k target) (get_field k patch)
unfolding merge_json_objects get_field
get-merge_json_objects k target no_fields d = refl
get-merge_json_objects k target (field j json_null rest) (fresh, d) =
    let out : Fields = delete_field j target in
    merge-round k j json_null target out rest (delete-round k j target) fresh
      (get-merge_json_objects k out rest d)
get-merge_json_objects k target (field j (json_value v) rest) (fresh, d) =
    let out : Fields = set_field j (json_value v) target in
    merge-round k j (json_value v) target out rest
      (set-round k j (json_value v) (json_value v) target (λ e. refl)) fresh
      (get-merge_json_objects k out rest d)
get-merge_json_objects k target (field j (json_object patch) rest) (fresh, d) =
    let new : Json =
      json_object (merge_json_objects (object_or_empty (get_field j target)) patch) in
    let out : Fields = set_field j new target in
    merge-round k j (json_object patch) target out rest
      (set-round k j (json_object patch) new target (λ e.
        ap
          (λ t.
            some (json_object (merge_json_objects (object_or_empty (get_field t target)) patch)))
          e))
      fresh (get-merge_json_objects k out rest d)

-- The stored filter after the drop has no actions to merge into.
dropped-actions :
    (stored : Option Json) (cur : Fields)
    → get_field (codes "url_filter") cur ≡ stored
    → get_field
        (codes "category_actions")
        (object_or_empty (get_field (codes "url_filter") (drop_actions (object_at stored) cur)))
      ≡ none
unfolding get_field
dropped-actions none cur e = rw e
dropped-actions (some json_null) cur e = rw e
dropped-actions (some (json_value v)) cur e = rw e
dropped-actions (some (json_object filter)) cur e =
    rw
      (get-set-same (codes "url_filter")
        (json_object (delete_field (codes "category_actions") filter)) cur)
      (get-delete-same (codes "category_actions") filter)

drop_if_set-actions :
    (cur filter : Fields) (actions : Json)
    → get_field (codes "category_actions") filter ≡ some actions
    → drop_if_set (some filter) cur
      ≡ drop_actions (object_at (get_field (codes "url_filter") cur)) cur
drop_if_set-actions cur filter actions a =
    elim (Bool-cases (has_field (codes "categories") filter)) [
      | inl legacy ↦ rw (drop_if_set, legacy)
      | inr modern ↦ rw (drop_if_set, modern, a)
    ]

drop-actions :
    (cur patch filter : Fields) (actions : Json)
    → get_field (codes "url_filter") patch ≡ some (json_object filter)
    → get_field (codes "category_actions") filter ≡ some actions
    → drop_superseded_category_actions cur patch
      ≡ drop_actions (object_at (get_field (codes "url_filter") cur)) cur
unfolding drop_superseded_category_actions
drop-actions cur patch filter actions e a = rw e (drop_if_set-actions cur filter actions a)

-- A patch whose url_filter has an object of category actions, with no name twice in either, leaves
-- the policy with those actions alone: the stored ones are not merged into them.
pub merge_policy_patch-actions :
    (cur patch filter actions : Fields)
    → Distinct patch
    → Distinct filter
    → get_field (codes "url_filter") patch ≡ some (json_object filter)
    → get_field (codes "category_actions") filter ≡ some (json_object actions)
    → (merged : Fields) × (get_field (codes "url_filter") (merge_policy_patch cur patch)
        ≡ some (json_object merged))
      × (get_field (codes "category_actions") merged
          ≡ some (json_object (merge_json_objects no_fields actions)))
unfolding merge_policy_patch
merge_policy_patch-actions cur patch filter actions dp df e a =
    let start : Fields = drop_superseded_category_actions cur patch in
    let stored : Fields = object_or_empty (get_field (codes "url_filter") start) in
    let empty : get_field (codes "category_actions") stored ≡ none =
      rw (drop-actions cur patch filter (json_object actions) e a)
        (dropped-actions (get_field (codes "url_filter") cur) cur refl) in
    (
      merge_json_objects stored filter,
      get-merge_json_objects (codes "url_filter") start patch dp
          ∙ ap (λ o. merged_field (get_field (codes "url_filter") start) o) e,
      get-merge_json_objects (codes "category_actions") stored filter df
          ∙ ap (λ o. merged_field (get_field (codes "category_actions") stored) o) a
          ∙ ap (λ o. some (json_object (merge_json_objects (object_or_empty o) actions))) empty,
    )
