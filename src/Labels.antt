-- ===== src/Labels.antt =====
-- The labels that mark what the operator owns (internal/upcloudapi/labels.go).
pub mod Laws
pub mod Ownership
use upcloud_operator.Prelude.{
  Option, none, some, String, Bool, true, false, ◌&&◌, ◌||◌, List, [], ◌∷◌, ◌++◌, ◌==◌,
  if◌then◌else◌, nat_eq, length,
}
use upcloud_operator.Prelude.StringOrder.{str_lt}
use upcloud_operator.Prelude.Sorting.{sort_func}
use upcloud_operator.Kube.{ObjectMeta}

-- upcloud.Label
pub record Label : Type 0 where
  pub key : String
  pub value : String

abbrev pub label_managed_by : String
label_managed_by = "managed-by"

abbrev pub label_uid : String
label_uid = "k8s-uid"

abbrev pub managed_by_value : String
managed_by_value = "uck"

abbrev pub label : String → String → Label
label k v = record { key = k; value = v }

unfoldable pub owner_labels : ObjectMeta → List Label
owner_labels m = label label_uid m.uid ∷ label label_managed_by managed_by_value ∷ []

-- The order of strings.Compare on the keys.
abbrev pub key_less : Label → Label → Bool
key_less a b = str_lt a.key b.key

-- sortLabels
unfoldable pub sort_labels : List Label → List Label
unfolding sort_func str_lt
sort_labels = sort_func key_less

-- UpCloudLabels, a Go map, as the list of its entries in the order in which `range` visits them.
abbrev pub UserLabels : Type 0
UserLabels = List (String × String)

-- The loop of DesiredLabels over the user's labels.
unfoldable pub user_labels : UserLabels → List Label
user_labels [] = []
user_labels ((k, v) ∷ user) =
    let rest = user_labels user in
    if k == label_managed_by || k == label_uid then rest else label k v ∷ rest

unfoldable pub desired_labels : ObjectMeta → UserLabels → List Label
unfolding owner_labels sort_labels user_labels
desired_labels m user = sort_labels (owner_labels m ++ user_labels user)

-- slices.Equal on labels.
unfoldable pub same_labels : List Label → List Label → Bool
same_labels [] [] = true
same_labels (a ∷ as') (b ∷ bs) = a.key == b.key && (a.value == b.value && same_labels as' bs)
same_labels _ _ = false

unfoldable pub labels_equal : List Label → List Label → Bool
unfolding sort_labels same_labels
labels_equal a b =
    if nat_eq (length a) (length b) then same_labels (sort_labels a) (sort_labels b) else false

unfoldable pub has_uid : List Label → String → Bool
has_uid [] uid = false
has_uid (l ∷ labels) uid = l.key == label_uid && l.value == uid || has_uid labels uid

-- UIDFilter: the label that a list call filters by.
abbrev pub uid_filter : ObjectMeta → Label
uid_filter m = label label_uid m.uid

-- The loop of every lookup: the first resource whose labels carry the uid.
unfoldable pub find_owned {ℓ} : {A : Type ℓ} → (A → List Label) → String → List A → Option A
find_owned labels uid [] = none
find_owned labels uid (a ∷ as') =
    if has_uid (labels a) uid then some a else find_owned labels uid as'
