-- ===== src/Api/Copies.antt =====
-- pkg/api/v1beta1/zz_generated.deepcopy.go: the deep copies of the resource and of a list of
-- resources. The copies of their metadata are in apimachinery, and are parameters here.
use csi_alcub.Base.{
  String, false, Option, none, some, List, [], ◌∷◌, ◌≡◌, refl, ap, arith, Option-cases, inl, inr,
}
use csi_alcub.Base.Int.{pos}
use csi_alcub.Api.{
  VolumeInfo, ObjectMeta, CsiAlcub, empty_status, deep_copy_status, deep_copy_status_lem,
}

-- `(*VolumeInfo).DeepCopyInto` and `DeepCopy`; `none` is the nil pointer.
unfoldable pub deep_copy_info : Option VolumeInfo → Option VolumeInfo
deep_copy_info none = none
deep_copy_info (some from) = some from

-- `metav1.ListMeta`
pub record ListMeta : Type 0 where
  pub resource_version : String
  pub next : String

-- `CsiAlcubList`; nil items are `none`.
pub record CsiAlcubList : Type 0 where
  pub meta : ListMeta
  pub items : Option (List CsiAlcub)

-- The zero value, which `make` and `new` fill memory with.
abbrev pub zero_alcub : CsiAlcub
zero_alcub = record {
  meta = record { name = ""; finalizers = []; deleting = false; resource_version = "" };
  spec = record { uuid = ""; capacity = pos 0; rbd_sc = ""; pool = ""; image = "" };
  status = empty_status;
}

-- `make([]CsiAlcub, len(in))`
abbrev make_alcubs : List CsiAlcub → List CsiAlcub
make_alcubs [] = []
make_alcubs (x ∷ xs) = zero_alcub ∷ make_alcubs xs

module _ (copy_meta : ObjectMeta → ObjectMeta → ObjectMeta)
    (copy_list : ListMeta → ListMeta → ListMeta) where
  -- `(*CsiAlcub).DeepCopyInto`: the value of `out` afterwards. `*out = *in` overwrites all of it
  -- first, so the copy of the metadata finds the old metadata there.
  unfoldable pub deep_copy_alcub : CsiAlcub → CsiAlcub → CsiAlcub
  deep_copy_alcub from out = record from {
    meta = copy_meta from.meta from.meta;
    status = deep_copy_status from.status;
  }

  -- `(*CsiAlcub).DeepCopy` and `DeepCopyObject`; `none` is the nil pointer.
  unfoldable pub deep_copy : Option CsiAlcub → Option CsiAlcub
  unfolding deep_copy_alcub
  deep_copy none = none
  deep_copy (some from) = some (deep_copy_alcub from zero_alcub)

  -- The loop over the items: each is copied into the item of the new slice at its index.
  unfoldable pub copy_items : List CsiAlcub → List CsiAlcub → List CsiAlcub
  unfolding deep_copy_alcub
  copy_items [] out = out
  copy_items (x ∷ xs) [] = []
  copy_items (x ∷ xs) (y ∷ out) = deep_copy_alcub x y ∷ copy_items xs out

  -- `(*CsiAlcubList).DeepCopyInto`
  unfoldable pub deep_copy_items : CsiAlcubList → CsiAlcubList
  unfolding copy_items
  deep_copy_items from = record {
    meta = copy_list from.meta from.meta;
    items = elim from.items [ none ↦ none | some xs ↦ some (copy_items xs (make_alcubs xs)) ];
  }

  -- `(*CsiAlcubList).DeepCopy` and `DeepCopyObject`
  unfoldable pub deep_copy_list : Option CsiAlcubList → Option CsiAlcubList
  unfolding deep_copy_items
  deep_copy_list none = none
  deep_copy_list (some from) = some (deep_copy_items from)

  module _ (same_meta : (m out : ObjectMeta) → copy_meta m out ≡ m)
      (same_list : (m out : ListMeta) → copy_list m out ≡ m) where
    deep_copy_alcub_lem : (from out : CsiAlcub) → deep_copy_alcub from out ≡ from
    unfolding deep_copy_alcub
    deep_copy_alcub_lem from out =
        rw (same_meta from.meta from.meta, deep_copy_status_lem from.status)

    copy_items-make_alcubs : (xs : List CsiAlcub) → copy_items xs (make_alcubs xs) ≡ xs
    unfolding copy_items
    copy_items-make_alcubs [] = refl
    copy_items-make_alcubs (x ∷ xs) =
        rw (deep_copy_alcub_lem x zero_alcub, copy_items-make_alcubs xs)

    deep_copy_items_lem : (from : CsiAlcubList) → deep_copy_items from ≡ from
    unfolding deep_copy_items
    deep_copy_items_lem from = elim (Option-cases from.items) [
      | inl nothing ↦ ground (arith, same_list from.meta from.meta)
      | inr (xs, there) ↦ ground (arith, same_list from.meta from.meta, copy_items-make_alcubs xs)
    ]

    -- A deep copy of a list of resources is that list, nil where it is nil, when apimachinery
    -- copies metadata faithfully.
    pub deep_copy_list_lem : (from : CsiAlcubList) → deep_copy_list (some from) ≡ some from
    unfolding deep_copy_list
    deep_copy_list_lem from =
        let whole : deep_copy_items from ≡ from = deep_copy_items_lem from in ap some whole
