-- ===== src/Manager/Index.antt =====
-- The index from uuid to name: `reverseUuid`, `releaseUuid` and the operations that call them.
use csi_alcub.Base.{
  String, ◌≡◌, ◌≢◌, ◌⊎◌, inl, inr, none, some, arith, eq_iff, Option, Option-cases,
}
use csi_alcub.Base.Dict.{
  lookup, lookup-insert, lookup-insert_self, lookup-insert_ne, lookup-erase_self, lookup-erase_ne,
}
use csi_alcub.Base.Exec.{GoError, ok, err, Result-cases}
use csi_alcub.Process.{AlcubCon, Process}
use csi_alcub.Api.{CsiAlcubSpec}
use csi_alcub.Manager.{
  AlcubClient, release_uuid, get_name_by_uuid, reverse_uuid, get_by_name, get_by_uuid, create,
  delete,
}

pub reverse_uuid_ok :
    (uuid name : String) (al : AlcubCon)
    → (reverse_uuid uuid name al).0 ≡ ok tt
    → lookup uuid (reverse_uuid uuid name al).1.uuidname ≡ some name
unfolding reverse_uuid
reverse_uuid_ok uuid name al h = elim (Option-cases (lookup uuid al.uuidname)) [
  | inl e ↦ ground (arith, lookup-insert_self uuid name al.uuidname)
  | inr (v, e) ↦ ground (arith, eq_iff v name)
]

pub reverse_uuid_err :
    (uuid name : String) (al : AlcubCon) {e : GoError}
    → (reverse_uuid uuid name al).0 ≡ err e
    → (reverse_uuid uuid name al).1 ≡ al
unfolding reverse_uuid
reverse_uuid_err uuid name al h = ground arith

pub reverse_uuid_ne :
    (uuid name u : String) (al : AlcubCon)
    → uuid ≢ u
    → lookup u (reverse_uuid uuid name al).1.uuidname ≡ lookup u al.uuidname
unfolding reverse_uuid
reverse_uuid_ne uuid name u al h = ground (arith, lookup-insert_ne uuid u name al.uuidname h)

-- A uuid that stands for one name is never given another.
pub reverse_uuid_keeps :
    (uuid name u : String) (al : AlcubCon) {v : String}
    → lookup u al.uuidname ≡ some v
    → lookup u (reverse_uuid uuid name al).1.uuidname ≡ some v
unfolding reverse_uuid
reverse_uuid_keeps uuid name u al {v} h =
    ground (arith, lookup-insert uuid u name al.uuidname, eq_iff uuid u)

module _ {W : Type 0} (c : AlcubClient W) (name : String) (spec : CsiAlcubSpec)
    (s : Process W) where
  abbrev uuid_after : String → Option String
  uuid_after u = lookup u (create c name spec s).1.alcub_control.uuidname

  pub create_ok_index : (create c name spec s).0 ≡ ok tt → uuid_after spec.uuid ≡ some name
  unfolding create
  create_ok_index h = ground (arith, reverse_uuid_ok spec.uuid name s.alcub_control)

  create_ne_index : (u : String) → spec.uuid ≢ u → uuid_after u ≡ lookup u s.alcub_control.uuidname
  unfolding create release_uuid
  create_ne_index u h = ground (
    arith,
    reverse_uuid_ne spec.uuid name u s.alcub_control h,
    lookup-erase_ne spec.uuid u (reverse_uuid spec.uuid name s.alcub_control).1.uuidname h,
  )

  create_err_index :
      {e : GoError}
      → (create c name spec s).0 ≡ err e
      → ((create c name spec s).1 ≡ s) ⊎ (uuid_after spec.uuid ≡ none)
  unfolding create release_uuid
  create_err_index h = elim (Result-cases (reverse_uuid spec.uuid name s.alcub_control).0) [
    | inl (a, e) ↦ ground (
      arith,
      lookup-erase_self spec.uuid (reverse_uuid spec.uuid name s.alcub_control).1.uuidname,
    )
    | inr (x, e) ↦ ground (arith, reverse_uuid_err spec.uuid name s.alcub_control e)
  ]

  -- `Create` keeps the index in step with the server. After a success the uuid stands for the name.
  -- After an error either nothing at all has changed (the uuid stands for another name), or the
  -- uuid stands for no name. The entries of all other uuids are what they were.
  pub create_index :
      ((create c name spec s).0 ≡ ok tt → uuid_after spec.uuid ≡ some name)
      × ((e : GoError)
          → (create c name spec s).0 ≡ err e
          → ((create c name spec s).1 ≡ s) ⊎ (uuid_after spec.uuid ≡ none))
      × ((u : String) → spec.uuid ≢ u → uuid_after u ≡ lookup u s.alcub_control.uuidname)
  create_index = (create_ok_index, λ e. create_err_index {e = e}, create_ne_index)

  -- A volume that `Create` has registered is found by its uuid: the lookup by uuid does what the
  -- lookup by name does. Neither may be the empty text.
  pub get_by_uuid-create :
      spec.uuid ≢ ""
      → name ≢ ""
      → (create c name spec s).0 ≡ ok tt
      → let t = (create c name spec s).1 in get_by_uuid c spec.uuid t ≡ get_by_name c name t
  unfolding get_by_uuid get_name_by_uuid
  get_by_uuid-create hu hn h =
      ground (arith, create_ok_index h, eq_iff spec.uuid "", eq_iff name "")

module _ {W : Type 0} (c : AlcubClient W) where
  -- `Delete` leaves the index alone: the uuid of a deleted volume keeps its name.
  pub delete_keeps_index :
      (name : String) (s : Process W) → (delete c name s).1.alcub_control ≡ s.alcub_control
  unfolding delete
  delete_keeps_index name s = ground arith

  get_by_name_keeps_index :
      (name : String) (s : Process W) → (get_by_name c name s).1.alcub_control ≡ s.alcub_control
  unfolding get_by_name
  get_by_name_keeps_index name s = ground arith

  -- A lookup by uuid changes no state of the process but the world.
  pub get_by_uuid_keeps_index :
      (uuid : String) (s : Process W) → (get_by_uuid c uuid s).1.alcub_control ≡ s.alcub_control
  unfolding get_by_uuid
  get_by_uuid_keeps_index uuid s =
      ground (arith, get_by_name_keeps_index (get_name_by_uuid uuid s.alcub_control) s)
