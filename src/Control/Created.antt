-- ===== src/Control/Created.antt =====
-- What is there after `CreateVolume` has succeeded.
use csi_alcub.Base.{
  String, ◌≡◌, refl, ◌⊎◌, inl, inr, false, none, some, Option, arith, Option-cases,
}
use csi_alcub.Base.Dict.{Dict, lookup}
use csi_alcub.Base.Int.{ℤ, ltb_ℤ}
use csi_alcub.Base.Exec.{ok, Result-cases}
use csi_alcub.Process.{Process}
use csi_alcub.Api.{CsiAlcub, CsiAlcubSpec}
use csi_alcub.Manager
use csi_alcub.Manager.{get_by_name, new_object}
use csi_alcub.Manager.Server.{IsServer, create_stores, get_by_name_found}
use csi_alcub.Rbd.Image
use csi_alcub.Rpc.{CreateVolumeRequest, VolumeInfo}
use csi_alcub.Cluster.{labled_nodes}
use csi_alcub.Control.{Controller, sc_param}
use csi_alcub.Control.Volumes.{
  check_create, existing_volume, create_resource, create_volume_of, create_with_id, create_new,
  create_volume,
}

module _ {W : Type 0} (c : Controller W) where
  -- The call of `AlcubCon.Create` that a creation ends with.
  pub record Registered (name uuid : String) (bytesize : ℤ) (final : Process W) : Type 0 where
    pub spec : CsiAlcubSpec
    pub before : Process W
    pub has_uuid : spec.uuid ≡ uuid
    pub has_capacity : spec.capacity ≡ bytesize
    pub created : (Manager.create c.alcub_control name spec before).0 ≡ ok tt
    pub leaves : (Manager.create c.alcub_control name spec before).1 ≡ final

  create_resource_ok :
      (scname name : String) (spec sp : CsiAlcubSpec) (s : Process W)
      → (create_resource c scname name spec s).0 ≡ ok sp
      → Registered name spec.uuid spec.capacity (create_resource c scname name spec s).1
  unfolding create_resource
  create_resource_ok scname name spec sp s e =
      elim (Result-cases (Manager.create c.alcub_control name spec s).0) [
        | inr (x, bad) ↦
            absurd
              (ground (arith, Result-cases (Image.delete_image c.rbd_host c.rbd scname name s).0))
        | inl (_, good) ↦ record {
          spec = spec;
          before = s;
          has_uuid = refl;
          has_capacity = refl;
          created = good;
          leaves = ground arith;
        }
      ]

  pub create_volume_of_ok :
      (params : Option (Dict String)) (name uuid : String) (bytesize : ℤ) (sp : CsiAlcubSpec)
      (s : Process W)
      → (create_volume_of c params name uuid bytesize s).0 ≡ ok sp
      → Registered name uuid bytesize (create_volume_of c params name uuid bytesize s).1
  unfolding create_volume_of
  create_volume_of_ok none name uuid bytesize sp s e = absurd (ground arith)
  create_volume_of_ok (some params) name uuid bytesize sp s e =
      elim (Option-cases (lookup sc_param params)) [
        | inl missing ↦ absurd (ground arith)
        | inr (v, given) ↦
            elim (Result-cases (Image.create_image c.rbd_host c.rbd v name bytesize s).0) [
              | inr (x, bad) ↦ absurd (ground arith)
              | inl (volume, made) ↦
                  let t : Process W = (Image.create_image c.rbd_host c.rbd v name bytesize s).1 in
                  let spec : CsiAlcubSpec = record {
                    uuid = uuid;
                    capacity = bytesize;
                    rbd_sc = v;
                    pool = volume.pool;
                    image = volume.image;
                  } in
                  let done : create_volume_of c (some params) name uuid bytesize s
                      ≡ create_resource c v name spec t =
                    ground arith in
                  rw done (create_resource_ok v name spec sp t (ground (arith, done, e)))
            ]
      ]

  pub check_create_keeps : (req : CreateVolumeRequest) (s : Process W) → (check_create req s).1 ≡ s
  unfolding check_create
  check_create_keeps req s = ground arith

  -- What `CreateVolume` promises of the resource of the volume `v`, from the state `s` to `final`: it
  -- is the one that the lookup of the name has shown, or else one that the API server has in the end.
  pub IsRecorded :
      (W → String → Option CsiAlcub)
      → CreateVolumeRequest
      → VolumeInfo
      → Process W
      → Process W
      → Type 0
  IsRecorded stored req v s final =
      let shown = (get_by_name c.alcub_control req.name s).0 in
      (obj : CsiAlcub) × ((shown ≡ some obj)
        ⊎ ((shown ≡ none) × (stored final.world req.name ≡ some obj)))
      × (obj.meta.name ≡ req.name)
      × (obj.spec.uuid ≡ v.volume_id)
      × (obj.spec.capacity ≡ v.capacity_bytes)
      × (ltb_ℤ v.capacity_bytes req.required_bytes ≡ false)

  module _ (stored : W → String → Option CsiAlcub) (srv : IsServer c.alcub_control stored) where
    Registered-stores :
        (name uuid : String) (bytesize : ℤ) (final : Process W)
        → Registered name uuid bytesize final
        → (obj : CsiAlcub) × (stored final.world name ≡ some obj)
          × (obj.meta.name ≡ name)
          × (obj.spec.uuid ≡ uuid)
          × (obj.spec.capacity ≡ bytesize)
    unfolding new_object
    Registered-stores name uuid bytesize final r =
        let (obj, now, same) =
          create_stores c.alcub_control stored srv name r.spec r.before r.created in
        (
          obj,
          ground (arith, now, r.leaves),
          same.same_name,
          ground (arith, same.same_spec, r.has_uuid),
          ground (arith, same.same_spec, r.has_capacity),
        )

    -- The record for a name that is new.
    create_with_id_records :
        (req : CreateVolumeRequest) (uuid : String) (v : VolumeInfo) (s t : Process W)
        → ltb_ℤ req.required_bytes req.required_bytes ≡ false
        → (get_by_name c.alcub_control req.name s).0 ≡ none
        → (create_with_id c req uuid t).0 ≡ ok v
        → IsRecorded stored req v s (create_with_id c req uuid t).1
    unfolding create_with_id IsRecorded
    create_with_id_records req uuid v s t irrefl new e =
        let size : ℤ = req.required_bytes in
        elim (Result-cases (create_volume_of c req.parameters req.name uuid size t).0) [
          | inr (x, bad) ↦ absurd (ground arith)
          | inl (sp, good) ↦
              let final : Process W = (create_volume_of c req.parameters req.name uuid size t).1 in
              let (obj, now, named, has_uuid, has_size) =
                Registered-stores req.name uuid size final
                  (create_volume_of_ok req.parameters req.name uuid size sp t good) in
              (
                obj,
                inr (new, ground (arith, now)),
                named,
                ground (arith, has_uuid),
                ground (arith, has_size),
                ground (arith, irrefl),
              )
        ]

    -- When `CreateVolume` succeeds, the volume of the response is that of a resource of the name of the
    -- request: its uuid and its capacity are those of the response, and the capacity is at least what
    -- was asked for. The resource is the one that the lookup of the name has shown, which may be older
    -- than what is stored; or the lookup has shown none, and the API server has the resource once the
    -- call is over.
    pub create_volume_records :
        (req : CreateVolumeRequest) (v : VolumeInfo) (s : Process W)
        → (create_volume c req s).0 ≡ ok v
        → IsRecorded stored req v s (create_volume c req s).1
    unfolding create_volume existing_volume create_new IsRecorded
    create_volume_records req v s e = elim (Result-cases (check_create req s).0) [
      | inr (x, bad) ↦ absurd (ground arith)
      | inl (_, checked) ↦
          let same : (check_create req s).1 ≡ s = check_create_keeps req s in
          let t : Process W = (get_by_name c.alcub_control req.name s).1 in
          elim (Option-cases (get_by_name c.alcub_control req.name s).0) [
            | inl absent ↦
                let w = (labled_nodes c.node_client c.node t.world).1 in
                let uuid : String = (c.new_uuid w).0 in
                let r : Process W = record t { world = (c.new_uuid w).1 } in
                let runs : create_volume c req s ≡ create_with_id c req uuid r = ground arith in
                let made =
                  create_with_id_records req uuid v s r (ground arith) absent
                    (ground (arith, runs)) in
                rw runs made
            | inr (obj, found) ↦ (
              obj,
              inl found,
              get_by_name_found c.alcub_control stored srv req.name s obj found,
              ground (arith, same),
              ground (arith, same),
              ground (arith, same),
            )
          ]
    ]
