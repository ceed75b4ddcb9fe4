-- ===== src/Control/Volumes.antt =====
-- pkg/controlrpc/rpc.go, and `createVolume` and `deleteVolume` of controller.go.
use csi_alcub.Base.{
  String, ◌<>◌, Bool, false, ◌||◌, not, Option, none, some, List, [], ◌∷◌, ◌==◌, is_nil, is_empty,
  if◌then◌else◌,
}
use csi_alcub.Base.Dict.{Dict, lookup}
use csi_alcub.Base.Int.{ℤ, ltb_ℤ}
use csi_alcub.Base.Exec.{
  GoError, errorf, ok, err, Go, pure, fail, lift, try, wrap, fail_if, ◌>>=◌, ◌>>◌,
}
use csi_alcub.Process.{Process}
use csi_alcub.Api.{CsiAlcub, CsiAlcubSpec}
use csi_alcub.Manager
use csi_alcub.Rbd.Image
use csi_alcub.Cluster.{labled_nodes}
use csi_alcub.Rpc.{
  invalid_argument, already_exists, unavailable, internal, status, Handler, VolumeCapability,
  Topology, TopologyRequirement, CreateVolumeRequest, VolumeInfo,
}
use csi_alcub.Control.{Controller, sc_param}

-- The loop over the capabilities: whether one asks for a mount.
unfoldable pub asks_for_mount : List VolumeCapability → Bool
asks_for_mount [] = false
asks_for_mount (ca ∷ caps) = not (is_nil ca.mount) || asks_for_mount caps

-- The topologies of the response: the requisite ones, or the preferred ones.
unfoldable pub topologies_of : Option TopologyRequirement → Option (List Topology)
topologies_of none = none
topologies_of (some req) = elim req.requisite [ some ts ↦ some ts | none ↦ req.preferred ]

-- The check of the arguments in `CreateVolume`.
unfoldable pub check_create : {S : Type 0} → CreateVolumeRequest → Handler S (Unit {0})
unfolding asks_for_mount
check_create req = do
  fail_if (req.name == "") (status invalid_argument "Name missing in request")
  caps ← elim req.capabilities [
    | none ↦ fail (status invalid_argument "Volume Capabilities missing in request")
    | some caps ↦ pure caps
  ]
  fail_if (not (asks_for_mount caps))
      (status invalid_argument "cannot support non mount access type")
  fail_if req.has_source (status invalid_argument "not support create volume from source")

-- The response for a volume that is already there.
unfoldable pub existing_volume :
    {S : Type 0} → CreateVolumeRequest → CsiAlcub → Handler S VolumeInfo
existing_volume req alcub =
    if ltb_ℤ alcub.spec.capacity req.required_bytes
    then fail (
        status already_exists
          ("Volume with the same name: " <> req.name <> " but with different size already exist"))
    else pure (record {
      volume_id = alcub.spec.uuid;
      capacity_bytes = alcub.spec.capacity;
      volume_context = req.parameters;
      accessible_topology = none;
    })

module _ {W : Type 0} (c : Controller W) where
  -- The end of `createVolume`, with the image there: it creates the resource, and its deferred call
  -- deletes the image if that fails.
  unfoldable pub create_resource : String → String → CsiAlcubSpec → Go (Process W) CsiAlcubSpec
  create_resource scname name spec = do
    r ← try (Manager.create c.alcub_control name spec)
    elim r [
      | ok _ ↦ pure spec
      | err e ↦ do try (Image.delete_image c.rbd_host c.rbd scname name); lift (err e)
    ]

  -- `Controller.createVolume`
  unfoldable pub create_volume_of :
      Option (Dict String) → String → String → ℤ → Go (Process W) CsiAlcubSpec
  unfolding create_resource
  create_volume_of none name uuid bytesize = fail (errorf "params is nil")
  create_volume_of (some params) name uuid bytesize = elim (lookup sc_param params) [
    | none ↦ fail (errorf ("not found " <> sc_param <> " in params"))
    | some v ↦ do
      volume ← Image.create_image c.rbd_host c.rbd v name bytesize
      create_resource v name (record {
        uuid = uuid;
        capacity = bytesize;
        rbd_sc = v;
        pool = volume.pool;
        image = volume.image;
      })
  ]

  -- `Controller.deleteVolume`
  unfoldable pub delete_volume_of : CsiAlcub → Go (Process W) (Unit {0})
  delete_volume_of alcub = do
    Image.delete_image c.rbd_host c.rbd alcub.spec.rbd_sc alcub.spec.image
    Manager.delete c.alcub_control alcub.meta.name

  -- The end of `CreateVolume`, with the new volume's id.
  unfoldable pub create_with_id : CreateVolumeRequest → String → Handler (Process W) VolumeInfo
  unfolding topologies_of
  create_with_id req volume_id = do
    wrap
        (λ (e : GoError).
          status internal ("failed to create volume " <> volume_id <> ", " <> e.message))
        (create_volume_of req.parameters req.name volume_id req.required_bytes)
    pure (record {
      volume_id = volume_id;
      capacity_bytes = req.required_bytes;
      volume_context = req.parameters;
      accessible_topology = topologies_of req.accessibility;
    })

  -- `CreateVolume` for a name that is new.
  unfoldable pub create_new : CreateVolumeRequest → Handler (Process W) VolumeInfo
  create_new req s =
      let (nodes, w) = labled_nodes c.node_client c.node s.world in
      let (volume_id, w') = c.new_uuid w in
      if is_empty nodes
      then (
        err (status unavailable "There are not any node can attach volume"),
        record s { world = w },
      )
      else create_with_id req volume_id (record s { world = w' })

  -- `Controller.CreateVolume`
  unfoldable pub create_volume : CreateVolumeRequest → Handler (Process W) VolumeInfo
  unfolding existing_volume
  create_volume req = do
    check_create req
    λ s.
        let (found, t) = Manager.get_by_name c.alcub_control req.name s in
        elim found [ some alcub ↦ existing_volume req alcub t | none ↦ create_new req t ]

  -- `Controller.DeleteVolume`
  unfoldable pub delete_volume : String → Handler (Process W) (Unit {0})
  delete_volume volid s =
      let (found, t) = Manager.get_by_uuid c.alcub_control volid s in
      elim found [
        | none ↦ (ok tt, t)
        | some alcub ↦
            wrap
              (λ (e : GoError).
                status internal ("failed to delete volume " <> volid <> ": " <> e.message))
              (delete_volume_of alcub) t
      ]
