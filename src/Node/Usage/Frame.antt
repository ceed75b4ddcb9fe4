-- ===== src/Node/Usage/Frame.antt =====
-- A handler of the node service changes no resource but the one of its volume.
use csi_alcub.Base.{
  String, Option, none, some, List, [], ◌∷◌, ◌≡◌, ◌≢◌, ◌∙◌, sym, inl, inr, arith, Option-cases,
  if◌then◌else◌,
}
use csi_alcub.Base.Exec.{Result-cases}
use csi_alcub.Process.{Process}
use csi_alcub.Api.{CsiAlcub, CsiAlcubStatus, deep_copy_status}
use csi_alcub.Manager.{AlcubClient, update, get_by_uuid, get_name_by_uuid}
use csi_alcub.Manager.Server.{IsServer, get_by_uuid_found, get_by_uuid_keeps}
use csi_alcub.Store.{null}
use csi_alcub.Rpc.{MountVolume, NodePublishVolumeRequest, NodeUnpublishVolumeRequest}
use csi_alcub.Node.{
  Node, detach_device, attach_device, pre_mount_valid, mounted_status, unmounted_status,
  mount_succeeded, mount_failed, unmount_succeeded,
}
use csi_alcub.Node.Publish.{
  check_publish, check_unpublish, default_perm, needs_mount, mount_device, finish_publish,
  publish_alcub, node_publish_volume, unmount_device, unpublish_alcub, node_unpublish_volume,
}
use csi_alcub.Node.Usage.{IsApart}

update_others :
    {W : Type 0} (c : AlcubClient W) (stored : W → String → Option CsiAlcub)
    (srv : IsServer c stored) (name : String) (stat : CsiAlcubStatus) (s : Process W) (n : String)
    → name ≢ n
    → stored (update c name none (some stat) s).1.world n ≡ stored s.world n
unfolding update
update_others c stored srv name stat s n ne = elim (Result-cases (c.get name s.world).0) [
  | inr (x, failed) ↦ ground (arith, srv.get_keeps name s.world n)
  | inl (obj, read) ↦
      let named = srv.get_named name s.world obj read in
      let differs : obj.meta.name ≢ n = λ q. ne (sym named ∙ q) in
      ground (
        arith,
        srv.update_ne (record obj { status = deep_copy_status stat }) (c.get name s.world).1 n
            differs,
        srv.get_keeps name s.world n,
      )
]

module _ {W : Type 0} (c : Node W) (stored : W → String → Option CsiAlcub)
    (srv : IsServer c.alcub_control stored) (apart : IsApart stored c) (n : String) where
  attach_device_keeps :
      (alcub : CsiAlcub) (s : Process W)
      → stored (attach_device c alcub s).1.world n ≡ stored s.world n
  unfolding attach_device
  attach_device_keeps alcub s =
      ground (arith, apart.conn_keeps null alcub.spec.pool alcub.spec.image s n)

  detach_device_keeps :
      (alcub : CsiAlcub) (s : Process W)
      → stored (detach_device c alcub s).1.world n ≡ stored s.world n
  unfolding detach_device
  detach_device_keeps alcub s =
      ground (arith, apart.dis_conn_keeps null alcub.spec.pool alcub.spec.image s n)

  pre_mount_valid_keeps :
      (alcub : CsiAlcub) (s : Process W)
      → stored (pre_mount_valid c alcub s).1.world n ≡ stored s.world n
  unfolding pre_mount_valid
  pre_mount_valid_keeps alcub s =
      let t = (c.store.get_image_status null alcub.spec.pool alcub.spec.image s).1 in
      let u = (c.store.get_node null c.nodename t).1 in
      ground (
        arith,
        apart.status_keeps null alcub.spec.pool alcub.spec.image s n,
        apart.get_node_keeps null c.nodename t n,
        attach_device_keeps alcub u,
      )

  needs_mount_keeps : (target : String) (w : W) → stored (needs_mount c target w).1 n ≡ stored w n
  unfolding needs_mount
  needs_mount_keeps target w =
      let t = (c.mounter.is_likely_not_mount_point target w).1 in
      ground (arith, apart.likely_keeps target w n, apart.mkdir_keeps target default_perm t n)

  mount_device_keeps :
      (req : NodePublishVolumeRequest) (m : MountVolume) (devpath : String) (w : W)
      → stored (mount_device c req m devpath w).1 n ≡ stored w n
  unfolding mount_device
  mount_device_keeps req m devpath w =
      let target : String = req.target_path in
      let options : List String = if req.readonly then "ro" ∷ [] else [] in
      let t = (needs_mount c target w).1 in
      ground
        (arith, needs_mount_keeps target w, apart.mount_keeps devpath target m.fs_type options t n)

  unmount_device_keeps :
      (target : String) (w : W) → stored (unmount_device c target w).1 n ≡ stored w n
  unfolding unmount_device
  unmount_device_keeps target w =
      let w' = (c.mounter.is_not_mount_point target w).1 in
      let w'' = (c.mounter.unmount target w').1 in
      ground (
        arith,
        apart.is_mount_keeps target w n,
        apart.unmount_keeps target w' n,
        apart.remove_keeps target w' n,
        apart.remove_keeps target w'' n,
      )

  mount_succeeded_others :
      (alcub : CsiAlcub) (dev : String) (nodes : List String) (s : Process W)
      → alcub.meta.name ≢ n
      → stored (mount_succeeded c alcub dev nodes s).1.world n ≡ stored s.world n
  unfolding mount_succeeded
  mount_succeeded_others alcub dev nodes s ne =
      let stat = mounted_status c dev nodes alcub.status in
      update_others c.alcub_control stored srv alcub.meta.name stat s n ne

  publish_alcub_others :
      (req : NodePublishVolumeRequest) (m : MountVolume) (alcub : CsiAlcub) (s : Process W)
      → alcub.meta.name ≢ n
      → stored (publish_alcub c req m alcub s).1.world n ≡ stored s.world n
  unfolding publish_alcub finish_publish mount_failed
  publish_alcub_others req m alcub s ne =
      let t = (pre_mount_valid c alcub s).1 in
      let prepared = pre_mount_valid_keeps alcub s in
      elim (Result-cases (pre_mount_valid c alcub s).0) [
        | inr (x, bad) ↦ ground (arith, prepared)
        | inl ((dev, nodes), good) ↦
            let u : Process W = record t { world = (mount_device c req m dev t.world).1 } in
            ground (
              arith,
              prepared,
              mount_device_keeps req m dev t.world,
              detach_device_keeps alcub u,
              mount_succeeded_others alcub dev nodes u ne,
            )
      ]

  unpublish_alcub_others :
      (target : String) (alcub : CsiAlcub) (s : Process W)
      → alcub.meta.name ≢ n
      → stored (unpublish_alcub c target alcub s).1.world n ≡ stored s.world n
  unfolding unpublish_alcub unmount_succeeded
  unpublish_alcub_others target alcub s ne =
      let t : Process W = record s { world = (unmount_device c target s.world).1 } in
      let u = (detach_device c alcub t).1 in
      let stat = unmounted_status c alcub.status in
      ground (
        arith,
        unmount_device_keeps target s.world,
        detach_device_keeps alcub t,
        update_others c.alcub_control stored srv alcub.meta.name stat u n ne,
      )

  pub node_publish_volume_others :
      (req : NodePublishVolumeRequest) (s : Process W)
      → get_name_by_uuid req.volume_id s.alcub_control ≢ n
      → stored (node_publish_volume c req s).1.world n ≡ stored s.world n
  unfolding node_publish_volume check_publish
  node_publish_volume_others req s ne =
      let t = (get_by_uuid c.alcub_control req.volume_id s).1 in
      let read = get_by_uuid_keeps c.alcub_control stored srv req.volume_id n s in
      elim (Result-cases (check_publish req s).0) [
        | inr (x, bad) ↦ ground arith
        | inl (m, good) ↦ elim (Option-cases (get_by_uuid c.alcub_control req.volume_id s).0) [
          | inl missing ↦ ground (arith, read)
          | inr (alcub, found) ↦
              let (named, _) =
                get_by_uuid_found c.alcub_control stored srv req.volume_id s alcub found in
              let differs : alcub.meta.name ≢ n = ground (arith, named) in
              ground (arith, read, publish_alcub_others req m alcub t differs)
        ]
      ]

  pub node_unpublish_volume_others :
      (req : NodeUnpublishVolumeRequest) (s : Process W)
      → get_name_by_uuid req.volume_id s.alcub_control ≢ n
      → stored (node_unpublish_volume c req s).1.world n ≡ stored s.world n
  unfolding node_unpublish_volume check_unpublish
  node_unpublish_volume_others req s ne =
      let t = (get_by_uuid c.alcub_control req.volume_id s).1 in
      let read = get_by_uuid_keeps c.alcub_control stored srv req.volume_id n s in
      elim (Option-cases (get_by_uuid c.alcub_control req.volume_id s).0) [
        | inl missing ↦ ground (arith, read)
        | inr (alcub, found) ↦
            let (named, _) =
              get_by_uuid_found c.alcub_control stored srv req.volume_id s alcub found in
            let differs : alcub.meta.name ≢ n = ground (arith, named) in
            ground (arith, read, unpublish_alcub_others req.target_path alcub t differs)
      ]
