-- ===== src/Node/Records.antt =====
-- What the API server holds after a handler of the node service has succeeded.
use csi_alcub.Base.{
  String, true, false, ◌≡◌, refl, ◌≢◌, inl, inr, Option, none, some, List, arith, eq_iff,
}
use csi_alcub.Base.Exec.{GoError, ok, Result-cases}
use csi_alcub.Process.{Process}
use csi_alcub.Api.{CsiAlcub}
use csi_alcub.Manager.{get_by_uuid, update}
use csi_alcub.Store.{null}
use csi_alcub.Manager.Server.{IsServer, update_stores}
use csi_alcub.Rpc.{NodePublishVolumeRequest, NodeUnpublishVolumeRequest}
use csi_alcub.Node.{
  Node, detach_device, mounted_status, unmounted_status, pre_unmount_valid, mount_succeeded,
  unmount_succeeded,
}
use csi_alcub.Node.Publish.{
  is_not_exist, publish_alcub, node_publish_volume, unmount_device, unpublish_alcub,
  node_unpublish_volume,
}
use csi_alcub.Node.Laws.{
  connecting, publish_alcub_ok, node_publish_volume_ok, node_unpublish_volume_ok,
}

-- What the mount library has answered, from `w`, to an unmounting of `target` that has succeeded: a
-- target that it takes for a mount point was unmounted without an error, and then removed; another one
-- was only removed; and if it could not tell, then because the target does not exist.
abbrev pub IsUnmounted : {W : Type 0} → Node W → String → W → Type 0
IsUnmounted c target w =
    let ((not_mnt, failed), w') = c.mounter.is_not_mount_point target w in
    ((e : GoError) → failed ≡ some e → is_not_exist e ≡ true)
    × (not_mnt ≡ false
        → ((c.mounter.unmount target w').0 ≡ ok tt)
          × ((c.mounter.remove_all target (c.mounter.unmount target w').1).0 ≡ ok tt))
    × (not_mnt ≡ true → (c.mounter.remove_all target w').0 ≡ ok tt)

module _ {W : Type 0} (c : Node W) (stored : W → String → Option CsiAlcub)
    (srv : IsServer c.alcub_control stored) where
  mount_succeeded_stores :
      (alcub : CsiAlcub) (dev : String) (nodes : List String) (s t : Process W)
      → mount_succeeded c alcub dev nodes s ≡ (ok tt, t)
      → (new : CsiAlcub) × (stored t.world alcub.meta.name ≡ some new)
        × (new.status ≡ mounted_status c dev nodes alcub.status)
  unfolding mount_succeeded
  mount_succeeded_stores alcub dev nodes s t e =
      let stat = mounted_status c dev nodes alcub.status in
      let done : (update c.alcub_control alcub.meta.name none (some stat) s).0 ≡ ok tt =
        ground arith in
      let (old, new, was, now, spec, same, others) =
        update_stores c.alcub_control stored srv alcub.meta.name stat s done in
      (new, ground arith, same)

  -- After `NodePublishVolume` has succeeded, the API server holds, under the name of the volume
  -- that the request's uuid stands for, a resource that names this node, the address of its
  -- storage interface and the path of the device, which is not empty and is the one that the storage
  -- server has answered when it was asked to connect the image of the resource that was found.
  pub node_publish_volume_records :
      (req : NodePublishVolumeRequest) (s : Process W)
      → (node_publish_volume c req s).0 ≡ ok tt
      → (alcub : CsiAlcub) × (new : CsiAlcub) × ((get_by_uuid c.alcub_control req.volume_id s).0
          ≡ some alcub)
        × (stored (node_publish_volume c req s).1.world alcub.meta.name ≡ some new)
        × (new.status.node ≡ c.nodename)
        × (new.status.volume_info.storage_ip ≡ c.storeip)
        × (new.status.volume_info.devpath ≢ "")
        × (let t = (get_by_uuid c.alcub_control req.volume_id s).1 in
            (c.store.do_conn null alcub.spec.pool alcub.spec.image (connecting c alcub t)).0
            ≡ ok new.status.volume_info.devpath)
  unfolding mounted_status
  node_publish_volume_records req s e =
      let (alcub, m, found, went) = node_publish_volume_ok c s req e in
      let t = (get_by_uuid c.alcub_control req.volume_id s).1 in
      let p = publish_alcub_ok c alcub req m t (ground arith) in
      let (new, now, same) =
        mount_succeeded_stores alcub p.dev p.nodes (record p.prepared { world = p.mounted })
          (publish_alcub c req m alcub t).1 p.saves in
      (
        alcub,
        new,
        found,
        rw went now,
        rw same refl,
        rw same refl,
        rw same p.has_dev,
        rw same p.connects,
      )

  unmount_succeeded_stores :
      (alcub : CsiAlcub) (s : Process W)
      → (unmount_succeeded c alcub s).0 ≡ ok tt
      → ((detach_device c alcub s).0 ≡ ok tt)
        × ((new : CsiAlcub) × (stored (unmount_succeeded c alcub s).1.world alcub.meta.name
              ≡ some new)
            × (new.status ≡ unmounted_status c alcub.status))
  unfolding unmount_succeeded
  unmount_succeeded_stores alcub s e = elim (Result-cases (detach_device c alcub s).0) [
    | inr (x, bad) ↦ absurd (ground arith)
    | inl (_, good) ↦
        let stat = unmounted_status c alcub.status in
        let t = (detach_device c alcub s).1 in
        let done : (update c.alcub_control alcub.meta.name none (some stat) t).0 ≡ ok tt =
          ground arith in
        let (old, new, was, now, spec, same, others) =
          update_stores c.alcub_control stored srv alcub.meta.name stat t done in
        (good, (new, ground (arith, now), same))
  ]

  unmount_device_ok :
      (target : String) (w : W) → (unmount_device c target w).0 ≡ ok tt → IsUnmounted c target w
  unfolding unmount_device
  unmount_device_ok target w e = ground arith

  -- What an unpublication that has succeeded at `alcub`, from `s`, has done.
  pub record Unpublished (target : String) (alcub : CsiAlcub) (s : Process W) : Type 0 where
    pub mine : alcub.status.node ≡ c.nodename
    pub unmounted : IsUnmounted c target s.world
    pub detached :
        (c.store.do_dis_conn null alcub.spec.pool alcub.spec.image
          (record s { world = (unmount_device c target s.world).1 })).0
        ≡ ok tt
    pub new : CsiAlcub
    pub now : stored (unpublish_alcub c target alcub s).1.world alcub.meta.name ≡ some new
    pub cleared : new.status ≡ record alcub.status { node = "" }

  unpublish_alcub_ok :
      (target : String) (alcub : CsiAlcub) (s : Process W)
      → (unpublish_alcub c target alcub s).0 ≡ ok tt
      → Unpublished target alcub s
  unfolding unpublish_alcub pre_unmount_valid unmounted_status detach_device
  unpublish_alcub_ok target alcub s e = elim (Result-cases (unmount_device c target s.world).0) [
    | inr (x, bad) ↦ absurd (ground arith)
    | inl (_, good) ↦
        let t : Process W = record s { world = (unmount_device c target s.world).1 } in
        let (detached, saved) = unmount_succeeded_stores alcub t (ground arith) in
        record {
          mine = ground (arith, eq_iff alcub.status.node c.nodename);
          unmounted = unmount_device_ok target s.world good;
          detached = ground arith;
          new = saved.0;
          now = ground (arith, saved.1);
          cleared = saved.2;
        }
  ]

  -- After `NodeUnpublishVolume` has succeeded, the resource that was found named this node; a target
  -- that the mount library took for a mount point was unmounted without an error and then removed, and
  -- another one was removed only; the storage server has then disconnected the image of that resource;
  -- and the API server holds the status that was read, with the node cleared.
  pub node_unpublish_volume_records :
      (req : NodeUnpublishVolumeRequest) (s : Process W)
      → (node_unpublish_volume c req s).0 ≡ ok tt
      → let (found, t) = get_by_uuid c.alcub_control req.volume_id s in
        (alcub : CsiAlcub) × (found ≡ some alcub) × Unpublished req.target_path alcub t
  node_unpublish_volume_records req s e =
      let (alcub, found, went) = node_unpublish_volume_ok c s req e in
      let t = (get_by_uuid c.alcub_control req.volume_id s).1 in
      (alcub, found, unpublish_alcub_ok req.target_path alcub t (ground arith))
