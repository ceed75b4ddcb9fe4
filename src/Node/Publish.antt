-- ===== src/Node/Publish.antt =====
-- pkg/noderpc/rpc.go: the handlers of the node service.
use csi_alcub.Base.{
  ℕ, String, ◌<>◌, Bool, true, false, not, none, some, List, [], ◌∷◌, ◌==◌, if◌then◌else◌,
}
use csi_alcub.Base.Exec.{
  not_exist, GoError, Result, ok, err, Go, pure, fail, lift, try, wrap, fail_if, ◌>>=◌, ◌>>◌,
}
use csi_alcub.Process.{Process, on_world}
use csi_alcub.Api.{CsiAlcub}
use csi_alcub.Manager
use csi_alcub.Rpc.{
  Code, unimplemented, invalid_argument, internal, status, raw, Handler, MountVolume,
  NodePublishVolumeRequest, NodeUnpublishVolumeRequest, NodeStageVolumeRequest,
  NodeUnstageVolumeRequest, Topology,
}
use csi_alcub.Node.{
  Node, pre_mount_valid, mount_succeeded, mount_failed, pre_unmount_valid, unmount_succeeded,
}

-- `os.IsNotExist`
abbrev pub is_not_exist : GoError → Bool
is_not_exist e = elim e.kind [ not_exist ↦ true | _ ↦ false ]

-- `defaultPerm`
abbrev pub default_perm : ℕ
default_perm = 0o750

-- The check of the arguments in `NodePublishVolume`: the part of the capability for a mount.
unfoldable pub check_publish : {S : Type 0} → NodePublishVolumeRequest → Handler S MountVolume
check_publish req = elim req.capability [
  | none ↦ fail (status invalid_argument "Volume capability missing in request")
  | some cap ↦ do
    fail_if (req.volume_id == "") (status invalid_argument "Volume ID missing in request")
    fail_if (req.target_path == "") (status invalid_argument "Target path missing in request")
    elim cap.mount [
      | none ↦ fail (status invalid_argument "only support mount access type")
      | some m ↦ pure m
    ]
]

-- The check of the arguments in `NodeUnpublishVolume`.
unfoldable pub check_unpublish : {S : Type 0} → NodeUnpublishVolumeRequest → Handler S (Unit {0})
check_unpublish req = do
  fail_if (req.volume_id == "") (status invalid_argument "Volume ID missing in request")
  fail_if (req.target_path == "") (status invalid_argument "Target path missing in request")

-- `Node.NodeStageVolume`
unfoldable pub node_stage_volume : {S : Type 0} → NodeStageVolumeRequest → Handler S (Unit {0})
node_stage_volume req = do
  fail_if (req.volume_id == "") (status invalid_argument "Volume ID missing in request")
  fail_if (req.staging_target_path == "") (status invalid_argument "Target path missing in request")
  fail_if (not req.has_capability) (status invalid_argument "Volume Capability missing in request")

-- `Node.NodeUnstageVolume`
unfoldable pub node_unstage_volume : {S : Type 0} → NodeUnstageVolumeRequest → Handler S (Unit {0})
node_unstage_volume req = do
  fail_if (req.volume_id == "") (status invalid_argument "Volume ID missing in request")
  fail_if (req.staging_target_path == "") (status invalid_argument "Target path missing in request")

-- `csi.NodeServiceCapability_RPC_Type`; `unknown` is the zero value.
pub data NodeRpcType : Type 0 where
  unknown stage_unstage_volume get_volume_stats expand_volume : NodeRpcType

-- `Node.NodeGetCapabilities`: one capability, whose type is left at its zero value.
unfoldable pub node_get_capabilities : List NodeRpcType
node_get_capabilities = NodeRpcType.unknown ∷ []

-- `Node.NodeGetVolumeStats`
unfoldable pub node_get_volume_stats : {S A : Type 0} → Handler S A
node_get_volume_stats = fail (status unimplemented "")

-- `Node.NodeExpandVolume`
unfoldable pub node_expand_volume : {S A : Type 0} → Handler S A
node_expand_volume = fail (status unimplemented "Not impl")

module _ {W : Type 0} (c : Node W) where
  -- Whether `NodePublishVolume` has to mount: the target is no mount point yet. A target that does
  -- not exist is created.
  unfoldable pub needs_mount : String → Go W Bool
  needs_mount target = do
    r ← try (c.mounter.is_likely_not_mount_point target)
    elim r [
      | ok not_mnt ↦ pure not_mnt
      | err e ↦
          if is_not_exist e then (c.mounter.mkdir_all target default_perm >> pure true) else fail e
    ]

  -- `NodePublishVolume` between `preMountValid` and its return; the error is `reterr`.
  unfoldable pub mount_device : NodePublishVolumeRequest → MountVolume → String → Go W (Unit {0})
  unfolding needs_mount
  mount_device req m devpath = do
    not_mnt ← needs_mount req.target_path
    if not not_mnt
        then pure tt
        else c.mounter.format_and_mount devpath req.target_path m.fs_type
            (if req.readonly then "ro" ∷ [] else [])

  -- The deferred function of `NodePublishVolume`. The error that it returns is the plain one.
  unfoldable pub finish_publish :
      CsiAlcub → String × List String → Result GoError (Unit {0}) → Handler (Process W) (Unit {0})
  finish_publish alcub (dev, nodes) (err e) s = (err (raw e), mount_failed c alcub s)
  finish_publish alcub (dev, nodes) (ok _) s = wrap raw (mount_succeeded c alcub dev nodes) s

  -- `NodePublishVolume`, once the resource is found.
  unfoldable pub publish_alcub :
      NodePublishVolumeRequest → MountVolume → CsiAlcub → Handler (Process W) (Unit {0})
  unfolding mount_device finish_publish
  publish_alcub req m alcub = do
    prepared ← wrap (λ (e : GoError). status internal e.message) (pre_mount_valid c alcub)
    r ← try (on_world (mount_device req m prepared.0))
    finish_publish alcub prepared r

  -- `Node.NodePublishVolume`
  unfoldable pub node_publish_volume : NodePublishVolumeRequest → Handler (Process W) (Unit {0})
  node_publish_volume req = do
    m ← check_publish req
    λ s.
        let (found, t) = Manager.get_by_uuid c.alcub_control req.volume_id s in
        elim found [
          | none ↦ (err (status Code.not_found ("not found resource by uuid " <> req.volume_id)), t)
          | some alcub ↦ publish_alcub req m alcub t
        ]

  -- `NodeUnpublishVolume` between `preUnmountValid` and its return.
  unfoldable pub unmount_device : String → Go W (Unit {0})
  unmount_device target w =
      let (r, w') = c.mounter.is_not_mount_point target w in
      let clean = c.mounter.remove_all target in
      let rest =
        if not r.0
        then (c.mounter.unmount target >> c.mounter.remove_all target) w'
        else clean w' in
      elim r.1 [ some e ↦ if not (is_not_exist e) then (err e, w') else rest | none ↦ rest ]

  -- `NodeUnpublishVolume`, once the resource is found. `preUnmountValid` gives no failure function.
  unfoldable pub unpublish_alcub : String → CsiAlcub → Handler (Process W) (Unit {0})
  unfolding unmount_device
  unpublish_alcub target alcub = do
    wrap (λ (e : GoError). status internal e.message) (lift (pre_unmount_valid c alcub))
    wrap raw (on_world (unmount_device target))
    wrap raw (unmount_succeeded c alcub)

  -- `Node.NodeUnpublishVolume`
  unfoldable pub node_unpublish_volume : NodeUnpublishVolumeRequest → Handler (Process W) (Unit {0})
  node_unpublish_volume req = do
    check_unpublish req
    λ s.
        let (found, t) = Manager.get_by_uuid c.alcub_control req.volume_id s in
        elim found [
          | none ↦ (err (status Code.not_found ("not found resource by uuid " <> req.volume_id)), t)
          | some alcub ↦ unpublish_alcub req.target_path alcub t
        ]

  -- `Node.NodeGetInfo`: the node's id and its topology.
  unfoldable pub node_get_info : String × Topology
  node_get_info = (c.node_id, ("topology.alcub.csi/node", c.node_id) ∷ [])
