-- ===== src/Node/Laws.antt =====
-- What the handlers of the node service do, on every path.
use csi_alcub.Base.{
  String, ◌<>◌, ◌≡◌, ◌≢◌, ◌⊎◌, inl, inr, Option, none, some, List, arith, eq_iff, Option-cases,
}
use csi_alcub.Base.Exec.{ok, err, Result-cases}
use csi_alcub.Process.{Process}
use csi_alcub.Api.{CsiAlcub}
use csi_alcub.Manager.{get_by_uuid}
use csi_alcub.Store.{null}
use csi_alcub.Rpc.{
  internal, status, Rejects, MountVolume, VolumeCapability, NodePublishVolumeRequest,
  NodeUnpublishVolumeRequest,
}
use csi_alcub.Node.{Node, attach_device, pre_mount_valid, pre_unmount_valid, mount_succeeded}
use csi_alcub.Node.Publish.{
  check_publish, check_unpublish, mount_device, finish_publish, publish_alcub, node_publish_volume,
  unpublish_alcub, node_unpublish_volume,
}

-- The part of a capability for a mount, if it has one.
abbrev pub mount_of : Option VolumeCapability → Option MountVolume
mount_of none = none
mount_of (some ca) = ca.mount

-- What `NodePublishVolume` demands of a request is not all there.
abbrev pub IsIncomplete : NodePublishVolumeRequest → Type 0
IsIncomplete req =
    (req.volume_id ≡ "") ⊎ ((req.target_path ≡ "") ⊎ (mount_of req.capability ≡ none))

module _ {W : Type 0} (c : Node W) (s : Process W) where
  -- `NodePublishVolume` refuses a request without a volume id, without a target path or without a
  -- mount capability by `InvalidArgument`, before it makes any call.
  pub node_publish_volume-Rejects :
      (req : NodePublishVolumeRequest) → IsIncomplete req → Rejects s (node_publish_volume c req s)
  unfolding node_publish_volume check_publish
  node_publish_volume-Rejects req h =
      ground (arith, eq_iff req.volume_id "", eq_iff req.target_path "")

  -- `NodeUnpublishVolume` refuses a request without a volume id or without a target path by
  -- `InvalidArgument`, before it makes any call.
  pub node_unpublish_volume-Rejects :
      (req : NodeUnpublishVolumeRequest)
      → (req.volume_id ≡ "") ⊎ (req.target_path ≡ "")
      → Rejects s (node_unpublish_volume c req s)
  unfolding node_unpublish_volume check_unpublish
  node_unpublish_volume-Rejects req h =
      ground (arith, eq_iff req.volume_id "", eq_iff req.target_path "")

module _ {W : Type 0} (c : Node W) (alcub : CsiAlcub) where
  -- The state in which `preMountValid` connects the device, from `s`.
  abbrev pub connecting : Process W → Process W
  connecting s =
      (c.store.get_node null c.nodename
        (c.store.get_image_status null alcub.spec.pool alcub.spec.image s).1).1

  pre_mount_valid_dev :
      (s : Process W) (dev : String) (nodes : List String)
      → (pre_mount_valid c alcub s).0 ≡ ok (dev, nodes)
      → (dev ≢ "")
        × ((c.store.do_conn null alcub.spec.pool alcub.spec.image (connecting s)).0 ≡ ok dev)
  unfolding pre_mount_valid attach_device
  pre_mount_valid_dev s dev nodes e = ground (arith, eq_iff dev "")

  -- The steps of a publication that succeeds, and the states between them.
  pub record Published (req : NodePublishVolumeRequest) (s t : Process W) : Type 0 where
    pub dev : String
    pub nodes : List String
    pub mount : MountVolume
    pub prepared : Process W
    pub mounted : W
    pub has_dev : dev ≢ ""
    pub connects : (c.store.do_conn null alcub.spec.pool alcub.spec.image (connecting s)).0 ≡ ok dev
    pub prepares : pre_mount_valid c alcub s ≡ (ok (dev, nodes), prepared)
    pub mounts : mount_device c req mount dev prepared.world ≡ (ok tt, mounted)
    pub saves : mount_succeeded c alcub dev nodes (record prepared { world = mounted }) ≡ (ok tt, t)

  pub publish_alcub_ok :
      (req : NodePublishVolumeRequest) (m : MountVolume) (s : Process W)
      → (publish_alcub c req m alcub s).0 ≡ ok tt
      → Published req s (publish_alcub c req m alcub s).1
  unfolding publish_alcub finish_publish
  publish_alcub_ok req m s e = elim (Result-cases (pre_mount_valid c alcub s).0) [
    | inr (x, bad) ↦ absurd (ground arith)
    | inl ((dev, nodes), good) ↦
        let t = (pre_mount_valid c alcub s).1 in
        elim (Result-cases (mount_device c req m dev t.world).0) [
          | inr (x, bad) ↦ absurd (ground arith)
          | inl (_, done) ↦ record {
            dev = dev;
            nodes = nodes;
            mount = m;
            prepared = t;
            mounted = (mount_device c req m dev t.world).1;
            has_dev = (pre_mount_valid_dev s dev nodes good).0;
            connects = (pre_mount_valid_dev s dev nodes good).1;
            prepares = ground arith;
            mounts = ground arith;
            saves = ground arith;
          }
        ]
  ]

module _ {W : Type 0} (c : Node W) (s : Process W) where
  -- A publication that succeeds has found the resource and has gone through `publish_alcub`.
  pub node_publish_volume_ok :
      (req : NodePublishVolumeRequest)
      → (node_publish_volume c req s).0 ≡ ok tt
      → let (found, t) = get_by_uuid c.alcub_control req.volume_id s in
        (alcub : CsiAlcub) × (m : MountVolume) × (found ≡ some alcub)
        × (node_publish_volume c req s ≡ publish_alcub c req m alcub t)
  unfolding node_publish_volume check_publish
  node_publish_volume_ok req e =
      elim (Option-cases (get_by_uuid c.alcub_control req.volume_id s).0) [
        | inl missing ↦ absurd (ground arith)
        | inr (alcub, found) ↦ elim (Option-cases req.capability) [
          | inl no_capability ↦ absurd (ground arith)
          | inr (ca, given) ↦ elim (Option-cases ca.mount) [
            | inl no_mount ↦ absurd (ground arith)
            | inr (m, mount_given) ↦ (alcub, m, found, ground arith)
          ]
        ]
      ]

  -- The same for `NodeUnpublishVolume`.
  pub node_unpublish_volume_ok :
      (req : NodeUnpublishVolumeRequest)
      → (node_unpublish_volume c req s).0 ≡ ok tt
      → let (found, t) = get_by_uuid c.alcub_control req.volume_id s in
        (alcub : CsiAlcub) × (found ≡ some alcub)
        × (node_unpublish_volume c req s ≡ unpublish_alcub c req.target_path alcub t)
  unfolding node_unpublish_volume check_unpublish
  node_unpublish_volume_ok req e =
      elim (Option-cases (get_by_uuid c.alcub_control req.volume_id s).0) [
        | inl missing ↦ absurd (ground arith)
        | inr (alcub, found) ↦ (alcub, found, ground arith)
      ]

  -- `NodeUnpublishVolume` at a volume that is in use on another node, or on none, fails by
  -- `Internal`, and makes no call but the lookup: nothing is unmounted and no device is
  -- disconnected.
  pub node_unpublish_volume_foreign :
      (req : NodeUnpublishVolumeRequest) (alcub : CsiAlcub)
      → req.volume_id ≢ ""
      → req.target_path ≢ ""
      → (get_by_uuid c.alcub_control req.volume_id s).0 ≡ some alcub
      → alcub.status.node ≢ c.nodename
      → (m : String) × (node_unpublish_volume c req s
          ≡ (err (status internal m), (get_by_uuid c.alcub_control req.volume_id s).1))
  unfolding node_unpublish_volume check_unpublish unpublish_alcub pre_unmount_valid
  node_unpublish_volume_foreign req alcub hv ht found foreign = (
    "node excepte:" <> alcub.status.node <> ", but here is " <> c.nodename,
    ground (
      arith,
      eq_iff req.volume_id "",
      eq_iff req.target_path "",
      eq_iff alcub.status.node c.nodename,
    ),
  )
