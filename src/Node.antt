-- ===== src/Node.antt =====
-- pkg/noderpc: the node plugin. node.go is here, and rpc.go in Publish.
pub mod Publish
pub mod Status
pub mod Storage
pub mod Laws
pub mod Records
pub mod Usage
use csi_alcub.Base.{
  ℕ, String, ◌<>◌, Bool, true, false, not, ◌||◌, Option, none, some, List, [], ◌∷◌, ◌==◌,
  if◌then◌else◌,
}
use csi_alcub.Base.Exec.{
  GoError, errorf, Result, ok, err, Go, pure, fail, lift, gets, try, fail_if, ◌>>=◌, ◌>>◌,
}
use csi_alcub.Process.{Process}
use csi_alcub.Api.{CsiAlcub, CsiAlcubStatus}
use csi_alcub.Manager
use csi_alcub.Manager.{AlcubClient}
use csi_alcub.Store.{ConfPtr, null, Alcuber}
use csi_alcub.Utils.{Interface, lookup_addresses}

-- k8s.io/utils/mount and package os, as far as the handlers call them.
pub record Mounter (W : Type 0) : Type 0 where
  pub is_likely_not_mount_point : String → Go W Bool
  -- the answer comes beside the error
  pub is_not_mount_point : String → W → (Bool × Option GoError) × W
  pub mkdir_all : String → ℕ → Go W (Unit {0})
  pub format_and_mount : String → String → String → List String → Go W (Unit {0})
  pub unmount : String → Go W (Unit {0})
  pub remove_all : String → Go W (Unit {0})

-- `noderpc.Node`. Its volumes have no limit.
pub record Node (W : Type 0) : Type 0 where
  pub store : Alcuber (Process W)
  pub alcub_control : AlcubClient W
  pub mounter : Mounter W
  pub node_id : String
  pub nodename : String
  pub storeip : String

-- The callback of `getStoraIfIp`, whose state is `ipaddr`.
match_name : String → String → String → String → Bool × String
match_name storeifname name ip ipaddr = if name == storeifname then (false, ip) else (true, ipaddr)

-- `getStoraIfIp`; the empty text stands for "not found".
unfoldable pub get_stora_if_ip : Result GoError (List Interface) → String → String
unfolding match_name
get_stora_if_ip ifaces storeifname =
    let (r, ipaddr) = lookup_addresses ifaces (match_name storeifname) "" in
    elim r [ err e ↦ "" | ok _ ↦ ipaddr ]

module _ {W : Type 0} (c : Node W) where
  -- `Node.detachDevice`
  unfoldable pub detach_device : CsiAlcub → Go (Process W) (Unit {0})
  detach_device alcub = c.store.do_dis_conn null alcub.spec.pool alcub.spec.image

  -- `Node.attachDevice`
  unfoldable pub attach_device : CsiAlcub → Go (Process W) String
  attach_device alcub = do
    devpath ← c.store.do_conn null alcub.spec.pool alcub.spec.image
    fail_if (devpath == "") (errorf "device path is null")
    pure devpath

  -- `GetImageStatus` as a step.
  image_ready : CsiAlcub → Go (Process W) Bool
  image_ready alcub s =
      let (ready, t) = c.store.get_image_status null alcub.spec.pool alcub.spec.image s in
      (ok ready, t)

  -- `Node.preMountValid`: the device, and the nodes that its success function saves. That the
  -- volume is in use on another node is only logged.
  unfoldable pub pre_mount_valid : CsiAlcub → Go (Process W) (String × List String)
  unfolding image_ready
  pre_mount_valid alcub = do
    fail_if (alcub.spec.image == "" || alcub.spec.pool == "") (errorf "image or pool is null")
    ready ← image_ready alcub
    fail_if (not ready)
        (errorf ("image(" <> alcub.spec.image <> ") status is not ready, wait clear"))
    nodes ← c.store.get_node null c.nodename
    dev ← attach_device alcub
    pure (dev, nodes)

  -- The status that the success function of `preMountValid` writes.
  unfoldable pub mounted_status : String → List String → CsiAlcubStatus → CsiAlcubStatus
  mounted_status dev nodes old = record {
    volume_info = record { devpath = dev; storage_ip = c.storeip };
    prenode =
        if not (old.node == "")
        then (if old.prenode == "" then old.node else old.prenode)
        else old.prenode;
    node = c.nodename;
    all_nodes = nodes;
  }

  -- The success function of `preMountValid`.
  unfoldable pub mount_succeeded : CsiAlcub → String → List String → Go (Process W) (Unit {0})
  mount_succeeded alcub dev nodes =
      Manager.update c.alcub_control alcub.meta.name none
        (some (mounted_status dev nodes alcub.status))

  -- The failure function of `preMountValid`, whose error is dropped.
  unfoldable pub mount_failed : CsiAlcub → Process W → Process W
  mount_failed alcub s = (detach_device alcub s).1

  -- `Node.preUnmountValid`
  unfoldable pub pre_unmount_valid : CsiAlcub → Result GoError (Unit {0})
  pre_unmount_valid alcub =
      if not (alcub.status.node == c.nodename)
      then err (errorf ("node excepte:" <> alcub.status.node <> ", but here is " <> c.nodename))
      else ok tt

  -- The status that the success function of `preUnmountValid` writes.
  unfoldable pub unmounted_status : CsiAlcubStatus → CsiAlcubStatus
  unmounted_status old = record old { node = "" }

  -- The success function of `preUnmountValid`.
  unfoldable pub unmount_succeeded : CsiAlcub → Go (Process W) (Unit {0})
  unmount_succeeded alcub = do
    detach_device alcub
    Manager.update c.alcub_control alcub.meta.name none (some (unmounted_status alcub.status))
