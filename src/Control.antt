-- ===== src/Control.antt =====
-- pkg/controlrpc: the controller. Here is its state's fixed part (controller.go); Volumes has the
-- RPCs on volumes, Notify the calls to the storage servers, and NodeManage the reconciler of nodes.
pub mod Notify
pub mod Volumes
pub mod NodeManage
pub mod Service
pub mod Advertised
pub mod Silence
pub mod Labels
pub mod Settled
pub mod Threads
pub mod Creation
pub mod Created
pub mod Errors
pub mod Failover
pub mod Indexed
pub mod Deletion
use csi_alcub.Base.{String}
use csi_alcub.Process.{Process}
use csi_alcub.Manager.{AlcubClient}
use csi_alcub.Rbd.{RbdHost, Rbd}
use csi_alcub.Store.{Alcuber}
use csi_alcub.Cluster.{NodeClient, NodeConf}

-- `Controller` with its `Node` set up. The maps of `alcubControl` and `alcubDynConf` are in
-- `Process`.
pub record Controller (W : Type 0) : Type 0 where
  pub store : Alcuber (Process W)
  pub alcub_control : AlcubClient W
  pub rbd_host : RbdHost W
  pub rbd : Rbd
  pub node_client : NodeClient W
  pub node : NodeConf
  -- `uuid.NewUUID().String()`
  pub new_uuid : W → String × W

-- `scParam`
abbrev pub sc_param : String
sc_param = "scname"
