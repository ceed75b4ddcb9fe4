-- ===== src/Rpc.antt =====
-- What the gRPC handlers take and return: the messages of the CSI specification, as far as the
-- handlers read or fill them, and the status codes of gRPC.
use csi_alcub.Base.{String, Bool, Option, List, ◌≡◌}
use csi_alcub.Base.Dict.{Dict}
use csi_alcub.Base.Int.{ℤ}
use csi_alcub.Base.Exec.{GoError, Exec, Result, err}

pub data Code : Type 0 where
  invalid_argument not_found already_exists unavailable internal unimplemented : Code

-- The error of a handler: a status with its code, or any other error, which gRPC reports as
-- `Unknown`.
pub data RpcError : Type 0 where
  status : Code → String → RpcError
  raw : GoError → RpcError

-- A handler over the state `S`.
abbrev pub Handler : Type 0 → Type 0 → Type 0
Handler S A = Exec RpcError S A

-- `VolumeCapability_MountVolume`
pub record MountVolume : Type 0 where
  pub fs_type : String
  pub mount_flags : List String

-- `VolumeCapability`: its mount part is nil where the access type is another.
pub record VolumeCapability : Type 0 where
  pub mount : Option MountVolume

abbrev pub Topology : Type 0
Topology = Dict String

pub record TopologyRequirement : Type 0 where
  pub requisite : Option (List Topology)
  pub preferred : Option (List Topology)

pub record CreateVolumeRequest : Type 0 where
  pub name : String
  pub capabilities : Option (List VolumeCapability)
  -- whether there is a content source
  pub has_source : Bool
  -- 0 where the request has no capacity range
  pub required_bytes : ℤ
  pub parameters : Option (Dict String)
  pub accessibility : Option TopologyRequirement

-- The `Volume` of a response. Its content source is nil in each.
pub record VolumeInfo : Type 0 where
  pub volume_id : String
  pub capacity_bytes : ℤ
  pub volume_context : Option (Dict String)
  pub accessible_topology : Option (List Topology)

pub record NodePublishVolumeRequest : Type 0 where
  pub volume_id : String
  pub target_path : String
  pub capability : Option VolumeCapability
  pub readonly : Bool

pub record NodeUnpublishVolumeRequest : Type 0 where
  pub volume_id : String
  pub target_path : String

pub record NodeStageVolumeRequest : Type 0 where
  pub volume_id : String
  pub staging_target_path : String
  pub has_capability : Bool

pub record NodeUnstageVolumeRequest : Type 0 where
  pub volume_id : String
  pub staging_target_path : String

-- The handler has returned `InvalidArgument` and has changed nothing at all.
abbrev pub Rejects : {S A : Type 0} → S → Result RpcError A × S → Type 0
Rejects s (err (status invalid_argument m), t) = t ≡ s
Rejects s _ = ⊥
