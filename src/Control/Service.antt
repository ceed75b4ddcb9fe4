-- ===== src/Control/Service.antt =====
-- pkg/controlrpc/rpc.go: the service as a whole. A call below is an RPC with what its handler reads
-- of the request, and `serve` is the dispatch of the generated code by the method's name.
use csi_alcub.Base.{String, Bool, true, false, List, [], ◌∷◌, ◌++◌}
use csi_alcub.Base.Exec.{pure, fail, ◌>>=◌, ◌>>◌}
use csi_alcub.Process.{Process}
use csi_alcub.Rpc.{unimplemented, status, Handler, CreateVolumeRequest, VolumeInfo}
use csi_alcub.Control.{Controller}
use csi_alcub.Control.Volumes.{create_volume, delete_volume}

-- `csi.ControllerServiceCapability_RPC_Type`, as far as an RPC of the service is behind it.
pub data RpcType : Type 0 where
  create_delete_volume publish_unpublish_volume list_volumes get_capacity : RpcType
  create_delete_snapshot list_snapshots expand_volume get_volume : RpcType

abbrev pub is_type : RpcType → RpcType → Bool
is_type create_delete_volume create_delete_volume = true
is_type publish_unpublish_volume publish_unpublish_volume = true
is_type list_volumes list_volumes = true
is_type get_capacity get_capacity = true
is_type create_delete_snapshot create_delete_snapshot = true
is_type list_snapshots list_snapshots = true
is_type expand_volume expand_volume = true
is_type get_volume get_volume = true
is_type _ _ = false

abbrev pub any_type : RpcType → List RpcType → Bool
any_type t [] = false
any_type t (c ∷ cs) = elim (is_type t c) [ true ↦ true | false ↦ any_type t cs ]

-- `getControllerServiceCapabilities`: `append` to a slice that is nil first. A capability is its
-- type.
unfoldable pub append_capabilities : List RpcType → List RpcType → List RpcType
append_capabilities csc [] = csc
append_capabilities csc (cs ∷ cl) = append_capabilities (csc ++ (cs ∷ [])) cl

unfoldable pub get_controller_service_capabilities : List RpcType → List RpcType
unfolding append_capabilities
get_controller_service_capabilities cl = append_capabilities [] cl

-- `Controller.ControllerGetCapabilities`: the field `caps`, which `NewController` fills in.
unfoldable pub controller_get_capabilities : List RpcType
unfolding get_controller_service_capabilities
controller_get_capabilities =
    get_controller_service_capabilities (create_delete_volume ∷ publish_unpublish_volume ∷ [])

-- The RPCs whose handlers do nothing: they return the empty response, or `Unimplemented`.
pub data Idle : Type 0 where
  controller_publish_volume controller_unpublish_volume : Idle
  validate_volume_capabilities : Idle
  call_list_volumes call_get_capacity create_snapshot delete_snapshot call_list_snapshots : Idle
  controller_expand_volume controller_get_volume : Idle

unfoldable pub answer_idle : {S : Type 0} → Idle → Handler S (Unit {0})
answer_idle controller_publish_volume = pure tt
answer_idle controller_unpublish_volume = pure tt
answer_idle validate_volume_capabilities = fail (status unimplemented "")
answer_idle call_list_volumes = fail (status unimplemented "")
answer_idle call_get_capacity = fail (status unimplemented "")
answer_idle create_snapshot = fail (status unimplemented "")
answer_idle delete_snapshot = fail (status unimplemented "")
answer_idle call_list_snapshots = fail (status unimplemented "")
answer_idle controller_expand_volume = fail (status unimplemented "")
answer_idle controller_get_volume = fail (status unimplemented "")

pub data Call : Type 0 where
  creates : CreateVolumeRequest → Call
  deletes : String → Call
  gets_capabilities : Call
  idles : Idle → Call

pub data Answer : Type 0 where
  created : VolumeInfo → Answer
  capabilities : List RpcType → Answer
  empty : Answer

unfoldable pub serve : {W : Type 0} → Controller W → Call → Handler (Process W) Answer
unfolding answer_idle
serve c (creates req) = do info ← create_volume c req; pure (created info)
serve c (deletes volid) = do delete_volume c volid; pure empty
serve c gets_capabilities = pure (capabilities controller_get_capabilities)
serve c (idles call) = do answer_idle call; pure empty
