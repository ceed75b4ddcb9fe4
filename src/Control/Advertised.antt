-- ===== src/Control/Advertised.antt =====
-- Which RPCs of the controller service are implemented.
use csi_alcub.Base.{
  String, ◌≡◌, ◌≢◌, ◌⊎◌, refl, inl, inr, Bool, true, false, Option, none, some, arith, Option-cases,
}
use csi_alcub.Base.Exec.{Result, err}
use csi_alcub.Process.{Process}
use csi_alcub.Manager.{get_by_name}
use csi_alcub.Rpc.{Code, status, RpcError, CreateVolumeRequest}
use csi_alcub.Cluster.{labled_nodes}
use csi_alcub.Control.{Controller}
use csi_alcub.Control.Volumes.{
  create_volume, create_new, create_with_id, delete_volume, check_create, existing_volume,
}
use csi_alcub.Control.Service.{
  RpcType, any_type, controller_get_capabilities, Idle, Call, answer_idle, serve,
}

abbrev is_unimplemented : {A : Type 0} → Result RpcError A → Bool
is_unimplemented (err (status Code.unimplemented m)) = true
is_unimplemented _ = false

module _ {W : Type 0} (c : Controller W) where
  check_create_lem :
      (req : CreateVolumeRequest) (s : Process W) → is_unimplemented (check_create req s).0 ≡ false
  unfolding check_create
  check_create_lem req s = ground arith

  create_with_id_lem :
      (req : CreateVolumeRequest) (id : String) (s : Process W)
      → is_unimplemented (create_with_id c req id s).0 ≡ false
  unfolding create_with_id
  create_with_id_lem req id s = ground arith

  create_new_lem :
      (req : CreateVolumeRequest) (s : Process W) → is_unimplemented (create_new c req s).0 ≡ false
  unfolding create_new
  create_new_lem req s =
      let (nodes, w) = labled_nodes c.node_client c.node s.world in
      let (id, w') = c.new_uuid w in
      ground (arith, create_with_id_lem req id (record s { world = w' }))

  existing_volume_lem :
      (req : CreateVolumeRequest) (obj : _) (s : Process W)
      → is_unimplemented (existing_volume req obj s).0 ≡ false
  unfolding existing_volume
  existing_volume_lem req obj s = ground arith

  create_volume_lem :
      (req : CreateVolumeRequest) (s : Process W)
      → is_unimplemented (create_volume c req s).0 ≡ false
  unfolding create_volume
  create_volume_lem req s =
      let s' = (check_create req s).1 in
      let t = (get_by_name c.alcub_control req.name s').1 in
      elim (Option-cases (get_by_name c.alcub_control req.name s').0) [
        | inl free ↦ ground (arith, check_create_lem req s, create_new_lem req t)
        | inr (obj, taken) ↦ ground (arith, check_create_lem req s, existing_volume_lem req obj t)
      ]

  delete_volume_lem :
      (id : String) (s : Process W) → is_unimplemented (delete_volume c id s).0 ≡ false
  unfolding delete_volume
  delete_volume_lem id s = ground arith

  -- The capability that the CSI specification puts an RPC under; `none` for an RPC that every
  -- controller service has.
  abbrev pub under : Call → Option RpcType
  under (Call.creates req) = some RpcType.create_delete_volume
  under (Call.deletes volid) = some RpcType.create_delete_volume
  under Call.gets_capabilities = none
  under (Call.idles Idle.controller_publish_volume) = some RpcType.publish_unpublish_volume
  under (Call.idles Idle.controller_unpublish_volume) = some RpcType.publish_unpublish_volume
  under (Call.idles Idle.validate_volume_capabilities) = none
  under (Call.idles Idle.call_list_volumes) = some RpcType.list_volumes
  under (Call.idles Idle.call_get_capacity) = some RpcType.get_capacity
  under (Call.idles Idle.create_snapshot) = some RpcType.create_delete_snapshot
  under (Call.idles Idle.delete_snapshot) = some RpcType.create_delete_snapshot
  under (Call.idles Idle.call_list_snapshots) = some RpcType.list_snapshots
  under (Call.idles Idle.controller_expand_volume) = some RpcType.expand_volume
  under (Call.idles Idle.controller_get_volume) = some RpcType.get_volume

  -- An RPC that the specification puts under a capability answers `Unimplemented` in no state if
  -- `ControllerGetCapabilities` lists that capability, and in every state, which it does not change,
  -- if it does not.
  pub serve_advertised :
      (call : Call) (t : RpcType) (s : Process W)
      → under call ≡ some t
      → ((any_type t controller_get_capabilities ≡ true)
          × ((m : String) → (serve c call s).0 ≢ err (status Code.unimplemented m)))
        ⊎ ((any_type t controller_get_capabilities ≡ false)
            × (serve c call s ≡ (err (status Code.unimplemented ""), s)))
  unfolding serve answer_idle controller_get_capabilities
  serve_advertised (Call.creates req) t s e =
      inl (ground arith, λ m u. ground (arith, create_volume_lem req s))
  serve_advertised (Call.deletes volid) t s e =
      inl (ground arith, λ m u. ground (arith, delete_volume_lem volid s))
  serve_advertised Call.gets_capabilities t s e = absurd (ground arith)
  serve_advertised (Call.idles Idle.controller_publish_volume) t s e =
      inl (ground arith, λ m u. ground arith)
  serve_advertised (Call.idles Idle.controller_unpublish_volume) t s e =
      inl (ground arith, λ m u. ground arith)
  serve_advertised (Call.idles Idle.validate_volume_capabilities) t s e = absurd (ground arith)
  serve_advertised (Call.idles Idle.call_list_volumes) t s e = inr (ground arith, refl)
  serve_advertised (Call.idles Idle.call_get_capacity) t s e = inr (ground arith, refl)
  serve_advertised (Call.idles Idle.create_snapshot) t s e = inr (ground arith, refl)
  serve_advertised (Call.idles Idle.delete_snapshot) t s e = inr (ground arith, refl)
  serve_advertised (Call.idles Idle.call_list_snapshots) t s e = inr (ground arith, refl)
  serve_advertised (Call.idles Idle.controller_expand_volume) t s e = inr (ground arith, refl)
  serve_advertised (Call.idles Idle.controller_get_volume) t s e = inr (ground arith, refl)
