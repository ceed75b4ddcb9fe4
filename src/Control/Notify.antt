-- ===== src/Control/Notify.antt =====
-- pkg/controlrpc/controller.go: `StopNode` and `StartNode`, which tell the storage servers of a
-- node's zones that the node has failed or has come back.
use csi_alcub.Base.{
  String, Bool, true, false, ◌||◌, not, none, some, List, [], ◌∷◌, ◌==◌, if◌then◌else◌,
}
use csi_alcub.Base.Text.{contains}
use csi_alcub.Base.Exec.{errorf, ok, err, Go}
use csi_alcub.Process.{Nodeinfo, Process}
use csi_alcub.Api.{CsiAlcub}
use csi_alcub.Manager.{get_node_info, for_each}
use csi_alcub.Store.{alcub_dyn_conf}
use csi_alcub.Control.{Controller}

module _ {W : Type 0} (c : Controller W) where
  -- The callback of `ForEach` in `notidyAlcub`. An error is logged.
  unfoldable pub stop_device : CsiAlcub → Process W → Process W
  stop_device a s =
      if a.spec.pool == "" || a.spec.image == ""
      then s
      else (c.store.dev_stop alcub_dyn_conf a.spec.pool a.spec.image s).1

  -- `actionfn` of `notidyAlcub`
  unfoldable pub action : String → Bool → String → Go (Process W) (Unit {0})
  unfolding stop_device
  action nodename fail alucb_url s =
      let t = record s { alcub_dyn_conf = record s.alcub_dyn_conf { alucb_url = alucb_url } } in
      if fail
      then c.store.fail_node alcub_dyn_conf nodename t
      else if not (contains alucb_url nodename)
      then (ok tt, t)
      else for_each c.alcub_control stop_device t

  -- The loop over the zones: whether one has been told. It stops at the first.
  unfoldable pub notify_zones : String → Bool → List String → Process W → Bool × Process W
  notify_zones nodename fail [] s = (false, s)
  notify_zones nodename fail (v ∷ zones) s =
      let (r, t) = action nodename fail v s in
      let skipped = notify_zones nodename fail zones s in
      let later = notify_zones nodename fail zones t in
      if v == "" then skipped else elim r [ ok _ ↦ (true, t) | err e ↦ later ]

  -- `Controller.notidyAlcub`
  unfoldable pub notidy_alcub : String → Nodeinfo → Bool → Go (Process W) (Unit {0})
  unfolding notify_zones
  notidy_alcub nodename zone fail s =
      let start = record s { alcub_dyn_conf = record s.alcub_dyn_conf { nodename = nodename } } in
      let (success, t) = notify_zones nodename fail zone.zones start in
      (if success then ok tt else err (errorf "notify alcub server failed!"), t)

  -- `Controller.StopNode`; adding to the blacklist is commented out in the source.
  unfoldable pub stop_node : String → Bool → Go (Process W) (Unit {0})
  stop_node nodename addblack s = elim (get_node_info nodename s.alcub_control) [
    | none ↦ (err (errorf "not found"), s)
    | some node ↦ notidy_alcub nodename node true s
  ]

  -- `Controller.StartNode`; removing from the blacklist is commented out in the source.
  unfoldable pub start_node : String → Bool → Go (Process W) (Unit {0})
  start_node nodename rmblack s = elim (get_node_info nodename s.alcub_control) [
    | none ↦ (err (errorf "not found"), s)
    | some node ↦ notidy_alcub nodename node false s
  ]
