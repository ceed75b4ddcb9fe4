-- ===== src/Control/Silence.antt =====
-- `StopNode` and `StartNode` never reach a storage server: `GetNodeInfo` gives them no zone.
use csi_alcub.Base.{String, Bool, true, false, not, ◌≡◌, refl, inl, inr, none, arith}
use csi_alcub.Base.Exec.{GoError, Result, err, Go}
use csi_alcub.Process.{Process}
use csi_alcub.Manager.Nodes.{no_info, get_node_info_lem}
use csi_alcub.Cluster.{ClusterNode, csi_black_kv, in_maps}
use csi_alcub.Control.{Controller}
use csi_alcub.Control.Notify.{notidy_alcub, stop_node, start_node}
use csi_alcub.Control.NodeManage.{
  UpdateNodeFn, annotate, remove_annotations, if_told, notready_controller,
}

module _ {W : Type 0} (c : Controller W) where
  -- The result is an error, and the world outside is as it was.
  abbrev pub IsSilent : Result GoError (Unit {0}) × Process W → Process W → Type 0
  IsSilent p s = ((e : GoError) × (p.0 ≡ err e)) × (p.1.world ≡ s.world)

  notidy_alcub-IsSilent :
      (nodename : String) (fail : Bool) (s : Process W)
      → IsSilent (notidy_alcub c nodename no_info fail s) s
  unfolding notidy_alcub
  notidy_alcub-IsSilent nodename fail s = ((_, refl), refl)

  -- `StopNode` always fails, and makes no call to the world outside: no storage server is told that
  -- the node has failed, whatever the table of nodes holds.
  pub stop_node-IsSilent :
      (nodename : String) (addblack : Bool) (s : Process W)
      → IsSilent (stop_node c nodename addblack s) s
  unfolding stop_node
  stop_node-IsSilent nodename addblack s = elim (get_node_info_lem nodename s.alcub_control) [
    | inl (_, e) ↦ rw (e, stop_node) ((_, refl), refl)
    | inr (_, e) ↦ rw (e, stop_node) (notidy_alcub-IsSilent nodename true s)
  ]

  -- `StartNode` always fails, and makes no call to the world outside: no device is stopped when a
  -- node comes back, whatever the table of nodes and the resources hold.
  pub start_node-IsSilent :
      (nodename : String) (rmblack : Bool) (s : Process W)
      → IsSilent (start_node c nodename rmblack s) s
  unfolding start_node
  start_node-IsSilent nodename rmblack s = elim (get_node_info_lem nodename s.alcub_control) [
    | inl (_, e) ↦ rw (e, start_node) ((_, refl), refl)
    | inr (_, e) ↦ rw (e, start_node) (notidy_alcub-IsSilent nodename false s)
  ]

  if_told_silent :
      (call : Go (Process W) (Unit {0})) (fn : UpdateNodeFn) (s : Process W)
      → IsSilent (call s) s
      → ((if_told c call fn s).0 ≡ none) × ((if_told c call fn s).1.world ≡ s.world)
  unfolding if_told
  if_told_silent call fn s h = ground arith

  -- `notreadyController` never has a node changed and makes no call to the world outside: for any
  -- labels, annotations and taints of the node it returns nil.
  pub notready_controller_silent :
      (node : ClusterNode) (s : Process W)
      → ((notready_controller c node s).0 ≡ none)
        × ((notready_controller c node s).1.world ≡ s.world)
  unfolding notready_controller
  notready_controller_silent node s = ground (
    arith,
    if_told_silent (stop_node c node.name (not (in_maps node.labels c.node.halabel)))
        (annotate csi_black_kv) s
        (stop_node-IsSilent node.name (not (in_maps node.labels c.node.halabel)) s),
    if_told_silent (start_node c node.name (not (in_maps node.labels c.node.halabel)))
        (remove_annotations csi_black_kv) s
        (start_node-IsSilent node.name (not (in_maps node.labels c.node.halabel)) s),
  )
