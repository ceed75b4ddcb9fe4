-- ===== src/Control/NodeManage.antt =====
-- pkg/controlrpc/nodeManage.go: the reconciler of nodes. A closure that changes a node is the value
-- that says what it does.
use csi_alcub.Base.{
  String, Bool, false, ◌&&◌, ◌||◌, not, Option, none, some, List, [], ◌∷◌, ◌==◌, is_nil,
  if◌then◌else◌,
}
use csi_alcub.Base.Dict.{Dict, lookup, insert, erase}
use csi_alcub.Base.Exec.{GoError, errorf, Result, ok, err, Go, lift, ◌>>=◌}
use csi_alcub.Process.{Process}
use csi_alcub.Manager.{is_not_found}
use csi_alcub.Cluster.{
  Taint, ClusterNode, NodeClient, NodeConf, unreachable_taint, csi_black_kv, temp_node_key, in_maps,
  temp_replace,
}
use csi_alcub.Control.{Controller}
use csi_alcub.Control.Notify.{stop_node, start_node}

-- `updateNodeFn`
pub data UpdateNodeFn : Type 0 where
  remove_labels add_labels annotate remove_annotations : Dict String → UpdateNodeFn

-- The writes and deletions of a loop over a map.
unfoldable pub insert_all : Dict String → Dict String → Dict String
insert_all [] m = m
insert_all ((k, v) ∷ kv) m = insert_all kv (insert k v m)

unfoldable pub erase_all : Dict String → Dict String → Dict String
erase_all [] m = m
erase_all ((k, v) ∷ kv) m = erase_all kv (erase k m)

-- Deleting from a nil map does nothing, and a write to one is a run-time error (there is none if
-- there is nothing to write).
unfoldable pub write_map :
    Dict String → Option (Dict String) → Result GoError (Option (Dict String))
unfolding insert_all
write_map [] none = ok none
write_map (e ∷ kv) none = err (errorf "assignment to entry in nil map")
write_map kv (some m) = ok (some (insert_all kv m))

unfoldable pub delete_keys : Dict String → Option (Dict String) → Option (Dict String)
unfolding erase_all
delete_keys kv none = none
delete_keys kv (some m) = some (erase_all kv m)

-- One call of such a closure.
unfoldable pub apply_update : UpdateNodeFn → ClusterNode → Result GoError ClusterNode
unfolding write_map delete_keys
apply_update (remove_labels kv) node = ok (record node { labels = delete_keys kv node.labels })
apply_update (add_labels kv) node = elim (write_map kv node.labels) [
  | ok m ↦ ok (record node { labels = m })
  | err e ↦ err e
]
apply_update (annotate kv) node = elim (write_map kv node.annotations) [
  | ok m ↦ ok (record node { annotations = m })
  | err e ↦ err e
]
apply_update (remove_annotations kv) node =
    ok (record node { annotations = delete_keys kv node.annotations })

unfoldable pub apply_updates : List UpdateNodeFn → ClusterNode → Result GoError ClusterNode
unfolding apply_update
apply_updates [] node = ok node
apply_updates (fn ∷ fns) node = elim (apply_update fn node) [
  | ok node' ↦ apply_updates fns node'
  | err e ↦ err e
]

-- The loop of `labelController`: whether the label of the storage manager is there, and whether
-- one of the driver's own labels is, with any value.
unfoldable pub scan_labels : String → String → Dict String → Dict String → Bool × Bool
scan_labels key val csilabel [] = (false, false)
scan_labels key val csilabel ((k, v) ∷ labels) =
    let (alcub, node_label) = scan_labels key val csilabel labels in
    ((key == k && val == v) || alcub, not (is_nil (lookup k csilabel)) || node_label)

-- `Node.labelController`; `none` is a nil function.
unfoldable pub label_controller : NodeConf → Option (Dict String) → String → Option UpdateNodeFn
unfolding scan_labels temp_replace
label_controller n none nodename = none
label_controller n (some labels) nodename =
    let tmpmap : Dict String = (temp_node_key, nodename) ∷ [] in
    let key = temp_replace n.filter_key tmpmap in
    let val = temp_replace n.filtervalue tmpmap in
    let (alcub_exist, node_label_exist) = scan_labels key val n.csilabel labels in
    if not alcub_exist
    then (if not node_label_exist then none else some (remove_labels n.csilabel))
    else if node_label_exist
    then none
    else some (add_labels n.csilabel)

-- The loop over the taints in `notreadyController`.
unfoldable pub has_taint : (Taint → Taint → Bool) → List Taint → Bool
has_taint match_taint [] = false
has_taint match_taint (taint ∷ taints) =
    match_taint taint unreachable_taint || has_taint match_taint taints

module _ {W : Type 0} (c : Controller W) where
  -- The function that is returned if the call has succeeded.
  unfoldable pub if_told :
      Go (Process W) (Unit {0}) → UpdateNodeFn → Process W → Option UpdateNodeFn × Process W
  if_told call fn s = let (r, t) = call s in elim r [ ok _ ↦ (some fn, t) | err e ↦ (none, t) ]

  -- `Node.notreadyController`, which nothing calls at present.
  unfoldable pub notready_controller : ClusterNode → Process W → Option UpdateNodeFn × Process W
  unfolding if_told has_taint
  notready_controller node s =
      let notready = node.unschedulable in
      let hamaintain = in_maps node.labels c.node.halabel in
      let csiblack = in_maps node.annotations (some csi_black_kv) in
      let isrecover =
        not (notready || hamaintain) && not (has_taint c.node_client.match_taint node.taints) in
      if notready && hamaintain
      then (if csiblack
          then (none, s)
          else if_told (stop_node c node.name (not hamaintain)) (annotate csi_black_kv) s)
      else if csiblack && isrecover
      then if_told (start_node c node.name (not hamaintain)) (remove_annotations csi_black_kv) s
      else (none, s)

module _ {W : Type 0} (c : NodeClient W) (n : NodeConf) where
  -- `Node.updateNode`: each attempt reads the node again.
  unfoldable pub update_node : String → List UpdateNodeFn → Go W (Unit {0})
  unfolding apply_updates
  update_node name fns =
      c.retry_on_conflict
        (do original ← c.get name; changed ← lift (apply_updates fns original); c.update changed)

  -- What `Reconcile` has found out before its deferred call: the functions and its error.
  unfoldable pub plan : Result GoError ClusterNode → List UpdateNodeFn × Result GoError (Unit {0})
  plan (err e) = ([], if is_not_found e.kind then ok tt else err e)
  plan (ok node) =
      if node.deleting then ([], ok tt) else elim (label_controller n node.labels node.name) [
        | some fn ↦ (fn ∷ [], ok tt)
        | none ↦ ([], ok tt)
      ]

  -- `Node.Reconcile`: the deferred `updateNode` runs on every path.
  unfoldable pub reconcile : String → Go W (Unit {0})
  unfolding plan
  reconcile name w =
      let (r, w') = c.get name w in
      let (fns, result) = plan r in let (_, w'') = update_node name fns w' in (result, w'')
