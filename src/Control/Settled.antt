-- ===== src/Control/Settled.antt =====
-- `Node.Reconcile` of pkg/controlrpc/nodeManage.go against an API server of nodes.
use csi_alcub.Base.{String, ◌≡◌, Option, some}
use csi_alcub.Base.Exec.{GoError, Result, lift, ◌>>=◌, ok, Go}
use csi_alcub.Cluster.{ClusterNode, NodeClient}

-- One attempt to change a node: it is read, changed and written back.
abbrev pub attempt :
    {W : Type 0}
    → NodeClient W
    → String
    → (ClusterNode → Result GoError ClusterNode)
    → Go W (Unit {0})
attempt c name change = do original ← c.get name; changed ← lift (change original); c.update changed

-- An API server whose nodes are `stored`, by their names. A read gives the node and changes nothing;
-- an update that succeeds stores what was sent, as far as the program reads it; and a retry loop of
-- attempts that succeeds ends in an attempt that does. Before that attempt, others may have written
-- to the nodes (that is the conflict), but not to their labels.
pub record IsNodes {W : Type 0} (c : NodeClient W) (stored : W → String → Option ClusterNode)
    : Type 0 where
  pub get_ok :
      (name : String) (w : W) (node : ClusterNode)
      → (c.get name w).0 ≡ ok node
      → (stored w name ≡ some node) × (node.name ≡ name)
  pub get_keeps : (name : String) (w : W) (m : String) → stored (c.get name w).1 m ≡ stored w m
  pub update_ok :
      (node : ClusterNode) (w : W)
      → (c.update node w).0 ≡ ok tt
      → (new : ClusterNode) × (stored (c.update node w).1 node.name ≡ some new)
        × (new.name ≡ node.name)
        × (new.labels ≡ node.labels)
  pub retry_ok :
      (name : String) (change : ClusterNode → Result GoError ClusterNode) (w : W)
      → (c.retry_on_conflict (attempt c name change) w).0 ≡ ok tt
      → (w' : W) × ((m : String) (x : ClusterNode)
          → stored w' m ≡ some x
          → (y : ClusterNode) × (stored w m ≡ some y) × (x.labels ≡ y.labels))
        × ((attempt c name change w').0 ≡ ok tt)
        × ((c.retry_on_conflict (attempt c name change) w).1 ≡ (attempt c name change w').1)
