-- ===== src/Samples/Resources.antt =====
-- Tests of the resource manager and of the labels of nodes, in the sample cluster.
use csi_alcub.Base.{String, true, false, none, some, [], ◌∷◌, ◌≡◌, refl, ◌≢◌, ◌⊎◌, inl, inr, arith}
use csi_alcub.Base.Dict.{lookup}
use csi_alcub.Base.Exec.{GoError, ok, err}
use csi_alcub.Process.{Process, AlcubCon}
use csi_alcub.Api.{CsiAlcub}
use csi_alcub.Manager
use csi_alcub.Manager.{get_by_name, get_by_uuid, get_node_info, reverse_node, update, ip_equal}
use csi_alcub.Manager.Index.{create_index}
use csi_alcub.Manager.Nodes.{HasNoZones}
use csi_alcub.Manager.History.{
  Steps, start, next, reconciles, deletes, looks_up, Steps-keeps, get_by_uuid-reconcile,
}
use csi_alcub.Cluster.{ClusterNode, NodeConf}
use csi_alcub.Control.NodeManage.{add_labels, label_controller, apply_update}
use csi_alcub.Control.Labels.{filter_label}
use csi_alcub.Manager.Finalizers.{freed, reconcile_writes}
use csi_alcub.Samples.{differ, process, World, server, empty, with_volume, volume, used_volume}

update_runs : (update server "pvc-1" none (some used_volume.status) with_volume).0 ≡ ok tt
unfolding update server
update_runs = refl

create_runs : (Manager.create server "pvc-1" volume.spec empty).0 ≡ ok tt
unfolding Manager.create server Manager.reverse_uuid lookup
create_runs = refl

create_index_example :
    let after = (Manager.create server "pvc-1" volume.spec with_volume).1 in
    ((Manager.create server "pvc-1" volume.spec with_volume).0 ≡ ok tt
      → lookup "uuid-1" after.alcub_control.uuidname ≡ some "pvc-1")
    × ((e : GoError)
        → (Manager.create server "pvc-1" volume.spec with_volume).0 ≡ err e
        → (after ≡ with_volume) ⊎ (lookup "uuid-1" after.alcub_control.uuidname ≡ none))
    × ((u : String)
        → "uuid-1" ≢ u
        → lookup u after.alcub_control.uuidname ≡ lookup u with_volume.alcub_control.uuidname)
create_index_example = create_index server "pvc-1" volume.spec with_volume

abbrev no_nodes : AlcubCon
no_nodes = record { uuidname = []; nodes = [] }

no_nodes-HasNoZones : HasNoZones no_nodes
unfolding lookup
no_nodes-HasNoZones = record { at = λ n v e. absurd (ground arith) }

abbrev pub one_label : NodeConf
one_label = record {
  csilabel = ("csi-alcub", "enable") ∷ [];
  halabel = none;
  filter_key = "alcub-%N";
  filtervalue = "on";
}

-- The storage manager's label is on the node, and the driver's is not.
abbrev pub managed : ClusterNode
managed = record {
  name = "worker";
  labels = some (("alcub-worker", "on") ∷ []);
  annotations = none;
  unschedulable = false;
  taints = [];
  deleting = false;
}

abbrev labelled : ClusterNode
labelled = record managed { labels = some (("csi-alcub", "enable") ∷ ("alcub-worker", "on") ∷ []) }

pub labels_apart : lookup (filter_label one_label "worker") one_label.csilabel ≡ none
unfolding lookup csi_alcub.Cluster.temp_replace csi_alcub.Base.Text.strip
labels_apart = refl

asks_for_label :
    label_controller one_label managed.labels "worker" ≡ some (add_labels one_label.csilabel)
unfolding label_controller csi_alcub.Base.Text.strip lookup
asks_for_label = refl

adds_label : apply_update (add_labels one_label.csilabel) managed ≡ ok labelled
unfolding apply_update csi_alcub.Base.Dict.insert
adds_label = refl

-- Another resource is read, one is deleted and a lookup fails.
history :
    Steps server "uuid-1" with_volume
      (get_by_uuid server "uuid-3"
        (Manager.delete server "pvc-2" (Manager.reconcile server "pvc-9" with_volume).1).1).1
history =
    next (next (next start (reconciles "pvc-9" refl)) (deletes "pvc-2" refl))
      (looks_up "uuid-3" refl)

is_indexed : lookup "uuid-1" with_volume.alcub_control.uuidname ≡ some "pvc-1"
unfolding lookup
is_indexed = refl

Steps-keeps_example :
    lookup "uuid-1"
      (get_by_uuid server "uuid-3"
        (Manager.delete server "pvc-2"
          (Manager.reconcile server "pvc-9" with_volume).1).1).1.alcub_control.uuidname
    ≡ some "pvc-1"
Steps-keeps_example = Steps-keeps server "uuid-1" "pvc-1" history is_indexed

abbrev restarted : Process World
restarted = process (volume ∷ []) []

reads_volume : (server.get "pvc-1" restarted.world).0 ≡ ok volume
unfolding server
reads_volume = refl

not_known : lookup "uuid-1" restarted.alcub_control.uuidname ≡ none
unfolding lookup
not_known = refl

get_by_uuid-reconcile_example :
    let t = (Manager.reconcile server "pvc-1" restarted).1 in
    get_by_uuid server "uuid-1" t ≡ get_by_name server "pvc-1" t
get_by_uuid-reconcile_example =
    get_by_uuid-reconcile server "pvc-1" volume restarted reads_volume refl refl not_known
      (differ "uuid-1" "" refl) (differ "pvc-1" "" refl)

-- The used volume, while it is being deleted.
abbrev deleted_volume : CsiAlcub
deleted_volume = record used_volume { meta = record used_volume.meta { deleting = true } }

abbrev with_deleted : Process World
with_deleted = process (deleted_volume ∷ []) []

reconcile_writes_example :
    let (r, w) = server.get "pvc-1" with_deleted.world in
    ((Manager.reconcile server "pvc-1" with_deleted).1.world ≡ w)
    ⊎ ((obj : CsiAlcub) × (r ≡ ok obj)
        × (obj.meta.deleting ≡ true)
        × (obj.status.node ≡ "")
        × ((Manager.reconcile server "pvc-1" with_deleted).1.world
            ≡ (server.retry_on_conflict (server.update (freed obj)) w).1))
reconcile_writes_example = reconcile_writes server "pvc-1" with_deleted
