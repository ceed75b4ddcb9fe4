-- ===== src/Samples/Usages.antt =====
-- Tests of two node plugins that share the API server, one call after the other.
use csi_alcub.Base.{ℕ, zero, suc, String, Bool, true, false, List, [], ◌∷◌, map, ◌≡◌, refl}
use csi_alcub.Manager.Server.{IsServer}
use csi_alcub.Node.{Node}
use csi_alcub.Node.Usage.{Call, publishes, unpublishes, Serves, usage_of, IsApart}
use csi_alcub.Node.Usage.Refines.{Plugins, call_all, call_all-Serves}
use csi_alcub.Samples.{World, stored, server-IsServer, plugin, with_volume}
use csi_alcub.Samples.Nodes.{publish, unpublish, other}

-- Node 0 is `worker`, and the nodes from 1 on are `other`.
abbrev nodes : ℕ → Node World
nodes zero = plugin
nodes (suc i) = other

nodes-IsServer : (i : ℕ) → IsServer (nodes i).alcub_control stored
nodes-IsServer zero = server-IsServer
nodes-IsServer (suc i) = server-IsServer

plugin-IsApart :
    (nodename id : String) → IsApart stored (record plugin { nodename = nodename; node_id = id })
plugin-IsApart nodename id = record {
  conn_keeps = λ conf pool image s n. refl;
  dis_conn_keeps = λ conf pool image s n. refl;
  status_keeps = λ conf pool image s n. refl;
  get_node_keeps = λ conf node s n. refl;
  likely_keeps = λ target w n. refl;
  mkdir_keeps = λ target perm w n. refl;
  mount_keeps = λ source target fs options w n. refl;
  is_mount_keeps = λ target w n. refl;
  unmount_keeps = λ target w n. refl;
  remove_keeps = λ target w n. refl;
}

nodes-IsApart : (i : ℕ) → IsApart stored (nodes i)
nodes-IsApart zero = plugin-IsApart "worker" "id-1"
nodes-IsApart (suc i) = plugin-IsApart "other" "other"

abbrev plugins : Plugins World
plugins = ((λ i. with_volume), with_volume.world)

-- The second node takes the volume over; the first can not give it up any more.
abbrev calls : List Call
calls =
    publishes 0 publish
    ∷ publishes 1 publish
    ∷ unpublishes 0 unpublish
    ∷ unpublishes 1 unpublish
    ∷ []

call_all-Serves_example :
    let (os, q) = call_all nodes calls plugins in
    Serves (λ i. (nodes i).nodename) (usage_of stored plugins.1) calls os (usage_of stored q.1)
call_all-Serves_example = call_all-Serves nodes stored nodes-IsServer nodes-IsApart calls plugins

calls_run : map (λ o. o.good) (call_all nodes calls plugins).0 ≡ true ∷ true ∷ false ∷ true ∷ []
unfolding call_all csi_alcub.Node.Usage.Refines.call_once csi_alcub.Node.Publish.node_publish_volume
    csi_alcub.Node.Publish.node_unpublish_volume csi_alcub.Node.Publish.check_publish
    csi_alcub.Manager.get_by_uuid csi_alcub.Manager.get_name_by_uuid csi_alcub.Base.Dict.lookup
    csi_alcub.Manager.get_by_name csi_alcub.Samples.server csi_alcub.Node.Publish.publish_alcub
    csi_alcub.Node.pre_mount_valid csi_alcub.Node.attach_device csi_alcub.Node.mount_succeeded
    csi_alcub.Manager.update csi_alcub.Node.Publish.check_unpublish
    csi_alcub.Node.Publish.unpublish_alcub csi_alcub.Node.pre_unmount_valid
    csi_alcub.Api.deep_copy_status csi_alcub.Api.copy csi_alcub.Api.deep_copy_spec
    csi_alcub.Node.Publish.finish_publish csi_alcub.Node.Publish.mount_device
    csi_alcub.Node.Publish.needs_mount csi_alcub.Node.Publish.unmount_device
    csi_alcub.Node.detach_device csi_alcub.Node.mount_failed csi_alcub.Node.mounted_status
    csi_alcub.Node.unmount_succeeded csi_alcub.Node.unmounted_status csi_alcub.Samples.remove stored
calls_run = refl

first_takes :
    usage_of stored (call_all nodes (publishes 0 publish ∷ []) plugins).1.1 "pvc-1" ≡ "worker"
unfolding call_all stored csi_alcub.Node.Usage.Refines.call_once
    csi_alcub.Node.Publish.node_publish_volume csi_alcub.Node.Publish.check_publish
    csi_alcub.Manager.get_by_uuid csi_alcub.Manager.get_name_by_uuid csi_alcub.Base.Dict.lookup
    csi_alcub.Manager.get_by_name csi_alcub.Samples.server csi_alcub.Node.Publish.publish_alcub
    csi_alcub.Node.pre_mount_valid csi_alcub.Node.attach_device csi_alcub.Node.mount_succeeded
    csi_alcub.Manager.update csi_alcub.Api.deep_copy_status csi_alcub.Node.mounted_status
first_takes = refl
