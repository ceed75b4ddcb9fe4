-- ===== src/Samples/Nodes.antt =====
-- Tests of the node plugin's handlers, in the sample cluster.
use csi_alcub.Base.{false, some, [], ◌≡◌, refl, ◌≢◌}
use csi_alcub.Base.Dict.{lookup}
use csi_alcub.Base.Exec.{ok}
use csi_alcub.Api.{CsiAlcub, CsiAlcubStatus}
use csi_alcub.Manager
use csi_alcub.Manager.{get_by_name, get_by_uuid, get_node_info, reverse_node, update, ip_equal}
use csi_alcub.Rpc.{MountVolume, NodePublishVolumeRequest, NodeUnpublishVolumeRequest}
use csi_alcub.Node.{Node, detach_device, pre_mount_valid}
use csi_alcub.Node.Publish.{mount_device, publish_alcub, node_publish_volume, node_unpublish_volume}
use csi_alcub.Store.{null}
use csi_alcub.Node.Laws.{connecting}
use csi_alcub.Node.Records.{node_publish_volume_records, Unpublished, node_unpublish_volume_records}
use csi_alcub.Node.Status
use csi_alcub.Node.Status.{mount, mounted_status-unmounted_status}
use csi_alcub.Samples.{
  World, stored, server, server-IsServer, plugin, with_volume, volume, used_volume,
  with_used_volume,
}

abbrev mount_volume : MountVolume
mount_volume = record { fs_type = "ext4"; mount_flags = [] }

abbrev pub publish : NodePublishVolumeRequest
publish = record {
  volume_id = "uuid-1";
  target_path = "/pods/1";
  capability = some (record { mount = some mount_volume });
  readonly = false;
}

abbrev pub unpublish : NodeUnpublishVolumeRequest
unpublish = record { volume_id = "uuid-1"; target_path = "/pods/1" }

publish_runs : (node_publish_volume plugin publish with_volume).0 ≡ ok tt
unfolding node_publish_volume server csi_alcub.Node.Publish.check_publish get_by_uuid
    Manager.get_name_by_uuid lookup get_by_name publish_alcub pre_mount_valid
    csi_alcub.Node.attach_device csi_alcub.Node.mount_succeeded update
publish_runs = refl

node_publish_volume_records_example :
    (alcub : CsiAlcub) × (new : CsiAlcub) × ((get_by_uuid server "uuid-1" with_volume).0
      ≡ some alcub)
    × (stored (node_publish_volume plugin publish with_volume).1.world alcub.meta.name ≡ some new)
    × (new.status.node ≡ "worker")
    × (new.status.volume_info.storage_ip ≡ "10.0.0.1")
    × (new.status.volume_info.devpath ≢ "")
    × (let t = (get_by_uuid server "uuid-1" with_volume).1 in
        (plugin.store.do_conn null alcub.spec.pool alcub.spec.image (connecting plugin alcub t)).0
        ≡ ok new.status.volume_info.devpath)
node_publish_volume_records_example =
    node_publish_volume_records plugin stored server-IsServer publish with_volume publish_runs

unpublish_runs : (node_unpublish_volume plugin unpublish with_used_volume).0 ≡ ok tt
unfolding node_unpublish_volume server csi_alcub.Node.Publish.check_unpublish get_by_uuid
    Manager.get_name_by_uuid lookup get_by_name csi_alcub.Node.Publish.unpublish_alcub
    csi_alcub.Node.pre_unmount_valid csi_alcub.Node.unmount_succeeded detach_device update
unpublish_runs = refl

node_unpublish_volume_records_example :
    let (found, t) = get_by_uuid server "uuid-1" with_used_volume in
    (alcub : CsiAlcub) × (found ≡ some alcub)
    × Unpublished plugin stored server-IsServer "/pods/1" alcub t
node_unpublish_volume_records_example =
    node_unpublish_volume_records plugin stored server-IsServer unpublish with_used_volume
      unpublish_runs

finds_volume : (get_by_uuid server "uuid-1" with_volume).0 ≡ some volume
unfolding get_by_uuid server Manager.get_name_by_uuid lookup get_by_name
finds_volume = refl

-- A status with a node that was once taken over from.
abbrev moved : CsiAlcubStatus
moved = record used_volume.status { prenode = "old-worker" }

-- The node that takes the volume over.
abbrev pub other : Node World
other = record plugin { nodename = "other"; node_id = "other" }
