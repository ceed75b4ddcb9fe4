-- ===== src/Samples/Volumes.antt =====
-- Tests of the controller's handlers and of the index, in the sample cluster.
use csi_alcub.Base.{
  String, Bool, true, false, Option, none, some, List, [], ◌∷◌, ◌==◌, ◌≡◌, refl, ◌≢◌, ◌⊎◌, inl, inr,
  arith, eq_iff, ◌<>◌,
}
use csi_alcub.Base.Dict.{lookup}
use csi_alcub.Base.Int.{pos}
use csi_alcub.Base.Exec.{ok}
use csi_alcub.Process.{Process}
use csi_alcub.Manager
use csi_alcub.Manager.{get_by_name, get_by_uuid, get_node_info, reverse_node, update, new_object}
use csi_alcub.Rbd.Image
use csi_alcub.Rpc.{VolumeCapability, CreateVolumeRequest, VolumeInfo}
use csi_alcub.Control.{Controller}
use csi_alcub.Control.Notify.{stop_node}
use csi_alcub.Control.Volumes.{asks_for_mount, create_volume, delete_volume, create_resource}
use csi_alcub.Control.Silence.{IsSilent, stop_node-IsSilent}
use csi_alcub.Control.Created.{IsRecorded, create_volume_records}
use csi_alcub.Control.Indexed.{get_by_uuid-create_volume}
use csi_alcub.Control.Deletion.{delete_volume_alias}
use csi_alcub.Control.Creation.{create_volume-Rejects}
use csi_alcub.Rpc.{Rejects}
use csi_alcub.Samples.{
  differ, World, stored, server, server-IsServer, controller, worker, empty, with_volume, volume,
  used_volume, process, parse_ip, address, with_used_volume,
}

abbrev mount_capability : VolumeCapability
mount_capability = record { mount = some (record { fs_type = "ext4"; mount_flags = [] }) }

-- A request for a volume of one GiB.
abbrev pub request : CreateVolumeRequest
request = record {
  name = "pvc-1";
  capabilities = some (mount_capability ∷ []);
  has_source = false;
  required_bytes = pos 1073741824;
  parameters = some (("scname", "fast") ∷ []);
  accessibility = none;
}

abbrev created : VolumeInfo
created = record {
  volume_id = "uuid-1";
  capacity_bytes = pos 1073741824;
  volume_context = some (("scname", "fast") ∷ []);
  accessible_topology = none;
}

create_volume_runs : (create_volume controller request empty).0 ≡ ok created
unfolding create_volume server csi_alcub.Control.Volumes.check_create get_by_name
    csi_alcub.Control.Volumes.create_new csi_alcub.Cluster.labled_nodes csi_alcub.Cluster.in_maps
    lookup csi_alcub.Control.Volumes.create_with_id csi_alcub.Control.Volumes.create_volume_of
    Image.create_image csi_alcub.Rbd.Options.parse_parameters csi_alcub.Rbd.Options.read_parameters
    csi_alcub.Rbd.Options.read_parameter csi_alcub.Rbd.Options.read_key
    csi_alcub.Rbd.Options.option_key csi_alcub.Base.Text.to_lower
    csi_alcub.Rbd.Options.finish_options csi_alcub.Rbd.Util.create_image csi_alcub.Base.Dict.erase
    csi_alcub.Base.Dict.insert csi_alcub.Base.Text.contains csi_alcub.Base.Text.decimal
    csi_alcub.Base.Text.split csi_alcub.Base.Text.swap_letter csi_alcub.Cluster.in_map
    csi_alcub.Cluster.labled_names csi_alcub.Control.Volumes.asks_for_mount create_resource
    csi_alcub.Control.Volumes.existing_volume csi_alcub.Control.Volumes.topologies_of Manager.create
    new_object Manager.release_uuid Manager.reverse_uuid Image.delete_image
    csi_alcub.Rbd.Options.find_dns csi_alcub.Rbd.Options.is_supported
    csi_alcub.Rbd.Options.parse_pv_secret csi_alcub.Rbd.Options.pick_secret
    csi_alcub.Rbd.Options.read_features csi_alcub.Rbd.Options.resolve_monitor
    csi_alcub.Rbd.Options.resolve_monitors csi_alcub.Rbd.Options.set_monitors
    csi_alcub.Rbd.Options.set_option csi_alcub.Rbd.Util.create_args csi_alcub.Rbd.Util.delete_image
    csi_alcub.Rbd.Util.exec_command csi_alcub.Rbd.Util.kernel_rbd_monitors_opt
    csi_alcub.Rbd.Util.rbd_status csi_alcub.Rbd.Util.read_status csi_alcub.Rbd.Util.rm_args
    csi_alcub.Rbd.Util.status_args csi_alcub.Samples.remove stored
create_volume_runs = refl

create_volume_records_example :
    IsRecorded controller stored request created empty (create_volume controller request empty).1
create_volume_records_example =
    create_volume_records controller stored server-IsServer request created empty create_volume_runs

stop_node-IsSilent_example : IsSilent controller (stop_node controller "worker" true empty) empty
stop_node-IsSilent_example = stop_node-IsSilent controller "worker" true empty

delete_volume_runs : (delete_volume controller "uuid-1" with_volume).0 ≡ ok tt
unfolding delete_volume server get_by_uuid Manager.get_name_by_uuid lookup get_by_name
    csi_alcub.Control.Volumes.delete_volume_of Image.delete_image
    csi_alcub.Rbd.Options.parse_parameters csi_alcub.Rbd.Options.read_parameters
    csi_alcub.Rbd.Options.read_parameter csi_alcub.Rbd.Options.read_key
    csi_alcub.Rbd.Options.option_key csi_alcub.Base.Text.to_lower
    csi_alcub.Rbd.Options.finish_options csi_alcub.Rbd.Util.delete_image
    csi_alcub.Base.Text.contains Manager.delete
delete_volume_runs = refl

-- The index holds two uuids for one name.
abbrev with_alias : Process World
with_alias = process (volume ∷ []) (("uuid-0", "pvc-1") ∷ ("uuid-1", "pvc-1") ∷ [])

has_stale : lookup "uuid-0" with_alias.alcub_control.uuidname ≡ some "pvc-1"
unfolding lookup
has_stale = refl

has_current : lookup "uuid-1" with_alias.alcub_control.uuidname ≡ some "pvc-1"
unfolding lookup
has_current = refl

delete_volume_alias_example :
    (delete_volume controller "uuid-0" with_alias).1
    ≡ (delete_volume controller "uuid-1" with_alias).1
delete_volume_alias_example =
    delete_volume_alias controller with_alias "uuid-0" "uuid-1" "pvc-1" (differ "uuid-0" "" refl)
      (differ "uuid-1" "" refl) has_stale has_current

pub name_is_new : (get_by_name server "pvc-1" empty).0 ≡ none
unfolding get_by_name server
name_is_new = refl

get_by_uuid-create_volume_example :
    let t = (create_volume controller request empty).1 in
    get_by_uuid server "uuid-1" t ≡ get_by_name server "pvc-1" t
get_by_uuid-create_volume_example =
    get_by_uuid-create_volume controller request created empty name_is_new (differ "uuid-1" "" refl)
      create_volume_runs

create_volume-Rejects_example :
    Rejects empty (create_volume controller (record request { name = "" }) empty)
create_volume-Rejects_example =
    create_volume-Rejects controller (record request { name = "" }) empty (inl refl)
