-- ===== src/Samples/Reclaims.antt =====
-- Tests of what the controller does to the images.
use csi_alcub.Base.{
  ℕ, String, Bool, true, false, none, some, Option, List, [], ◌∷◌, ◌≡◌, refl, ◌≢◌, ◌⊎◌, inl, inr,
  arith, eq_iff, ◌∙◌, sym, ap,
}
use csi_alcub.Base.Dict.{Dict, lookup}
use csi_alcub.Base.Exec.{ok}
use csi_alcub.Process.{Process}
use csi_alcub.Api.{CsiAlcub}
use csi_alcub.Manager.{get_by_name, get_by_uuid}
use csi_alcub.Rpc.{VolumeInfo}
use csi_alcub.Control.{sc_param}
use csi_alcub.Control.Volumes.{create_volume, delete_volume}
use csi_alcub.Ceph.{Place}
use csi_alcub.Ceph.Together.{SameImages}
use csi_alcub.Ceph.Volumes.{delete_volume_reclaims}
use csi_alcub.Ceph.Stuck.{HasFailed, create_volume_stuck}
use csi_alcub.Ceph.RoundTrip.{delete_volume-create_volume}
use csi_alcub.Samples.{differ, controller, volume, empty}
use csi_alcub.Samples.Volumes.{request}
use csi_alcub.Samples.Clusters.{Cluster, images, resource, builder, builder-IsCluster, at}

abbrev place : Place
place = ("rbd", "pvc-1")

abbrev built : Process Cluster
built = at (place ∷ []) (volume ∷ []) (("uuid-1", "pvc-1") ∷ [])

built_found : (get_by_uuid builder.alcub_control "uuid-1" built).0 ≡ some volume
unfolding get_by_uuid csi_alcub.Manager.get_name_by_uuid lookup get_by_name
    csi_alcub.Samples.Registry.strict
built_found = refl

delete_volume_reclaims_example :
    let (r, t) = delete_volume builder "uuid-1" built in
    ((x : Place) → place ≢ x → images t.world x ≡ images built.world x)
    × (r ≡ ok tt
        → (images t.world place ≡ false)
          × ((resource t.world "pvc-1" ≡ none)
              ⊎ ((new : CsiAlcub) × (resource t.world "pvc-1" ≡ some new)
                  × (new.meta.deleting ≡ true))))
delete_volume_reclaims_example =
    delete_volume_reclaims images resource builder (λ class. "rbd") builder-IsCluster "uuid-1" built
      volume built_found

abbrev nothing : Process Cluster
nothing = at [] [] []

abbrev created : VolumeInfo
created = record {
  volume_id = "uuid-1";
  capacity_bytes = request.required_bytes;
  volume_context = request.parameters;
  accessible_topology = none;
}

name_free : (get_by_name builder.alcub_control request.name nothing).0 ≡ none
unfolding get_by_name csi_alcub.Samples.Registry.strict csi_alcub.Samples.server
    csi_alcub.Samples.stored
name_free = refl

creation_works : (create_volume builder request nothing).0 ≡ ok created
unfolding create_volume csi_alcub.Control.Volumes.check_create get_by_name
    csi_alcub.Samples.Registry.strict csi_alcub.Control.Volumes.create_new
    csi_alcub.Cluster.labled_nodes csi_alcub.Cluster.in_maps lookup
    csi_alcub.Control.Volumes.create_with_id csi_alcub.Control.Volumes.create_volume_of
    csi_alcub.Rbd.Image.create_image csi_alcub.Rbd.Options.parse_parameters
    csi_alcub.Rbd.Options.read_parameters csi_alcub.Rbd.Options.read_parameter
    csi_alcub.Rbd.Options.read_key csi_alcub.Rbd.Options.option_key csi_alcub.Base.Text.to_lower
    csi_alcub.Rbd.Options.finish_options csi_alcub.Base.Dict.erase csi_alcub.Base.Dict.insert
    csi_alcub.Base.Text.contains csi_alcub.Base.Text.decimal csi_alcub.Base.Text.split
    csi_alcub.Base.Text.swap_letter csi_alcub.Cluster.in_map csi_alcub.Cluster.labled_names
    csi_alcub.Control.Volumes.asks_for_mount csi_alcub.Control.Volumes.create_resource
    csi_alcub.Control.Volumes.existing_volume csi_alcub.Control.Volumes.topologies_of
    csi_alcub.Manager.create csi_alcub.Manager.new_object csi_alcub.Manager.release_uuid
    csi_alcub.Manager.reverse_uuid csi_alcub.Rbd.Image.delete_image csi_alcub.Rbd.Options.find_dns
    csi_alcub.Rbd.Options.is_supported csi_alcub.Rbd.Options.parse_pv_secret
    csi_alcub.Rbd.Options.pick_secret csi_alcub.Rbd.Options.read_features
    csi_alcub.Rbd.Options.resolve_monitor csi_alcub.Rbd.Options.resolve_monitors
    csi_alcub.Rbd.Options.set_monitors csi_alcub.Rbd.Options.set_option
    csi_alcub.Rbd.Util.create_args csi_alcub.Rbd.Util.create_image csi_alcub.Rbd.Util.delete_image
    csi_alcub.Rbd.Util.exec_command csi_alcub.Rbd.Util.kernel_rbd_monitors_opt
    csi_alcub.Rbd.Util.rbd_status csi_alcub.Rbd.Util.read_status csi_alcub.Rbd.Util.rm_args
    csi_alcub.Rbd.Util.status_args csi_alcub.Samples.remove csi_alcub.Samples.server
    csi_alcub.Samples.stored csi_alcub.Samples.Clusters.rbd_command csi_alcub.Samples.Clusters.has
creation_works = refl

-- The resource as it is stored.
abbrev made : CsiAlcub
made = record volume { meta = record volume.meta { resource_version = "" } }

creation_leaves :
    (create_volume builder request nothing).1
    ≡ at (place ∷ []) (made ∷ []) (("uuid-1", "pvc-1") ∷ [])
unfolding create_volume csi_alcub.Control.Volumes.check_create get_by_name
    csi_alcub.Samples.Registry.strict csi_alcub.Control.Volumes.create_new
    csi_alcub.Cluster.labled_nodes csi_alcub.Cluster.in_maps lookup
    csi_alcub.Control.Volumes.create_with_id csi_alcub.Control.Volumes.create_volume_of
    csi_alcub.Rbd.Image.create_image csi_alcub.Rbd.Options.parse_parameters
    csi_alcub.Rbd.Options.read_parameters csi_alcub.Rbd.Options.read_parameter
    csi_alcub.Rbd.Options.read_key csi_alcub.Rbd.Options.option_key csi_alcub.Base.Text.to_lower
    csi_alcub.Rbd.Options.finish_options csi_alcub.Base.Dict.erase csi_alcub.Base.Dict.insert
    csi_alcub.Base.Text.contains csi_alcub.Base.Text.decimal csi_alcub.Base.Text.split
    csi_alcub.Base.Text.swap_letter csi_alcub.Cluster.in_map csi_alcub.Cluster.labled_names
    csi_alcub.Control.Volumes.asks_for_mount csi_alcub.Control.Volumes.create_resource
    csi_alcub.Control.Volumes.existing_volume csi_alcub.Control.Volumes.topologies_of
    csi_alcub.Manager.create csi_alcub.Manager.new_object csi_alcub.Manager.release_uuid
    csi_alcub.Manager.reverse_uuid csi_alcub.Rbd.Image.delete_image csi_alcub.Rbd.Options.find_dns
    csi_alcub.Rbd.Options.is_supported csi_alcub.Rbd.Options.parse_pv_secret
    csi_alcub.Rbd.Options.pick_secret csi_alcub.Rbd.Options.read_features
    csi_alcub.Rbd.Options.resolve_monitor csi_alcub.Rbd.Options.resolve_monitors
    csi_alcub.Rbd.Options.set_monitors csi_alcub.Rbd.Options.set_option
    csi_alcub.Rbd.Util.create_args csi_alcub.Rbd.Util.create_image csi_alcub.Rbd.Util.delete_image
    csi_alcub.Rbd.Util.exec_command csi_alcub.Rbd.Util.kernel_rbd_monitors_opt
    csi_alcub.Rbd.Util.rbd_status csi_alcub.Rbd.Util.read_status csi_alcub.Rbd.Util.rm_args
    csi_alcub.Rbd.Util.status_args csi_alcub.Samples.remove csi_alcub.Samples.server
    csi_alcub.Samples.stored csi_alcub.Samples.Clusters.rbd_command csi_alcub.Samples.Clusters.has
creation_leaves = refl

creation_found :
    let t = (create_volume builder request nothing).1 in
    (get_by_name builder.alcub_control "pvc-1" t).0 ≡ resource t.world "pvc-1"
unfolding get_by_name csi_alcub.Samples.Registry.strict csi_alcub.Samples.server
    csi_alcub.Samples.stored
creation_found =
    let read : (get_by_name builder.alcub_control "pvc-1"
          (at (place ∷ []) (made ∷ []) (("uuid-1", "pvc-1") ∷ []))).0
        ≡ some made =
      refl in
    ap (λ t. (get_by_name builder.alcub_control "pvc-1" t).0) creation_leaves
    ∙ read
    ∙ sym (ap (λ t. resource t.world "pvc-1") creation_leaves)

deletion_works :
    let t = (create_volume builder request nothing).1 in
    (delete_volume builder "uuid-1" t).0 ≡ ok tt
unfolding create_volume delete_volume get_by_uuid csi_alcub.Manager.get_name_by_uuid lookup
    csi_alcub.Control.Volumes.check_create get_by_name csi_alcub.Samples.Registry.strict
    csi_alcub.Control.Volumes.create_new csi_alcub.Cluster.labled_nodes csi_alcub.Cluster.in_maps
    csi_alcub.Control.Volumes.create_with_id csi_alcub.Control.Volumes.create_volume_of
    csi_alcub.Rbd.Image.create_image csi_alcub.Rbd.Options.parse_parameters
    csi_alcub.Rbd.Options.read_parameters csi_alcub.Rbd.Options.read_parameter
    csi_alcub.Rbd.Options.read_key csi_alcub.Base.Dict.erase csi_alcub.Base.Dict.insert
    csi_alcub.Base.Text.contains csi_alcub.Base.Text.decimal csi_alcub.Base.Text.split
    csi_alcub.Base.Text.swap_letter csi_alcub.Base.Text.to_lower csi_alcub.Cluster.in_map
    csi_alcub.Cluster.labled_names csi_alcub.Control.Volumes.asks_for_mount
    csi_alcub.Control.Volumes.create_resource csi_alcub.Control.Volumes.delete_volume_of
    csi_alcub.Control.Volumes.existing_volume csi_alcub.Control.Volumes.topologies_of
    csi_alcub.Manager.create csi_alcub.Manager.delete csi_alcub.Manager.new_object
    csi_alcub.Manager.release_uuid csi_alcub.Manager.reverse_uuid csi_alcub.Rbd.Image.delete_image
    csi_alcub.Rbd.Options.find_dns csi_alcub.Rbd.Options.finish_options
    csi_alcub.Rbd.Options.is_supported csi_alcub.Rbd.Options.option_key
    csi_alcub.Rbd.Options.parse_pv_secret csi_alcub.Rbd.Options.pick_secret
    csi_alcub.Rbd.Options.read_features csi_alcub.Rbd.Options.resolve_monitor
    csi_alcub.Rbd.Options.resolve_monitors csi_alcub.Rbd.Options.set_monitors
    csi_alcub.Rbd.Options.set_option csi_alcub.Rbd.Util.create_args csi_alcub.Rbd.Util.create_image
    csi_alcub.Rbd.Util.delete_image csi_alcub.Rbd.Util.exec_command
    csi_alcub.Rbd.Util.kernel_rbd_monitors_opt csi_alcub.Rbd.Util.rbd_status
    csi_alcub.Rbd.Util.read_status csi_alcub.Rbd.Util.rm_args csi_alcub.Rbd.Util.status_args
    csi_alcub.Samples.remove csi_alcub.Samples.server csi_alcub.Samples.stored
    csi_alcub.Samples.Clusters.rbd_command csi_alcub.Samples.Clusters.has
deletion_works = refl

delete_volume-create_volume_example :
    let t = (create_volume builder request nothing).1 in
    SameImages images nothing.world (delete_volume builder "uuid-1" t).1.world
delete_volume-create_volume_example =
    delete_volume-create_volume images resource builder (λ class. "rbd") builder-IsCluster request
      created nothing name_free creation_works (differ "uuid-1" "" refl) creation_found
      deletion_works

-- The image is there, and no resource.
abbrev pub orphan : Process Cluster
orphan = at (place ∷ []) [] []

orphan_left : images orphan.world ("rbd", "pvc-1") ≡ true
unfolding csi_alcub.Samples.Clusters.has
orphan_left = refl

abbrev fast_class : Dict String
fast_class = ("scname", "fast") ∷ []

names_class : lookup sc_param fast_class ≡ some "fast"
unfolding lookup
names_class = refl

orphan_free : (get_by_name builder.alcub_control "pvc-1" orphan).0 ≡ none
unfolding get_by_name csi_alcub.Samples.Registry.strict csi_alcub.Samples.server
    csi_alcub.Samples.stored
orphan_free = refl

create_volume_stuck_example :
    let (r, t) = create_volume builder request orphan in HasFailed images resource orphan r t
create_volume_stuck_example =
    create_volume_stuck images resource builder (λ class. "rbd") builder-IsCluster request
      fast_class "fast" refl names_class orphan orphan_free orphan_left
