-- ===== src/Samples/Turns.antt =====
-- Tests of calls of `CreateVolume` that take turns.
use csi_alcub.Base.{
  ℕ, String, Bool, true, false, none, some, Option, List, [], ◌∷◌, ◌≡◌, refl, ◌≢◌, ◌≤◌, arith,
  if◌then◌else◌, nat_eq,
}
use csi_alcub.Process.{Process}
use csi_alcub.Rpc.{CreateVolumeRequest}
use csi_alcub.Control.Volumes.{create_volume}
use csi_alcub.Control.Threads.{
  At, enters, looks, counts, makes, indexes, stores, releases, undoes, ends, Calls, turn, run,
}
use csi_alcub.Control.Threads.Owners.{owner, IsSafe, IsCertain, IsCertainRun}
use csi_alcub.Control.Threads.Backed.{run-IsSafe}
use csi_alcub.Ceph.Together.{IsBacked}
use csi_alcub.Samples.Volumes.{request}
use csi_alcub.Samples.Clusters.{Cluster, images, resource, builder, builder-IsCluster, at}

abbrev nothing : Process Cluster
nothing = at [] [] []

-- Two calls for one name, and a call for another name.
abbrev requests : ℕ → CreateVolumeRequest
requests i = if nat_eq i 2 then record request { name = "pvc-2" } else request

-- The calls 0 and 1 both look for the name before either creates anything.
abbrev schedule : List ℕ
schedule = 0 ∷ 1 ∷ 0 ∷ 1 ∷ 2 ∷ 0 ∷ 1 ∷ 0 ∷ 1 ∷ 2 ∷ 0 ∷ 1 ∷ 2 ∷ 0 ∷ 1 ∷ 0 ∷ 1 ∷ 2 ∷ 0 ∷ 1 ∷ []

abbrev start : Calls
start i = enters

abbrev final : Calls × Process Cluster
final = run builder requests schedule (start, nothing)

nothing-IsBacked : IsBacked images resource nothing.world
unfolding csi_alcub.Samples.stored
nothing-IsBacked n obj e = absurd (ground arith)

builder-IsCertain :
    (req : CreateVolumeRequest) (a : At) (s : Process Cluster) → IsCertain resource builder req a s
unfolding csi_alcub.Samples.Registry.strict
builder-IsCertain req (stores spec) s = λ bad. ground arith
builder-IsCertain req enters s = tt
builder-IsCertain req looks s = tt
builder-IsCertain req counts s = tt
builder-IsCertain req (makes volume_id) s = tt
builder-IsCertain req (indexes spec) s = tt
builder-IsCertain req (releases spec e) s = tt
builder-IsCertain req (undoes spec e) s = tt
builder-IsCertain req (ends r) s = tt

-- The server of this world stores nothing where it answers with an error.
builder-IsCertainRun :
    (is : List ℕ) (calls : Calls) (s : Process Cluster)
    → IsCertainRun resource builder requests is calls s
builder-IsCertainRun [] calls s = tt
builder-IsCertainRun (i ∷ is) calls s =
    let (next, t) = turn builder requests i (calls, s) in
    (builder-IsCertain (requests i) (calls i) s, builder-IsCertainRun is next t)

run-IsSafe_example : IsSafe images resource (λ i. owner (final.0 i)) final.1.world
run-IsSafe_example =
    run-IsSafe images resource builder (λ class. "rbd") builder-IsCluster requests schedule nothing
      nothing-IsBacked (builder-IsCertainRun schedule start nothing)

-- One of the two calls for the name has made the volume, and the other has failed.
race_images : final.1.world.places ≡ ("rbd", "pvc-2") ∷ ("rbd", "pvc-1") ∷ []
unfolding run turn csi_alcub.Control.Threads.step csi_alcub.Control.Volumes.check_create
    csi_alcub.Manager.get_by_name csi_alcub.Samples.Registry.strict csi_alcub.Cluster.labled_nodes
    csi_alcub.Cluster.in_maps csi_alcub.Base.Dict.lookup csi_alcub.Rbd.Image.create_image
    csi_alcub.Rbd.Options.parse_parameters csi_alcub.Rbd.Options.read_parameters
    csi_alcub.Rbd.Options.read_parameter csi_alcub.Rbd.Options.read_key
    csi_alcub.Rbd.Options.option_key csi_alcub.Base.Text.to_lower
    csi_alcub.Rbd.Options.finish_options csi_alcub.Rbd.Util.create_image csi_alcub.Base.Dict.erase
    csi_alcub.Base.Dict.insert csi_alcub.Base.Text.contains csi_alcub.Base.Text.decimal
    csi_alcub.Base.Text.split csi_alcub.Base.Text.swap_letter csi_alcub.Cluster.in_map
    csi_alcub.Cluster.labled_names csi_alcub.Control.Threads.count_nodes
    csi_alcub.Control.Threads.enter csi_alcub.Control.Threads.index csi_alcub.Control.Threads.look
    csi_alcub.Control.Threads.make csi_alcub.Control.Threads.store
    csi_alcub.Control.Volumes.asks_for_mount csi_alcub.Control.Volumes.existing_volume
    csi_alcub.Control.Volumes.topologies_of csi_alcub.Manager.new_object
    csi_alcub.Manager.release_uuid csi_alcub.Manager.reverse_uuid csi_alcub.Rbd.Image.delete_image
    csi_alcub.Rbd.Options.find_dns csi_alcub.Rbd.Options.is_supported
    csi_alcub.Rbd.Options.parse_pv_secret csi_alcub.Rbd.Options.pick_secret
    csi_alcub.Rbd.Options.read_features csi_alcub.Rbd.Options.resolve_monitor
    csi_alcub.Rbd.Options.resolve_monitors csi_alcub.Rbd.Options.set_monitors
    csi_alcub.Rbd.Options.set_option csi_alcub.Rbd.Util.create_args csi_alcub.Rbd.Util.delete_image
    csi_alcub.Rbd.Util.exec_command csi_alcub.Rbd.Util.kernel_rbd_monitors_opt
    csi_alcub.Rbd.Util.rbd_status csi_alcub.Rbd.Util.read_status csi_alcub.Rbd.Util.rm_args
    csi_alcub.Rbd.Util.status_args csi_alcub.Samples.remove csi_alcub.Samples.server
    csi_alcub.Samples.stored csi_alcub.Samples.Clusters.rbd_command csi_alcub.Samples.Clusters.has
race_images = refl
