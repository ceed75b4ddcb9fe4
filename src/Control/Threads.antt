-- ===== src/Control/Threads.antt =====
-- Several calls of `CreateVolume` at once (pkg/controlrpc/rpc.go, controller.go and
-- pkg/manager/alcubManage.go): each runs in a goroutine of the gRPC server, and all share the process.
-- A step is what a goroutine does up to and including its next call of another component, or its next
-- turn with a lock.
pub mod Alone
pub mod Owners
pub mod Effects
pub mod Backed
use csi_alcub.Base.{
  ℕ, zero, suc, String, ◌<>◌, Option, none, some, List, [], ◌∷◌, nat_eq, is_empty, if◌then◌else◌,
}
use csi_alcub.Base.Dict.{lookup}
use csi_alcub.Base.Exec.{GoError, errorf, Result, ok, err}
use csi_alcub.Process.{Process, on_world, on_control}
use csi_alcub.Api.{CsiAlcubSpec}
use csi_alcub.Manager.{get_by_name, new_object, reverse_uuid, release_uuid, create_error}
use csi_alcub.Rbd.Image.{create_image, delete_image}
use csi_alcub.Cluster.{labled_nodes}
use csi_alcub.Rpc.{unavailable, internal, status, RpcError, CreateVolumeRequest, VolumeInfo}
use csi_alcub.Control.{Controller, sc_param}
use csi_alcub.Control.Volumes.{check_create, existing_volume, topologies_of}

-- Where a call of `CreateVolume` stands: what it does next, with its local variables.
pub data At : Type 0 where
  enters looks counts : At
  makes : String → At
  indexes stores : CsiAlcubSpec → At
  releases undoes : CsiAlcubSpec → GoError → At
  ends : Result RpcError VolumeInfo → At

-- An error of `createVolume`, as `CreateVolume` returns it.
abbrev pub failed : String → GoError → At
failed volume_id e =
    ends (err (status internal ("failed to create volume " <> volume_id <> ", " <> e.message)))

-- The volume of the response.
abbrev pub created : CreateVolumeRequest → String → VolumeInfo
created req volume_id = record {
  volume_id = volume_id;
  capacity_bytes = req.required_bytes;
  volume_context = req.parameters;
  accessible_topology = topologies_of req.accessibility;
}

module _ {W : Type 0} (c : Controller W) (req : CreateVolumeRequest) where
  -- The check of the arguments.
  unfoldable pub enter : Process W → At × Process W
  enter s = let (r, t) = check_create req s in (elim r [ ok _ ↦ looks | err e ↦ ends (err e) ], t)

  -- `GetByName`, and the answer for a volume that is there.
  unfoldable pub look : Process W → At × Process W
  look s =
      let (found, t) = get_by_name c.alcub_control req.name s in
      elim found [
        | some alcub ↦ let (r, u) = existing_volume req alcub t in (ends r, u)
        | none ↦ (counts, t)
      ]

  -- `LabledNodes`, and the volume's id.
  unfoldable pub count_nodes : Process W → At × Process W
  count_nodes s =
      let (nodes, w) = labled_nodes c.node_client c.node s.world in
      let (volume_id, w') = c.new_uuid w in
      if is_empty nodes
      then (
        ends (err (status unavailable "There are not any node can attach volume")),
        record s { world = w },
      )
      else (makes volume_id, record s { world = w' })

  -- `createVolume` up to the call of `CreateImage`.
  unfoldable pub make : String → Process W → At × Process W
  make volume_id s = elim req.parameters [
    | none ↦ (failed volume_id (errorf "params is nil"), s)
    | some params ↦ elim (lookup sc_param params) [
      | none ↦ (failed volume_id (errorf ("not found " <> sc_param <> " in params")), s)
      | some v ↦
          let (r, t) = create_image c.rbd_host c.rbd v req.name req.required_bytes s in
          elim r [
            | err e ↦ (failed volume_id e, t)
            | ok volume ↦ (
              indexes (record {
                uuid = volume_id;
                capacity = req.required_bytes;
                rbd_sc = v;
                pool = volume.pool;
                image = volume.image;
              }),
              t,
            )
          ]
    ]
  ]

  -- `reverseUuid` in `AlcubCon.Create`
  unfoldable pub index : CsiAlcubSpec → Process W → At × Process W
  index spec s =
      let (r, t) = on_control (reverse_uuid spec.uuid req.name) s in
      (elim r [ ok _ ↦ stores spec | err e ↦ undoes spec e ], t)

  -- The client's `Create` in `AlcubCon.Create`.
  unfoldable pub store : CsiAlcubSpec → Process W → At × Process W
  store spec s =
      let (r, t) = on_world (c.alcub_control.create (new_object c.alcub_control req.name spec)) s in
      (
        elim r [
          | ok _ ↦ ends (ok (created req spec.uuid))
          | err e ↦ releases spec (create_error c.alcub_control req.name e)
        ],
        t,
      )

  -- One step.
  unfoldable pub step : At → Process W → At × Process W
  unfolding enter look count_nodes make index store
  step enters s = enter s
  step looks s = look s
  step counts s = count_nodes s
  step (makes volume_id) s = make volume_id s
  step (indexes spec) s = index spec s
  step (stores spec) s = store spec s
  step (releases spec e) s =
      (undoes spec e, record s { alcub_control = release_uuid spec.uuid s.alcub_control })
  step (undoes spec e) s =
      (failed spec.uuid e, (delete_image c.rbd_host c.rbd spec.rbd_sc req.name s).1)
  step (ends r) s = (ends r, s)

  -- So many steps of one call, with nothing in between.
  unfoldable pub steps : ℕ → At → Process W → At × Process W
  steps zero a s = (a, s)
  steps (suc n) a s = let (b, t) = step a s in steps n b t

-- The calls by a number, with where each stands.
abbrev pub Calls : Type 0
Calls = ℕ → At

abbrev pub put : ℕ → At → Calls → Calls
put i a calls j = if nat_eq i j then a else calls j

module _ {W : Type 0} (c : Controller W) (reqs : ℕ → CreateVolumeRequest) where
  -- The call `i` takes a step.
  unfoldable pub turn : ℕ → Calls × Process W → Calls × Process W
  turn i (calls, s) = let (a, t) = step c (reqs i) (calls i) s in (put i a calls, t)

  -- The calls take turns, in any order.
  unfoldable pub run : List ℕ → Calls × Process W → Calls × Process W
  run [] p = p
  run (i ∷ is) p = run is (turn i p)
