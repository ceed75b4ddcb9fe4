-- ===== src/Control/Threads/Alone.antt =====
-- A call of `CreateVolume` whose steps nothing comes between.
use csi_alcub.Base.{String, ◌≡◌, arith, inl, inr, Option-cases, is_empty, Bool-cases}
use csi_alcub.Base.Dict.{lookup}
use csi_alcub.Base.Exec.{GoError, Result, ok, err, Result-cases}
use csi_alcub.Process.{Process}
use csi_alcub.Api.{CsiAlcubSpec}
use csi_alcub.Manager.{new_object, create, get_by_name, reverse_uuid}
use csi_alcub.Rbd.Image
use csi_alcub.Cluster.{labled_nodes}
use csi_alcub.Rpc.{CreateVolumeRequest}
use csi_alcub.Control.{Controller, sc_param}
use csi_alcub.Control.Volumes.{
  check_create, create_resource, create_volume_of, create_with_id, create_new, create_volume,
}
use csi_alcub.Control.Threads.{
  At, enters, counts, makes, indexes, ends, failed, created, enter, look, count_nodes, make, index,
  store, step, steps,
}

module _ {W : Type 0} (c : Controller W) (req : CreateVolumeRequest) where
  -- Where `CreateVolume` stands once `createVolume` has returned.
  abbrev returned : String → Result GoError CsiAlcubSpec → At
  returned volume_id (ok spec) = ends (ok (created req volume_id))
  returned volume_id (err e) = failed volume_id e

  from_indexes :
      (spec : CsiAlcubSpec) (s : Process W)
      → let p = create_resource c spec.rbd_sc req.name spec s in
        steps c req 4 (indexes spec) s ≡ (returned spec.uuid p.0, p.1)
  unfolding steps step index store create_resource create
  from_indexes spec s = elim (Result-cases (reverse_uuid spec.uuid req.name s.alcub_control).0) [
    | inl (_, indexed) ↦
        elim (Result-cases
          (c.alcub_control.create (new_object c.alcub_control req.name spec) s.world).0) [
            | inl (_, stored) ↦ ground arith
            | inr (e, bad) ↦ ground arith
          ]
    | inr (e, bad) ↦ ground arith
  ]

  from_makes :
      (volume_id : String) (s : Process W)
      → let p = create_with_id c req volume_id s in
        steps c req 5 (makes volume_id) s ≡ (ends p.0, p.1)
  unfolding steps step make create_with_id create_volume_of
  from_makes volume_id s = elim (Option-cases req.parameters) [
    | inl no_params ↦ ground arith
    | inr (params, given) ↦ elim (Option-cases (lookup sc_param params)) [
      | inl no_class ↦ ground arith
      | inr (v, named) ↦
          let made = Image.create_image c.rbd_host c.rbd v req.name req.required_bytes s in
          elim (Result-cases made.0) [
            | inr (e, bad) ↦ ground arith
            | inl (volume, good) ↦
                let spec : CsiAlcubSpec = record {
                  uuid = volume_id;
                  capacity = req.required_bytes;
                  rbd_sc = v;
                  pool = volume.pool;
                  image = volume.image;
                } in
                elim (Result-cases (create_resource c v req.name spec made.1).0) [
                  | inl (_, stored) ↦ ground (arith, from_indexes spec made.1)
                  | inr (e, bad) ↦ ground (arith, from_indexes spec made.1)
                ]
          ]
    ]
  ]

  from_counts :
      (s : Process W) → let p = create_new c req s in steps c req 6 counts s ≡ (ends p.0, p.1)
  unfolding steps step count_nodes create_new
  from_counts s =
      let (nodes, w) = labled_nodes c.node_client c.node s.world in
      let (volume_id, w') = c.new_uuid w in
      elim (Bool-cases (is_empty nodes)) [
        | inl none_labled ↦ ground arith
        | inr labled ↦ ground (arith, from_makes volume_id (record s { world = w' }))
      ]

  -- A call of `CreateVolume` is over after eight steps. With no other call between them, they do and
  -- return what `CreateVolume` does and returns when it is run as one operation.
  pub steps-create_volume :
      (s : Process W) → let p = create_volume c req s in steps c req 8 enters s ≡ (ends p.0, p.1)
  unfolding steps step enter look create_volume
  steps-create_volume s =
      let checked = check_create req s in
      let (found, t) = get_by_name c.alcub_control req.name checked.1 in
      elim (Result-cases checked.0) [
        | inr (e, bad) ↦ ground arith
        | inl (_, good) ↦ elim (Option-cases found) [
          | inl absent ↦ ground (arith, from_counts t)
          | inr (obj, there) ↦ ground arith
        ]
      ]
