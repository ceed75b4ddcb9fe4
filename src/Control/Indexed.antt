-- ===== src/Control/Indexed.antt =====
-- What `CreateVolume` leaves in the index from uuid to name.
use csi_alcub.Base.{String, ◌≡◌, ◌≢◌, inl, inr, none, arith, eq_iff}
use csi_alcub.Base.Int.{ℤ}
use csi_alcub.Base.Exec.{ok, Result-cases}
use csi_alcub.Process.{Process}
use csi_alcub.Manager.{get_by_name, get_by_uuid}
use csi_alcub.Manager.Index.{get_by_uuid-create}
use csi_alcub.Rpc.{CreateVolumeRequest, VolumeInfo}
use csi_alcub.Cluster.{labled_nodes}
use csi_alcub.Control.{Controller}
use csi_alcub.Control.Volumes.{
  check_create, create_volume_of, create_with_id, create_new, create_volume,
}
use csi_alcub.Control.Created.{Registered, create_volume_of_ok, check_create_keeps}

module _ {W : Type 0} (c : Controller W) where
  Registered-found :
      (name uuid : String) (size : ℤ) (final : Process W)
      → Registered c name uuid size final
      → uuid ≢ ""
      → name ≢ ""
      → get_by_uuid c.alcub_control uuid final ≡ get_by_name c.alcub_control name final
  Registered-found name uuid size final r hu hn =
      let differs : r.spec.uuid ≢ "" = ground (arith, r.has_uuid) in
      let finds = get_by_uuid-create c.alcub_control name r.spec r.before differs hn r.created in
      ground (arith, finds, r.has_uuid, r.leaves)

  create_with_id_found :
      (req : CreateVolumeRequest) (uuid : String) (v : VolumeInfo) (s : Process W)
      → req.name ≢ ""
      → v.volume_id ≢ ""
      → (create_with_id c req uuid s).0 ≡ ok v
      → let t = (create_with_id c req uuid s).1 in
        get_by_uuid c.alcub_control v.volume_id t ≡ get_by_name c.alcub_control req.name t
  unfolding create_with_id
  create_with_id_found req uuid v s hn hv e =
      let size : ℤ = req.required_bytes in
      elim (Result-cases (create_volume_of c req.parameters req.name uuid size s).0) [
        | inr (x, bad) ↦ absurd (ground arith)
        | inl (sp, good) ↦
            let final : Process W = (create_volume_of c req.parameters req.name uuid size s).1 in
            let same : v.volume_id ≡ uuid = ground arith in
            let known : uuid ≢ "" = ground arith in
            let finds =
              Registered-found req.name uuid size final
                (create_volume_of_ok c req.parameters req.name uuid size sp s good) known hn in
            ground (arith, finds, same)
      ]

  -- A volume that `CreateVolume` has made for a new name can be found by the id of the response, if
  -- that is not empty: right afterwards, the lookup by that uuid, which the other handlers start
  -- with, does what the lookup by the name does.
  pub get_by_uuid-create_volume :
      (req : CreateVolumeRequest) (v : VolumeInfo) (s : Process W)
      → (get_by_name c.alcub_control req.name s).0 ≡ none
      → v.volume_id ≢ ""
      → (create_volume c req s).0 ≡ ok v
      → let t = (create_volume c req s).1 in
        get_by_uuid c.alcub_control v.volume_id t ≡ get_by_name c.alcub_control req.name t
  unfolding create_volume create_new check_create
  get_by_uuid-create_volume req v s absent hv e = elim (Result-cases (check_create req s).0) [
    | inr (x, bad) ↦ absurd (ground arith)
    | inl (_, checked) ↦
        let same : (check_create req s).1 ≡ s = check_create_keeps c req s in
        let t : Process W = (get_by_name c.alcub_control req.name s).1 in
        let w = (labled_nodes c.node_client c.node t.world).1 in
        let uuid : String = (c.new_uuid w).0 in
        let r : Process W = record t { world = (c.new_uuid w).1 } in
        let runs : create_volume c req s ≡ create_with_id c req uuid r = ground arith in
        let named : req.name ≢ "" = ground (arith, eq_iff req.name "") in
        let finds = create_with_id_found req uuid v r named hv (ground (arith, runs)) in
        ground (arith, runs, finds)
  ]
