-- ===== src/Registry/Volumes.antt =====
-- The RPCs on volumes implement the registry.
use csi_alcub.Base.{
  String, Option, none, some, ◌≡◌, refl, ◌≢◌, ◌∙◌, arith, inl, inr, Option-cases, ap,
}
use csi_alcub.Base.Int.{ℤ}
use csi_alcub.Base.Exec.{ok, Result-cases}
use csi_alcub.Process.{Process}
use csi_alcub.Api.{CsiAlcub}
use csi_alcub.Manager.{get_by_name}
use csi_alcub.Manager.Server.{get_by_name_keeps}
use csi_alcub.Rpc.{CreateVolumeRequest, VolumeInfo}
use csi_alcub.Cluster.{labled_nodes}
use csi_alcub.Control.{Controller}
use csi_alcub.Control.Volumes.{
  check_create, existing_volume, create_volume_of, create_with_id, create_new, create_volume,
}
use csi_alcub.Control.Created.{check_create_keeps}
use csi_alcub.Registry.{IsRegistry, IsApart, Creates, found, fresh, volumes_of, entry_of}
use csi_alcub.Registry.Frame.{labled_nodes_keeps}
use csi_alcub.Registry.Creating.{
  IsFresh, IsFresh-frame, create_volume_of_adds, create_volume_of_others,
}

module _ {W : Type 0} (c : Controller W) (stored : W → String → Option CsiAlcub)
    (reg : IsRegistry c.alcub_control stored) (apart : IsApart c stored) where
  create_with_id_adds :
      (req : CreateVolumeRequest) (uuid : String) (v : VolumeInfo) (s : Process W)
      → (create_with_id c req uuid s).0 ≡ ok v
      → IsFresh c stored reg apart req.name v.volume_id v.capacity_bytes s.world
          (create_with_id c req uuid s).1.world
        × (v.capacity_bytes ≡ req.required_bytes)
  unfolding create_with_id
  create_with_id_adds req uuid v s e =
      let size : ℤ = req.required_bytes in
      elim (Result-cases (create_volume_of c req.parameters req.name uuid size s).0) [
        | inr (x, bad) ↦ absurd (ground arith)
        | inl (sp, good) ↦
            let f =
              create_volume_of_adds c stored reg apart req.parameters req.name uuid size sp s
                good in
            ground (arith, f)
      ]

  create_with_id_others :
      (req : CreateVolumeRequest) (uuid : String) (s : Process W) (n : String)
      → req.name ≢ n
      → stored (create_with_id c req uuid s).1.world n ≡ stored s.world n
  unfolding create_with_id
  create_with_id_others req uuid s n ne = ground (
    arith,
    create_volume_of_others c stored reg apart req.parameters req.name uuid req.required_bytes s n
        ne,
  )

  -- The world in which `CreateVolume` has chosen the id, and leaves the resources alone until then.
  chosen : Process W → Process W
  chosen s = record s { world = (c.new_uuid (labled_nodes c.node_client c.node s.world).1).1 }

  chosen_keeps : (s : Process W) (n : String) → stored (chosen s).world n ≡ stored s.world n
  unfolding chosen
  chosen_keeps s n =
      let w = (labled_nodes c.node_client c.node s.world).1 in
      apart.uuid_keeps w n ∙ labled_nodes_keeps c stored apart n s.world

  create_new_adds :
      (req : CreateVolumeRequest) (v : VolumeInfo) (s : Process W)
      → (create_new c req s).0 ≡ ok v
      → IsFresh c stored reg apart req.name v.volume_id v.capacity_bytes s.world
          (create_new c req s).1.world
        × (v.capacity_bytes ≡ req.required_bytes)
  unfolding create_new chosen
  create_new_adds req v s e =
      let uuid : String = (c.new_uuid (labled_nodes c.node_client c.node s.world).1).0 in
      let runs : create_new c req s ≡ create_with_id c req uuid (chosen s) = ground arith in
      let (f, size) = create_with_id_adds req uuid v (chosen s) (ground (arith, runs)) in
      (
        rw runs (
            IsFresh-frame c stored reg apart req.name v.volume_id v.capacity_bytes s.world
              (chosen s).world (create_with_id c req uuid (chosen s)).1.world
              (chosen_keeps s req.name) f),
        size,
      )

  create_new_others :
      (req : CreateVolumeRequest) (s : Process W) (n : String)
      → req.name ≢ n
      → stored (create_new c req s).1.world n ≡ stored s.world n
  unfolding create_new chosen
  create_new_others req s n ne =
      let uuid : String = (c.new_uuid (labled_nodes c.node_client c.node s.world).1).0 in
      ground (
        arith,
        labled_nodes_keeps c stored apart n s.world,
        chosen_keeps s n,
        create_with_id_others req uuid (chosen s) n ne,
      )

  -- `CreateVolume` never touches the resource of another name, whether it succeeds or fails.
  pub create_volume_others :
      (req : CreateVolumeRequest) (s : Process W) (n : String)
      → req.name ≢ n
      → stored (create_volume c req s).1.world n ≡ stored s.world n
  unfolding create_volume existing_volume
  create_volume_others req s n ne =
      let t : Process W = (get_by_name c.alcub_control req.name s).1 in
      ground (
        arith,
        check_create_keeps c req s,
        get_by_name_keeps c.alcub_control stored reg.server req.name s n,
        create_new_others req t n ne,
      )

  -- A success of `CreateVolume` is a creation in the registry.
  pub create_volume-Creates :
      (req : CreateVolumeRequest) (v : VolumeInfo) (s : Process W)
      → (create_volume c req s).0 ≡ ok v
      → Creates req.name req.required_bytes
          (entry_of (get_by_name c.alcub_control req.name s).0)
          (volumes_of stored s.world)
          v.volume_id
          v.capacity_bytes
          (volumes_of stored (create_volume c req s).1.world)
  unfolding create_volume existing_volume
  create_volume-Creates req v s e = elim (Result-cases (check_create req s).0) [
    | inr (x, bad) ↦ absurd (ground arith)
    | inl (_, checked) ↦
        let same : (check_create req s).1 ≡ s = check_create_keeps c req s in
        let t : Process W = (get_by_name c.alcub_control req.name s).1 in
        elim (Option-cases (get_by_name c.alcub_control req.name s).0) [
          | inr (obj, there) ↦
              let runs : create_volume c req s ≡ existing_volume req obj t = ground arith in
              found
                (record {
                  id = obj.spec.uuid;
                  size = obj.spec.capacity;
                  leaving = obj.meta.deleting;
                })
                (ap entry_of there)
                (ground (arith, runs), ground (arith, runs), ground (arith, runs))
                (λ n.
                  let kept : stored (create_volume c req s).1.world n ≡ stored s.world n = ground (
                    arith,
                    runs,
                    get_by_name_keeps c.alcub_control stored reg.server req.name s n,
                  ) in
                  ap entry_of kept)
          | inl absent ↦
              let runs : create_volume c req s ≡ create_new c req t = ground arith in
              let (f, size) = create_new_adds req v t (ground (arith, runs)) in
              let before : stored s.world req.name ≡ none = ground (
                arith,
                f.was_none,
                get_by_name_keeps c.alcub_control stored reg.server req.name s req.name,
              ) in
              let after : stored (create_volume c req s).1.world req.name ≡ some f.new =
                ground (arith, runs, f.is_now) in
              fresh (ap entry_of absent) (ap entry_of before) size
                (ap entry_of after ∙ rw (f.has_uuid, f.has_size, f.alive) refl)
                (λ n ne. ap entry_of (create_volume_others req s n ne))
        ]
  ]
