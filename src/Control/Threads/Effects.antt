-- ===== src/Control/Threads/Effects.antt =====
-- What each step of `CreateVolume` does to the images and the resources.
use csi_alcub.Base.{
  String, Bool, Option, refl, ap, inl, inr, arith, eq_iff, ◌==◌, Bool-cases, Option-cases,
}
use csi_alcub.Base.Dict.{lookup}
use csi_alcub.Base.Int.{ℤ}
use csi_alcub.Base.Exec.{GoError, is_ok, Result-cases}
use csi_alcub.Process.{Process}
use csi_alcub.Api.{CsiAlcub, CsiAlcubSpec}
use csi_alcub.Manager.{new_object, get_by_name, reverse_uuid}
use csi_alcub.Rbd.Image
use csi_alcub.Cluster.{labled_nodes}
use csi_alcub.Rpc.{CreateVolumeRequest}
use csi_alcub.Control.{Controller, sc_param}
use csi_alcub.Control.Volumes.{check_create, existing_volume}
use csi_alcub.Ceph.{Place}
use csi_alcub.Ceph.Images
use csi_alcub.Registry.Frame.{create_image_keeps, delete_image_keeps, labled_nodes_keeps}
use csi_alcub.Ceph.Together.{place_of, IsCluster}
use csi_alcub.Control.Threads.{
  At, enters, looks, counts, makes, indexes, stores, releases, undoes, ends, enter, look,
  count_nodes, make, index, store, step,
}
use csi_alcub.Control.Threads.Owners.{owner, IsPlaced, IsCertain, Effect}

module _ {W : Type 0} (images : W → Place → Bool) (stored : W → String → Option CsiAlcub)
    (c : Controller W) (pools : String → String) (cluster : IsCluster images stored c pools)
    (req : CreateVolumeRequest) where
  -- What a step from `a` has to give.
  abbrev Steps : At → Process W → Type 0
  Steps a s =
      let (b, t) = step c req a s in
      Effect images stored (owner a) s.world (owner b) t.world × IsPlaced pools req b

  enter_effect : (s : Process W) → Steps enters s
  unfolding step enter check_create
  enter_effect s =
      (Effect.idle (ground arith) (λ n. ground arith) (λ y e. ground arith), λ spec e. ground arith)

  look_effect : (s : Process W) → Steps looks s
  unfolding step look get_by_name existing_volume
  look_effect s = (
    Effect.idle (ground arith)
        (λ n. ground (arith, cluster.registry.server.get_keeps req.name s.world n))
        (λ y e. ground (arith, cluster.get_keeps req.name s.world y)),
    λ spec e. ground arith,
  )

  count_nodes_effect : (s : Process W) → Steps counts s
  unfolding step count_nodes labled_nodes
  count_nodes_effect s =
      let w = (labled_nodes c.node_client c.node s.world).1 in
      (
        Effect.idle (ground arith)
            (λ n. ground (
              arith,
              labled_nodes_keeps c stored cluster.apart n s.world,
              cluster.apart.uuid_keeps w n,
            ))
            (λ y e. ground (arith, cluster.list_keeps s.world y, cluster.uuid_keeps w y)),
        λ spec e. ground arith,
      )

  make_effect : (volume_id : String) (s : Process W) → Steps (makes volume_id) s
  unfolding step make
  make_effect volume_id s = elim (Option-cases req.parameters) [
    | inl no_params ↦ (
      Effect.idle (ground arith) (λ n. ground arith) (λ y e. ground arith),
      λ spec e. ground arith,
    )
    | inr (params, given) ↦ elim (Option-cases (lookup sc_param params)) [
      | inl no_class ↦ (
        Effect.idle (ground arith) (λ n. ground arith) (λ y e. ground arith),
        λ spec e. ground arith,
      )
      | inr (v, named) ↦
          let size : ℤ = req.required_bytes in
          let same =
            λ (n : String). create_image_keeps c stored cluster.apart n v req.name size s in
          let keeps = λ (y : Place).
            Images.create_image_keeps c.rbd_host images pools cluster.home c.rbd v req.name size s
              y in
          elim (Result-cases (Image.create_image c.rbd_host c.rbd v req.name size s).0) [
            | inr (x, bad) ↦ (
              Effect.idle (ground arith) (λ n. ground (arith, same n))
                  (λ y e. ground (arith, keeps y)),
              λ spec e. ground arith,
            )
            | inl (volume, good) ↦
                let (is, new, made) =
                  Images.create_image_makes c.rbd_host images pools cluster.home c.rbd v req.name
                    size s volume good in
                (
                  Effect.gains (pools v, req.name) (ground arith) new (ground (arith, made))
                      (λ n. ground (arith, same n)) (λ y e. ground (arith, keeps y)),
                  λ spec e. ground arith,
                )
          ]
    ]
  ]

  index_effect :
      (spec : CsiAlcubSpec) (s : Process W)
      → IsPlaced pools req (indexes spec)
      → Steps (indexes spec) s
  unfolding step index reverse_uuid
  index_effect spec s placed = (
    Effect.idle (ground arith) (λ n. ground arith) (λ y e. ground arith),
    λ spec' e. ground (arith, placed spec'),
  )

  store_effect :
      (spec : CsiAlcubSpec) (s : Process W)
      → IsPlaced pools req (stores spec)
      → IsCertain stored c req (stores spec) s
      → Steps (stores spec) s
  unfolding step store new_object
  store_effect spec s placed certain =
      let obj : CsiAlcub = new_object c.alcub_control req.name spec in
      let ne = λ (n : String). cluster.registry.create_ne obj s.world n in
      let keeps = λ (y : Place). cluster.create_keeps obj s.world y in
      elim (Result-cases (c.alcub_control.create obj s.world).0) [
        | inl (_, good) ↦
            let (new, now, as') = cluster.registry.server.create_ok obj s.world good in
            (
              Effect.fills (place_of spec) refl (ground arith)
                  (λ n found e. elim (Bool-cases (req.name == n)) [
                    | inl own ↦ inr (ground (arith, eq_iff req.name n, now, as'.same_spec))
                    | inr other ↦ inl (ground (arith, eq_iff req.name n, ne n))
                  ])
                  (λ y e. ground (arith, keeps y)),
              λ spec' e. ground arith,
            )
        | inr (x, bad) ↦ (
          Effect.idle (ground arith)
              (λ n. elim (Bool-cases (req.name == n)) [
                | inl own ↦ ground (arith, eq_iff req.name n, certain (ap is_ok bad))
                | inr other ↦ ground (arith, eq_iff req.name n, ne n)
              ])
              (λ y e. ground (arith, keeps y)),
          λ spec' e. ground (arith, placed spec'),
        )
      ]

  undo_effect :
      (spec : CsiAlcubSpec) (x : GoError) (s : Process W)
      → IsPlaced pools req (undoes spec x)
      → Steps (undoes spec x) s
  unfolding step
  undo_effect spec x s placed = (
    Effect.drops (place_of spec) refl (ground arith)
        (λ n. ground (arith, delete_image_keeps c stored cluster.apart n spec.rbd_sc req.name s))
        (λ y ne. ground (
          arith,
          placed spec,
          Images.delete_image_ne c.rbd_host images pools cluster.home c.rbd spec.rbd_sc req.name s
              y,
        )),
    λ spec' e. ground arith,
  )

  pub step-Effect :
      (a : At) (s : Process W) → IsPlaced pools req a → IsCertain stored c req a s → Steps a s
  unfolding step
  step-Effect enters s placed certain = enter_effect s
  step-Effect looks s placed certain = look_effect s
  step-Effect counts s placed certain = count_nodes_effect s
  step-Effect (makes volume_id) s placed certain = make_effect volume_id s
  step-Effect (indexes spec) s placed certain = index_effect spec s placed
  step-Effect (stores spec) s placed certain = store_effect spec s placed certain
  step-Effect (releases spec x) s placed certain =
      (Effect.idle (inl refl) (λ n. refl) (λ y e. e), placed)
  step-Effect (undoes spec x) s placed certain = undo_effect spec x s placed
  step-Effect (ends r) s placed certain = (Effect.idle (inl refl) (λ n. refl) (λ y e. e), placed)
