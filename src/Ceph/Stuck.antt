-- ===== src/Ceph/Stuck.antt =====
-- `CreateVolume` where the image is left from an earlier call.
use csi_alcub.Base.{
  String, ◌<>◌, Bool, true, Option, none, some, ◌≡◌, ◌∙◌, inl, inr, arith, eq_iff, is_empty,
  Bool-cases,
}
use csi_alcub.Base.Dict.{Dict, lookup}
use csi_alcub.Base.Int.{ℤ}
use csi_alcub.Base.Exec.{GoError, Result, err, Result-cases}
use csi_alcub.Process.{Process}
use csi_alcub.Api.{CsiAlcub}
use csi_alcub.Manager.{get_by_name}
use csi_alcub.Rbd.Image
use csi_alcub.Cluster.{labled_nodes}
use csi_alcub.Rpc.{status, internal, unavailable, CreateVolumeRequest}
use csi_alcub.Control.{Controller, sc_param}
use csi_alcub.Control.Volumes.{
  check_create, create_volume_of, create_with_id, create_new, create_volume,
}
use csi_alcub.Registry.Frame.{create_image_keeps, labled_nodes_keeps}
use csi_alcub.Ceph.{Place}
use csi_alcub.Ceph.Images
use csi_alcub.Ceph.Together.{IsCluster, SameResources, SameImages}
use csi_alcub.Ceph.Volumes.{labled_nodes-images, get_by_name-images}

module _ {W : Type 0} (images : W → Place → Bool) (stored : W → String → Option CsiAlcub) where
  -- A call that has failed, and has changed neither the images nor the resources.
  pub record HasFailed {E A : Type 0} (s : Process W) (r : Result E A) (t : Process W)
      : Type 0 where
    pub error : E
    pub fails : r ≡ err error
    pub same_images : SameImages images s.world t.world
    pub same_resources : SameResources stored s.world t.world

module _ {W : Type 0} (images : W → Place → Bool) (stored : W → String → Option CsiAlcub)
    (c : Controller W) (pools : String → String) (cluster : IsCluster images stored c pools) where
  module _ (class : String) (size : ℤ) (s : Process W) (name : String)
      (left : images s.world (pools class, name) ≡ true) where
    create_image_stuck :
        let (r, t) = Image.create_image c.rbd_host c.rbd class name size s in
        ((e : GoError) × (r ≡ err e)) × SameImages images s.world t.world
    create_image_stuck =
        let home = cluster.home in
        let (r, t) = Image.create_image c.rbd_host c.rbd class name size s in
        (
          elim (Result-cases r) [
            | inr bad ↦ bad
            | inl (v, good) ↦ absurd (
                ground (
                  arith,
                  Images.create_image_makes c.rbd_host images pools home c.rbd class name size s v
                      good,
                ))
          ],
          λ x. ground (
            arith,
            eq_iff (pools class) x.0,
            eq_iff name x.1,
            Images.create_image_keeps c.rbd_host images pools home c.rbd class name size s x,
            Images.create_image_ne c.rbd_host images pools home c.rbd class name size s x,
          ),
        )

  module _ (req : CreateVolumeRequest) (params : Dict String) (class : String)
      (given : req.parameters ≡ some params) (named : lookup sc_param params ≡ some class) where
    create_with_id_stuck :
        (volume_id : String) (s : Process W)
        → images s.world (pools class, req.name) ≡ true
        → let (r, t) = create_with_id c req volume_id s in HasFailed images stored s r t
    unfolding create_with_id create_volume_of
    create_with_id_stuck volume_id s left =
        let ((e, bad), same) = create_image_stuck class req.required_bytes s req.name left in
        record {
          error = status internal ("failed to create volume " <> volume_id <> ", " <> e.message);
          fails = ground arith;
          same_images = λ x. ground (arith, same x);
          same_resources = λ n. ground (
            arith,
            create_image_keeps c stored cluster.apart n class req.name req.required_bytes s,
          );
        }

    create_new_stuck :
        (s : Process W)
        → images s.world (pools class, req.name) ≡ true
        → let (r, t) = create_new c req s in HasFailed images stored s r t
    unfolding create_new
    create_new_stuck s left =
        let (nodes, w) = labled_nodes c.node_client c.node s.world in
        let (volume_id, w') = c.new_uuid w in
        let u = record s { world = w' } in
        let same : SameImages images s.world w' = λ x.
          cluster.uuid_keeps w x ∙ labled_nodes-images images stored c pools cluster s.world x in
        let resources : SameResources stored s.world w' =
          λ n. cluster.apart.uuid_keeps w n ∙ labled_nodes_keeps c stored cluster.apart n s.world in
        elim (Bool-cases (is_empty nodes)) [
          | inl none_labled ↦ record {
            error = status unavailable "There are not any node can attach volume";
            fails = ground arith;
            same_images =
                λ x. ground (arith, labled_nodes-images images stored c pools cluster s.world x);
            same_resources =
                λ n. ground (arith, labled_nodes_keeps c stored cluster.apart n s.world);
          }
          | inr labled ↦
              let h = create_with_id_stuck volume_id u (same (pools class, req.name) ∙ left) in
              record {
                error = h.error;
                fails = ground (arith, h.fails);
                same_images = λ x. ground (arith, h.same_images x, same x);
                same_resources = λ n. ground (arith, h.same_resources n, resources n);
              }
        ]

    -- An image that is there without a resource stops `CreateVolume`: for a name that the lookup does
    -- not find among the resources, but that is taken among the images of the pool of the request's
    -- class, it fails, and it changes neither the images nor the resources.
    pub create_volume_stuck :
        (s : Process W)
        → (get_by_name c.alcub_control req.name s).0 ≡ none
        → images s.world (pools class, req.name) ≡ true
        → let (r, t) = create_volume c req s in HasFailed images stored s r t
    unfolding create_volume check_create
    create_volume_stuck s free left =
        let t = (get_by_name c.alcub_control req.name s).1 in
        let (same, resources) = get_by_name-images images stored c pools cluster req.name s in
        let h = create_new_stuck t (same (pools class, req.name) ∙ left) in
        elim (Result-cases (check_create req s).0) [
          | inr (e, bad) ↦ record {
            error = e;
            fails = ground arith;
            same_images = λ x. ground arith;
            same_resources = λ n. ground arith;
          }
          | inl (_, good) ↦ record {
            error = h.error;
            fails = ground (arith, h.fails);
            same_images = λ x. ground (arith, h.same_images x, same x);
            same_resources = λ n. ground (arith, h.same_resources n, resources n);
          }
        ]
