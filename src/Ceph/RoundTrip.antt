-- ===== src/Ceph/RoundTrip.antt =====
-- `CreateVolume` and then `DeleteVolume`.
use csi_alcub.Base.{
  String, Bool, false, Option, none, some, ◌≡◌, ◌≢◌, ◌∙◌, sym, inl, inr, arith, eq_iff,
  Option-cases,
}
use csi_alcub.Base.Int.{ℤ}
use csi_alcub.Base.Dict.{Dict, lookup}
use csi_alcub.Base.Exec.{ok, Result-cases}
use csi_alcub.Process.{Process}
use csi_alcub.Api.{CsiAlcub, CsiAlcubSpec}
use csi_alcub.Manager
use csi_alcub.Manager.{get_by_uuid, get_by_name, new_object, reverse_uuid}
use csi_alcub.Manager.Server.{create_stores}
use csi_alcub.Rbd.Image
use csi_alcub.Cluster.{labled_nodes}
use csi_alcub.Rpc.{CreateVolumeRequest, VolumeInfo}
use csi_alcub.Control.{Controller, sc_param}
use csi_alcub.Control.Created.{check_create_keeps}
use csi_alcub.Control.Indexed.{get_by_uuid-create_volume}
use csi_alcub.Control.Volumes.{
  check_create, create_resource, create_volume_of, create_with_id, create_new, create_volume,
  delete_volume,
}
use csi_alcub.Ceph.{Place}
use csi_alcub.Ceph.Images
use csi_alcub.Ceph.Together.{IsCluster, SameImages}
use csi_alcub.Ceph.Volumes.{labled_nodes-images, get_by_name-images, delete_volume_reclaims}

module _ {W : Type 0} (images : W → Place → Bool) (stored : W → String → Option CsiAlcub)
    (c : Controller W) (pools : String → String) (cluster : IsCluster images stored c pools) where
  -- A creation of the volume `name` has made its image, and its resource says where that is.
  record IsBuilt (name : String) (w w' : W) : Type 0 where
    class : String
    was_free : images w (pools class, name) ≡ false
    others : (x : Place) → (pools class, name) ≢ x → images w' x ≡ images w x
    obj : CsiAlcub
    is_now : stored w' name ≡ some obj
    of_class : obj.spec.rbd_sc ≡ class
    of_name : obj.spec.image ≡ name

  create_images :
      (name : String) (spec : CsiAlcubSpec) (s : Process W)
      → SameImages images s.world (Manager.create c.alcub_control name spec s).1.world
  unfolding Manager.create
  create_images name spec s x =
      ground (arith, cluster.create_keeps (new_object c.alcub_control name spec) s.world x)

  create_volume_of_builds :
      (params : Option (Dict String)) (name uuid : String) (size : ℤ) (sp : CsiAlcubSpec)
      (s : Process W)
      → (create_volume_of c params name uuid size s).0 ≡ ok sp
      → IsBuilt name s.world (create_volume_of c params name uuid size s).1.world
  unfolding create_volume_of create_resource new_object
  create_volume_of_builds none name uuid size sp s e = absurd (ground arith)
  create_volume_of_builds (some params) name uuid size sp s e =
      elim (Option-cases (lookup sc_param params)) [
        | inl missing ↦ absurd (ground arith)
        | inr (v, given) ↦
            let t = (Image.create_image c.rbd_host c.rbd v name size s).1 in
            elim (Result-cases (Image.create_image c.rbd_host c.rbd v name size s).0) [
              | inr (x, bad) ↦ absurd (ground arith)
              | inl (volume, made) ↦
                  let spec : CsiAlcubSpec = record {
                    uuid = uuid;
                    capacity = size;
                    rbd_sc = v;
                    pool = volume.pool;
                    image = volume.image;
                  } in
                  let (is, free, there) =
                    Images.create_image_makes c.rbd_host images pools cluster.home c.rbd v name size
                      s volume made in
                  elim (Result-cases (Manager.create c.alcub_control name spec t).0) [
                    | inr (x, bad) ↦ absurd (
                        ground
                          (arith, Result-cases (Image.delete_image c.rbd_host c.rbd v name t).0))
                    | inl (_, good) ↦
                        let (obj, now, same) =
                          create_stores c.alcub_control stored cluster.registry.server name spec t
                            good in
                        record {
                          class = v;
                          was_free = free;
                          others = λ x ne. ground (
                            arith,
                            create_images name spec t x,
                            Images.create_image_ne c.rbd_host images pools cluster.home c.rbd v name
                                size s x ne,
                          );
                          obj = obj;
                          is_now = ground (arith, now);
                          of_class = ground (arith, same.same_spec);
                          of_name = ground (arith, same.same_spec, is);
                        }
                  ]
            ]
      ]

  create_volume_builds :
      (req : CreateVolumeRequest) (v : VolumeInfo) (s : Process W)
      → (get_by_name c.alcub_control req.name s).0 ≡ none
      → (create_volume c req s).0 ≡ ok v
      → IsBuilt req.name s.world (create_volume c req s).1.world
  unfolding create_volume create_new create_with_id
  create_volume_builds req v s free e =
      let (same, _) = get_by_name-images images stored c pools cluster req.name s in
      let t = (get_by_name c.alcub_control req.name s).1 in
      let w = (labled_nodes c.node_client c.node t.world).1 in
      let (uuid, w') = c.new_uuid w in
      let u : Process W = record t { world = w' } in
      let kept : SameImages images s.world w' = λ x.
        cluster.uuid_keeps w x
        ∙ labled_nodes-images images stored c pools cluster t.world x
        ∙ same x in
      let size : ℤ = req.required_bytes in
      elim (Result-cases (check_create req s).0) [
        | inr (x, bad) ↦ absurd (ground arith)
        | inl (_, good) ↦
            elim (Result-cases (create_volume_of c req.parameters req.name uuid size u).0) [
              | inr (x, bad) ↦ absurd (ground (arith, check_create_keeps c req s))
              | inl (sp, made) ↦
                  let b = create_volume_of_builds req.parameters req.name uuid size sp u made in
                  let final : (create_volume c req s).1
                      ≡ (create_volume_of c req.parameters req.name uuid size u).1 =
                    ground (arith, check_create_keeps c req s) in
                  record {
                    class = b.class;
                    was_free = sym (kept (pools b.class, req.name)) ∙ b.was_free;
                    others = λ x ne. ground (arith, final, b.others x ne, kept x);
                    obj = b.obj;
                    is_now = ground (arith, final, b.is_now);
                    of_class = b.of_class;
                    of_name = b.of_name;
                  }
            ]
      ]

  -- What `CreateVolume` takes from the cluster, `DeleteVolume` gives back: if a volume has been made
  -- for a name that the lookup did not find, a read of that name then gives the resource as it is
  -- stored, and the deletion by the id of the response succeeds, then every pool has the images that
  -- it had before both calls.
  pub delete_volume-create_volume :
      (req : CreateVolumeRequest) (v : VolumeInfo) (s : Process W)
      → (get_by_name c.alcub_control req.name s).0 ≡ none
      → (create_volume c req s).0 ≡ ok v
      → v.volume_id ≢ ""
      → let t = (create_volume c req s).1 in
        (get_by_name c.alcub_control req.name t).0 ≡ stored t.world req.name
        → (delete_volume c v.volume_id t).0 ≡ ok tt
        → SameImages images s.world (delete_volume c v.volume_id t).1.world
  delete_volume-create_volume req v s free created hv fresh deleted =
      let t = (create_volume c req s).1 in
      let b = create_volume_builds req v s free created in
      let finds = get_by_uuid-create_volume c req v s free hv created in
      let found : (get_by_uuid c.alcub_control v.volume_id t).0 ≡ some b.obj =
        ground (arith, finds, fresh, b.is_now) in
      let (others, gone) =
        delete_volume_reclaims images stored c pools cluster v.volume_id t b.obj found in
      λ x. ground (
        arith,
        b.of_class,
        b.of_name,
        b.was_free,
        (gone deleted).0,
        eq_iff (pools b.class) x.0,
        eq_iff req.name x.1,
        others x,
        b.others x,
      )
