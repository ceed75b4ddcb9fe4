-- ===== src/Ceph/Volumes.antt =====
-- What `CreateVolume` and `DeleteVolume` leave of the images.
use csi_alcub.Base.{String, Bool, true, false, Option, none, some, ◌≡◌, ◌≢◌, ◌⊎◌, inl, inr, arith}
use csi_alcub.Base.Exec.{ok, Result-cases}
use csi_alcub.Process.{Process}
use csi_alcub.Api.{CsiAlcub}
use csi_alcub.Manager
use csi_alcub.Manager.{get_by_uuid, get_by_name, get_name_by_uuid}
use csi_alcub.Rbd.Image
use csi_alcub.Cluster.{labled_nodes}
use csi_alcub.Control.{Controller}
use csi_alcub.Control.Volumes.{delete_volume_of, delete_volume}
use csi_alcub.Registry.Deleting.{delete_leaves}
use csi_alcub.Ceph.{Place}
use csi_alcub.Ceph.Images
use csi_alcub.Ceph.Together.{IsCluster, SameResources, SameImages}

module _ {W : Type 0} (images : W → Place → Bool) (stored : W → String → Option CsiAlcub)
    (c : Controller W) (pools : String → String) (cluster : IsCluster images stored c pools) where
  manager_delete_keeps :
      (name : String) (s : Process W)
      → SameImages images s.world (Manager.delete c.alcub_control name s).1.world
  unfolding Manager.delete
  manager_delete_keeps name s x = elim (Result-cases (c.alcub_control.get name s.world).0) [
    | inr (e, bad) ↦ ground (arith, cluster.get_keeps name s.world x)
    | inl (obj, read) ↦ ground (
      arith,
      cluster.get_keeps name s.world x,
      cluster.delete_keeps obj (c.alcub_control.get name s.world).1 x,
    )
  ]

  get_by_uuid-images :
      (uuid : String) (s : Process W)
      → SameImages images s.world (get_by_uuid c.alcub_control uuid s).1.world
  unfolding get_by_uuid get_by_name
  get_by_uuid-images uuid s x =
      ground (arith, cluster.get_keeps (get_name_by_uuid uuid s.alcub_control) s.world x)

  -- `DeleteVolume` gives back what a volume takes: if it succeeds for a volume that it has found, the
  -- volume's image is gone from the pool of its storage class, and the resource is gone or marked as
  -- being deleted. Whether it succeeds or fails, every other image is as it was.
  pub delete_volume_reclaims :
      (volid : String) (s : Process W) (alcub : CsiAlcub)
      → (get_by_uuid c.alcub_control volid s).0 ≡ some alcub
      → let (r, t) = delete_volume c volid s in
        let image : Place = (pools alcub.spec.rbd_sc, alcub.spec.image) in
        ((x : Place) → image ≢ x → images t.world x ≡ images s.world x)
        × (r ≡ ok tt
            → (images t.world image ≡ false)
              × ((stored t.world alcub.meta.name ≡ none)
                  ⊎ ((new : CsiAlcub) × (stored t.world alcub.meta.name ≡ some new)
                      × (new.meta.deleting ≡ true))))
  unfolding delete_volume delete_volume_of
  delete_volume_reclaims volid s alcub found =
      let class : String = alcub.spec.rbd_sc in
      let image : String = alcub.spec.image in
      let name : String = alcub.meta.name in
      let t = (get_by_uuid c.alcub_control volid s).1 in
      let u = (Image.delete_image c.rbd_host c.rbd class image t).1 in
      let kept = λ (x : Place). manager_delete_keeps name u x in
      (
        (λ x ne. ground (
          arith,
          get_by_uuid-images volid s x,
          Images.delete_image_ne c.rbd_host images pools cluster.home c.rbd class image t x ne,
          kept x,
        )),
        λ good.
            let removed : (Image.delete_image c.rbd_host c.rbd class image t).0 ≡ ok tt =
              ground arith in
            let deleted : (Manager.delete c.alcub_control name u).0 ≡ ok tt = ground arith in
            let gone =
              Images.delete_image_removes c.rbd_host images pools cluster.home c.rbd class image t
                removed in
            let left =
              (delete_leaves c stored cluster.registry cluster.apart name u deleted).after in
            (
              ground (arith, gone, kept (pools class, image)),
              elim left [
                | inl none_left ↦ inl (ground arith)
                | inr (new, there, same, marked) ↦ inr (new, ground arith, marked)
              ],
            ),
      )

  pub labled_nodes-images : (w : W) → SameImages images w (labled_nodes c.node_client c.node w).1
  unfolding labled_nodes
  labled_nodes-images w x = ground (arith, cluster.list_keeps w x)

  pub get_by_name-images :
      (name : String) (s : Process W)
      → let t = (get_by_name c.alcub_control name s).1 in
        SameImages images s.world t.world × SameResources stored s.world t.world
  unfolding get_by_name
  get_by_name-images name s = (
    λ x. ground (arith, cluster.get_keeps name s.world x),
    λ n. ground (arith, cluster.registry.server.get_keeps name s.world n),
  )
