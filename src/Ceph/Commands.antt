-- ===== src/Ceph/Commands.antt =====
-- What `RBDUtil.CreateImage` and `RBDUtil.DeleteImage` do to the images.
use csi_alcub.Base.{ℕ, String, Bool, true, false, ◌≡◌, ◌≢◌, arith}
use csi_alcub.Base.Text.{decimal}
use csi_alcub.Base.Int.{ℤ}
use csi_alcub.Base.Exec.{ok}
use csi_alcub.Rbd.{RbdHost, RbdProvisionOptions, Volume}
use csi_alcub.Rbd.Util.{mib, create_image, delete_image, exec_command}
use csi_alcub.Rbd.Removal.{delete_image_safe, status_run}
use csi_alcub.Ceph.{Place, IsCeph}

module _ {W : Type 0} (h : RbdHost W) (images : W → Place → Bool) (ceph : IsCeph h images) (u : ℕ)
    (o : RbdProvisionOptions) (image : String) where
  module _ (size : ℤ) (w : W) where
    pub create_image_keeps :
        (x : Place) → images w x ≡ true → images (create_image h u o image size w).1 x ≡ true
    unfolding create_image exec_command
    create_image_keeps x e =
        ground (arith, ceph.create_keeps u o image (decimal (h.round_up_size size mib)) w x e)

    pub create_image_ne :
        (x : Place)
        → (o.pool, image) ≢ x
        → images (create_image h u o image size w).1 x ≡ images w x
    unfolding create_image exec_command
    create_image_ne x e =
        ground (arith, ceph.create_ne u o image (decimal (h.round_up_size size mib)) w x e)

    pub create_image_makes :
        (v : Volume)
        → (create_image h u o image size w).0 ≡ ok v
        → (v ≡ record { pool = o.pool; image = image })
          × (images w (o.pool, image) ≡ false)
          × (images (create_image h u o image size w).1 (o.pool, image) ≡ true)
    unfolding create_image exec_command
    create_image_makes v e =
        ground (arith, ceph.create_ok u o image (decimal (h.round_up_size size mib)) w)

  module _ (w : W) where
    pub delete_image_ne :
        (x : Place) → (o.pool, image) ≢ x → images (delete_image h u o image w).1 x ≡ images w x
    unfolding delete_image exec_command
    delete_image_ne x e =
        let w' = (status_run h u o image w).1 in
        ground (arith, ceph.status_keeps u o image w x, ceph.rm_ne u o image w' x e)

    pub delete_image_removes :
        (delete_image h u o image w).0 ≡ ok tt
        → images (delete_image h u o image w).1 (o.pool, image) ≡ false
    delete_image_removes e =
        let w' = (status_run h u o image w).1 in
        ground (
          arith,
          delete_image_safe h u o image w,
          ceph.status_keeps u o image w (o.pool, image),
          ceph.status_missing u o image w,
          ceph.rm_ok u o image w',
        )
