-- ===== src/Ceph.antt =====
-- The images of a Ceph cluster, as far as pkg/rbd can tell: which pool has an image of which name, and
-- what the commands and the other calls of the controller do to them.
pub mod Pools
pub mod Commands
pub mod Images
pub mod Together
pub mod Volumes
pub mod Stuck
pub mod RoundTrip
use csi_alcub.Base.{ℕ, String, Bool, true, false, List, [], ◌∷◌, ◌≡◌, ◌≢◌}
use csi_alcub.Base.Dict.{Dict}
use csi_alcub.Base.Text.{contains, to_lower}
use csi_alcub.Base.Exec.{ok}
use csi_alcub.Rbd.{RbdHost, RbdProvisionOptions, image_not_found}
use csi_alcub.Rbd.Options.{OptionKey, option_key}
use csi_alcub.Rbd.Util.{create_args, status_args, rm_args}
use csi_alcub.Rbd.Removal.{Succeeded}
use csi_alcub.Rbd.Quiet.{IsQuiet}

-- A pool and the name of an image in it.
abbrev pub Place : Type 0
Place = String × String

-- The command `rbd`. A creation that succeeds was of a new image; one that fails, by its time limit for
-- one, may have made the image or not, but destroys none. `rbd status` says that there is no such
-- image only if there is none. A removal that succeeds has removed the image. Nothing is done to
-- another image.
pub record IsCeph {W : Type 0} (h : RbdHost W) (images : W → Place → Bool) : Type 0 where
  pub create_ok :
      (u : ℕ) (o : RbdProvisionOptions) (image size : String) (w : W)
      → Succeeded (h.run u "rbd" (create_args o image size) w).0
      → (images w (o.pool, image) ≡ false)
        × (images (h.run u "rbd" (create_args o image size) w).1 (o.pool, image) ≡ true)
  pub create_keeps :
      (u : ℕ) (o : RbdProvisionOptions) (image size : String) (w : W) (x : Place)
      → images w x ≡ true
      → images (h.run u "rbd" (create_args o image size) w).1 x ≡ true
  pub create_ne :
      (u : ℕ) (o : RbdProvisionOptions) (image size : String) (w : W) (x : Place)
      → (o.pool, image) ≢ x
      → images (h.run u "rbd" (create_args o image size) w).1 x ≡ images w x
  pub status_keeps :
      (u : ℕ) (o : RbdProvisionOptions) (image : String) (w : W) (x : Place)
      → images (h.run u "rbd" (status_args o image) w).1 x ≡ images w x
  pub status_missing :
      (u : ℕ) (o : RbdProvisionOptions) (image : String) (w : W)
      → ¬ Succeeded (h.run u "rbd" (status_args o image) w).0
      → contains (h.run u "rbd" (status_args o image) w).0.output image_not_found ≡ true
      → images w (o.pool, image) ≡ false
  pub rm_ok :
      (u : ℕ) (o : RbdProvisionOptions) (image : String) (w : W)
      → Succeeded (h.run u "rbd" (rm_args o image) w).0
      → images (h.run u "rbd" (rm_args o image) w).1 (o.pool, image) ≡ false
  pub rm_ne :
      (u : ℕ) (o : RbdProvisionOptions) (image : String) (w : W) (x : Place)
      → (o.pool, image) ≢ x
      → images (h.run u "rbd" (rm_args o image) w).1 x ≡ images w x

-- The pool that a storage class names: the last of its entries for it, or `pool`.
unfoldable pub class_pool : String → Dict String → String
class_pool pool [] = pool
class_pool pool ((k, v) ∷ ps) =
    class_pool (elim (option_key (to_lower k)) [ OptionKey.pool ↦ v | _ ↦ pool ]) ps

-- The cluster in which the images are: Ceph, calls that only read, and storage classes, whose
-- parameters do not change, so that the class `name` is always of the pool `pools name`.
pub record IsHome {W : Type 0} (h : RbdHost W) (images : W → Place → Bool) (pools : String → String)
    : Type 0 where
  pub ceph : IsCeph h images
  pub quiet : (x : Place) → IsQuiet h (λ w. images w x)
  pub fixed :
      (name : String) (w : W) (ps : Dict String)
      → (h.storage_class name w).0 ≡ ok ps
      → class_pool "rbd" ps ≡ pools name
