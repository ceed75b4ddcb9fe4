-- ===== src/Control/Deletion.antt =====
-- `DeleteVolume`.
use csi_alcub.Base.{String, ◌≡◌, ◌≢◌, ◌⊎◌, inl, inr, none, some, arith, eq_iff, Option-cases}
use csi_alcub.Base.Dict.{lookup}
use csi_alcub.Base.Exec.{ok, Result-cases}
use csi_alcub.Process.{Process}
use csi_alcub.Api.{CsiAlcub}
use csi_alcub.Manager
use csi_alcub.Manager.{get_by_name, get_by_uuid, get_name_by_uuid}
use csi_alcub.Rbd.Image
use csi_alcub.Control.{Controller}
use csi_alcub.Control.Volumes.{delete_volume_of, delete_volume}

module _ {W : Type 0} (c : Controller W) (s : Process W) where
  -- `DeleteVolume` goes by the name alone: two uuids that the index holds for one name do the same
  -- to every part of the state, whichever of them the resource carries.
  pub delete_volume_alias :
      (u v name : String)
      → u ≢ ""
      → v ≢ ""
      → lookup u s.alcub_control.uuidname ≡ some name
      → lookup v s.alcub_control.uuidname ≡ some name
      → (delete_volume c u s).1 ≡ (delete_volume c v s).1
  unfolding delete_volume get_by_uuid get_name_by_uuid
  delete_volume_alias u v name hu hv eu ev =
      ground (arith, eq_iff u "", eq_iff v "", eq_iff name "")

  -- What a deletion that succeeds has done to the resource that it has found: it has deleted the
  -- image first, and then the resource.
  pub record Deleted (alcub : CsiAlcub) (t final : Process W) : Type 0 where
    pub image_gone :
        (Image.delete_image c.rbd_host c.rbd alcub.spec.rbd_sc alcub.spec.image t).0 ≡ ok tt
    pub resource_gone :
        Manager.delete c.alcub_control alcub.meta.name
          (Image.delete_image c.rbd_host c.rbd alcub.spec.rbd_sc alcub.spec.image t).1
        ≡ (ok tt, final)

  -- `DeleteVolume` succeeds in two ways only: no resource was found for the uuid, and then nothing
  -- was done, or the image and the resource have both been deleted without an error, the image
  -- first.
  pub delete_volume_ok :
      (volid : String)
      → (delete_volume c volid s).0 ≡ ok tt
      → let (found, t) = get_by_uuid c.alcub_control volid s in
        ((found ≡ none) × ((delete_volume c volid s).1 ≡ t))
        ⊎ ((alcub : CsiAlcub) × (found ≡ some alcub) × Deleted alcub t (delete_volume c volid s).1)
  unfolding delete_volume delete_volume_of
  delete_volume_ok volid e = elim (Option-cases (get_by_uuid c.alcub_control volid s).0) [
    | inl missing ↦ inl (missing, ground arith)
    | inr (alcub, found) ↦
        let t = (get_by_uuid c.alcub_control volid s).1 in
        elim (Result-cases
          (Image.delete_image c.rbd_host c.rbd alcub.spec.rbd_sc alcub.spec.image t).0) [
            | inr (x, bad) ↦ absurd (ground arith)
            | inl (_, good) ↦
                inr (alcub, found, record { image_gone = good; resource_gone = ground arith })
          ]
  ]
