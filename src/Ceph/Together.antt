-- ===== src/Ceph/Together.antt =====
-- The images and the resources of the volumes, together: Ceph, the API server and the other calls of
-- a controller.
use csi_alcub.Base.{String, Bool, true, Option, some, ◌≡◌}
use csi_alcub.Api.{CsiAlcub, CsiAlcubSpec}
use csi_alcub.Ceph.{Place, IsHome}
use csi_alcub.Registry.{IsRegistry, IsApart}
use csi_alcub.Control.{Controller}

-- Where the image of a volume is.
abbrev pub place_of : CsiAlcubSpec → Place
place_of spec = (spec.pool, spec.image)

module _ {W : Type 0} (images : W → Place → Bool) (stored : W → String → Option CsiAlcub) where
  -- Every resource has its image.
  abbrev pub IsBacked : W → Type 0
  IsBacked w =
      (n : String) (obj : CsiAlcub) → stored w n ≡ some obj → images w (place_of obj.spec) ≡ true

  -- What the other systems must do so that images and resources stay together: they are those of a
  -- cluster and of a registry, and the calls of the API server leave the images alone.
  pub record IsCluster (c : Controller W) (pools : String → String) : Type 0 where
    pub home : IsHome c.rbd_host images pools
    pub registry : IsRegistry c.alcub_control stored
    pub apart : IsApart c stored
    pub get_keeps :
        (name : String) (w : W) (x : Place) → images (c.alcub_control.get name w).1 x ≡ images w x
    pub create_keeps :
        (obj : CsiAlcub) (w : W) (x : Place)
        → images (c.alcub_control.create obj w).1 x ≡ images w x
    pub delete_keeps :
        (obj : CsiAlcub) (w : W) (x : Place)
        → images (c.alcub_control.retry_on_conflict (c.alcub_control.delete obj) w).1 x ≡ images w x
    pub list_keeps : (w : W) (x : Place) → images (c.node_client.list w).1 x ≡ images w x
    pub uuid_keeps : (w : W) (x : Place) → images (c.new_uuid w).1 x ≡ images w x

module _ {W : Type 0} where
  abbrev pub SameResources : (W → String → Option CsiAlcub) → W → W → Type 0
  SameResources stored w w' = (n : String) → stored w' n ≡ stored w n

  abbrev pub SameImages : (W → Place → Bool) → W → W → Type 0
  SameImages images w w' = (x : Place) → images w' x ≡ images w x
