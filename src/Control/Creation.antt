-- ===== src/Control/Creation.antt =====
-- `CreateVolume`.
use csi_alcub.Base.{
  ◌≡◌, refl, ◌⊎◌, inl, inr, true, false, none, some, List, [], ◌∷◌, arith, eq_iff, All,
}
use csi_alcub.Process.{Process}
use csi_alcub.Rpc.{Rejects, VolumeCapability, CreateVolumeRequest}
use csi_alcub.Control.{Controller}
use csi_alcub.Control.Volumes.{asks_for_mount, check_create, create_volume}

-- No capability asks for a mount.
abbrev pub HasNoMount : List VolumeCapability → Type 0
HasNoMount = All (λ ca. ca.mount ≡ none)

-- The request is one that `CreateVolume` must refuse.
abbrev pub IsBad : CreateVolumeRequest → Type 0
IsBad req =
    (req.name ≡ "")
    ⊎ ((req.capabilities ≡ none)
        ⊎ (((caps : List VolumeCapability) × (req.capabilities ≡ some caps) × HasNoMount caps)
            ⊎ (req.has_source ≡ true)))

asks_for_mount_none : (caps : List VolumeCapability) → HasNoMount caps → asks_for_mount caps ≡ false
unfolding asks_for_mount
asks_for_mount_none [] h = refl
asks_for_mount_none (ca ∷ caps) h = ground (arith, asks_for_mount_none caps h.1)

module _ {W : Type 0} (c : Controller W) where
  -- `CreateVolume` refuses a request without a name or without capabilities, one of which no
  -- capability asks for a mount, and one with a content source, by `InvalidArgument`, before it
  -- makes any call.
  pub create_volume-Rejects :
      (req : CreateVolumeRequest) (s : Process W) → IsBad req → Rejects s (create_volume c req s)
  unfolding create_volume check_create
  create_volume-Rejects req s h = elim h [
    | inl no_name ↦ ground (arith, eq_iff req.name "")
    | inr h1 ↦ elim h1 [
      | inl no_caps ↦ ground (arith, eq_iff req.name "")
      | inr h2 ↦ elim h2 [
        | inl (caps, given, no_mount) ↦
            ground (arith, eq_iff req.name "", asks_for_mount_none caps no_mount)
        | inr source ↦ ground (arith, eq_iff req.name "")
      ]
    ]
  ]
