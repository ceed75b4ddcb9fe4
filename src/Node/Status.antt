-- ===== src/Node/Status.antt =====
-- The status of a volume as it is mounted and unmounted, by one node plugin or by several.
use csi_alcub.Base.{String, ◌≡◌, List, arith}
use csi_alcub.Api.{CsiAlcubStatus}
use csi_alcub.Node.{Node, mounted_status, unmounted_status}

-- One change of the status, by any node plugin.
pub data Change (W : Type 0) (old new : CsiAlcubStatus) : Type 0 where
  mount :
      (c : Node W) (dev : String) (nodes : List String)
      → new ≡ mounted_status c dev nodes old
      → Change W old new
  unmount : (c : Node W) → new ≡ unmounted_status c old → Change W old new

-- Any number of changes.
pub data Changes (W : Type 0) (start : CsiAlcubStatus) : CsiAlcubStatus → Type 0 where
  here : Changes W start start
  next : {old new : CsiAlcubStatus} → Changes W start old → Change W old new → Changes W start new

module _ {W : Type 0} where
  -- A mount after a clean unmount leaves `prenode` as it is, on whatever nodes the two take place:
  -- it is not filled in by the first mount, nor by a move of the volume from one node to another.
  pub mounted_status-unmounted_status :
      (c d : Node W) (dev : String) (nodes : List String) (old : CsiAlcubStatus)
      → (mounted_status d dev nodes (unmounted_status c old)).prenode ≡ old.prenode
  unfolding mounted_status unmounted_status
  mounted_status-unmounted_status c d dev nodes old = ground arith
