-- ===== src/Node/Usage.antt =====
-- Which node uses which volume: an abstract specification of the node service, for any number of
-- nodes that share the API server.
pub mod Frame
pub mod Refines
use csi_alcub.Base.{ℕ, String, Bool, true, false, List, [], ◌∷◌, Option, none, some, ◌≡◌, ◌≢◌}
use csi_alcub.Process.{Process}
use csi_alcub.Api.{CsiAlcub}
use csi_alcub.Store.{ConfPtr}
use csi_alcub.Rpc.{NodePublishVolumeRequest, NodeUnpublishVolumeRequest}
use csi_alcub.Node.{Node}

-- The node that uses a volume, by the volume's name; it is empty if none does.
abbrev pub Usage : Type 0
Usage = String → String

-- `u'` differs from `u` at most at `name`.
abbrev pub SameBut : String → Usage → Usage → Type 0
SameBut name u u' = (n : String) → name ≢ n → u' n ≡ u n

-- A call of the node service on the node of that number.
pub data Call : Type 0 where
  publishes : ℕ → NodePublishVolumeRequest → Call
  unpublishes : ℕ → NodeUnpublishVolumeRequest → Call

abbrev pub node_of : Call → ℕ
node_of (publishes i req) = i
node_of (unpublishes i req) = i

abbrev pub status_node : Option CsiAlcub → String
status_node none = ""
status_node (some obj) = obj.status.node

-- A call that was served: the name of its volume, the node that the lookup of that volume has shown to
-- the plugin, which reads from a cache, and whether the call has succeeded.
pub record Outcome : Type 0 where
  pub name : String
  pub shown : String
  pub good : Bool

-- What a call of the node `me` may do to the usage. A publication that succeeds takes its volume,
-- whoever used it; an unpublication that succeeds gives up its volume, which the lookup has shown as
-- used by this node. No call changes the node of another volume.
abbrev pub Uses : Call → Outcome → String → Usage → Usage → Type 0
Uses (publishes i req) o me u u' = (o.good ≡ true → u' o.name ≡ me) × SameBut o.name u u'
Uses (unpublishes i req) o me u u' =
    (o.good ≡ true → (o.shown ≡ me) × (u' o.name ≡ "")) × SameBut o.name u u'

-- A sequence of calls with their outcomes, on nodes with those names.
pub data Serves (names : ℕ → String) : Usage → List Call → List Outcome → Usage → Type 0 where
  done : {u : Usage} → Serves names u [] [] u
  then_call :
      {u u' u'' : Usage} {call : Call} {o : Outcome} {calls : List Call} {os : List Outcome}
      → Uses call o (names (node_of call)) u u'
      → Serves names u' calls os u''
      → Serves names u (call ∷ calls) (o ∷ os) u''

module _ {W : Type 0} (stored : W → String → Option CsiAlcub) where
  -- The usage that the resources record.
  abbrev pub usage_of : W → Usage
  usage_of w n = status_node (stored w n)

  -- A node plugin whose calls of the storage servers and of the mount library leave the resources
  -- alone.
  pub record IsApart (c : Node W) : Type 0 where
    pub conn_keeps :
        (conf : ConfPtr) (pool image : String) (s : Process W) (n : String)
        → stored (c.store.do_conn conf pool image s).1.world n ≡ stored s.world n
    pub dis_conn_keeps :
        (conf : ConfPtr) (pool image : String) (s : Process W) (n : String)
        → stored (c.store.do_dis_conn conf pool image s).1.world n ≡ stored s.world n
    pub status_keeps :
        (conf : ConfPtr) (pool image : String) (s : Process W) (n : String)
        → stored (c.store.get_image_status conf pool image s).1.world n ≡ stored s.world n
    pub get_node_keeps :
        (conf : ConfPtr) (node : String) (s : Process W) (n : String)
        → stored (c.store.get_node conf node s).1.world n ≡ stored s.world n
    pub likely_keeps :
        (target : String) (w : W) (n : String)
        → stored (c.mounter.is_likely_not_mount_point target w).1 n ≡ stored w n
    pub mkdir_keeps :
        (target : String) (perm : ℕ) (w : W) (n : String)
        → stored (c.mounter.mkdir_all target perm w).1 n ≡ stored w n
    pub mount_keeps :
        (source target fs : String) (options : List String) (w : W) (n : String)
        → stored (c.mounter.format_and_mount source target fs options w).1 n ≡ stored w n
    pub is_mount_keeps :
        (target : String) (w : W) (n : String)
        → stored (c.mounter.is_not_mount_point target w).1 n ≡ stored w n
    pub unmount_keeps :
        (target : String) (w : W) (n : String)
        → stored (c.mounter.unmount target w).1 n ≡ stored w n
    pub remove_keeps :
        (target : String) (w : W) (n : String)
        → stored (c.mounter.remove_all target w).1 n ≡ stored w n
