-- ===== src/Registry.antt =====
-- An abstract registry of volumes by their names, and
-- what an API server and the other systems must do so that the resources stand for one.
pub mod Frame
pub mod Creating
pub mod Volumes
pub mod Deleting
pub mod Refines
use csi_alcub.Base.{ℕ, String, Bool, true, false, Option, none, some, List, ◌≡◌, ◌≢◌, ◌⊎◌}
use csi_alcub.Base.Int.{ℤ, ltb_ℤ}
use csi_alcub.Base.Dict.{Dict}
use csi_alcub.Base.Exec.{ok}
use csi_alcub.Api.{CsiAlcub}
use csi_alcub.Manager.{AlcubClient}
use csi_alcub.Manager.Server.{IsServer, StoredAs}
use csi_alcub.Control.{Controller}

-- A volume as a client of the controller knows it: its id, its size, and whether its deletion has
-- been asked for.
pub record Entry : Type 0 where
  pub id : String
  pub size : ℤ
  pub leaving : Bool

abbrev pub Volumes : Type 0
Volumes = String → Option Entry

-- `m'` differs from `m` at most at `name`.
abbrev pub SameBut : String → Volumes → Volumes → Type 0
SameBut name m m' = (n : String) → name ≢ n → m' n ≡ m n

-- Creating the volume `name` of at least `size`, where the lookup of the name has shown `shown`, gives
-- the volume `id` of size `got`: the one that was shown, or else a new one, of a name that was free.
pub data Creates (name : String) (size : ℤ) (shown : Option Entry) (m : Volumes) (id : String)
    (got : ℤ) (m' : Volumes) : Type 0 where
  found :
      (e : Entry)
      → shown ≡ some e
      → (e.id ≡ id) × (e.size ≡ got) × (ltb_ℤ got size ≡ false)
      → ((n : String) → m' n ≡ m n)
      → Creates name size shown m id got m'
  fresh :
      shown ≡ none
      → m name ≡ none
      → got ≡ size
      → m' name ≡ some (record { id = id; size = got; leaving = false })
      → SameBut name m m'
      → Creates name size shown m id got m'

-- Deleting the volume `name`, where the lookup has shown `shown`: nothing is done if it has shown
-- none. If it has shown one, the volume is there, and its deletion is asked for, after which it may
-- be gone at once or be there for as long as somebody uses it.
pub data Deletes (name : String) (shown : Option Entry) (m m' : Volumes) : Type 0 where
  absent : shown ≡ none → ((n : String) → m' n ≡ m n) → Deletes name shown m m'
  leaves :
      (seen was : Entry)
      → shown ≡ some seen
      → m name ≡ some was
      → (m' name ≡ none) ⊎ (m' name ≡ some (record was { leaving = true }))
      → SameBut name m m'
      → Deletes name shown m m'

abbrev pub entry_of : Option CsiAlcub → Option Entry
entry_of none = none
entry_of (some obj) =
    some (record { id = obj.spec.uuid; size = obj.spec.capacity; leaving = obj.meta.deleting })

module _ {W : Type 0} where
  -- The volumes that the resources in a world stand for.
  abbrev pub volumes_of : (W → String → Option CsiAlcub) → W → Volumes
  volumes_of stored w n = entry_of (stored w n)

  -- An API server that also keeps names apart: a creation that succeeds was of a new name, and is of
  -- a resource that is not being deleted; a creation and a deletion leave the other objects alone,
  -- whether they succeed or not; and a deletion that succeeds is of an object that was there, and
  -- removes it or marks it.
  pub record IsRegistry (c : AlcubClient W) (stored : W → String → Option CsiAlcub) : Type 0 where
    pub server : IsServer c stored
    pub create_new :
        (obj : CsiAlcub) (w : W) → (c.create obj w).0 ≡ ok tt → stored w obj.meta.name ≡ none
    pub create_alive :
        (obj new : CsiAlcub) (w : W)
        → (c.create obj w).0 ≡ ok tt
        → stored (c.create obj w).1 obj.meta.name ≡ some new
        → new.meta.deleting ≡ false
    pub create_ne :
        (obj : CsiAlcub) (w : W) (n : String)
        → obj.meta.name ≢ n
        → stored (c.create obj w).1 n ≡ stored w n
    pub delete_ok :
        (obj : CsiAlcub) (w : W)
        → (c.retry_on_conflict (c.delete obj) w).0 ≡ ok tt
        → let now = stored (c.retry_on_conflict (c.delete obj) w).1 obj.meta.name in
          (was : CsiAlcub) × (stored w obj.meta.name ≡ some was)
          × ((now ≡ none)
              ⊎ ((new : CsiAlcub) × (now ≡ some new)
                  × (new.spec ≡ was.spec)
                  × (new.meta.deleting ≡ true)))
    pub delete_ne :
        (obj : CsiAlcub) (w : W) (n : String)
        → obj.meta.name ≢ n
        → stored (c.retry_on_conflict (c.delete obj) w).1 n ≡ stored w n

  -- The calls of a controller that are not about its resources leave them alone.
  pub record IsApart (c : Controller W) (stored : W → String → Option CsiAlcub) : Type 0 where
    pub run_keeps :
        (u : ℕ) (command : String) (args : List String) (w : W) (n : String)
        → stored (c.rbd_host.run u command args w).1 n ≡ stored w n
    pub class_keeps :
        (name : String) (w : W) (n : String)
        → stored (c.rbd_host.storage_class name w).1 n ≡ stored w n
    pub secret_keeps :
        (space name : String) (w : W) (n : String)
        → stored (c.rbd_host.secret space name w).1 n ≡ stored w n
    pub dns_keeps : (w : W) (n : String) → stored (c.rbd_host.find_dns_ip w).1 n ≡ stored w n
    pub host_keeps :
        (host dns : String) (w : W) (n : String)
        → stored (c.rbd_host.lookup_host host dns w).1 n ≡ stored w n
    pub list_keeps : (w : W) (n : String) → stored (c.node_client.list w).1 n ≡ stored w n
    pub uuid_keeps : (w : W) (n : String) → stored (c.new_uuid w).1 n ≡ stored w n
