-- ===== src/Control/Threads/Owners.antt =====
-- The image that a call of `CreateVolume` has made and for which it has not yet stored a resource,
-- and what one step may do to the images and the resources.
use csi_alcub.Base.{ℕ, String, Bool, true, false, Option, none, some, List, [], ◌∷◌, ◌≡◌, ◌≢◌, ◌⊎◌}
use csi_alcub.Base.Exec.{is_ok}
use csi_alcub.Process.{Process}
use csi_alcub.Manager.{new_object}
use csi_alcub.Control.{Controller}
use csi_alcub.Api.{CsiAlcub, CsiAlcubSpec}
use csi_alcub.Rpc.{CreateVolumeRequest}
use csi_alcub.Ceph.{Place}
use csi_alcub.Ceph.Together.{place_of, IsBacked, SameResources}
use csi_alcub.Control.Threads.{At, Calls, indexes, stores, releases, undoes, turn}

-- The volume for which a call has made the image, and whose resource is not there yet.
abbrev pub spec_of : At → Option CsiAlcubSpec
spec_of (indexes spec) = some spec
spec_of (stores spec) = some spec
spec_of (releases spec e) = some spec
spec_of (undoes spec e) = some spec
spec_of _ = none

-- The image that is a call's own.
abbrev pub owner : At → Option Place
owner a = elim (spec_of a) [ none ↦ none | some spec ↦ some (place_of spec) ]

-- A call's own image is the one of its request, in the pool of its storage class.
abbrev pub IsPlaced : (String → String) → CreateVolumeRequest → At → Type 0
IsPlaced pools req a =
    (spec : CsiAlcubSpec) → spec_of a ≡ some spec → place_of spec ≡ (pools spec.rbd_sc, req.name)

module _ {W : Type 0} (images : W → Place → Bool) (stored : W → String → Option CsiAlcub) where
  abbrev KeepsImages : W → W → Type 0
  KeepsImages w w' = (y : Place) → images w y ≡ true → images w' y ≡ true

  -- What a step may do, of a call that owns `o` before it and `o'` after it.
  pub data Effect (o : Option Place) (w : W) (o' : Option Place) (w' : W) : Type 0 where
    idle : (o' ≡ o) ⊎ (o' ≡ none) → SameResources stored w w' → KeepsImages w w' → Effect o w o' w'
    gains :
        (x : Place)
        → o' ≡ some x
        → images w x ≡ false
        → images w' x ≡ true
        → SameResources stored w w'
        → KeepsImages w w'
        → Effect o w o' w'
    fills :
        (x : Place)
        → o ≡ some x
        → o' ≡ none
        → ((n : String) (obj : CsiAlcub)
            → stored w' n ≡ some obj
            → (stored w n ≡ some obj) ⊎ (place_of obj.spec ≡ x))
        → KeepsImages w w'
        → Effect o w o' w'
    drops :
        (x : Place)
        → o ≡ some x
        → o' ≡ none
        → SameResources stored w w'
        → ((y : Place) → x ≢ y → images w' y ≡ images w y)
        → Effect o w o' w'

  -- Every resource has its image. An image that a call owns is there, it is no resource's, and no
  -- other call owns it.
  pub record IsSafe (owners : ℕ → Option Place) (w : W) : Type 0 where
    pub backed : IsBacked images stored w
    pub owned : (i : ℕ) (x : Place) → owners i ≡ some x → images w x ≡ true
    pub free :
        (i : ℕ) (x : Place) (n : String) (obj : CsiAlcub)
        → owners i ≡ some x
        → stored w n ≡ some obj
        → place_of obj.spec ≢ x
    pub apart : (i j : ℕ) (x : Place) → i ≢ j → owners i ≡ some x → owners j ≡ some x → ⊥

module _ {W : Type 0} (stored : W → String → Option CsiAlcub) (c : Controller W) where
  -- If the next step of a call is the creation of its resource on the API server, and that answers
  -- with an error, then the resource has not been stored. An API server does not promise this: after
  -- a timeout the operation may still complete.
  abbrev pub IsCertain : CreateVolumeRequest → At → Process W → Type 0
  IsCertain req (stores spec) s =
      let (r, w) = c.alcub_control.create (new_object c.alcub_control req.name spec) s.world in
      is_ok r ≡ false → stored w req.name ≡ stored s.world req.name
  IsCertain req _ s = Unit {0}

  -- The same at each turn of a run.
  abbrev pub IsCertainRun : (ℕ → CreateVolumeRequest) → List ℕ → Calls → Process W → Type 0
  IsCertainRun reqs [] calls s = Unit {0}
  IsCertainRun reqs (i ∷ is) calls s =
      let (next, t) = turn c reqs i (calls, s) in
      IsCertain (reqs i) (calls i) s × IsCertainRun reqs is next t
