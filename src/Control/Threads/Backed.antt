-- ===== src/Control/Threads/Backed.antt =====
-- The images and the resources stay together while calls of `CreateVolume` take turns.
use csi_alcub.Base.{
  ℕ, String, Bool, true, Option, some, List, [], ◌∷◌, ◌≡◌, ◌≢◌, inl, inr, arith, subst,
}
use csi_alcub.Process.{Process}
use csi_alcub.Api.{CsiAlcub}
use csi_alcub.Rpc.{CreateVolumeRequest}
use csi_alcub.Ceph.{Place}
use csi_alcub.Control.{Controller}
use csi_alcub.Ceph.Together.{place_of, IsBacked, IsCluster}
use csi_alcub.Control.Threads.{enters, step, Calls, put, turn, run}
use csi_alcub.Control.Threads.Owners.{owner, IsPlaced, IsCertain, IsCertainRun, Effect, IsSafe}
use csi_alcub.Control.Threads.Effects.{step-Effect}

module _ {W : Type 0} (images : W → Place → Bool) (stored : W → String → Option CsiAlcub)
    (owners owners' : ℕ → Option Place) (i : ℕ) (w w' : W)
    (rest : (j : ℕ) → i ≢ j → owners' j ≡ owners j) where
  Effect-IsBacked :
      Effect images stored (owners i) w (owners' i) w'
      → IsSafe images stored owners w
      → (n : String) (obj : CsiAlcub) → stored w' n ≡ some obj
      → images w' (place_of obj.spec) ≡ true
  Effect-IsBacked (Effect.idle h same keeps) s n obj e =
      ground (arith, same n, s.backed n obj, keeps (place_of obj.spec))
  Effect-IsBacked (Effect.gains x ho new made same keeps) s n obj e =
      ground (arith, same n, s.backed n obj, keeps (place_of obj.spec))
  Effect-IsBacked (Effect.fills x ho ho' puts keeps) s n obj e = elim (puts n obj e) [
    | inl was ↦ keeps (place_of obj.spec) (s.backed n obj was)
    | inr own ↦ ground (arith, keeps x, s.owned i x)
  ]
  Effect-IsBacked (Effect.drops x ho ho' same ne) s n obj e =
      ground (arith, same n, s.backed n obj, s.free i x n obj ho, ne (place_of obj.spec))

  Effect-owned :
      Effect images stored (owners i) w (owners' i) w'
      → IsSafe images stored owners w
      → (j : ℕ) (x : Place) → owners' j ≡ some x
      → images w' x ≡ true
  Effect-owned (Effect.idle h same keeps) s j x e = ground (arith, rest j, s.owned j x, keeps x)
  Effect-owned (Effect.gains y ho new made same keeps) s j x e =
      ground (arith, rest j, s.owned j x, keeps x)
  Effect-owned (Effect.fills y ho ho' puts keeps) s j x e =
      ground (arith, rest j, s.owned j x, keeps x)
  Effect-owned (Effect.drops y ho ho' same ne) s j x e =
      ground (arith, rest j, s.owned j x, ne x, s.apart i j x)

  Effect-free :
      Effect images stored (owners i) w (owners' i) w'
      → IsSafe images stored owners w
      → (j : ℕ) (x : Place) (n : String) (obj : CsiAlcub) → owners' j ≡ some x
      → stored w' n ≡ some obj
      → place_of obj.spec ≢ x
  Effect-free (Effect.idle h same keeps) s j x n obj e there =
      ground (arith, rest j, same n, s.free j x n obj)
  Effect-free (Effect.gains y ho new made same keeps) s j x n obj e there =
      ground (arith, rest j, same n, s.free j x n obj, s.backed n obj)
  Effect-free (Effect.fills y ho ho' puts keeps) s j x n obj e there = elim (puts n obj there) [
    | inl was ↦ ground (arith, rest j, s.free j x n obj)
    | inr own ↦ ground (arith, rest j, s.apart i j x)
  ]
  Effect-free (Effect.drops y ho ho' same ne) s j x n obj e there =
      ground (arith, rest j, same n, s.free j x n obj)

  Effect-apart :
      Effect images stored (owners i) w (owners' i) w'
      → IsSafe images stored owners w
      → (j k : ℕ) (x : Place) → j ≢ k
      → owners' j ≡ some x
      → owners' k ≡ some x
      → ⊥
  Effect-apart (Effect.idle h same keeps) s j k x ne e e' =
      ground (arith, rest j, rest k, s.apart j k x)
  Effect-apart (Effect.gains y ho new made same keeps) s j k x ne e e' =
      ground (arith, rest j, rest k, s.apart j k x, s.owned j x, s.owned k x)
  Effect-apart (Effect.fills y ho ho' puts keeps) s j k x ne e e' =
      ground (arith, rest j, rest k, s.apart j k x)
  Effect-apart (Effect.drops y ho ho' same ne') s j k x ne e e' =
      ground (arith, rest j, rest k, s.apart j k x)

  Effect-IsSafe :
      Effect images stored (owners i) w (owners' i) w'
      → IsSafe images stored owners w
      → IsSafe images stored owners' w'
  Effect-IsSafe effect s = record {
    backed = Effect-IsBacked effect s;
    owned = Effect-owned effect s;
    free = Effect-free effect s;
    apart = Effect-apart effect s;
  }

module _ {W : Type 0} (images : W → Place → Bool) (stored : W → String → Option CsiAlcub)
    (c : Controller W) (pools : String → String) (cluster : IsCluster images stored c pools)
    (reqs : ℕ → CreateVolumeRequest) where
  -- The calls and the world, at some time.
  record IsWell (calls : Calls) (s : Process W) : Type 0 where
    sound : IsSafe images stored (λ i. owner (calls i)) s.world
    placed : (i : ℕ) → IsPlaced pools (reqs i) (calls i)

  turn-IsWell :
      (i : ℕ) (calls : Calls) (s : Process W)
      → IsWell calls s
      → IsCertain stored c (reqs i) (calls i) s
      → let (next, t) = turn c reqs i (calls, s) in IsWell next t
  unfolding turn
  turn-IsWell i calls s well certain =
      let (a, t) = step c (reqs i) (calls i) s in
      let (effect, placed) =
        step-Effect images stored c pools cluster (reqs i) (calls i) s (well.placed i) certain in
      record {
        sound =
            Effect-IsSafe images stored (λ j. owner (calls j)) (λ j. owner (put i a calls j)) i
              s.world t.world (λ j ne. ground arith)
              (subst (λ b. Effect images stored (owner (calls i)) s.world (owner b) t.world)
                (ground arith) effect)
              well.sound;
        placed = λ j spec e. ground (arith, placed spec, well.placed j spec);
      }

  run-IsWell :
      (is : List ℕ) (calls : Calls) (s : Process W)
      → IsWell calls s
      → IsCertainRun stored c reqs is calls s
      → let (now, t) = run c reqs is (calls, s) in IsWell now t
  unfolding run
  run-IsWell [] calls s well certain = well
  run-IsWell (i ∷ is) calls s well certain =
      let (next, t) = turn c reqs i (calls, s) in
      run-IsWell is next t (turn-IsWell i calls s well certain.0) certain.1

  -- However calls of `CreateVolume` take turns, every resource that is stored has its image, if that
  -- was so at the start, the other systems do what `IsCluster` says, and no creation of a resource
  -- that the API server has answered with an error in this run has been stored all the same. At any
  -- time the image that a call has made, and whose resource it has not stored yet, is there, it is
  -- not the image of any resource, and it is no other call's.
  pub run-IsSafe :
      (is : List ℕ) (s : Process W)
      → IsBacked images stored s.world
      → IsCertainRun stored c reqs is (λ i. enters) s
      → let (calls, t) = run c reqs is ((λ i. enters), s) in
        IsSafe images stored (λ i. owner (calls i)) t.world
  run-IsSafe is s backed certain =
      (run-IsWell is (λ i. enters) s
        (record {
          sound = record {
            backed = backed;
            owned = λ i x e. ground arith;
            free = λ i x n obj e there. ground arith;
            apart = λ i j x ne e e'. ground arith;
          };
          placed = λ i spec e. ground arith;
        })
        certain).sound
