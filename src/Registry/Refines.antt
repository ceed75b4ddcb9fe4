-- ===== src/Registry/Refines.antt =====
-- Any sequence of calls of the controller, against the registry.
use csi_alcub.Base.{String, Option, ◌≡◌, refl, List, [], ◌∷◌, inl, inr, ap}
use csi_alcub.Base.Int.{ℤ}
use csi_alcub.Base.Exec.{ok, err, Result, Result-cases}
use csi_alcub.Process.{Process}
use csi_alcub.Api.{CsiAlcub}
use csi_alcub.Manager.{get_by_name, get_by_uuid, get_name_by_uuid}
use csi_alcub.Rpc.{RpcError, CreateVolumeRequest, VolumeInfo}
use csi_alcub.Control.{Controller}
use csi_alcub.Control.Volumes.{create_volume, delete_volume}
use csi_alcub.Registry.{
  Entry, Volumes, IsRegistry, IsApart, Creates, Deletes, SameBut, volumes_of, entry_of,
}
use csi_alcub.Registry.Volumes.{create_volume-Creates, create_volume_others}
use csi_alcub.Registry.Deleting.{delete_volume-Deletes, delete_volume_others}

pub data Call : Type 0 where
  create : CreateVolumeRequest → Call
  delete : String → Call

-- What a client sees of the response: the id and the size of the volume, or that the call was done,
-- or that it failed.
pub data Reply : Type 0 where
  created : String → ℤ → Reply
  deleted failed : Reply

-- A call that was served: the name of its volume, what the lookup of that volume has shown to the
-- controller, which reads from a cache, and the reply.
pub record Outcome : Type 0 where
  pub name : String
  pub shown : Option Entry
  pub reply : Reply

-- What a call may do to the registry, with what was shown to it and with its reply. A call that fails,
-- even half way, changes no volume but its own.
pub data Transition (m m' : Volumes) (call : Call) (o : Outcome) : Type 0 where
  creates :
      (req : CreateVolumeRequest) (id : String) (got : ℤ)
      → call ≡ create req
      → o.name ≡ req.name
      → o.reply ≡ created id got
      → Creates req.name req.required_bytes o.shown m id got m'
      → Transition m m' call o
  deletes :
      (volid : String)
      → call ≡ delete volid
      → o.reply ≡ deleted
      → Deletes o.name o.shown m m'
      → Transition m m' call o
  fails : o.reply ≡ failed → SameBut o.name m m' → Transition m m' call o

-- A sequence of calls with their outcomes.
pub data Behaves : Volumes → List Call → List Outcome → Volumes → Type 0 where
  done : {m : Volumes} → Behaves m [] [] m
  then_call :
      {m m' m'' : Volumes} {call : Call} {o : Outcome} {calls : List Call} {os : List Outcome}
      → Transition m m' call o
      → Behaves m' calls os m''
      → Behaves m (call ∷ calls) (o ∷ os) m''

module _ {W : Type 0} (c : Controller W) where
  abbrev pub create_reply : Result RpcError VolumeInfo → Reply
  create_reply (ok v) = created v.volume_id v.capacity_bytes
  create_reply (err e) = failed

  abbrev pub delete_reply : Result RpcError (Unit {0}) → Reply
  delete_reply (ok _) = deleted
  delete_reply (err e) = failed

  -- A creation is of the name of its request; a deletion is of the name that the index holds for the
  -- id of its request.
  pub call_once : Call → Process W → Outcome × Process W
  call_once (create req) s =
      let (r, t) = create_volume c req s in
      (
        record {
          name = req.name;
          shown = entry_of (get_by_name c.alcub_control req.name s).0;
          reply = create_reply r;
        },
        t,
      )
  call_once (delete volid) s =
      let (r, t) = delete_volume c volid s in
      (
        record {
          name = get_name_by_uuid volid s.alcub_control;
          shown = entry_of (get_by_uuid c.alcub_control volid s).0;
          reply = delete_reply r;
        },
        t,
      )

  unfoldable pub call_all : List Call → Process W → List Outcome × Process W
  call_all [] s = ([], s)
  call_all (call ∷ calls) s =
      let (o, t) = call_once call s in let (os, u) = call_all calls t in (o ∷ os, u)

  module _ (stored : W → String → Option CsiAlcub) (reg : IsRegistry c.alcub_control stored)
      (apart : IsApart c stored) where
    call_once-Transition :
        (call : Call) (s : Process W)
        → Transition
            (volumes_of stored s.world)
            (volumes_of stored (call_once call s).1.world)
            call
            (call_once call s).0
    unfolding call_once
    call_once-Transition (create req) s = elim (Result-cases (create_volume c req s).0) [
      | inl (v, good) ↦
          creates req v.volume_id v.capacity_bytes refl refl (ap create_reply good)
            (create_volume-Creates c stored reg apart req v s good)
      | inr (e, bad) ↦
          fails (ap create_reply bad)
            (λ n ne. ap entry_of (create_volume_others c stored reg apart req s n ne))
    ]
    call_once-Transition (delete volid) s = elim (Result-cases (delete_volume c volid s).0) [
      | inl (_, good) ↦
          deletes volid refl (ap delete_reply good)
            (delete_volume-Deletes c stored reg apart volid s good)
      | inr (e, bad) ↦
          fails (ap delete_reply bad)
            (λ n ne. ap entry_of (delete_volume_others c stored reg apart volid s n ne))
    ]

    -- The controller refines the registry: whatever calls of `CreateVolume` and `DeleteVolume` it
    -- serves, one after the other, their outcomes and the volumes in the end are those of some run of
    -- the registry. A creation that succeeds answers with the volume that the lookup has shown, and
    -- then it is large enough and no volume changes, or it has made the volume of its name where there
    -- was none. A deletion that succeeds has changed nothing, if the lookup of the name that the index
    -- holds for its id has shown no volume; else the volume of that name was there, and it is gone or
    -- marked as leaving. No call changes the volume of another name, whether it succeeds or fails.
    -- What the lookup shows may be older than what is stored.
    pub call_all-Behaves :
        (calls : List Call) (s : Process W)
        → Behaves
            (volumes_of stored s.world)
            calls
            (call_all calls s).0
            (volumes_of stored (call_all calls s).1.world)
    unfolding call_all
    call_all-Behaves [] s = done
    call_all-Behaves (call ∷ calls) s =
        then_call (call_once-Transition call s) (call_all-Behaves calls (call_once call s).1)
