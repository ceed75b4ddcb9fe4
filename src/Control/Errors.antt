-- ===== src/Control/Errors.antt =====
-- The errors of `CreateVolume` by their codes.
use csi_alcub.Base.{
  String, ◌<>◌, ◌≡◌, refl, inl, inr, Bool, true, false, none, some, List, [], ◌∷◌, arith, eq_iff,
  Bool-cases, Option-cases, ◌==◌, is_empty,
}
use csi_alcub.Base.Int.{◌≤ℤ◌}
use csi_alcub.Base.Exec.{GoError, err, Result-cases}
use csi_alcub.Process.{Process}
use csi_alcub.Api.{CsiAlcub}
use csi_alcub.Manager.{get_by_name, get_by_uuid}
use csi_alcub.Cluster.{labled_nodes}
use csi_alcub.Rpc.{Code, RpcError, status, VolumeCapability, CreateVolumeRequest}
use csi_alcub.Control.{Controller}
use csi_alcub.Control.Volumes.{
  asks_for_mount, check_create, existing_volume, create_volume_of, create_with_id, create_new,
  create_volume, delete_volume_of, delete_volume,
}
use csi_alcub.Control.Created.{check_create_keeps}
use csi_alcub.Control.Service
use csi_alcub.Control.Creation.{HasNoMount, IsBad}

asks_for_mount-HasNoMount :
    (caps : List VolumeCapability) → asks_for_mount caps ≡ false → HasNoMount caps
unfolding asks_for_mount
asks_for_mount-HasNoMount [] e = tt
asks_for_mount-HasNoMount (ca ∷ caps) e =
    (ground arith, asks_for_mount-HasNoMount caps (ground arith))

check_create-IsBad :
    {S : Type 0} (req : CreateVolumeRequest) (s : S) (e : RpcError)
    → (check_create req s).0 ≡ err e
    → IsBad req
      × ((m : String) × (e ≡ status Code.invalid_argument m))
      × ((check_create req s).1 ≡ s)
unfolding check_create
check_create-IsBad req s e bad = elim (Bool-cases (req.name == "")) [
  | inl no_name ↦ (
    inl (ground (arith, eq_iff req.name "")),
    ("Name missing in request", ground arith),
    ground arith,
  )
  | inr named ↦ elim (Option-cases req.capabilities) [
    | inl no_caps ↦
        (inr (inl no_caps), ("Volume Capabilities missing in request", ground arith), ground arith)
    | inr (caps, given) ↦ elim (Bool-cases (asks_for_mount caps)) [
      | inr no_mount ↦ (
        inr (inr (inl (caps, given, asks_for_mount-HasNoMount caps no_mount))),
        ("cannot support non mount access type", ground arith),
        ground arith,
      )
      | inl mount ↦ (
        inr (inr (inr (ground arith))),
        ("not support create volume from source", ground arith),
        ground arith,
      )
    ]
  ]
]

module _ {W : Type 0} (c : Controller W) (req : CreateVolumeRequest) (s : Process W) where
  -- Why `CreateVolume` has failed, leaving `t`, for each code that it may return.
  pub HasReason : Process W → Code → Type 0
  HasReason t Code.invalid_argument = IsBad req × (t ≡ s)
  HasReason t Code.already_exists =
      (obj : CsiAlcub) × (get_by_name c.alcub_control req.name s ≡ (some obj, t))
      × ¬ (req.required_bytes ≤ℤ obj.spec.capacity)
  HasReason t Code.unavailable =
      let (found, u) = get_by_name c.alcub_control req.name s in
      (found ≡ none) × (is_empty (labled_nodes c.node_client c.node u.world).0 ≡ true)
  HasReason t Code.internal =
      let (found, u) = get_by_name c.alcub_control req.name s in
      let w = (labled_nodes c.node_client c.node u.world).1 in
      let (uuid, w') = c.new_uuid w in
      (found ≡ none)
      × ((x : GoError) × (create_volume_of c req.parameters req.name uuid req.required_bytes
              (record u { world = w' })
            ≡ (err x, t)))
  HasReason t _ = ⊥

  -- Each error of `CreateVolume` is a status, with one of four codes, and each code has one reason:
  -- `InvalidArgument` a request that is bad, and then nothing is done; `AlreadyExists` a volume that
  -- the lookup of the name has found and that is smaller than what is asked for, and then only the
  -- lookup is done; `Unavailable` a lookup that has found nothing, be the name free or the read in
  -- error, and then a listing that has given no node with the label, be there none or the listing in
  -- error; and `Internal` a lookup that has found nothing, and then an error of `createVolume`.
  pub create_volume-HasReason :
      (e : RpcError)
      → (create_volume c req s).0 ≡ err e
      → (code : Code) × ((m : String) × (e ≡ status code m))
        × HasReason (create_volume c req s).1 code
  unfolding create_volume create_new create_with_id existing_volume HasReason
  create_volume-HasReason e bad =
      let same = check_create_keeps c req s in
      let (found, t) = get_by_name c.alcub_control req.name s in
      elim (Result-cases (check_create req s).0) [
        | inr (x, refused) ↦
            let (is_bad, (m, is_status), _) = check_create-IsBad req s x refused in
            (Code.invalid_argument, (m, ground arith), (is_bad, ground arith))
        | inl (_, good) ↦ elim (Option-cases found) [
          | inr (obj, there) ↦ (
            Code.already_exists,
            (
              "Volume with the same name: " <> req.name <> " but with different size already exist",
              ground arith,
            ),
            (obj, ground arith, ground arith),
          )
          | inl absent ↦
              let (nodes, w) = labled_nodes c.node_client c.node t.world in
              let (uuid, w') = c.new_uuid w in
              let u : Process W = record t { world = w' } in
              elim (Bool-cases (is_empty nodes)) [
                | inl no_node ↦ (
                  Code.unavailable,
                  ("There are not any node can attach volume", ground arith),
                  (absent, no_node),
                )
                | inr labled ↦
                    let made =
                      create_volume_of c req.parameters req.name uuid req.required_bytes u in
                    elim (Result-cases made.0) [
                      | inl (sp, worked) ↦ absurd (ground arith)
                      | inr (x, failed) ↦ (
                        Code.internal,
                        ("failed to create volume " <> uuid <> ", " <> x.message, ground arith),
                        (absent, (x, ground arith)),
                      )
                    ]
              ]
        ]
      ]

-- The codes that an RPC of the controller's service may fail with.
abbrev pub may_return : Service.Call → Code → Bool
may_return (Service.creates req) Code.invalid_argument = true
may_return (Service.creates req) Code.already_exists = true
may_return (Service.creates req) Code.unavailable = true
may_return (Service.creates req) Code.internal = true
may_return (Service.deletes volid) Code.internal = true
may_return (Service.idles call) Code.unimplemented = true
may_return _ _ = false

module _ {W : Type 0} (c : Controller W) where
  HasReason-may_return :
      (req : CreateVolumeRequest) (s t : Process W) (code : Code)
      → HasReason c req s t code
      → may_return (Service.creates req) code ≡ true
  unfolding HasReason
  HasReason-may_return req s t Code.invalid_argument r = refl
  HasReason-may_return req s t Code.already_exists r = refl
  HasReason-may_return req s t Code.unavailable r = refl
  HasReason-may_return req s t Code.internal r = refl
  HasReason-may_return req s t Code.not_found r = absurd r
  HasReason-may_return req s t Code.unimplemented r = absurd r

  delete_volume_status :
      (volid : String) (s : Process W) (e : RpcError)
      → (delete_volume c volid s).0 ≡ err e
      → (m : String) × (e ≡ status Code.internal m)
  unfolding delete_volume
  delete_volume_status volid s e bad =
      let (found, t) = get_by_uuid c.alcub_control volid s in
      elim (Option-cases found) [
        | inl missing ↦ absurd (ground arith)
        | inr (alcub, there) ↦ elim (Result-cases (delete_volume_of c alcub t).0) [
          | inl (_, good) ↦ absurd (ground arith)
          | inr (x, failed) ↦
              ("failed to delete volume " <> volid <> ": " <> x.message, ground arith)
        ]
      ]

  -- No RPC of the controller's service returns an error without a gRPC code: every error is a
  -- status, of a code that `may_return` allows the RPC. The capabilities are always returned, and
  -- `DeleteVolume` fails with `Internal` only.
  pub serve-may_return :
      (call : Service.Call) (s : Process W) (e : RpcError)
      → (Service.serve c call s).0 ≡ err e
      → (code : Code) × ((m : String) × (e ≡ status code m)) × (may_return call code ≡ true)
  unfolding Service.serve Service.answer_idle
  serve-may_return (Service.creates req) s e bad =
      let (code, is_status, reason) = create_volume-HasReason c req s e (ground arith) in
      (code, is_status, HasReason-may_return req s _ code reason)
  serve-may_return (Service.deletes volid) s e bad =
      let failed : (delete_volume c volid s).0 ≡ err e = ground arith in
      (Code.internal, delete_volume_status volid s e failed, refl)
  serve-may_return Service.gets_capabilities s e bad = absurd (ground arith)
  serve-may_return (Service.idles call) s e bad = (Code.unimplemented, ("", ground arith), refl)
