-- ===== src/Manager/Server.antt =====
-- What `Update`, `Create` and `Delete` leave on an API server that does what it documents.
use csi_alcub.Base.{String, ◌≡◌, ◌≢◌, inl, inr, Option, none, some, arith, ◌∙◌, sym, eq_iff}
use csi_alcub.Base.Exec.{ok, Result-cases}
use csi_alcub.Process.{Process}
use csi_alcub.Api.{CsiAlcub, CsiAlcubSpec, CsiAlcubStatus, deep_copy_status, deep_copy_status_lem}
use csi_alcub.Manager.{
  AlcubClient, new_object, create, update, reverse_uuid, get_by_name, get_by_uuid, get_name_by_uuid,
}

-- `x` is stored in the state of `y`: the server may have changed its metadata, but not its name.
pub record StoredAs (x y : CsiAlcub) : Type 0 where
  pub same_name : x.meta.name ≡ y.meta.name
  pub same_spec : x.spec ≡ y.spec
  pub same_status : x.status ≡ y.status

-- An API server whose objects are `stored`, by their names. A read changes nothing, and one that
-- succeeds gives an object of that name: the client reads from a cache, so it may not be the one
-- that is stored any more. A write that succeeds, with its retries, stores what was sent; an
-- update leaves the other objects alone. Nothing is assumed of what a failed write has stored under
-- its name, nor that any call succeeds.
pub record IsServer {W : Type 0} (c : AlcubClient W) (stored : W → String → Option CsiAlcub)
    : Type 0 where
  pub get_named :
      (name : String) (w : W) (obj : CsiAlcub) → (c.get name w).0 ≡ ok obj → obj.meta.name ≡ name
  pub get_keeps : (name : String) (w : W) (m : String) → stored (c.get name w).1 m ≡ stored w m
  pub create_ok :
      (obj : CsiAlcub) (w : W)
      → (c.create obj w).0 ≡ ok tt
      → (new : CsiAlcub) × (stored (c.create obj w).1 obj.meta.name ≡ some new) × StoredAs new obj
  pub update_ok :
      (obj : CsiAlcub) (w : W)
      → (c.retry_on_conflict (c.update obj) w).0 ≡ ok tt
      → (new : CsiAlcub) × (stored (c.retry_on_conflict (c.update obj) w).1 obj.meta.name
          ≡ some new)
        × StoredAs new obj
  pub update_ne :
      (obj : CsiAlcub) (w : W) (m : String)
      → obj.meta.name ≢ m
      → stored (c.retry_on_conflict (c.update obj) w).1 m ≡ stored w m

module _ {W : Type 0} (c : AlcubClient W) (stored : W → String → Option CsiAlcub)
    (srv : IsServer c stored) where
  -- `Update` of a status, if it succeeds, stores that status with the spec that the read has given,
  -- and changes no other object.
  pub update_stores :
      (name : String) (stat : CsiAlcubStatus) (s : Process W)
      → (update c name none (some stat) s).0 ≡ ok tt
      → let t = (update c name none (some stat) s).1 in
        (old : CsiAlcub) × (new : CsiAlcub) × ((c.get name s.world).0 ≡ ok old)
        × (stored t.world name ≡ some new)
        × (new.spec ≡ old.spec)
        × (new.status ≡ stat)
        × ((m : String) → name ≢ m → stored t.world m ≡ stored s.world m)
  unfolding update
  update_stores name stat s e = elim (Result-cases (c.get name s.world).0) [
    | inr (x, failed) ↦ absurd (ground arith)
    | inl (old, read) ↦
        let w = (c.get name s.world).1 in
        let sent : CsiAlcub = record old { status = deep_copy_status stat } in
        let named = srv.get_named name s.world old read in
        let wrote : (c.retry_on_conflict (c.update sent) w).0 ≡ ok tt = ground arith in
        let (new, now, same) = srv.update_ok sent w wrote in
        (
          old,
          new,
          read,
          ground (arith, now, named),
          same.same_spec,
          same.same_status ∙ deep_copy_status_lem stat,
          λ m ne.
              let differs : old.meta.name ≢ m = λ q. ne (sym named ∙ q) in
              ground (arith, srv.update_ne sent w m differs, srv.get_keeps name s.world m),
        )
  ]

  -- `Create`, if it succeeds, stores an object of that name with the spec, an empty status and the
  -- finalizer.
  pub create_stores :
      (name : String) (spec : CsiAlcubSpec) (s : Process W)
      → (create c name spec s).0 ≡ ok tt
      → (new : CsiAlcub) × (stored (create c name spec s).1.world name ≡ some new)
        × StoredAs new (new_object c name spec)
  unfolding create
  create_stores name spec s e =
      elim (Result-cases (reverse_uuid spec.uuid name s.alcub_control).0) [
        | inr (x, failed) ↦ absurd (ground arith)
        | inl (_, free) ↦
            let wrote : (c.create (new_object c name spec) s.world).0 ≡ ok tt = ground arith in
            let (new, now, same) = srv.create_ok (new_object c name spec) s.world wrote in
            (new, ground (arith, now), same)
      ]

  -- A lookup by name that finds an object finds one of that name.
  pub get_by_name_found :
      (name : String) (s : Process W) (obj : CsiAlcub)
      → (get_by_name c name s).0 ≡ some obj
      → obj.meta.name ≡ name
  unfolding get_by_name
  get_by_name_found name s obj e = elim (Result-cases (c.get name s.world).0) [
    | inr (x, failed) ↦ absurd (ground arith)
    | inl (old, read) ↦ ground (arith, srv.get_named name s.world obj)
  ]

  pub get_by_name_keeps :
      (name : String) (s : Process W) (m : String)
      → stored (get_by_name c name s).1.world m ≡ stored s.world m
  unfolding get_by_name
  get_by_name_keeps name s m = ground (arith, srv.get_keeps name s.world m)

  -- A lookup by uuid is one by the name that the index holds for it.
  pub get_by_uuid_found :
      (uuid : String) (s : Process W) (obj : CsiAlcub)
      → (get_by_uuid c uuid s).0 ≡ some obj
      → (obj.meta.name ≡ get_name_by_uuid uuid s.alcub_control) × (uuid ≢ "")
  unfolding get_by_uuid get_by_name
  get_by_uuid_found uuid s obj e =
      let name = get_name_by_uuid uuid s.alcub_control in
      let there : (c.get name s.world).0 ≡ ok obj =
        ground (arith, eq_iff uuid "", eq_iff name "") in
      let named = srv.get_named name s.world obj there in (named, ground (arith, eq_iff uuid ""))

  pub get_by_uuid_keeps :
      (uuid name : String) (s : Process W)
      → stored (get_by_uuid c uuid s).1.world name ≡ stored s.world name
  unfolding get_by_uuid get_by_name
  get_by_uuid_keeps uuid name s =
      let n = get_name_by_uuid uuid s.alcub_control in ground (arith, srv.get_keeps n s.world name)
