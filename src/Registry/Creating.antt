-- ===== src/Registry/Creating.antt =====
-- `CreateVolume` creates a volume of the registry.
use csi_alcub.Base.{
  String, Option, none, some, ◌≡◌, refl, ◌≢◌, ◌∙◌, sym, arith, inl, inr, Option-cases, false,
}
use csi_alcub.Base.Dict.{Dict, lookup}
use csi_alcub.Base.Int.{ℤ}
use csi_alcub.Base.Exec.{ok, Result-cases}
use csi_alcub.Process.{Process}
use csi_alcub.Api.{CsiAlcub, CsiAlcubSpec}
use csi_alcub.Manager
use csi_alcub.Manager.{new_object, get_by_name, reverse_uuid}
use csi_alcub.Rbd.Image
use csi_alcub.Control.{Controller, sc_param}
use csi_alcub.Control.Volumes.{create_resource, create_volume_of}
use csi_alcub.Registry.{IsRegistry, IsApart}
use csi_alcub.Registry.Frame.{create_image_keeps, delete_image_keeps}

module _ {W : Type 0} (c : Controller W) (stored : W → String → Option CsiAlcub)
    (reg : IsRegistry c.alcub_control stored) (apart : IsApart c stored) where
  -- There was no resource `name`, and there is one now, with that uuid and size.
  pub record IsFresh (name uuid : String) (size : ℤ) (w w' : W) : Type 0 where
    pub was_none : stored w name ≡ none
    pub new : CsiAlcub
    pub is_now : stored w' name ≡ some new
    pub has_uuid : new.spec.uuid ≡ uuid
    pub has_size : new.spec.capacity ≡ size
    pub alive : new.meta.deleting ≡ false

  create_adds :
      (name : String) (spec : CsiAlcubSpec) (s : Process W)
      → (Manager.create c.alcub_control name spec s).0 ≡ ok tt
      → IsFresh name spec.uuid spec.capacity s.world
          (Manager.create c.alcub_control name spec s).1.world
  unfolding Manager.create new_object
  create_adds name spec s e = elim (Result-cases (reverse_uuid spec.uuid name s.alcub_control).0) [
    | inr (x, failed) ↦ absurd (ground arith)
    | inl (_, free) ↦
        let obj : CsiAlcub = new_object c.alcub_control name spec in
        let wrote : (c.alcub_control.create obj s.world).0 ≡ ok tt = ground arith in
        let (new, now, same) = reg.server.create_ok obj s.world wrote in
        let alive = reg.create_alive obj new s.world wrote now in
        record {
          was_none = reg.create_new obj s.world wrote;
          new = new;
          is_now = ground (arith, now);
          has_uuid = ground (arith, same.same_spec);
          has_size = ground (arith, same.same_spec);
          alive = alive;
        }
  ]

  create_others :
      (name : String) (spec : CsiAlcubSpec) (s : Process W) (n : String)
      → name ≢ n
      → stored (Manager.create c.alcub_control name spec s).1.world n ≡ stored s.world n
  unfolding Manager.create new_object
  create_others name spec s n ne =
      ground (arith, reg.create_ne (new_object c.alcub_control name spec) s.world n ne)

  create_resource_adds :
      (class name : String) (spec sp : CsiAlcubSpec) (s : Process W)
      → (create_resource c class name spec s).0 ≡ ok sp
      → IsFresh name spec.uuid spec.capacity s.world (create_resource c class name spec s).1.world
  unfolding create_resource
  create_resource_adds class name spec sp s e =
      elim (Result-cases (Manager.create c.alcub_control name spec s).0) [
        | inr (x, bad) ↦
            absurd
              (ground (arith, Result-cases (Image.delete_image c.rbd_host c.rbd class name s).0))
        | inl (_, good) ↦
            let same : create_resource c class name spec s
                ≡ (ok spec, (Manager.create c.alcub_control name spec s).1) =
              ground arith in
            rw same (create_adds name spec s good)
      ]

  create_resource_others :
      (class name : String) (spec : CsiAlcubSpec) (s : Process W) (n : String)
      → name ≢ n
      → stored (create_resource c class name spec s).1.world n ≡ stored s.world n
  unfolding create_resource
  create_resource_others class name spec s n ne =
      let t : Process W = (Manager.create c.alcub_control name spec s).1 in
      ground
        (arith, create_others name spec s n ne, delete_image_keeps c stored apart n class name t)

  pub IsFresh-frame :
      (name uuid : String) (size : ℤ) (w w' w'' : W)
      → stored w' name ≡ stored w name
      → IsFresh name uuid size w' w''
      → IsFresh name uuid size w w''
  IsFresh-frame name uuid size w w' w'' same f = record {
    was_none = sym same ∙ f.was_none;
    new = f.new;
    is_now = f.is_now;
    has_uuid = f.has_uuid;
    has_size = f.has_size;
    alive = f.alive;
  }

  pub create_volume_of_adds :
      (params : Option (Dict String)) (name uuid : String) (size : ℤ) (sp : CsiAlcubSpec)
      (s : Process W)
      → (create_volume_of c params name uuid size s).0 ≡ ok sp
      → IsFresh name uuid size s.world (create_volume_of c params name uuid size s).1.world
  unfolding create_volume_of
  create_volume_of_adds none name uuid size sp s e = absurd (ground arith)
  create_volume_of_adds (some params) name uuid size sp s e =
      elim (Option-cases (lookup sc_param params)) [
        | inl missing ↦ absurd (ground arith)
        | inr (v, given) ↦
            elim (Result-cases (Image.create_image c.rbd_host c.rbd v name size s).0) [
              | inr (x, bad) ↦ absurd (ground arith)
              | inl (volume, made) ↦
                  let t : Process W = (Image.create_image c.rbd_host c.rbd v name size s).1 in
                  let spec : CsiAlcubSpec = record {
                    uuid = uuid;
                    capacity = size;
                    rbd_sc = v;
                    pool = volume.pool;
                    image = volume.image;
                  } in
                  let runs : create_volume_of c (some params) name uuid size s
                      ≡ create_resource c v name spec t =
                    ground arith in
                  let r = create_resource_adds v name spec sp t (ground (arith, runs)) in
                  rw runs (
                    IsFresh-frame name uuid size s.world t.world
                      (create_resource c v name spec t).1.world
                      (create_image_keeps c stored apart name v name size s) r)
            ]
      ]

  pub create_volume_of_others :
      (params : Option (Dict String)) (name uuid : String) (size : ℤ) (s : Process W) (n : String)
      → name ≢ n
      → stored (create_volume_of c params name uuid size s).1.world n ≡ stored s.world n
  unfolding create_volume_of
  create_volume_of_others none name uuid size s n ne = refl
  create_volume_of_others (some params) name uuid size s n ne =
      elim (Option-cases (lookup sc_param params)) [
        | inl missing ↦ ground arith
        | inr (v, given) ↦
            let t : Process W = (Image.create_image c.rbd_host c.rbd v name size s).1 in
            let same = create_image_keeps c stored apart n v name size s in
            elim (Result-cases (Image.create_image c.rbd_host c.rbd v name size s).0) [
              | inr (x, bad) ↦ ground (arith, same)
              | inl (volume, made) ↦
                  let spec : CsiAlcubSpec = record {
                    uuid = uuid;
                    capacity = size;
                    rbd_sc = v;
                    pool = volume.pool;
                    image = volume.image;
                  } in
                  ground (arith, same, create_resource_others v name spec t n ne)
            ]
      ]
