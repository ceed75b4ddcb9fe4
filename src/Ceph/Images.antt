-- ===== src/Ceph/Images.antt =====
-- What `Rbd.CreateImage` and `Rbd.DeleteImage` do to the images, in the pool of a storage class.
use csi_alcub.Base.{String, Bool, true, false, ◌≡◌, ◌≢◌, ◌⊎◌, ◌∙◌, arith, inl, inr}
use csi_alcub.Base.Int.{ℤ}
use csi_alcub.Base.Exec.{GoError, ok, err, Go, ◌>>=◌, Result-cases}
use csi_alcub.Process.{Process, on_world}
use csi_alcub.Rbd.{RbdHost, Rbd, RbdProvisionOptions, Volume}
use csi_alcub.Rbd.Util
use csi_alcub.Rbd.Image.{create_image, delete_image}
use csi_alcub.Rbd.Options.{parse_parameters}
use csi_alcub.Rbd.Quiet.{parse_parameters_keeps}
use csi_alcub.Ceph.{Place, IsHome}
use csi_alcub.Ceph.Pools.{parse_parameters_pool}
use csi_alcub.Ceph.Commands

module _ {W : Type 0} (h : RbdHost W) (images : W → Place → Bool) (pools : String → String)
    (home : IsHome h images pools) (r : Rbd) (class : String) where
  -- What both operations do: they read the storage class, parse it, and run commands.
  abbrev with_options : {A : Type 0} → (RbdProvisionOptions → Go W A) → Go (Process W) A
  with_options f =
      on_world (h.storage_class class) >>= λ ps. parse_parameters h r ps >>= λ o. on_world (f o)

  -- The commands have run, in a world with the images of `s`, and with options of the class's pool.
  record HasRun {A : Type 0} (f : RbdProvisionOptions → Go W A) (s : Process W) : Type 0 where
    options : RbdProvisionOptions
    before : W
    of_class : options.pool ≡ pools class
    same : (x : Place) → images before x ≡ images s.world x
    result : (with_options f s).0 ≡ (f options before).0
    after : (with_options f s).1.world ≡ (f options before).1

  with_options_cases :
      {A : Type 0} (f : RbdProvisionOptions → Go W A) (s : Process W)
      → (((e : GoError) × ((with_options f s).0 ≡ err e))
          × ((x : Place) → images (with_options f s).1.world x ≡ images s.world x))
        ⊎ HasRun f s
  with_options_cases f s =
      let t = (on_world (h.storage_class class) s).1 in
      let class_read = λ (x : Place). (home.quiet x).class_keeps class s.world in
      elim (Result-cases (h.storage_class class s.world).0) [
        | inr (e, bad) ↦ inl ((e, ground arith), λ x. ground (arith, class_read x))
        | inl (ps, good) ↦
            let u = (parse_parameters h r ps t).1 in
            let same = λ (x : Place).
              parse_parameters_keeps h (λ w. images w x) (home.quiet x) r ps t ∙ class_read x in
            elim (Result-cases (parse_parameters h r ps t).0) [
              | inr (e, bad) ↦ inl ((e, ground arith), λ x. ground (arith, same x))
              | inl (o, parsed) ↦ inr (record {
                options = o;
                before = u.world;
                of_class =
                    parse_parameters_pool h r ps t o parsed ∙ home.fixed class s.world ps good;
                same = same;
                result = ground arith;
                after = ground arith;
              })
            ]
      ]

  module _ (image : String) (size : ℤ) (s : Process W) where
    create_run : RbdProvisionOptions → Go W Volume
    create_run o = Util.create_image h r.rbdutil o image size

    -- `CreateImage` destroys no image.
    pub create_image_keeps :
        (x : Place)
        → images s.world x ≡ true
        → images (create_image h r class image size s).1.world x ≡ true
    unfolding create_image create_run
    create_image_keeps x e = elim (with_options_cases create_run s) [
      | inl (bad, same) ↦ ground (arith, same x)
      | inr ran ↦ ground (
        arith,
        ran.after,
        ran.same x,
        Commands.create_image_keeps h images home.ceph r.rbdutil ran.options image size ran.before
            x,
      )
    ]

    pub create_image_ne :
        (x : Place)
        → (pools class, image) ≢ x
        → images (create_image h r class image size s).1.world x ≡ images s.world x
    unfolding create_image create_run
    create_image_ne x e = elim (with_options_cases create_run s) [
      | inl (bad, same) ↦ ground (arith, same x)
      | inr ran ↦ ground (
        arith,
        ran.after,
        ran.of_class,
        ran.same x,
        Commands.create_image_ne h images home.ceph r.rbdutil ran.options image size ran.before x,
      )
    ]

    pub create_image_makes :
        (v : Volume)
        → (create_image h r class image size s).0 ≡ ok v
        → (v ≡ record { pool = pools class; image = image })
          × (images s.world (pools class, image) ≡ false)
          × (images (create_image h r class image size s).1.world (pools class, image) ≡ true)
    unfolding create_image create_run
    create_image_makes v e = elim (with_options_cases create_run s) [
      | inl ((x, bad), same) ↦ absurd (ground arith)
      | inr ran ↦
          let made : (Util.create_image h r.rbdutil ran.options image size ran.before).0 ≡ ok v =
            ground (arith, ran.result) in
          ground (
            arith,
            ran.after,
            ran.of_class,
            ran.same (pools class, image),
            Commands.create_image_makes h images home.ceph r.rbdutil ran.options image size
                ran.before v made,
          )
    ]

  module _ (image : String) (s : Process W) where
    delete_run : RbdProvisionOptions → Go W (Unit {0})
    delete_run o = Util.delete_image h r.rbdutil o image

    pub delete_image_ne :
        (x : Place)
        → (pools class, image) ≢ x
        → images (delete_image h r class image s).1.world x ≡ images s.world x
    unfolding delete_image delete_run
    delete_image_ne x e = elim (with_options_cases delete_run s) [
      | inl (bad, same) ↦ ground (arith, same x)
      | inr ran ↦ ground (
        arith,
        ran.after,
        ran.of_class,
        ran.same x,
        Commands.delete_image_ne h images home.ceph r.rbdutil ran.options image ran.before x,
      )
    ]

    pub delete_image_removes :
        (delete_image h r class image s).0 ≡ ok tt
        → images (delete_image h r class image s).1.world (pools class, image) ≡ false
    unfolding delete_image delete_run
    delete_image_removes e = elim (with_options_cases delete_run s) [
      | inl ((x, bad), same) ↦ absurd (ground arith)
      | inr ran ↦
          let gone : (Util.delete_image h r.rbdutil ran.options image ran.before).0 ≡ ok tt =
            ground (arith, ran.result) in
          ground (
            arith,
            ran.after,
            ran.of_class,
            Commands.delete_image_removes h images home.ceph r.rbdutil ran.options image ran.before
                gone,
          )
    ]
