-- ===== src/Registry/Deleting.antt =====
-- `DeleteVolume` deletes a volume of the registry.
use csi_alcub.Base.{
  String, Option, none, some, ◌≡◌, refl, ◌≢◌, ◌∙◌, sym, subst, ◌⊎◌, arith, inl, inr, Option-cases,
  true, ap,
}
use csi_alcub.Base.Exec.{ok, Result-cases}
use csi_alcub.Process.{Process}
use csi_alcub.Api.{CsiAlcub}
use csi_alcub.Manager
use csi_alcub.Manager.{get_by_uuid, get_by_name, get_name_by_uuid}
use csi_alcub.Manager.Server.{get_by_uuid_keeps, get_by_uuid_found}
use csi_alcub.Rbd.Image
use csi_alcub.Control.{Controller}
use csi_alcub.Control.Volumes.{delete_volume_of, delete_volume}
use csi_alcub.Control.Deletion.{delete_volume_ok}
use csi_alcub.Registry.{IsRegistry, IsApart, Deletes, absent, leaves, volumes_of, entry_of}
use csi_alcub.Registry.Frame.{delete_image_keeps}

module _ {W : Type 0} (c : Controller W) (stored : W → String → Option CsiAlcub)
    (reg : IsRegistry c.alcub_control stored) (apart : IsApart c stored) where
  -- What there is at `name` in a world in which the deletion of `was` has been asked for.
  abbrev pub Left : CsiAlcub → W → String → Type 0
  Left was w name =
      (stored w name ≡ none)
      ⊎ ((new : CsiAlcub) × (stored w name ≡ some new)
          × (new.spec ≡ was.spec)
          × (new.meta.deleting ≡ true))

  -- What `AlcubCon.Delete` leaves of the resource `name`, that there was.
  pub record IsLeaving (name : String) (w w' : W) : Type 0 where
    pub was : CsiAlcub
    pub before : stored w name ≡ some was
    pub after : Left was w' name
    pub others : (n : String) → name ≢ n → stored w' n ≡ stored w n

  pub delete_leaves :
      (name : String) (s : Process W)
      → (Manager.delete c.alcub_control name s).0 ≡ ok tt
      → IsLeaving name s.world (Manager.delete c.alcub_control name s).1.world
  unfolding Manager.delete
  delete_leaves name s e = elim (Result-cases (c.alcub_control.get name s.world).0) [
    | inr (x, failed) ↦ absurd (ground arith)
    | inl (obj, read) ↦
        let w = (c.alcub_control.get name s.world).1 in
        let named = reg.server.get_named name s.world obj read in
        let same = reg.server.get_keeps name s.world in
        let gone : (c.alcub_control.retry_on_conflict (c.alcub_control.delete obj) w).0 ≡ ok tt =
          ground arith in
        let (was, at, result) = reg.delete_ok obj w gone in
        let now : W = (c.alcub_control.retry_on_conflict (c.alcub_control.delete obj) w).1 in
        let leaves : (Manager.delete c.alcub_control name s).1.world ≡ now = ground arith in
        record {
          was = was;
          before = ground (arith, at, named, same name);
          after = rw leaves (subst (λ m. Left was now m) named result);
          others = λ n ne.
              let differs : obj.meta.name ≢ n = λ q. ne (sym named ∙ q) in
              ground (arith, leaves, reg.delete_ne obj w n differs, same n);
        }
  ]

  delete_others :
      (name : String) (s : Process W) (n : String)
      → name ≢ n
      → stored (Manager.delete c.alcub_control name s).1.world n ≡ stored s.world n
  unfolding Manager.delete
  delete_others name s n ne = elim (Result-cases (c.alcub_control.get name s.world).0) [
    | inr (x, failed) ↦ ground (arith, reg.server.get_keeps name s.world n)
    | inl (obj, read) ↦
        let named = reg.server.get_named name s.world obj read in
        let differs : obj.meta.name ≢ n = λ q. ne (sym named ∙ q) in
        ground (
          arith,
          reg.delete_ne obj (c.alcub_control.get name s.world).1 n differs,
          reg.server.get_keeps name s.world n,
        )
  ]

  -- `DeleteVolume` touches no resource but that of the name that the index holds for the uuid, whether
  -- it succeeds or fails.
  pub delete_volume_others :
      (volid : String) (s : Process W) (n : String)
      → get_name_by_uuid volid s.alcub_control ≢ n
      → stored (delete_volume c volid s).1.world n ≡ stored s.world n
  unfolding delete_volume delete_volume_of
  delete_volume_others volid s n ne =
      let t : Process W = (get_by_uuid c.alcub_control volid s).1 in
      elim (Option-cases (get_by_uuid c.alcub_control volid s).0) [
        | inl missing ↦
            ground (arith, get_by_uuid_keeps c.alcub_control stored reg.server volid n s)
        | inr (alcub, there) ↦
            let u : Process W =
              (Image.delete_image c.rbd_host c.rbd alcub.spec.rbd_sc alcub.spec.image t).1 in
            let named =
              (get_by_uuid_found c.alcub_control stored reg.server volid s alcub there).0 in
            let differs : alcub.meta.name ≢ n = λ q. ne (sym named ∙ q) in
            ground (
              arith,
              get_by_uuid_keeps c.alcub_control stored reg.server volid n s,
              delete_image_keeps c stored apart n alcub.spec.rbd_sc alcub.spec.image t,
              delete_others alcub.meta.name u n differs,
            )
      ]

  -- A success of `DeleteVolume` is a deletion in the registry.
  pub delete_volume-Deletes :
      (volid : String) (s : Process W)
      → (delete_volume c volid s).0 ≡ ok tt
      → Deletes
          (get_name_by_uuid volid s.alcub_control)
          (entry_of (get_by_uuid c.alcub_control volid s).0)
          (volumes_of stored s.world)
          (volumes_of stored (delete_volume c volid s).1.world)
  delete_volume-Deletes volid s e =
      let t : Process W = (get_by_uuid c.alcub_control volid s).1 in
      elim (delete_volume_ok c s volid e) [
        | inl (missing, same) ↦ absent (ap entry_of missing) (λ n.
            let kept : stored (delete_volume c volid s).1.world n ≡ stored s.world n =
              ground (arith, same, get_by_uuid_keeps c.alcub_control stored reg.server volid n s) in
            ap entry_of kept)
        | inr (alcub, there, d) ↦
            let name : String = get_name_by_uuid volid s.alcub_control in
            let named : alcub.meta.name ≡ name =
              (get_by_uuid_found c.alcub_control stored reg.server volid s alcub there).0 in
            let u : Process W =
              (Image.delete_image c.rbd_host c.rbd alcub.spec.rbd_sc alcub.spec.image t).1 in
            let gone : Manager.delete c.alcub_control name u
                ≡ (ok tt, (delete_volume c volid s).1) =
              subst (λ m. Manager.delete c.alcub_control m u ≡ (ok tt, (delete_volume c volid s).1))
                named d.resource_gone in
            let l = delete_leaves name u (ground (arith, gone)) in
            let final : (Manager.delete c.alcub_control name u).1 ≡ (delete_volume c volid s).1 =
              ground (arith, gone) in
            let same : (n : String) → stored u.world n ≡ stored s.world n = λ n.
              delete_image_keeps c stored apart n alcub.spec.rbd_sc alcub.spec.image t
              ∙ get_by_uuid_keeps c.alcub_control stored reg.server volid n s in
            leaves
              (record {
                id = alcub.spec.uuid;
                size = alcub.spec.capacity;
                leaving = alcub.meta.deleting;
              })
              (record {
                id = l.was.spec.uuid;
                size = l.was.spec.capacity;
                leaving = l.was.meta.deleting;
              })
              (ap entry_of there) (ap entry_of (sym (same name) ∙ l.before))
              (elim l.after [
                | inl nothing ↦
                    let at : stored (delete_volume c volid s).1.world name ≡ none =
                      ground (arith, final, nothing) in
                    inl (ap entry_of at)
                | inr (new, now, spec, marked) ↦
                    let at : stored (delete_volume c volid s).1.world name ≡ some new =
                      ground (arith, final, now) in
                    inr (ap entry_of at ∙ rw (spec, marked) refl)
              ])
              (λ n ne.
                let kept : stored (delete_volume c volid s).1.world n ≡ stored s.world n =
                  ground (arith, final, l.others n ne, same n) in
                ap entry_of kept)
      ]
