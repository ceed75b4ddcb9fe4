-- ===== src/Control/Failover.antt =====
-- `notidyAlcub` at a table of nodes that has zones.
use csi_alcub.Base.{
  String, Bool, true, false, List, [], ◌∷◌, ◌++◌, ◌==◌, ◌≡◌, refl, sym, subst, ◌≢◌, ◌⊎◌, ap, inl,
  inr, arith, eq_iff, Bool-cases,
}
use csi_alcub.Base.Exec.{GoError, errorf, ok, err, Result-cases}
use csi_alcub.Process.{Nodeinfo, Process}
use csi_alcub.Control.{Controller}
use csi_alcub.Control.Notify.{action, notify_zones, notidy_alcub}

module _ {W : Type 0} (c : Controller W) (nodename : String) (fail : Bool) where
  -- The servers at `urls` are called one after the other, from `s` to `t`, and each call fails. An
  -- empty url is passed over.
  pub Fails : List String → Process W → Process W → Type 0
  Fails [] s t = t ≡ s
  Fails (v ∷ urls) s t =
      ((v ≡ "") × Fails urls s t)
      ⊎ ((v ≢ "")
          × ((e : GoError) × ((action c nodename fail v s).0 ≡ err e))
          × Fails urls (action c nodename fail v s).1 t)

  -- The first server whose call does not fail, among `urls`.
  pub record FirstWorks (urls : List String) (s t : Process W) : Type 0 where
    pub before : List String
    pub url : String
    pub after : List String
    pub between : Process W
    pub are : urls ≡ before ++ (url ∷ after)
    pub failed : Fails before s between
    pub not_empty : url ≢ ""
    pub works : action c nodename fail url between ≡ (ok tt, t)

  FirstWorks-later :
      (v : String) (urls : List String) (s u t : Process W)
      → ((before : List String) (m : Process W) → Fails before u m → Fails (v ∷ before) s m)
      → FirstWorks urls u t
      → FirstWorks (v ∷ urls) s t
  FirstWorks-later v urls s u t step w = record {
    before = v ∷ w.before;
    url = w.url;
    after = w.after;
    between = w.between;
    are = ap (λ l. v ∷ l) w.are;
    failed = step w.before w.between w.failed;
    not_empty = w.not_empty;
    works = w.works;
  }

  -- How the loop ends: with the first server that works, or with none left.
  abbrev Told : List String → Process W → Bool × Process W → Type 0
  Told urls s (told, t) = ((told ≡ true) × FirstWorks urls s t) ⊎ ((told ≡ false) × Fails urls s t)

  Told-later :
      (v : String) (urls : List String) (s u : Process W) (p : Bool × Process W)
      → ((before : List String) (m : Process W) → Fails before u m → Fails (v ∷ before) s m)
      → Told urls u p
      → Told (v ∷ urls) s p
  Told-later v urls s u p step (inl (e, w)) = inl (e, FirstWorks-later v urls s u p.1 step w)
  Told-later v urls s u p step (inr (e, fails)) = inr (e, step urls p.1 fails)

  notify_zones-Told :
      (urls : List String) (s : Process W) → Told urls s (notify_zones c nodename fail urls s)
  unfolding notify_zones Fails
  notify_zones-Told [] s = inr (refl, refl)
  notify_zones-Told (v ∷ urls) s = elim (Bool-cases (v == "")) [
    | inl empty ↦
        let same : notify_zones c nodename fail (v ∷ urls) s ≡ notify_zones c nodename fail urls s =
          ground arith in
        subst (Told (v ∷ urls) s) (sym same) (
          Told-later v urls s s (notify_zones c nodename fail urls s)
            (λ before m fails. inl (ground (arith, eq_iff v ""), fails)) (notify_zones-Told urls s))
    | inr given ↦
        let (r, u) = action c nodename fail v s in
        elim (Result-cases r) [
          | inl (_, good) ↦ inl (
            ground arith,
            record {
              before = [];
              url = v;
              after = urls;
              between = s;
              are = refl;
              failed = refl;
              not_empty = ground (arith, eq_iff v "");
              works = ground arith;
            },
          )
          | inr (e, bad) ↦
              let same : notify_zones c nodename fail (v ∷ urls) s
                  ≡ notify_zones c nodename fail urls u =
                ground arith in
              subst (Told (v ∷ urls) s) (sym same) (
                Told-later v urls s u (notify_zones c nodename fail urls u)
                  (λ before m fails. inr (ground (arith, eq_iff v ""), (e, bad), fails))
                  (notify_zones-Told urls u))
        ]
  ]

  abbrev pub named : Process W → Process W
  named s = record s { alcub_dyn_conf = record s.alcub_dyn_conf { nodename = nodename } }

  -- `notidyAlcub` fails over from one storage server of the node's zones to the next: if it
  -- succeeds, there is a first server for which `actionfn` has not failed; `actionfn` has been
  -- called in order for all servers before that one, and has failed, and is called for none after
  -- it. If `notidyAlcub` fails, `actionfn` has failed for all of them. Empty urls are passed over.
  pub notidy_alcub-FirstWorks :
      (zone : Nodeinfo) (s : Process W)
      → let (r, t) = notidy_alcub c nodename zone fail s in
        ((r ≡ ok tt) × FirstWorks zone.zones (named s) t)
        ⊎ (((e : GoError) × (r ≡ err e)) × Fails zone.zones (named s) t)
  unfolding notidy_alcub
  notidy_alcub-FirstWorks zone s = elim (notify_zones-Told zone.zones (named s)) [
    | inl (e, w) ↦ inl (ground arith, w)
    | inr (e, fails) ↦ inr ((errorf "notify alcub server failed!", ground arith), fails)
  ]
