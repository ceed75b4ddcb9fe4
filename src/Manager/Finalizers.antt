-- ===== src/Manager/Finalizers.antt =====
-- What `AlcubCon.Reconcile` writes to the API server.
use csi_alcub.Base.{String, ◌==◌, ◌≡◌, true, ◌⊎◌, inl, inr, [], arith, eq_iff, Bool-cases}
use csi_alcub.Base.Exec.{ok, Result-cases}
use csi_alcub.Process.{Process}
use csi_alcub.Api.{CsiAlcub}
use csi_alcub.Manager.{AlcubClient, valid_be_delete, finish_delete, remember, reconcile}

-- The object without its finalizers.
abbrev pub freed : CsiAlcub → CsiAlcub
freed obj = record obj { meta = record obj.meta { finalizers = [] } }

module _ {W : Type 0} (c : AlcubClient W) (name : String) (s : Process W) where
  -- `Reconcile` drops the finalizers of a resource only if it is being deleted and its status names
  -- no node, and writes nothing else: in every other case the world is as the read has left it, so
  -- a volume that is in use keeps its finalizers.
  pub reconcile_writes :
      let (r, w) = c.get name s.world in
      ((reconcile c name s).1.world ≡ w)
      ⊎ ((obj : CsiAlcub) × (r ≡ ok obj)
          × (obj.meta.deleting ≡ true)
          × (obj.status.node ≡ "")
          × ((reconcile c name s).1.world ≡ (c.retry_on_conflict (c.update (freed obj)) w).1))
  unfolding reconcile finish_delete remember valid_be_delete
  reconcile_writes = elim (Result-cases (c.get name s.world).0) [
    | inr (e, failed) ↦ inl (ground arith)
    | inl (obj, read) ↦ elim (Bool-cases obj.meta.deleting) [
      | inr alive ↦ inl (ground arith)
      | inl deleting ↦ elim (Bool-cases (obj.status.node == "")) [
        | inr used ↦ inl (ground arith)
        | inl unused ↦
            inr (obj, read, deleting, ground (arith, eq_iff obj.status.node ""), ground arith)
      ]
    ]
  ]
