-- ===== src/Manager/History.antt =====
-- The index from uuid to name through any sequence of operations, and after a restart.
use csi_alcub.Base.{ℕ, List, String, ◌≡◌, ◌≢◌, false, Option, none, some, arith, eq_iff, inl, inr}
use csi_alcub.Base.Dict.{lookup, lookup-insert_self}
use csi_alcub.Base.Exec.{ok, Result-cases}
use csi_alcub.Process.{AlcubCon, Process}
use csi_alcub.Api.{CsiAlcub, CsiAlcubSpec, CsiAlcubStatus}
use csi_alcub.Manager.{
  AlcubClient, save_node, reverse_node, reverse_uuid, get_by_name, get_by_uuid, get_name_by_uuid,
  create, delete, update, finish_delete, remember, reconcile,
}
use csi_alcub.Manager.Index.{
  reverse_uuid_keeps, create_index, delete_keeps_index, get_by_uuid_keeps_index,
}

reverse_node_index :
    (parse_ip : String → Option (List ℕ)) (stat : CsiAlcubStatus) (al : AlcubCon)
    → (reverse_node parse_ip stat al).uuidname ≡ al.uuidname
unfolding reverse_node save_node
reverse_node_index parse_ip stat al = ground arith

module _ {W : Type 0} (c : AlcubClient W) where
  -- `Reconcile` never gives a uuid that stands for one name another, nor does it remove it.
  reconcile_keeps :
      (name u v : String) (s : Process W)
      → lookup u s.alcub_control.uuidname ≡ some v
      → lookup u (reconcile c name s).1.alcub_control.uuidname ≡ some v
  unfolding reconcile finish_delete remember
  reconcile_keeps name u v s h = elim (Result-cases (c.get name s.world).0) [
    | inr (e, failed) ↦ ground arith
    | inl (obj, read) ↦
        let al = (reverse_uuid obj.spec.uuid obj.meta.name s.alcub_control).1 in
        ground (
          arith,
          reverse_node_index c.parse_ip obj.status al,
          reverse_uuid_keeps obj.spec.uuid obj.meta.name u s.alcub_control h,
        )
  ]

  update_keeps_index :
      (name : String) (spec : Option CsiAlcubSpec) (stat : Option CsiAlcubStatus) (s : Process W)
      → (update c name spec stat s).1.alcub_control ≡ s.alcub_control
  unfolding update
  update_keeps_index name spec stat s = ground arith

  -- One operation of the process on the resources, or a change of the world by anybody else. No
  -- resource is created with the uuid `u`.
  pub data Step (u : String) (s t : Process W) : Type 0 where
    reconciles : (name : String) → t ≡ (reconcile c name s).1 → Step u s t
    creates :
        (name : String) (spec : CsiAlcubSpec)
        → spec.uuid ≢ u
        → t ≡ (create c name spec s).1
        → Step u s t
    deletes : (name : String) → t ≡ (delete c name s).1 → Step u s t
    updates :
        (name : String) (spec : Option CsiAlcubSpec) (stat : Option CsiAlcubStatus)
        → t ≡ (update c name spec stat s).1
        → Step u s t
    looks_up : (uuid : String) → t ≡ (get_by_uuid c uuid s).1 → Step u s t
    changes : (w : W) → t ≡ record s { world = w } → Step u s t

  pub data Steps (u : String) (s : Process W) : Process W → Type 0 where
    start : Steps u s s
    next : {t r : Process W} → Steps u s t → Step u t r → Steps u s r

  Step-keeps :
      (u v : String) {s t : Process W}
      → Step u s t
      → lookup u s.alcub_control.uuidname ≡ some v
      → lookup u t.alcub_control.uuidname ≡ some v
  Step-keeps u v {s} (reconciles name e) h = ground (arith, reconcile_keeps name u v s h)
  Step-keeps u v {s} (creates name spec ne e) h =
      ground (arith, (create_index c name spec s).2 u ne)
  Step-keeps u v {s} (deletes name e) h = ground (arith, delete_keeps_index c name s)
  Step-keeps u v {s} (updates name spec stat e) h =
      ground (arith, update_keeps_index name spec stat s)
  Step-keeps u v {s} (looks_up uuid e) h = ground (arith, get_by_uuid_keeps_index c uuid s)
  Step-keeps u v (changes w e) h = ground arith

  -- A uuid that stands for a name stands for it for as long as the process runs, through any
  -- sequence of operations and changes of the world in which no resource is created with that uuid.
  pub Steps-keeps :
      (u v : String) {s t : Process W}
      → Steps u s t
      → lookup u s.alcub_control.uuidname ≡ some v
      → lookup u t.alcub_control.uuidname ≡ some v
  Steps-keeps u v start h = h
  Steps-keeps u v (next before last) h = Step-keeps u v last (Steps-keeps u v before h)

  -- After a restart the index is learnt from the resources: when `Reconcile` has read a resource
  -- that is not being deleted, and its uuid stood for no name, a lookup by the uuid does what the
  -- lookup by name does. Neither may be the empty text.
  pub get_by_uuid-reconcile :
      (name : String) (obj : CsiAlcub) (s : Process W)
      → (c.get name s.world).0 ≡ ok obj
      → obj.meta.name ≡ name
      → obj.meta.deleting ≡ false
      → lookup obj.spec.uuid s.alcub_control.uuidname ≡ none
      → obj.spec.uuid ≢ ""
      → name ≢ ""
      → let t = (reconcile c name s).1 in get_by_uuid c obj.spec.uuid t ≡ get_by_name c name t
  unfolding reconcile remember reverse_uuid get_by_uuid get_name_by_uuid
  get_by_uuid-reconcile name obj s read named alive fresh hu hn =
      let al = (reverse_uuid obj.spec.uuid obj.meta.name s.alcub_control).1 in
      ground (
        arith,
        reverse_node_index c.parse_ip obj.status al,
        lookup-insert_self obj.spec.uuid obj.meta.name s.alcub_control.uuidname,
        eq_iff obj.spec.uuid "",
        eq_iff name "",
      )
