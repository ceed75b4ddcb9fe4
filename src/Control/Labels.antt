-- ===== src/Control/Labels.antt =====
-- `labelController` of pkg/controlrpc/nodeManage.go, run again on the labels that it has asked for.
use csi_alcub.Base.{
  String, ◌≡◌, refl, ◌≢◌, true, false, none, some, [], ◌∷◌, arith, eq_iff, Bool-cases, Option-cases,
  inl, inr,
}
use csi_alcub.Base.Dict.{Dict, lookup, erase, insert}
use csi_alcub.Cluster.{NodeConf, temp_replace, temp_node_key}
use csi_alcub.Base.Exec.{ok}
use csi_alcub.Cluster.{ClusterNode}
use csi_alcub.Control.NodeManage.{
  UpdateNodeFn, insert_all, erase_all, scan_labels, label_controller, apply_update, delete_keys,
  write_map,
}

module _ (key val : String) where
  -- Deleting other keys does not hide the label of the storage manager, nor does it bring it in.
  scan-erase_alcub :
      (c : Dict String) (k : String) (m : Dict String)
      → k ≢ key
      → (scan_labels key val c (erase k m)).0 ≡ (scan_labels key val c m).0
  unfolding scan_labels erase
  scan-erase_alcub c k [] h = refl
  scan-erase_alcub c k ((j, v) ∷ m) h =
      ground (arith, eq_iff j k, eq_iff key j, scan-erase_alcub c k m h)

  scan-erase_absent :
      (c : Dict String) (k : String) (m : Dict String)
      → (scan_labels key val c m).0 ≡ false
      → (scan_labels key val c (erase k m)).0 ≡ false
  unfolding scan_labels erase
  scan-erase_absent c k [] h = refl
  scan-erase_absent c k ((j, v) ∷ m) h = elim (Bool-cases (scan_labels key val c m).0) [
    | inl there ↦ absurd (ground arith)
    | inr absent ↦ ground (arith, scan-erase_absent c k m absent)
  ]

  -- Deleting a key brings none of the driver's labels in.
  scan-erase_free :
      (c : Dict String) (k : String) (m : Dict String)
      → (scan_labels key val c m).1 ≡ false
      → (scan_labels key val c (erase k m)).1 ≡ false
  unfolding scan_labels erase
  scan-erase_free c k [] h = refl
  scan-erase_free c k ((j, v) ∷ m) h = elim (Bool-cases (scan_labels key val c m).1) [
    | inl there ↦ absurd (ground arith)
    | inr absent ↦ ground (arith, scan-erase_free c k m absent)
  ]

  scan-erase_self :
      (k v : String) (m : Dict String) → (scan_labels key val ((k, v) ∷ []) (erase k m)).1 ≡ false
  unfolding scan_labels erase lookup
  scan-erase_self k v [] = refl
  scan-erase_self k v ((j, w) ∷ m) = ground (arith, eq_iff k j, eq_iff j k, scan-erase_self k v m)

  scan-cons :
      (k v : String) (c m : Dict String)
      → (scan_labels key val ((k, v) ∷ []) m).1 ≡ false
      → (scan_labels key val c m).1 ≡ false
      → (scan_labels key val ((k, v) ∷ c) m).1 ≡ false
  unfolding scan_labels lookup
  scan-cons k v c [] h g = refl
  scan-cons k v c ((j, w) ∷ m) h g = elim (Bool-cases (scan_labels key val ((k, v) ∷ []) m).1) [
    | inl there ↦ absurd (ground arith)
    | inr absent ↦ elim (Bool-cases (scan_labels key val c m).1) [
      | inl there ↦ absurd (ground arith)
      | inr free ↦ ground (arith, eq_iff k j, scan-cons k v c m absent free)
    ]
  ]

  scan-erase_all_free :
      (c d : Dict String) (m : Dict String)
      → (scan_labels key val c m).1 ≡ false
      → (scan_labels key val c (erase_all d m)).1 ≡ false
  unfolding erase_all
  scan-erase_all_free c [] m h = h
  scan-erase_all_free c ((k, v) ∷ d) m h =
      scan-erase_all_free c d (erase k m) (scan-erase_free c k m h)

  scan-none : (m : Dict String) → (scan_labels key val [] m).1 ≡ false
  unfolding scan_labels lookup
  scan-none [] = refl
  scan-none ((k, v) ∷ m) = ground (arith, scan-none m)

  -- After the driver's labels are deleted, none is there.
  scan-erase_all : (c m : Dict String) → (scan_labels key val c (erase_all c m)).1 ≡ false
  unfolding erase_all
  scan-erase_all [] m = scan-none m
  scan-erase_all ((k, v) ∷ c) m =
      scan-cons k v c (erase_all c (erase k m))
        (scan-erase_all_free ((k, v) ∷ []) c (erase k m) (scan-erase_self k v m))
        (scan-erase_all c (erase k m))

  scan-erase_all_absent :
      (c d m : Dict String)
      → (scan_labels key val c m).0 ≡ false
      → (scan_labels key val c (erase_all d m)).0 ≡ false
  unfolding erase_all
  scan-erase_all_absent c [] m h = h
  scan-erase_all_absent c ((k, v) ∷ d) m h =
      scan-erase_all_absent c d (erase k m) (scan-erase_absent c k m h)

  -- Writing labels other than that of the storage manager leaves it there.
  scan-insert_all_alcub :
      (c d m : Dict String)
      → lookup key d ≡ none
      → (scan_labels key val c m).0 ≡ true
      → (scan_labels key val c (insert_all d m)).0 ≡ true
  unfolding insert_all insert scan_labels lookup
  scan-insert_all_alcub c [] m h e = e
  scan-insert_all_alcub c ((k, v) ∷ d) m h e =
      let other : k ≢ key = ground (arith, eq_iff k key) in
      let kept : (scan_labels key val c (insert k v m)).0 ≡ true =
        ground (arith, scan-erase_alcub c k m other) in
      scan-insert_all_alcub c d (insert k v m) (ground (arith, eq_iff k key)) kept

  -- `c` has every key of `d`.
  abbrev Knows : Dict String → Dict String → Type 0
  Knows c [] = Unit
  Knows c ((k, v) ∷ d) = (lookup k c ≢ none) × Knows c d

  Knows-cons : (k v : String) (c d : Dict String) → Knows c d → Knows ((k, v) ∷ c) d
  unfolding lookup
  Knows-cons k v c [] h = tt
  Knows-cons k v c ((j, w) ∷ d) h = (ground (arith, h.0), Knows-cons k v c d h.1)

  Knows-self : (c : Dict String) → Knows c c
  unfolding lookup
  Knows-self [] = tt
  Knows-self ((k, v) ∷ c) = (ground (arith, eq_iff k k), Knows-cons k v c c (Knows-self c))

  -- After the driver's labels are written, one is there.
  scan-insert_all :
      (c : Dict String) (k v : String) (d m : Dict String)
      → Knows c ((k, v) ∷ d)
      → (scan_labels key val c (insert_all ((k, v) ∷ d) m)).1 ≡ true
  unfolding insert_all insert scan_labels
  scan-insert_all c k v [] m h = ground (arith, h.0)
  scan-insert_all c k v ((j, w) ∷ d) m h = scan-insert_all c j w d (insert k v m) h.1

  scan-insert_all_self :
      (c m : Dict String) → c ≢ [] → (scan_labels key val c (insert_all c m)).1 ≡ true
  scan-insert_all_self [] m h = absurd (h refl)
  scan-insert_all_self ((k, v) ∷ d) m h =
      scan-insert_all ((k, v) ∷ d) k v d m (Knows-self ((k, v) ∷ d))

-- The key of the storage manager's label on the node.
abbrev pub filter_label : NodeConf → String → String
filter_label n nodename = temp_replace n.filter_key ((temp_node_key, nodename) ∷ [])

-- The labels that `labelController` asks for settle at once: when the function that it returns has
-- been applied to the node, it returns nil for the node's new labels. The driver must have labels
-- of its own, and that of the storage manager must not be one of them.
pub label_controller-apply_update :
    (n : NodeConf) (name : String) (node changed : ClusterNode) (fn : UpdateNodeFn)
    → n.csilabel ≢ []
    → lookup (filter_label n name) n.csilabel ≡ none
    → label_controller n node.labels name ≡ some fn
    → apply_update fn node ≡ ok changed
    → label_controller n changed.labels name ≡ none
unfolding label_controller apply_update delete_keys write_map
label_controller-apply_update n name node changed fn some_label apart asks applied =
    let key : String = filter_label n name in
    let val : String = temp_replace n.filtervalue ((temp_node_key, name) ∷ []) in
    let c : Dict String = n.csilabel in
    elim (Option-cases node.labels) [
      | inl no_labels ↦ absurd (ground arith)
      | inr (m, labels_are) ↦ elim (Bool-cases (scan_labels key val c m).0) [
        | inr absent ↦
            ground (arith, scan-erase_all key val c m, scan-erase_all_absent key val c c m absent)
        | inl there ↦ ground (
          arith,
          scan-insert_all_self key val c m some_label,
          scan-insert_all_alcub key val c c m apart there,
        )
      ]
    ]
