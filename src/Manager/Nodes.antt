-- ===== src/Manager/Nodes.antt =====
-- The table of nodes: what `reverseNode` writes and what `GetNodeInfo` gives.
use csi_alcub.Base.{
  String, true, false, ◌||◌, ◌≡◌, refl, ◌≢◌, ◌⊎◌, inl, inr, Option, none, some, arith, [], ◌∷◌,
  ◌==◌, eq_iff, Bool-cases, Option-cases,
}
use csi_alcub.Base.Dict.{lookup, lookup-insert, lookup-insert_self}
use csi_alcub.Process.{Ip, Nodeinfo, AlcubCon}
use csi_alcub.Api.{CsiAlcubStatus, copy}
use csi_alcub.Manager.{deep_copy_nodeinfo, get_node_info, save_node, reverse_node, ip_equal}

abbrev pub no_info : Nodeinfo
no_info = record { store_ip = []; zones = [] }

deep_copy_nodeinfo_lem : (ni : Nodeinfo) → deep_copy_nodeinfo ni ≡ no_info
unfolding deep_copy_nodeinfo
deep_copy_nodeinfo_lem ni = refl

-- `GetNodeInfo` never gives an address or a zone: for a node that is in the table it returns an
-- empty `Nodeinfo`, whatever the table holds, and nil for any other node.
pub get_node_info_lem :
    (nodename : String) (al : AlcubCon)
    → ((lookup nodename al.nodes ≡ none) × (get_node_info nodename al ≡ none))
      ⊎ ((lookup nodename al.nodes ≢ none) × (get_node_info nodename al ≡ some no_info))
unfolding get_node_info
get_node_info_lem nodename al = elim (Option-cases (lookup nodename al.nodes)) [
  | inl e ↦ inl (e, ground arith)
  | inr (v, e) ↦ inr (ground arith, ground (arith, deep_copy_nodeinfo_lem v))
]

-- No entry of the table has a zone.
pub record HasNoZones (al : AlcubCon) : Type 0 where
  pub at : (n : String) (v : Nodeinfo) → lookup n al.nodes ≡ some v → v.zones ≡ []

entry : Nodeinfo → CsiAlcubStatus → Ip → Nodeinfo
unfolding copy
entry oldv stat ip = record { store_ip = ip; zones = copy oldv.zones stat.all_nodes }

save_node-HasNoZones :
    (stat : CsiAlcubStatus) (ip : Ip) (al : AlcubCon)
    → HasNoZones al
    → HasNoZones (save_node stat ip al)
unfolding save_node entry
save_node-HasNoZones stat ip al h = record {
  at = λ n v e. elim (Option-cases (lookup stat.node al.nodes)) [
    | inl new ↦ ground (
      arith,
      h.at n v,
      lookup-insert stat.node n (entry no_info stat ip) al.nodes,
      eq_iff stat.node n,
    )
    | inr (w, old) ↦ ground (
      arith,
      h.at n v,
      h.at stat.node w old,
      lookup-insert stat.node n (entry w stat ip) al.nodes,
      eq_iff stat.node n,
    )
  ];
}

reverse_node-cases :
    (parse_ip : String → Option Ip) (stat : CsiAlcubStatus) (al : AlcubCon)
    → (reverse_node parse_ip stat al ≡ al)
      ⊎ ((ip : Ip) × (reverse_node parse_ip stat al ≡ save_node stat ip al))
unfolding reverse_node
reverse_node-cases parse_ip stat al = elim (Option-cases (parse_ip stat.volume_info.storage_ip)) [
  | inl e ↦ inl (ground arith)
  | inr (ip, e) ↦ elim (Bool-cases (stat.node == "" || stat.volume_info.storage_ip == "")) [
    | inl skip ↦ inl (ground arith)
    | inr goes ↦ inr (ip, ground arith)
  ]
]

-- `reverseNode` never brings a zone into the table, whatever nodes the status lists: from a table
-- without zones it leads to a table without zones.
pub reverse_node-HasNoZones :
    (parse_ip : String → Option Ip) (stat : CsiAlcubStatus) (al : AlcubCon)
    → HasNoZones al
    → HasNoZones (reverse_node parse_ip stat al)
reverse_node-HasNoZones parse_ip stat al h = elim (reverse_node-cases parse_ip stat al) [
  | inl e ↦ rw e h
  | inr (ip, e) ↦ rw e (save_node-HasNoZones stat ip al h)
]

ip_equal_nil : (ip : Ip) → ip ≢ [] → ip_equal [] ip ≡ false
unfolding ip_equal
ip_equal_nil [] h = absurd (h refl)
ip_equal_nil (b ∷ ip) h = ground arith

save_node_address :
    (stat : CsiAlcubStatus) (ip : Ip) (al : AlcubCon)
    → ip ≢ []
    → (v : Nodeinfo) × (lookup stat.node (save_node stat ip al).nodes ≡ some v)
      × ((v.store_ip ≡ ip) ⊎ (ip_equal v.store_ip ip ≡ true))
unfolding save_node entry
save_node_address stat ip al h = elim (Option-cases (lookup stat.node al.nodes)) [
  | inl new ↦ (
    entry no_info stat ip,
    ground
        (arith, ip_equal_nil ip h, lookup-insert_self stat.node (entry no_info stat ip) al.nodes),
    inl refl,
  )
  | inr (w, old) ↦ elim (Bool-cases (ip_equal w.store_ip ip)) [
    | inl same ↦ (w, ground arith, inr same)
    | inr differ ↦ (
      entry w stat ip,
      ground (arith, lookup-insert_self stat.node (entry w stat ip) al.nodes),
      inl refl,
    )
  ]
]

-- `reverseNode` records the address: for a status with a node and with an address that can be
-- parsed, to an `ip` that is not nil, the node has an entry afterwards whose address is `ip` or
-- one that `Equal` accepts as `ip`.
pub reverse_node_address :
    (parse_ip : String → Option Ip) (stat : CsiAlcubStatus) (al : AlcubCon) (ip : Ip)
    → stat.node ≢ ""
    → stat.volume_info.storage_ip ≢ ""
    → parse_ip stat.volume_info.storage_ip ≡ some ip
    → ip ≢ []
    → (v : Nodeinfo) × (lookup stat.node (reverse_node parse_ip stat al).nodes ≡ some v)
      × ((v.store_ip ≡ ip) ⊎ (ip_equal v.store_ip ip ≡ true))
unfolding reverse_node
reverse_node_address parse_ip stat al ip hn hs e h =
    let (v, found, same) = save_node_address stat ip al h in
    (v, ground (arith, eq_iff stat.node "", eq_iff stat.volume_info.storage_ip ""), same)
