-- ===== src/Cluster.antt =====
-- The nodes of the cluster: pkg/controlrpc/nodeManage.go, what is independent of the controller.
use csi_alcub.Base.{
  ℕ, zero, suc, String, ◌<>◌, Bool, true, false, Option, none, some, List, [], ◌∷◌, ◌++◌, ◌==◌,
  if◌then◌else◌,
}
use Prim.Native.String.{count}
use Prim.Native.Nat.{◌-◌}
use csi_alcub.Base.Dict.{Dict, lookup}
use csi_alcub.Base.Text.{strip}
use csi_alcub.Base.Exec.{Go, ok, err}

pub record Taint : Type 0 where
  pub key : String
  pub effect : String

-- `corev1.Node`, as far as the program reads or writes it. `none` is a nil map.
pub record ClusterNode : Type 0 where
  pub name : String
  pub labels : Option (Dict String)
  pub annotations : Option (Dict String)
  pub unschedulable : Bool
  pub taints : List Taint
  pub deleting : Bool

-- `client.Client` at nodes, `retry.RetryOnConflict` and `Taint.MatchTaint`.
pub record NodeClient (W : Type 0) : Type 0 where
  pub get : String → Go W ClusterNode
  pub list : Go W (List ClusterNode)
  pub update : ClusterNode → Go W (Unit {0})
  pub retry_on_conflict : Go W (Unit {0}) → Go W (Unit {0})
  pub match_taint : Taint → Taint → Bool

-- The fields of `controlrpc.Node` that the command line sets.
pub record NodeConf : Type 0 where
  pub csilabel : Dict String
  pub halabel : Option (Dict String)
  pub filter_key : String
  pub filtervalue : String

-- `UnreachableTaintTemplate`
abbrev pub unreachable_taint : Taint
unreachable_taint = record { key = "node.kubernetes.io/unreachable"; effect = "NoSchedule" }

-- `csiBlackKv`
abbrev pub csi_black_kv : Dict String
csi_black_kv = ("csi-alcub.io/maintain", "true") ∷ []

-- `tempNodeKey`
abbrev pub temp_node_key : String
temp_node_key = "%N"

-- The loop of `inMaps`.
unfoldable pub in_map : Dict String → Dict String → Bool
in_map src [] = true
in_map src ((k, v) ∷ kv) =
    let rest = in_map src kv in
    elim (lookup k src) [ some v0 ↦ (if v0 == v then rest else false) | none ↦ false ]

-- `inMaps`
unfoldable pub in_maps : Option (Dict String) → Option (Dict String) → Bool
unfolding in_map
in_maps src none = true
in_maps none (some kv) = false
in_maps (some src) (some kv) = in_map src kv

-- `bytes.ReplaceAll` at a text `old` that is not empty, after `skip` characters to pass over.
unfoldable pub replace_from : String → String → String → ℕ → String
replace_from old new String.[] skip = ""
replace_from old new (String.◌∷◌ c s) (suc skip) = replace_from old new s skip
replace_from old new (String.◌∷◌ c s) zero =
    let hit = new <> replace_from old new s (count old - 1) in
    let miss = String.◌∷◌ c (replace_from old new s zero) in
    elim (strip (String.◌∷◌ c s) old) [ some rest ↦ hit | none ↦ miss ]

-- `tempReplace`
unfoldable pub temp_replace : String → Dict String → String
unfolding replace_from
temp_replace src [] = src
temp_replace src ((k, v) ∷ replaces) = temp_replace (replace_from k v src zero) replaces

module _ {W : Type 0} (c : NodeClient W) where
  -- The inner loop of `NotReadyNodes`: a node's name once for each taint that matches.
  unreachable_names : String → List Taint → List String
  unreachable_names name [] = []
  unreachable_names name (taint ∷ taints) =
      let rest = unreachable_names name taints in
      if c.match_taint taint unreachable_taint then name ∷ rest else rest

  not_ready_names : List ClusterNode → List String
  unfolding unreachable_names
  not_ready_names [] = []
  not_ready_names (node ∷ items) = unreachable_names node.name node.taints ++ not_ready_names items

  -- `Node.NotReadyNodes`
  unfoldable pub not_ready_nodes : W → List String × W
  unfolding not_ready_names
  not_ready_nodes w =
      let (r, w') = c.list w in elim r [ ok items ↦ (not_ready_names items, w') | err e ↦ ([], w') ]

  unfoldable pub labled_names : Dict String → List ClusterNode → List String
  labled_names csilabel [] = []
  labled_names csilabel (node ∷ items) =
      let rest = labled_names csilabel items in
      if in_maps node.labels (some csilabel) then node.name ∷ rest else rest

  -- `Node.LabledNodes`
  unfoldable pub labled_nodes : NodeConf → W → List String × W
  unfolding labled_names
  labled_nodes n w =
      let (r, w') = c.list w in
      elim r [ ok items ↦ (labled_names n.csilabel items, w') | err e ↦ ([], w') ]
