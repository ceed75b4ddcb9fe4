-- ===== src/Commands.antt =====
-- cmd/commands/config.go: the variables of the package, and the flags that set them. The commands
-- are in Controller (csicontrol.go) and in Plugin (csinode.go). Package pflag parses the command
-- line; a flag here is the variable that it writes, its name and its default.
pub mod Start
pub mod Controller
pub mod Plugin
pub mod Main
pub mod Started
use csi_alcub.Base.{ℕ, String, Bool, false, List, [], ◌∷◌, ◌++◌}
use csi_alcub.Store.{AlcubConf}

-- `labelkv`
pub record Labelkv : Type 0 where
  pub filterkv : String
  pub hakv : String
  pub csilabelkv : String

-- `leaderInfo`
pub record LeaderInfo : Type 0 where
  pub id : String
  pub enable : Bool

-- The variables of the package, which its commands share. A duration is in nanoseconds.
pub record Config : Type 0 where
  pub store_conf : AlcubConf
  pub nodename : String
  pub leader : LeaderInfo
  pub labels : Labelkv
  pub alcubconntimeout : ℕ
  pub drivername : String
  pub endpoint : String
  pub storage_if_name : String

-- `StringVar`, `BoolVar` and `DurationVar` of a flag set.
pub data Flag : Type 0 where
  string_var : (String → Config → Config) → String → String → Flag
  bool_var : (Bool → Config → Config) → String → Bool → Flag
  duration_var : (ℕ → Config → Config) → String → ℕ → Flag

abbrev pub flag_name : Flag → String
flag_name (string_var set name value) = name
flag_name (bool_var set name value) = name
flag_name (duration_var set name value) = name

-- Declaring a flag writes its default into the variable.
unfoldable pub declare : Flag → Config → Config
declare (string_var set name value) c = set value c
declare (bool_var set name value) c = set value c
declare (duration_var set name value) c = set value c

unfoldable pub declare_all : List Flag → Config → Config
unfolding declare
declare_all [] c = c
declare_all (f ∷ fs) c = declare_all fs (declare f c)

abbrev set_store : (AlcubConf → AlcubConf) → Config → Config
set_store f c = record c { store_conf = f c.store_conf }

-- `time.Second` and `5*time.Minute`
abbrev pub second : ℕ
second = 1000000000

abbrev pub default_timeout : ℕ
default_timeout = 300000000000

-- `ApplyStore`
abbrev pub apply_store : List Flag
apply_store =
    string_var (λ v. set_store (λ s. record s { api_url = v })) "alcub-api-url" ""
    ∷ string_var (λ v. set_store (λ s. record s { user = v })) "alcub-user" ""
    ∷ string_var (λ v. set_store (λ s. record s { password = v })) "alcub-password" ""
    ∷ string_var (λ v. set_store (λ s. record s { alucb_pool = v })) "alcub-pool-name" ""
    ∷ duration_var (λ v c. record c { alcubconntimeout = v }) "alcub-conn-timeout" default_timeout
    ∷ []

-- `ApplyLeaderConf`
abbrev pub apply_leader_conf : List Flag
apply_leader_conf =
    string_var (λ v c. record c { leader = record c.leader { id = v } }) "leader-id" ""
    ∷ bool_var (λ v c. record c { leader = record c.leader { enable = v } }) "leader-elect" false
    ∷ []

-- `ApplyLabels`
abbrev pub apply_labels : List Flag
apply_labels =
    string_var (λ v c. record c { labels = record c.labels { filterkv = v } }) "filter-label" ""
    ∷ string_var (λ v c. record c { labels = record c.labels { hakv = v } }) "ha-maintain-label" ""
    ∷ string_var (λ v c. record c { labels = record c.labels { csilabelkv = v } }) "csi-label" ""
    ∷ []

-- `ApplyNode`
abbrev pub apply_node : List Flag
apply_node = string_var (λ v c. record c { nodename = v }) "node-name" "" ∷ []

-- `ApplyCsiInfo`
abbrev pub apply_csi_info : List Flag
apply_csi_info =
    string_var (λ v c. record c { endpoint = v }) "endpoint" ""
    ∷ string_var (λ v c. record c { drivername = v }) "driver-name" "alcub.csi.es.io"
    ∷ []

-- `ApplyStorageIfName`
abbrev pub apply_storage_if_name : List Flag
apply_storage_if_name =
    string_var (λ v c. record c { storage_if_name = v }) "storage-if-name" "" ∷ []

-- The flags of `NewControllerCmd`, and those of `NewNodeCmd`.
abbrev pub controller_flags : List Flag
controller_flags = apply_store ++ apply_labels ++ apply_node ++ apply_leader_conf ++ apply_csi_info

abbrev pub node_flags : List Flag
node_flags = apply_store ++ apply_node ++ apply_csi_info ++ apply_storage_if_name
