-- ===== src/Rbd.antt =====
-- pkg/rbd: images of volumes in a Ceph cluster. Here are the data of rbd.go and what the package
-- calls and does not implement; Util is rbd_util.go, Options the parsing of a storage class, and
-- Image the two operations on images.
pub mod Util
pub mod Options
pub mod Image
pub mod Removal
pub mod Size
pub mod Order
pub mod Shuffle
pub mod Class
pub mod Quiet
pub mod Valid
pub mod Secret
use csi_alcub.Base.{ℕ, String, Bool, Option, List, [], ◌∷◌}
use csi_alcub.Base.Dict.{Dict}
use csi_alcub.Base.Exec.{Go}
use csi_alcub.Base.Int.{ℤ}
use csi_alcub.Process.{Ip}

-- What `exec.CommandContext(...).CombinedOutput()` leaves: the output, the message of its error if
-- there is one, and whether the context's deadline has passed.
pub record Ran : Type 0 where
  pub output : String
  pub failed : Option String
  pub deadline_exceeded : Bool

-- Package os/exec with the time limit of the caller, the storage classes and secrets of the API
-- server, and the helpers of sig-storage-lib-external-provisioner and of package net. A storage
-- class is its `Parameters`, and a secret its `Data`, in the order of one iteration over the map.
pub record RbdHost (W : Type 0) : Type 0 where
  pub run : ℕ → String → List String → W → Ran × W
  pub storage_class : String → Go W (Dict String)
  pub secret : String → String → Go W (Dict String)
  pub find_dns_ip : W → String × W
  pub lookup_host : String → String → Go W (List String)
  pub split_host_port : String → String × String
  pub join_host_port : String → String → String
  pub parse_ip : String → Option Ip
  pub round_up_size : ℤ → ℤ → ℤ
  -- `%q` of package fmt
  pub quote : String → String

pub record RbdProvisionOptions : Type 0 where
  pub monitors : List String
  pub pool : String
  pub data_pool : String
  pub admin_id : String
  pub admin_secret : String
  pub user_id : String
  pub user_secret_name : String
  pub user_secret_namespace : String
  pub fs_type : String
  pub image_format : String
  pub image_features : List String

pub record Volume : Type 0 where
  pub pool : String
  pub image : String

-- The fields of `Rbd` that do not change: whether it has a client of the API server, and `rbdutil`,
-- the time limit of a command. `dnsip` is in `Process`.
pub record Rbd : Type 0 where
  pub has_client : Bool
  pub rbdutil : ℕ

abbrev pub rbd_image_format1 : String
rbd_image_format1 = "1"

abbrev pub rbd_image_format2 : String
rbd_image_format2 = "2"

abbrev pub image_watcher_str : String
image_watcher_str = "watcher="

abbrev pub image_not_found : String
image_not_found = "No such file"

abbrev pub secret_key_name : String
secret_key_name = "key"

-- `supportedFeatures`
abbrev pub supported_features : List String
supported_features = "layering" ∷ []
