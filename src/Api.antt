-- ===== src/Api.antt =====
-- pkg/api/v1beta1: the custom resource that stands for a volume (csi_alcub.go), and the deep copies
-- of its parts (zz_generated.deepcopy.go). A Go slice is a list; a nil slice and an empty one are
-- both the empty list, since nothing that is modelled tells them apart.
pub mod Copies
use csi_alcub.Base.{String, Bool, List, [], ◌∷◌, ◌≡◌, refl}
use csi_alcub.Base.Int.{ℤ}

-- `metav1.ObjectMeta`, as far as the program reads or writes it: the deletion time counts only by
-- being set or not, and the resource version is the server's, carried along.
pub record ObjectMeta : Type 0 where
  pub name : String
  pub finalizers : List String
  pub deleting : Bool
  pub resource_version : String

pub record CsiAlcubSpec : Type 0 where
  pub uuid : String
  pub capacity : ℤ
  pub rbd_sc : String
  pub pool : String
  pub image : String

pub record VolumeInfo : Type 0 where
  pub devpath : String
  pub storage_ip : String

pub record CsiAlcubStatus : Type 0 where
  pub volume_info : VolumeInfo
  pub prenode : String
  pub node : String
  pub all_nodes : List String

pub record CsiAlcub : Type 0 where
  pub meta : ObjectMeta
  pub spec : CsiAlcubSpec
  pub status : CsiAlcubStatus

abbrev pub empty_status : CsiAlcubStatus
empty_status = record {
  volume_info = record { devpath = ""; storage_ip = "" };
  prenode = "";
  node = "";
  all_nodes = [];
}

-- Go's `copy(dst, src)` on slices: it overwrites as many items as both have, and never grows `dst`.
unfoldable pub copy : {A : Type 0} → List A → List A → List A
copy [] src = []
copy (d ∷ dst) [] = d ∷ dst
copy (d ∷ dst) (s ∷ src) = s ∷ copy dst src

-- `make([]string, len(in))`
abbrev make_strings : List String → List String
make_strings [] = []
make_strings (x ∷ xs) = "" ∷ make_strings xs

-- `(*CsiAlcubSpec).DeepCopyInto`: the value that `out` has afterwards.
unfoldable pub deep_copy_spec : CsiAlcubSpec → CsiAlcubSpec
deep_copy_spec spec = spec

-- `(*CsiAlcubStatus).DeepCopyInto`: a new slice of the length of the old one, and `copy`.
unfoldable pub deep_copy_status : CsiAlcubStatus → CsiAlcubStatus
unfolding copy
deep_copy_status status = record {
  volume_info = status.volume_info;
  prenode = status.prenode;
  node = status.node;
  all_nodes = copy (make_strings status.all_nodes) status.all_nodes;
}

copy-make_strings : (xs : List String) → copy (make_strings xs) xs ≡ xs
unfolding copy
copy-make_strings [] = refl
copy-make_strings (x ∷ xs) = rw (copy-make_strings xs)

-- A deep copy of a status is that status, list of nodes included.
pub deep_copy_status_lem : (status : CsiAlcubStatus) → deep_copy_status status ≡ status
unfolding deep_copy_status
deep_copy_status_lem status = rw (copy-make_strings status.all_nodes)
