-- ===== src/Samples/Images.antt =====
-- Tests of the package for images, in the sample cluster.
use csi_alcub.Base.{
  ◌<>◌, ℕ, String, Bool, true, false, Option, none, some, List, [], ◌∷◌, ◌++◌, ◌==◌, ◌≡◌, refl, ◌≢◌,
  ◌⊎◌, inl, inr, arith, eq_iff,
}
use csi_alcub.Base.Text.{contains}
use csi_alcub.Base.Int.{pos, ◌≤ℤ◌}
use csi_alcub.Base.Exec.{ok}
use csi_alcub.Rbd.{
  RbdProvisionOptions, Volume, RbdHost, image_watcher_str, image_not_found, secret_key_name,
}
use csi_alcub.Rbd.Util
use csi_alcub.Rbd.Options.{parse_parameters, pick_secret, default_opts}
use csi_alcub.Rbd.Removal.{Succeeded, status_run, rm_run, delete_image_safe}
use csi_alcub.Base.Text.Decimal.{value_onto}
use csi_alcub.Rbd.Size.{create_image_size}
use csi_alcub.Rbd.Valid.{IsSane, parse_parameters-IsSane}
use csi_alcub.Rbd.{RbdHost}
use csi_alcub.Rbd.Removal.{megabytes, create_run, create_image_safe}
use csi_alcub.Samples.{rbd_host, rbd, good_class, empty}

delete_image_safe_example :
    let st = status_run rbd_host 30 default_opts "pvc-1" [] in
    let rm = rm_run rbd_host 30 default_opts "pvc-1" [] in
    let done = Util.delete_image rbd_host 30 default_opts "pvc-1" [] in
    (Succeeded st.0
      × (contains st.0.output image_watcher_str ≡ false)
      × (done.1 ≡ rm.1)
      × (done.0 ≡ ok tt → Succeeded rm.0))
    ⊎ ((done.1 ≡ st.1)
        × (done.0 ≡ ok tt → (¬ Succeeded st.0) × (contains st.0.output image_not_found ≡ true)))
delete_image_safe_example = delete_image_safe rbd_host 30 default_opts "pvc-1" []

abbrev options : RbdProvisionOptions
options = record default_opts { admin_id = "kube"; user_id = "kube"; admin_secret = "secret" }

class_parses : (parse_parameters rbd_host rbd good_class empty).0 ≡ ok options
unfolding parse_parameters csi_alcub.Rbd.Options.read_parameters
    csi_alcub.Rbd.Options.read_parameter csi_alcub.Rbd.Options.read_key
    csi_alcub.Rbd.Options.option_key csi_alcub.Base.Text.to_lower
    csi_alcub.Rbd.Options.finish_options
class_parses = refl

parse_parameters-IsSane_example : IsSane options × (options.user_id ≢ "")
parse_parameters-IsSane_example =
    parse_parameters-IsSane rbd_host rbd good_class empty options class_parses

size_runs :
    (Util.create_image rbd_host 30 default_opts "pvc-1" (pos 1073741824) []).0
    ≡ ok (record { pool = "rbd"; image = "pvc-1" })
unfolding Util.create_image
size_runs = refl

create_image_size_example :
    (text : String) × (rest : List String) × ((Util.create_image rbd_host 30 default_opts "pvc-1"
        (pos 1073741824)
        []).1
      ≡ (rbd_host.run 30 "rbd" ("create" ∷ "pvc-1" ∷ "--size" ∷ text ∷ rest) []).1)
    × (value_onto 0 text ≡ 1024)
    × (pos 1 ≤ℤ pos 1024)
create_image_size_example =
    create_image_size rbd_host 30 default_opts "pvc-1" (pos 1073741824) []
      (record { pool = "rbd"; image = "pvc-1" }) size_runs (omega arith)

create_image_safe_example :
    let run = create_run rbd_host 30 default_opts "pvc-1" (pos 1073741824) [] in
    let done = Util.create_image rbd_host 30 default_opts "pvc-1" (pos 1073741824) [] in
    let mb = megabytes rbd_host 30 default_opts "pvc-1" (pos 1073741824) [] in
    ((pos 1 ≤ℤ mb)
      × (done.1 ≡ run.1)
      × ((v : Volume)
          → done.0 ≡ ok v
          → Succeeded run.0 × (v ≡ record { pool = "rbd"; image = "pvc-1" })))
    ⊎ ((mb ≤ℤ pos 0) × (done.1 ≡ []) × ((v : Volume) → done.0 ≢ ok v))
create_image_safe_example = create_image_safe rbd_host 30 default_opts "pvc-1" (pos 1073741824) []
