-- ===== src/Samples/Errors.antt =====
-- Tests of the controller's errors.
use csi_alcub.Base.{String, true, ◌≡◌, refl}
use csi_alcub.Base.Exec.{err}
use csi_alcub.Rpc.{Code, status, CreateVolumeRequest}
use csi_alcub.Control.{sc_param}
use csi_alcub.Control.Volumes.{create_volume, delete_volume}
use csi_alcub.Control.Service
use csi_alcub.Control.Errors.{HasReason, create_volume-HasReason, may_return, serve-may_return}
use csi_alcub.Samples.Volumes.{request}
use csi_alcub.Samples.Clusters.{builder}
use csi_alcub.Samples.Reclaims.{orphan}

abbrev nameless : CreateVolumeRequest
nameless = record request { name = "" }

nameless_fails :
    (create_volume builder nameless orphan).0
    ≡ err (status Code.invalid_argument "Name missing in request")
unfolding create_volume csi_alcub.Control.Volumes.check_create
nameless_fails = refl

create_volume-HasReason_example :
    (code : Code) × ((m : String) × (status Code.invalid_argument "Name missing in request"
        ≡ status code m))
    × HasReason builder nameless orphan (create_volume builder nameless orphan).1 code
create_volume-HasReason_example =
    create_volume-HasReason builder nameless orphan
      (status Code.invalid_argument "Name missing in request") nameless_fails

serve_fails :
    (Service.serve builder (Service.creates nameless) orphan).0
    ≡ err (status Code.invalid_argument "Name missing in request")
unfolding Service.serve create_volume csi_alcub.Control.Volumes.check_create
serve_fails = refl

serve-may_return_example :
    (code : Code) × ((m : String) × (status Code.invalid_argument "Name missing in request"
        ≡ status code m))
    × (may_return (Service.creates nameless) code ≡ true)
serve-may_return_example =
    serve-may_return builder (Service.creates nameless) orphan
      (status Code.invalid_argument "Name missing in request") serve_fails
