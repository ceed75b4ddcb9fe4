-- ===== src/Rbd/Image.antt =====
-- pkg/rbd/rbd.go: the operations on images, and rbd_util.go: the functions that take the package's
-- own `RBDUtil`.
use csi_alcub.Base.{ℕ, String, ◌<>◌, true, false}
use csi_alcub.Base.Int.{ℤ}
use csi_alcub.Base.Exec.{Go, ◌>>=◌}
use csi_alcub.Process.{Process, on_world}
use csi_alcub.Rbd.{RbdHost, Rbd, Volume}
use csi_alcub.Rbd.Util
use csi_alcub.Rbd.Options.{parse_parameters}

-- `defaultRbdUtil`: ten seconds, in nanoseconds.
abbrev default_rbd_util : ℕ
default_rbd_util = 10000000000

module _ {W : Type 0} (h : RbdHost W) where
  -- `Rbd.CreateImage`
  unfoldable pub create_image : Rbd → String → String → ℤ → Go (Process W) Volume
  create_image r scname image bytesize = do
    parameters ← on_world (h.storage_class scname)
    options ← parse_parameters h r parameters
    on_world (Util.create_image h r.rbdutil options image bytesize)

  -- `Rbd.DeleteImage`
  unfoldable pub delete_image : Rbd → String → String → Go (Process W) (Unit {0})
  delete_image r scname image = do
    parameters ← on_world (h.storage_class scname)
    options ← parse_parameters h r parameters
    on_world (Util.delete_image h r.rbdutil options image)

  -- `rbd.FetchUrl`
  unfoldable pub fetch_url : String → String → Go W String
  fetch_url = Util.fetch_url h default_rbd_util

  -- `AddBlackList`, at the text of the address
  unfoldable pub add_black_list : String → String → Go W (Unit {0})
  add_black_list storage_ip id = Util.black_list h default_rbd_util (storage_ip <> ":0/0") id true

  -- `RmBlackList`, at the text of the address
  unfoldable pub rm_black_list : String → String → Go W (Unit {0})
  rm_black_list storage_ip id = Util.black_list h default_rbd_util (storage_ip <> ":0/0") id false
