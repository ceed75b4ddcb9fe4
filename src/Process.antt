-- ===== src/Process.antt =====
-- The state of one running process, the controller or the node plugin: what each component keeps
-- in memory, and the world outside (API server, storage servers, commands, mounts), whose type `W`
-- and whose operations are parameters.
-- pkg/manager/alcubManage.go (`Nodeinfo`, `AlcubCon`), pkg/store/alcub.go (`DynConf`, the field
-- `client.dynConf`), pkg/controlrpc/controller.go (`Controller.alcubDynConf`), pkg/rbd/rbd.go
-- (`Rbd.dnsip`).
use csi_alcub.Base.{ℕ, String, Option, List}
use csi_alcub.Base.Dict.{Dict}
use csi_alcub.Base.Exec.{Exec}

-- A Go `net.IP`: its bytes. The nil slice is the empty list.
abbrev pub Ip : Type 0
Ip = List ℕ

pub record Nodeinfo : Type 0 where
  pub store_ip : Ip
  pub zones : List String

-- The maps of `AlcubCon`. Each is read and written under its lock only, so an operation on them is
-- one step.
pub record AlcubCon : Type 0 where
  pub uuidname : Dict String
  pub nodes : Dict Nodeinfo

pub record DynConf : Type 0 where
  pub alucb_url : String
  pub nodename : String

pub record Process (W : Type 0) : Type 0 where
  pub world : W
  pub alcub_control : AlcubCon
  pub dnsip : String
  -- `client.dynConf`; `none` is the nil pointer
  pub dyn_conf : Option DynConf
  -- `Controller.alcubDynConf`, which the controller passes to the client by its address
  pub alcub_dyn_conf : DynConf

module _ {W E A : Type 0} where
  -- An operation on the outside world.
  abbrev pub on_world : Exec E W A → Exec E (Process W) A
  on_world m s = let (r, w) = m s.world in (r, record s { world = w })

  -- An operation on the maps of `AlcubCon`.
  abbrev pub on_control : Exec E AlcubCon A → Exec E (Process W) A
  on_control m s = let (r, c) = m s.alcub_control in (r, record s { alcub_control = c })
