-- ===== src/Store/Address.antt =====
-- The address of the storage server that a configuration keeps between requests.
use csi_alcub.Base.{◌≡◌, ◌≢◌, some, arith, eq_iff}
use csi_alcub.Base.Exec.{ok}
use csi_alcub.Process.{DynConf, Process}
use csi_alcub.Rbd.{RbdHost}
use csi_alcub.Store.{ConfPtr, null, alcub_dyn_conf, AlcubConf, HttpHost}
use csi_alcub.Store.Client.{target, set_url, fill_alcub_url, ensure_url}

module _ {W : Type 0} (h : HttpHost W) (rbd : RbdHost W) (conf : AlcubConf) where
  -- A request that has got its address has written it where the next request with the same pointer
  -- looks: that one starts from the same address and name and, if the address is not empty, fetches
  -- nothing and leaves the state alone. An address that was there is never replaced.
  pub ensure_url_keeps :
      (ptr : ConfPtr) (d d' : DynConf) (s t : Process W)
      → target ptr s ≡ some d
      → ensure_url h rbd conf ptr d s ≡ (ok d', t)
      → (target ptr t ≡ some d')
        × (d'.nodename ≡ d.nodename)
        × (d.alucb_url ≢ "" → d' ≡ d)
        × (d'.alucb_url ≢ "" → ensure_url h rbd conf ptr d' t ≡ (ok d', t))
  unfolding target ensure_url fill_alcub_url set_url
  ensure_url_keeps null d d' s t at e = (
    ground (arith, eq_iff d.alucb_url ""),
    ground (arith, eq_iff d.alucb_url ""),
    λ ne. ground (arith, eq_iff d.alucb_url ""),
    λ ne. ground (arith, eq_iff d'.alucb_url ""),
  )
  ensure_url_keeps alcub_dyn_conf d d' s t at e = (
    ground (arith, eq_iff d.alucb_url ""),
    ground (arith, eq_iff d.alucb_url ""),
    λ ne. ground (arith, eq_iff d.alucb_url ""),
    λ ne. ground (arith, eq_iff d'.alucb_url ""),
  )
