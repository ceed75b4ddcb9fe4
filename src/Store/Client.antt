-- ===== src/Store/Client.antt =====
-- pkg/store/alcub.go: each operation is one request, made by `do` to the server whose address the
-- configuration holds. The address is fetched from Ceph where the configuration has none.
use csi_alcub.Base.{
  String, ◌<>◌, Bool, false, ◌||◌, not, Option, none, some, List, [], ◌∷◌, ◌++◌, ◌==◌,
  if◌then◌else◌,
}
use csi_alcub.Base.Dict.{Dict}
use csi_alcub.Base.Exec.{GoError, errorf, Result, ok, err, Go, pure, lift, fail_if, ◌>>=◌, ◌>>◌}
use csi_alcub.Process.{DynConf, Process, on_world}
use csi_alcub.Utils.{combine, build_basic_auth_md5}
use csi_alcub.Rbd.{RbdHost}
use csi_alcub.Rbd.Image.{fetch_url}
use csi_alcub.Store.{
  ConfPtr, null, alcub_dyn_conf, Alcuber, AlcubConf, operation, fields, Url, HttpHost, resource,
  devpath,
}

-- The message of the run-time error at a nil pointer, which ends the request.
abbrev pub nil_pointer : GoError
nil_pointer = errorf "runtime error: invalid memory address or nil pointer dereference"

module _ {W : Type 0} where
  -- The configuration that `do` works with: the caller's, or the client's own; `none` if both
  -- pointers are nil.
  unfoldable pub target : ConfPtr → Process W → Option DynConf
  target null s = s.dyn_conf
  target alcub_dyn_conf s = some s.alcub_dyn_conf

  -- A write to `AlucbUrl` through that pointer.
  unfoldable pub set_url : ConfPtr → DynConf → String → Process W → Process W
  set_url null d url s = record s { dyn_conf = some (record d { alucb_url = url }) }
  set_url alcub_dyn_conf d url s = record s { alcub_dyn_conf = record d { alucb_url = url } }

abbrev pub pool_and_image : String → String → Dict String
pool_and_image pool image = ("pool", pool) ∷ ("image", image) ∷ []

module _ {W : Type 0} (h : HttpHost W) (rbd : RbdHost W) (conf : AlcubConf) where
  -- `client.fillAlcubUrl`; the result is the configuration as it is afterwards.
  unfoldable pub fill_alcub_url : ConfPtr → DynConf → Go (Process W) DynConf
  unfolding set_url
  fill_alcub_url ptr d s =
      let (r, t) = on_world (fetch_url rbd conf.alucb_pool ("alcubierre_node_" <> d.nodename)) s in
      elim r [
        | ok url ↦ (ok (record d { alucb_url = url }), set_url ptr d url t)
        | err e ↦ (err e, t)
      ]

  -- The configuration with an address.
  unfoldable pub ensure_url : ConfPtr → DynConf → Go (Process W) DynConf
  ensure_url ptr d = if d.alucb_url == "" then fill_alcub_url ptr d else pure d

  abbrev pub auth_header : Dict String
  auth_header =
      if not (conf.user == "")
      then build_basic_auth_md5 h.md5_hex h.base64 conf.user conf.password
      else []

  -- The address that `do` puts into the buffer.
  unfoldable pub request_url : Url → String
  request_url dst =
      combine (dst.scheme ∷ "://" ∷ []) <> h.join_path (dst.host ∷ conf.api_url ∷ resource ∷ [])

  -- `client.do`
  unfoldable pub do_request :
      {A : Type 0}
      → ConfPtr
      → (String → Dict String → DynConf → Go (Process W) A)
      → Go (Process W) A
  unfolding target
  do_request ptr fn s = elim (target ptr s) [
    | none ↦ (err (errorf "No dynmic Configure found"), s)
    | some d ↦
        (ensure_url ptr d >>= λ d'.
        lift (h.parse_url d'.alucb_url) >>= λ dst. fn (request_url dst) auth_header d')
          s
  ]

  -- The callback of `DoConn`: the device that the answer names.
  unfoldable pub dev_connect :
      String → String → String → Dict String → DynConf → Go (Process W) String
  dev_connect pool image buf au dc = do
    resp ← on_world (h.post buf au (operation "dev_connect" (pool_and_image pool image)))
    if resp.answered then lift resp.dev else pure ""

  -- `client.DoConn`
  unfoldable pub do_conn : ConfPtr → String → String → Go (Process W) String
  do_conn ptr pool image = do
    dev ← do_request ptr (dev_connect pool image)
    fail_if (dev == "") (errorf "not found device on alcubierre_dev")
    pure (h.join_path (devpath ∷ dev ∷ []))

  -- The callback of `DoDisConn`; an error of the decoding is passed over.
  unfoldable pub dev_disconnect :
      String → String → String → Dict String → DynConf → Go (Process W) (Unit {0})
  dev_disconnect pool image buf au dc = do
    resp ← on_world (h.post buf au (operation "dev_disconnect" (pool_and_image pool image)))
    fail_if (not resp.answered) nil_pointer
    fail_if (not (resp.error == "")) (errorf resp.error)

  -- `client.DoDisConn`
  unfoldable pub do_dis_conn : ConfPtr → String → String → Go (Process W) (Unit {0})
  do_dis_conn ptr pool image = do_request ptr (dev_disconnect pool image)

  -- `client.FailNode`; the answer is not looked at.
  unfoldable pub fail_node : ConfPtr → String → Go (Process W) (Unit {0})
  fail_node ptr node = do_request ptr (λ buf au dc. do
    on_world (h.post buf au (operation "node_fail" (("node", node) ∷ [])))
    pure tt)

  -- `client.DevStop`; the answer is not looked at.
  unfoldable pub dev_stop : ConfPtr → String → String → Go (Process W) (Unit {0})
  dev_stop ptr pool image = do_request ptr (λ buf au dc. do
    on_world (h.post buf au (operation "dev_stop" (pool_and_image pool image)))
    pure tt)

  -- What `GetImageStatus` makes of the answer.
  unfoldable pub is_clear : Result GoError String → Bool
  is_clear (err e) = false
  is_clear (ok status) = status == "" || status == "clean"

  -- The callback of `GetImageStatus`: the status that the answer names.
  unfoldable pub get_status :
      String → String → String → Dict String → DynConf → Go (Process W) String
  get_status pool image buf au dc = do
    resp ← on_world (h.get buf au (fields (pool_and_image pool image)))
    lift resp.status

  -- `client.GetImageStatus`
  unfoldable pub get_image_status : ConfPtr → String → String → Process W → Bool × Process W
  unfolding is_clear
  get_image_status ptr pool image s =
      let (r, t) = do_request ptr (get_status pool image) s in (is_clear r, t)

  -- The end of the callback of `GetNode`: the address of the server itself joins the others, unless
  -- it cannot be parsed.
  unfoldable pub add_local_url : DynConf → List String → List String
  add_local_url dc nodes = elim (h.parse_url dc.alucb_url) [
    | ok u ↦ nodes ++ (combine (u.scheme ∷ "://" ∷ u.host ∷ []) ∷ [])
    | err e ↦ nodes
  ]

  -- The callback of `GetNode`.
  unfoldable pub get_secondary_urls :
      String → String → Dict String → DynConf → Go (Process W) (List String)
  unfolding add_local_url
  get_secondary_urls nodename buf au dc = do
    resp ← on_world (h.post buf au (operation "get_secondary_urls" (("node", nodename) ∷ [])))
    nodes ← lift resp.nodes
    pure (add_local_url dc nodes)

  -- `client.GetNode`
  unfoldable pub get_node : ConfPtr → String → Go (Process W) (List String)
  get_node ptr nodename = do_request ptr (get_secondary_urls nodename)

  -- `NewClient`; `none` is the panic at an empty `ApiUrl`. A failure to fetch the address is logged.
  unfoldable pub new_client : Option DynConf → Process W → Option (Process W)
  new_client dynconf s =
      if conf.api_url == ""
      then none
      else let t = record s { dyn_conf = dynconf } in
        elim dynconf [ none ↦ some t | some d ↦ some (fill_alcub_url null d t).1 ]

  -- The client as an `Alcuber`.
  abbrev pub client : Alcuber (Process W)
  client = record {
    do_conn = do_conn;
    do_dis_conn = do_dis_conn;
    get_image_status = get_image_status;
    fail_node = fail_node;
    dev_stop = dev_stop;
    get_node = get_node;
  }
