-- ===== src/Store/Laws.antt =====
-- What a successful request of the client has done.
use csi_alcub.Base.{
  String, true, ◌≡◌, ◌≢◌, ◌⊎◌, inl, inr, List, [], ◌∷◌, ◌++◌, arith, eq_iff, Option-cases,
}
use csi_alcub.Base.Dict.{Dict}
use csi_alcub.Base.Exec.{ok, Go, Result-cases}
use csi_alcub.Process.{DynConf, Process, on_world}
use csi_alcub.Utils.{combine}
use csi_alcub.Rbd.{RbdHost}
use csi_alcub.Store.{ConfPtr, AlcubConf, Body, operation, fields, Response, Url, HttpHost, devpath}
use csi_alcub.Store.Client.{
  target, ensure_url, auth_header, request_url, do_request, pool_and_image, dev_connect,
  dev_disconnect, get_secondary_urls, get_status, do_conn, do_dis_conn, get_image_status, get_node,
}

module _ {W : Type 0} (h : HttpHost W) (rbd : RbdHost W) (conf : AlcubConf) (ptr : ConfPtr) where
  -- A request that succeeds has gone to an address that can be parsed.
  pub do_request_ok :
      {A : Type 0} (fn : String → Dict String → DynConf → Go (Process W) A) (s : Process W) (a : A)
      → (do_request h rbd conf ptr fn s).0 ≡ ok a
      → (d : DynConf) × (dst : Url) × (s' : Process W) × (h.parse_url d.alucb_url ≡ ok dst)
        × ((fn (request_url h rbd conf dst) (auth_header h rbd conf) d s').0 ≡ ok a)
        × ((fn (request_url h rbd conf dst) (auth_header h rbd conf) d s').1
            ≡ (do_request h rbd conf ptr fn s).1)
  unfolding do_request
  do_request_ok fn s a e = elim (Option-cases (target ptr s)) [
    | inl no_conf ↦ absurd (ground arith)
    | inr (d, conf_is) ↦ elim (Result-cases (ensure_url h rbd conf ptr d s).0) [
      | inr (x, failed) ↦ absurd (ground arith)
      | inl (d', ready) ↦ elim (Result-cases (h.parse_url d'.alucb_url)) [
        | inr (x, bad) ↦ absurd (ground arith)
        | inl (dst, parsed) ↦
            (d', dst, (ensure_url h rbd conf ptr d s).1, parsed, ground arith, ground arith)
      ]
    ]
  ]

  -- The request that an operation makes, and its answer: a `post` at a world `w` gave `resp` and
  -- left the world as the operation leaves it.
  abbrev pub Answered : Body → Response → Process W → Type 0
  Answered body resp t =
      (url : String) × (au : Dict String) × (w : W) × (h.post url au body w ≡ (ok resp, t.world))

  post_ok :
      (url : String) (au : Dict String) (body : Body) (s : Process W) (resp : Response)
      → (h.post url au body s.world).0 ≡ ok resp
      → h.post url au body s.world ≡ (ok resp, (on_world (h.post url au body) s).1.world)
  post_ok url au body s resp e = ground arith

  dev_connect_ok :
      (pool image buf : String) (au : Dict String) (d : DynConf) (s : Process W) (dev : String)
      → (dev_connect h rbd conf pool image buf au d s).0 ≡ ok dev
      → dev ≢ ""
      → (resp : Response) × (resp.dev ≡ ok dev)
        × (h.post buf au (operation "dev_connect" (pool_and_image pool image)) s.world
            ≡ (ok resp, (dev_connect h rbd conf pool image buf au d s).1.world))
  unfolding dev_connect
  dev_connect_ok pool image buf au d s dev e ne =
      elim (Result-cases
        (h.post buf au (operation "dev_connect" (pool_and_image pool image)) s.world).0) [
          | inr (x, failed) ↦ absurd (ground arith)
          | inl (resp, came) ↦ (resp, ground arith, ground arith)
        ]

  module _ (pool image : String) (s : Process W) where
    -- `DoConn` succeeds only with the path that `path.Join` makes of `/dev` and of a device name
    -- that the server has given in its answer and that is not empty.
    pub do_conn_ok :
        (path : String)
        → (do_conn h rbd conf ptr pool image s).0 ≡ ok path
        → (dev : String) × (dev ≢ "")
          × (path ≡ h.join_path (devpath ∷ dev ∷ []))
          × ((resp : Response) × (resp.dev ≡ ok dev)
              × Answered
                  (operation "dev_connect" (pool_and_image pool image))
                  resp
                  (do_conn h rbd conf ptr pool image s).1)
    unfolding do_conn
    do_conn_ok path e =
        elim (Result-cases (do_request h rbd conf ptr (dev_connect h rbd conf pool image) s).0) [
          | inr (x, failed) ↦ absurd (ground arith)
          | inl (dev, came) ↦
              let ne : dev ≢ "" = ground (arith, eq_iff dev "") in
              let (d, dst, s', parsed, gives, leaves) =
                do_request_ok (dev_connect h rbd conf pool image) s dev came in
              let url = request_url h rbd conf dst in
              let au = auth_header h rbd conf in
              let (resp, named, posted) = dev_connect_ok pool image url au d s' dev gives ne in
              (
                dev,
                ne,
                ground (arith, eq_iff dev ""),
                (resp, named, (url, au, s'.world, ground (arith, eq_iff dev ""))),
              )
        ]

    dev_disconnect_ok :
        (buf : String) (au : Dict String) (d : DynConf) (s' : Process W)
        → (dev_disconnect h rbd conf pool image buf au d s').0 ≡ ok tt
        → (resp : Response) × (resp.error ≡ "")
          × (h.post buf au (operation "dev_disconnect" (pool_and_image pool image)) s'.world
              ≡ (ok resp, (dev_disconnect h rbd conf pool image buf au d s').1.world))
    unfolding dev_disconnect
    dev_disconnect_ok buf au d s' e =
        elim (Result-cases
          (h.post buf au (operation "dev_disconnect" (pool_and_image pool image)) s'.world).0) [
            | inr (x, failed) ↦ absurd (ground arith)
            | inl (resp, came) ↦ (resp, ground (arith, eq_iff resp.error ""), ground arith)
          ]

    -- `DoDisConn` succeeds only if the server has answered the request without an error text, and
    -- then that request is the last thing that it has done.
    pub do_dis_conn_ok :
        (do_dis_conn h rbd conf ptr pool image s).0 ≡ ok tt
        → (resp : Response) × (resp.error ≡ "")
          × Answered
              (operation "dev_disconnect" (pool_and_image pool image))
              resp
              (do_dis_conn h rbd conf ptr pool image s).1
    unfolding do_dis_conn
    do_dis_conn_ok e =
        let (d, dst, s', parsed, gives, leaves) =
          do_request_ok (dev_disconnect h rbd conf pool image) s tt e in
        let url = request_url h rbd conf dst in
        let au = auth_header h rbd conf in
        let (resp, clean, posted) = dev_disconnect_ok url au d s' gives in
        (resp, clean, (url, au, s'.world, ground arith))

  get_secondary_urls_ok :
      (nodename buf : String) (au : Dict String) (d : DynConf) (s : Process W) (ns : List String)
      (dst : Url)
      → h.parse_url d.alucb_url ≡ ok dst
      → (get_secondary_urls h rbd conf nodename buf au d s).0 ≡ ok ns
      → (others : List String) × (ns
          ≡ others ++ (combine (dst.scheme ∷ "://" ∷ dst.host ∷ []) ∷ []))
  unfolding get_secondary_urls
  get_secondary_urls_ok nodename buf au d s ns dst parsed e =
      elim (Result-cases
        (h.post buf au (operation "get_secondary_urls" (("node", nodename) ∷ [])) s.world).0) [
          | inr (x, failed) ↦ absurd (ground arith)
          | inl (resp, came) ↦ elim (Result-cases resp.nodes) [
            | inr (x, bad) ↦ absurd (ground arith)
            | inl (nodes, good) ↦ (nodes, ground arith)
          ]
        ]

  -- The nodes that `GetNode` returns end in the address of the server that was asked, in the form
  -- `scheme://host`: they are never an empty list.
  pub get_node_ok :
      (nodename : String) (s : Process W) (ns : List String)
      → (get_node h rbd conf ptr nodename s).0 ≡ ok ns
      → (d : DynConf) × (dst : Url) × (others : List String) × (h.parse_url d.alucb_url ≡ ok dst)
        × (ns ≡ others ++ (combine (dst.scheme ∷ "://" ∷ dst.host ∷ []) ∷ []))
  unfolding get_node
  get_node_ok nodename s ns e =
      let (d, dst, s', parsed, gives, leaves) =
        do_request_ok (get_secondary_urls h rbd conf nodename) s ns e in
      let (others, split) =
        get_secondary_urls_ok nodename (request_url h rbd conf dst) (auth_header h rbd conf) d s' ns
          dst parsed gives in
      (d, dst, others, parsed, split)

  get_status_ok :
      (pool image buf : String) (au : Dict String) (d : DynConf) (s : Process W) (status : String)
      → (get_status h rbd conf pool image buf au d s).0 ≡ ok status
      → (resp : Response) × (resp.status ≡ ok status)
        × (h.get buf au (fields (pool_and_image pool image)) s.world
            ≡ (ok resp, (get_status h rbd conf pool image buf au d s).1.world))
  unfolding get_status
  get_status_ok pool image buf au d s status e =
      elim (Result-cases (h.get buf au (fields (pool_and_image pool image)) s.world).0) [
        | inr (x, failed) ↦ absurd (ground arith)
        | inl (resp, came) ↦ (resp, ground arith, ground arith)
      ]

  -- `GetImageStatus` says that an image is ready only if the server has answered with the status
  -- `clean` or with none: a failed request, or an answer that cannot be decoded, counts as not
  -- ready.
  pub get_image_status_ready :
      (pool image : String) (s : Process W)
      → (get_image_status h rbd conf ptr pool image s).0 ≡ true
      → (status : String) × ((status ≡ "") ⊎ (status ≡ "clean"))
        × ((resp : Response) × (resp.status ≡ ok status)
            × ((url : String) × (au : Dict String) × (w : W) × (h.get url au
                    (fields (pool_and_image pool image))
                    w
                  ≡ (ok resp, (get_image_status h rbd conf ptr pool image s).1.world))))
  unfolding get_image_status
  get_image_status_ready pool image s e =
      elim (Result-cases (do_request h rbd conf ptr (get_status h rbd conf pool image) s).0) [
        | inr (x, failed) ↦ absurd (ground arith)
        | inl (status, came) ↦
            let (d, dst, s', parsed, gives, leaves) =
              do_request_ok (get_status h rbd conf pool image) s status came in
            let url = request_url h rbd conf dst in
            let au = auth_header h rbd conf in
            let (resp, named, got) = get_status_ok pool image url au d s' status gives in
            (
              status,
              ground (arith, eq_iff status "", eq_iff status "clean"),
              (resp, named, (url, au, s'.world, ground arith)),
            )
      ]
