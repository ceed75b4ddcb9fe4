-- ===== src/Samples/Servers.antt =====
-- Tests of the client of the storage servers and of the utilities, in the sample cluster.
use csi_alcub.Base.{
  ◌<>◌, ℕ, String, Bool, true, false, Option, none, some, List, [], ◌∷◌, ◌++◌, ◌==◌, ◌≡◌, refl, ◌≢◌,
  ◌⊎◌, inl, inr, arith, eq_iff,
}
use csi_alcub.Base.Text.{contains}
use csi_alcub.Base.Exec.{ok, pure}
use csi_alcub.Process.{DynConf, Process}
use csi_alcub.Rbd.{
  RbdProvisionOptions, Volume, RbdHost, image_watcher_str, image_not_found, secret_key_name,
}
use csi_alcub.Rbd.Util
use csi_alcub.Store.{
  alcub_dyn_conf, AlcubConf, Body, operation, fields, Response, Url, HttpHost, devpath,
}
use csi_alcub.Store.Client.{pool_and_image, do_conn, do_dis_conn, get_node, get_image_status}
use csi_alcub.Store.Laws.{Answered, do_conn_ok}
use csi_alcub.Utils.{combine}
use csi_alcub.Store.Address.{ensure_url_keeps}
use csi_alcub.Store.Client.{target, ensure_url}
use csi_alcub.Rbd.{RbdHost}
use csi_alcub.Utils.{parse_endpoint}
use csi_alcub.Utils.Endpoint.{parse_endpoint_ok}
use csi_alcub.Samples.{World, rbd_host, empty}

abbrev answer : Response
answer = record {
  answered = true;
  dev = ok "alcub0";
  error = "";
  status = ok "clean";
  nodes = ok ("10.0.0.3" ∷ []);
}

-- A storage server that answers every request so.
abbrev pub http : HttpHost World
http = record {
  post = λ url au body. pure answer;
  get = λ url au body. pure answer;
  parse_url = λ t. ok (record { scheme = "http"; host = "10.0.0.2" });
  join_path = λ parts. combine parts;
  md5_hex = λ t. t;
  base64 = λ t. t;
}

abbrev pub alcub_conf : AlcubConf
alcub_conf = record { alucb_pool = "rbd"; api_url = ""; user = "admin"; password = "admin" }

do_conn_runs :
    (do_conn http rbd_host alcub_conf alcub_dyn_conf "rbd" "pvc-1" empty).0 ≡ ok "/devalcub0"
unfolding do_conn csi_alcub.Store.Client.do_request csi_alcub.Store.Client.ensure_url
    csi_alcub.Store.Client.fill_alcub_url csi_alcub.Rbd.Image.fetch_url Util.fetch_url
    csi_alcub.Store.Client.dev_connect combine
do_conn_runs = refl

do_conn_ok_example :
    (dev : String) × (dev ≢ "")
    × ("/devalcub0" ≡ http.join_path (devpath ∷ dev ∷ []))
    × ((resp : Response) × (resp.dev ≡ ok dev)
        × Answered http rbd_host alcub_conf alcub_dyn_conf
            (operation "dev_connect" (pool_and_image "rbd" "pvc-1"))
            resp
            (do_conn http rbd_host alcub_conf alcub_dyn_conf "rbd" "pvc-1" empty).1)
do_conn_ok_example =
    do_conn_ok http rbd_host alcub_conf alcub_dyn_conf "rbd" "pvc-1" empty "/devalcub0" do_conn_runs

do_dis_conn_runs :
    (do_dis_conn http rbd_host alcub_conf alcub_dyn_conf "rbd" "pvc-1" empty).0 ≡ ok tt
unfolding do_dis_conn csi_alcub.Store.Client.do_request csi_alcub.Store.Client.ensure_url
    csi_alcub.Store.Client.fill_alcub_url csi_alcub.Rbd.Image.fetch_url Util.fetch_url
    csi_alcub.Store.Client.dev_disconnect
do_dis_conn_runs = refl

abbrev servers : List String
servers = "10.0.0.3" ∷ "http://10.0.0.2" ∷ []

get_node_runs : (get_node http rbd_host alcub_conf alcub_dyn_conf "worker" empty).0 ≡ ok servers
unfolding get_node csi_alcub.Store.Client.do_request csi_alcub.Store.Client.ensure_url
    csi_alcub.Store.Client.fill_alcub_url csi_alcub.Rbd.Image.fetch_url Util.fetch_url
    csi_alcub.Store.Client.get_secondary_urls combine
get_node_runs = refl

status_runs :
    (get_image_status http rbd_host alcub_conf alcub_dyn_conf "rbd" "pvc-1" empty).0 ≡ true
unfolding get_image_status csi_alcub.Store.Client.do_request csi_alcub.Store.Client.ensure_url
    csi_alcub.Store.Client.fill_alcub_url csi_alcub.Rbd.Image.fetch_url Util.fetch_url
    csi_alcub.Store.Client.get_status
status_runs = refl

endpoint_parses : parse_endpoint "unix:///csi/csi.sock" ≡ ok ("unix", "/csi/csi.sock")
unfolding parse_endpoint csi_alcub.Base.Text.to_lower
endpoint_parses = refl

-- Each command prints an address.
abbrev address_host : RbdHost World
address_host = record rbd_host {
  run = λ limit command args w.
      (record { output = "http://10.0.0.2"; failed = none; deadline_exceeded = false }, w);
}

abbrev addressed : DynConf
addressed = record { alucb_url = "http://10.0.0.2"; nodename = "" }

configured : target alcub_dyn_conf empty ≡ some empty.alcub_dyn_conf
unfolding target
configured = refl

address_comes :
    ensure_url http address_host alcub_conf alcub_dyn_conf empty.alcub_dyn_conf empty
    ≡ (ok addressed, record empty { alcub_dyn_conf = addressed })
unfolding ensure_url csi_alcub.Store.Client.fill_alcub_url csi_alcub.Rbd.Image.fetch_url
    Util.fetch_url
address_comes = refl

ensure_url_keeps_example :
    let t : Process World = record empty { alcub_dyn_conf = addressed } in
    (target alcub_dyn_conf t ≡ some addressed)
    × (addressed.nodename ≡ empty.alcub_dyn_conf.nodename)
    × (empty.alcub_dyn_conf.alucb_url ≢ "" → addressed ≡ empty.alcub_dyn_conf)
    × (addressed.alucb_url ≢ ""
        → ensure_url http address_host alcub_conf alcub_dyn_conf addressed t ≡ (ok addressed, t))
ensure_url_keeps_example =
    ensure_url_keeps http address_host alcub_conf alcub_dyn_conf empty.alcub_dyn_conf addressed
      empty (record empty { alcub_dyn_conf = addressed }) configured address_comes

parse_endpoint_ok_example :
    (◌≡◌ {A = String} "unix:///csi/csi.sock" ("unix" <> ("://" <> "/csi/csi.sock")))
    × (◌≢◌ {A = String} "/csi/csi.sock" "")
parse_endpoint_ok_example =
    parse_endpoint_ok "unix:///csi/csi.sock" "unix" "/csi/csi.sock" endpoint_parses
