-- ===== src/Samples/Plugins.antt =====
-- Tests of the commands and of the server that they run, in the sample cluster.
use csi_alcub.Base.{
  ℕ, ◌≤◌, ◌<>◌, String, Bool, true, false, Option, none, some, List, [], ◌∷◌, ◌≡◌, refl, ◌≢◌, ◌⊎◌,
  arith,
}
use csi_alcub.Base.Exec.{errorf, ok, err, pure}
use csi_alcub.Process.{DynConf, Process}
use csi_alcub.Utils.{ip_net, Interface}
use csi_alcub.Identity.{IdentityServer, Capability}
use csi_alcub.Server.{
  Runner, Running, ends, stops, rpc_begins, rpc_ends, serves, serving, Event, start_runner, step,
  run, wait_returns, returned, running, panicked,
}
use csi_alcub.Server.Lifetime.{IsSound, run-IsSound}
use csi_alcub.Store.{null}
use csi_alcub.Store.Client.{client, target}
use csi_alcub.Control.{Controller}
use csi_alcub.Node.{Node}
use csi_alcub.Node.Storage.{HasAddress}
use csi_alcub.Commands.{Config, Labelkv, LeaderInfo, default_timeout}
use csi_alcub.Commands.Start.{Platform}
use csi_alcub.Commands.Controller.{set_up_controller}
use csi_alcub.Commands.Plugin.{set_up_plugin}
use csi_alcub.Commands.Started.{set_up_controller_ok, set_up_plugin_ok}
use csi_alcub.Samples.{World, server, rbd_host, controller, mounter, empty}
use csi_alcub.Samples.Servers.{http, alcub_conf}

abbrev node_runner : Runner
node_runner = record {
  leaderenable = false;
  endpoint = "unix:///csi.sock";
  ids = true;
  cs = false;
  ns = true;
}

-- The server comes up, and an RPC begins before the context ends. The server is stopped, and `Serve`
-- returns once the RPC has come to its end.
abbrev comes_up : List Event
comes_up =
    serves (ok tt)
    ∷ serves (ok tt)
    ∷ serves (ok tt)
    ∷ serves (ok tt)
    ∷ serves (ok tt)
    ∷ rpc_begins
    ∷ ends
    ∷ stops
    ∷ serves (ok tt)
    ∷ []

waits_for_rpc : (run node_runner comes_up start_runner).grpc.phase ≡ serving
unfolding run step start_runner csi_alcub.Server.act csi_alcub.Utils.parse_endpoint
    csi_alcub.Base.Text.to_lower
waits_for_rpc = refl

then_returns :
    (run node_runner
      (rpc_ends ∷ serves (ok tt) ∷ [])
      (run node_runner comes_up start_runner)).grpc.phase
    ≡ returned
unfolding run step start_runner csi_alcub.Server.act csi_alcub.Utils.parse_endpoint
    csi_alcub.Base.Text.to_lower
then_returns = refl

-- A failure of `Accept` ends `Serve` before the context is done.
accept_fails :
    (run node_runner
      (serves (ok tt)
        ∷ serves (ok tt)
        ∷ serves (ok tt)
        ∷ serves (ok tt)
        ∷ serves (ok tt)
        ∷ serves (err (errorf "accept"))
        ∷ [])
      start_runner).grpc.phase
    ≡ returned
unfolding run step start_runner csi_alcub.Server.act csi_alcub.Utils.parse_endpoint
    csi_alcub.Base.Text.to_lower
accept_fails = refl

run-IsSound_example :
    IsSound node_runner (run node_runner comes_up start_runner)
    × (wait_returns (run node_runner comes_up start_runner).grpc ≡ false)
run-IsSound_example = run-IsSound node_runner comes_up

abbrev platform : Platform World
platform = record {
  kube_client = pure tt;
  new_manager = λ o. pure tt;
  watch = λ what. pure tt;
  add = λ runner. pure tt;
  start = pure tt;
  interfaces = λ w. ok (record { name = "eth1"; addrs = ok (ip_net "10.0.0.1" ∷ []) } ∷ []);
  alcub_client = server;
  node_client = controller.node_client;
  rbd_host = rbd_host;
  http_host = http;
  mounter = mounter;
  new_uuid = controller.new_uuid;
}

abbrev config : Config
config = record {
  store_conf = record alcub_conf { api_url = "api" };
  nodename = "worker";
  leader = record { id = "csi"; enable = true };
  labels = record { filterkv = "alcub-%N=on"; hakv = ""; csilabelkv = "csi=alcub" };
  alcubconntimeout = default_timeout;
  drivername = "alcub.csi.es.io";
  endpoint = "unix:///csi.sock";
  storage_if_name = "eth1";
}

abbrev ids : Capability → IdentityServer
ids cap = record { caps = cap ∷ []; name = "alcub.csi.es.io"; version = "1.0.0" }

abbrev started_controller : Controller World
started_controller = record controller {
  store = client http rbd_host config.store_conf;
  rbd = record { has_client = true; rbdutil = 10000000000 };
  node = record {
    csilabel = ("csi", "alcub") ∷ [];
    halabel = none;
    filter_key = "alcub-%N";
    filtervalue = "on";
  };
}

abbrev controller_runner : Runner
controller_runner = record node_runner { leaderenable = true; cs = true; ns = false }

abbrev no_maps : Process World
no_maps = record empty { alcub_control = record { uuidname = []; nodes = [] } }

controller_starts :
    set_up_controller platform config empty
    ≡ (ok (started_controller, ids Capability.controller_service, controller_runner), no_maps)
unfolding set_up_controller csi_alcub.Commands.Start.begin csi_alcub.Commands.Start.open_store
    csi_alcub.Store.Client.new_client csi_alcub.Commands.Start.new_rbd csi_alcub.Utils.split_label
    csi_alcub.Base.Text.split csi_alcub.Identity.new_identy
    csi_alcub.Commands.Controller.filter_pair
controller_starts = refl

set_up_controller_ok_example :
    (config.store_conf.api_url ≢ "")
    × ((k : String) × (v : String) × (started_controller.node.csilabel ≡ (k, v) ∷ [])
        × (config.labels.csilabelkv ≡ k <> ("=" <> v)))
    × (started_controller.store ≡ client http rbd_host config.store_conf)
    × (target null no_maps ≡ none)
    × (no_maps.alcub_control ≡ record { uuidname = []; nodes = [] })
    × ((ids Capability.controller_service).caps ≡ Capability.controller_service ∷ [])
    × (controller_runner ≡ record {
      leaderenable = true;
      endpoint = "unix:///csi.sock";
      ids = true;
      cs = true;
      ns = false;
    })
set_up_controller_ok_example =
    set_up_controller_ok platform config empty no_maps (ids Capability.controller_service)
      controller_runner started_controller controller_starts

abbrev started_plugin : Node World
started_plugin = record {
  store = client http rbd_host config.store_conf;
  alcub_control = server;
  mounter = mounter;
  node_id = "worker";
  nodename = "worker";
  storeip = "10.0.0.1";
}

abbrev with_conf : Process World
with_conf = record no_maps { dyn_conf = some (record { alucb_url = ""; nodename = "worker" }) }

plugin_starts :
    set_up_plugin platform config empty
    ≡ (ok (started_plugin, ids Capability.volume_accessibility_constraints, node_runner), with_conf)
unfolding set_up_plugin csi_alcub.Commands.Start.begin csi_alcub.Commands.Start.open_store
    csi_alcub.Store.Client.new_client csi_alcub.Commands.Start.new_rbd
    csi_alcub.Utils.lookup_addresses csi_alcub.Identity.new_identy
    csi_alcub.Store.Client.fill_alcub_url csi_alcub.Rbd.Image.fetch_url csi_alcub.Rbd.Util.fetch_url
plugin_starts = refl

set_up_plugin_ok_example :
    (config.store_conf.api_url ≢ "")
    × (started_plugin.storeip ≢ "")
    × ((w : World) × HasAddress (platform.interfaces w) "eth1" "10.0.0.1")
    × (started_plugin.nodename ≡ "worker")
    × (started_plugin.store ≡ client http rbd_host config.store_conf)
    × ((d : DynConf) × (target null with_conf ≡ some d) × (d.nodename ≡ "worker"))
    × (with_conf.alcub_control ≡ record { uuidname = []; nodes = [] })
    × ((ids Capability.volume_accessibility_constraints).caps
        ≡ Capability.volume_accessibility_constraints ∷ [])
    × (node_runner ≡ record {
      leaderenable = false;
      endpoint = "unix:///csi.sock";
      ids = true;
      cs = false;
      ns = true;
    })
set_up_plugin_ok_example =
    set_up_plugin_ok platform config empty with_conf
      (ids Capability.volume_accessibility_constraints) node_runner started_plugin plugin_starts
