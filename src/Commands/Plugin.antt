-- ===== src/Commands/Plugin.antt =====
-- cmd/commands/csinode.go, with `NewNode` of pkg/noderpc/node.go.
use csi_alcub.Base.{◌*◌, String, [], ◌∷◌, some, true, false, ◌==◌, if◌then◌else◌}
use csi_alcub.Base.Exec.{err, ok, lift, pure, on_err, ◌>>=◌, ◌>>◌}
use csi_alcub.Process.{DynConf, Process}
use csi_alcub.Store.{Alcuber}
use csi_alcub.Identity.{IdentityServer, new_identy, constra_capability}
use csi_alcub.Server.{Runner}
use csi_alcub.Node.{Node, get_stora_if_ip}
use csi_alcub.Commands.{Config, second}
use csi_alcub.Commands.Start.{
  Options, Platform, Cmd, panics, returned, begin, open_store, new_rbd, finish,
}

module _ {W : Type 0} (p : Platform W) where
  -- `noderpc.NewNode`; its `rbd` is kept and never read.
  unfoldable pub new_node : Alcuber (Process W) → String → String → Cmd W (Node W)
  unfolding get_stora_if_ip
  new_node store nodename storeifname s =
      let storeip = get_stora_if_ip (p.interfaces s.world) storeifname in
      if storeip == "" then (err (panics "not found storage ip"), s) else (
        ok (record {
          store = store;
          alcub_control = p.alcub_client;
          mounter = p.mounter;
          node_id = nodename;
          nodename = nodename;
          storeip = storeip;
        }),
        s,
      )

  module _ (conf : Config) where
    abbrev pub plugin_options : Options
    plugin_options = record {
      leader_election = false;
      leader_election_id = "";
      metrics_bind_address = "0";
    }

    -- `storeDynConf`
    abbrev pub store_dyn_conf : DynConf
    store_dyn_conf = record { alucb_url = ""; nodename = conf.nodename }

    -- The body of `RunE` up to the call of `mgr.Add`: the services, and the runner for them.
    unfoldable pub set_up_plugin : Cmd W (Node W × IdentityServer × Runner)
    unfolding new_node
    set_up_plugin = do
      begin p conf plugin_options
      s ← open_store p conf (some store_dyn_conf)
      rbd ← new_rbd p conf (5 * second)
      node ← new_node s conf.nodename conf.storage_if_name
      ids ← lift (on_err returned (new_identy conf.drivername (constra_capability ∷ [])))
      pure (
        node,
        ids,
        record {
          leaderenable = false;
          endpoint = conf.endpoint;
          ids = true;
          cs = false;
          ns = true;
        },
      )

    -- `RunE`
    unfoldable pub node_cmd : Cmd W (Unit {0})
    unfolding set_up_plugin
    node_cmd = do (c, ids, runner) ← set_up_plugin; finish p conf runner
