-- ===== src/Commands/Controller.antt =====
-- cmd/commands/csicontrol.go, with `NewController` and `SetupNode` of pkg/controlrpc/controller.go
-- and `NewNode` of pkg/controlrpc/nodeManage.go.
use csi_alcub.Base.{◌*◌, String, Option, none, some, [], ◌∷◌, true, false}
use csi_alcub.Base.Dict.{Dict}
use csi_alcub.Base.Exec.{errorf, fail, lift, pure, on_err, ◌>>=◌, ◌>>◌}
use csi_alcub.Process.{Process}
use csi_alcub.Utils.{split_label}
use csi_alcub.Rbd.{Rbd}
use csi_alcub.Store.{Alcuber}
use csi_alcub.Cluster.{NodeConf}
use csi_alcub.Identity.{IdentityServer, new_identy, controller_capability}
use csi_alcub.Server.{Runner}
use csi_alcub.Control.{Controller}
use csi_alcub.Commands.{Config, second}
use csi_alcub.Commands.Start.{
  Options, Platform, Cmd, call, returned, nodes, begin, open_store, new_rbd, finish,
}

-- The loop over `filtermap`: the last key and value, or two nil slices.
unfoldable pub filter_pair : String × String → Dict String → String × String
filter_pair kv [] = kv
filter_pair kv (e ∷ m) = filter_pair e m

-- A nil map has no entries.
abbrev pub entries : Option (Dict String) → Dict String
entries none = []
entries (some m) = m

module _ {W : Type 0} (p : Platform W) where
  -- `controlrpc.NewNode` with its `probe`
  unfoldable pub new_node :
      String × String → Option (Dict String) → Option (Dict String) → Cmd W NodeConf
  new_node (filter_key, filtervalue) halabel none =
      fail (returned (errorf "label must not be nil!"))
  new_node (filter_key, filtervalue) halabel (some csilabel) = do
    call returned (p.watch nodes)
    pure (record {
      csilabel = csilabel;
      halabel = halabel;
      filter_key = filter_key;
      filtervalue = filtervalue;
    })

  -- `NewController` and `SetupNode`; `nodeID` is kept and never read.
  unfoldable pub new_controller : Alcuber (Process W) → Rbd → NodeConf → Controller W
  new_controller store rbd node = record {
    store = store;
    alcub_control = p.alcub_client;
    rbd_host = p.rbd_host;
    rbd = rbd;
    node_client = p.node_client;
    node = node;
    new_uuid = p.new_uuid;
  }

  module _ (conf : Config) where
    abbrev pub controller_options : Options
    controller_options = record {
      leader_election = conf.leader.enable;
      leader_election_id = conf.leader.id;
      metrics_bind_address = "";
    }

    -- The body of `RunE` up to the call of `mgr.Add`: the services, and the runner for them.
    unfoldable pub set_up_controller : Cmd W (Controller W × IdentityServer × Runner)
    unfolding new_node new_controller
    set_up_controller = do
      begin p conf controller_options
      s ← open_store p conf none
      rbd ← new_rbd p conf (10 * second)
      node ←
          new_node (filter_pair ("", "") (entries (split_label conf.labels.filterkv)))
            (split_label conf.labels.hakv) (split_label conf.labels.csilabelkv)
      ids ← lift (on_err returned (new_identy conf.drivername (controller_capability ∷ [])))
      pure (
        new_controller s rbd node,
        ids,
        record { leaderenable = true; endpoint = conf.endpoint; ids = true; cs = true; ns = false },
      )

    -- `RunE`
    unfoldable pub controller_cmd : Cmd W (Unit {0})
    unfolding set_up_controller
    controller_cmd = do (c, ids, runner) ← set_up_controller; finish p conf runner
