-- ===== src/Commands/Start.antt =====
-- What both commands do before they build their services: the configuration of the client, the
-- manager of controller-runtime, and the manager of resources (`NewAlcubCon`). The libraries that
-- they call are the record `Platform`.
use csi_alcub.Base.{ℕ, String, Bool, Option, none, some, List, []}
use csi_alcub.Base.Exec.{GoError, Result, ok, err, Go, Exec, pure, modify, wrap, ◌>>◌}
use csi_alcub.Process.{DynConf, Process, on_world}
use csi_alcub.Utils.{Interface}
use csi_alcub.Manager.{AlcubClient}
use csi_alcub.Rbd.{RbdHost, Rbd}
use csi_alcub.Store.{HttpHost, Alcuber}
use csi_alcub.Store.Client.{new_client, client}
use csi_alcub.Cluster.{NodeClient}
use csi_alcub.Node.{Mounter}
use csi_alcub.Server.{Runner}
use csi_alcub.Commands.{Config}

-- `ctrl.Options`, its `Scheme` apart: the election of a leader with its id, and the address for the
-- metrics.
pub record Options : Type 0 where
  pub leader_election : Bool
  pub leader_election_id : String
  pub metrics_bind_address : String

-- What a controller is registered for: `For(&alcubv1beta1.CsiAlcub{})`, `For(&corev1.Node{})`.
pub data Watched : Type 0 where
  alcubs nodes : Watched

-- Client-go and controller-runtime, as far as the commands call them, and the operations on the
-- world that the components get.
pub record Platform (W : Type 0) : Type 0 where
  -- `config.GetConfigOrDie` and `kubernetes.NewForConfigOrDie`; their failures end the process
  pub kube_client : Go W (Unit {0})
  pub new_manager : Options → Go W (Unit {0})
  pub watch : Watched → Go W (Unit {0})
  pub add : Runner → Go W (Unit {0})
  -- `mgr.Start`: it returns when the manager has stopped
  pub start : Go W (Unit {0})
  -- `net.Interfaces`
  pub interfaces : W → Result GoError (List Interface)
  pub alcub_client : AlcubClient W
  pub node_client : NodeClient W
  pub rbd_host : RbdHost W
  pub http_host : HttpHost W
  pub mounter : Mounter W
  -- `uuid.NewUUID().String()`
  pub new_uuid : W → String × W

-- How a command ends apart from success: a call of `os.Exit(1)`, a panic, or an error that `RunE`
-- returns to cobra.
pub data Ending : Type 0 where
  exited : Ending
  panics : String → Ending
  returned : GoError → Ending

abbrev pub Cmd : Type 0 → Type 0 → Type 0
Cmd W A = Exec Ending (Process W) A

-- A call of a library, with what its error means to the command.
abbrev pub call : {W A : Type 0} → (GoError → Ending) → Go W A → Cmd W A
call end m = wrap end (on_world m)

abbrev pub panic_at : GoError → Ending
panic_at e = panics e.message

module _ {W : Type 0} (p : Platform W) (conf : Config) where
  -- `NewAlcubCon` with its `probe`
  unfoldable pub new_alcub_con : Cmd W (Unit {0})
  new_alcub_con = do
    modify (λ s. record s { alcub_control = record { uuidname = []; nodes = [] } })
    call panic_at (p.watch alcubs)

  -- `store.NewClient` at the configuration of the command line.
  unfoldable pub open_store : Option DynConf → Cmd W (Alcuber (Process W))
  open_store dynconf s = elim (new_client p.http_host p.rbd_host conf.store_conf dynconf s) [
    | none ↦ (err (panics "alcub configure must not be nil and apiurl must not be nil"), s)
    | some t ↦ (ok (client p.http_host p.rbd_host conf.store_conf), t)
  ]

  -- `NewRbd` with `NewRbdUtil`
  unfoldable pub new_rbd : ℕ → Cmd W Rbd
  new_rbd timeout = do
    modify (λ s. record s { dnsip = "" })
    pure (record { has_client = Bool.true; rbdutil = timeout })

  -- The beginning of both commands.
  unfoldable pub begin : Options → Cmd W (Unit {0})
  unfolding new_alcub_con
  begin options = do
    call (λ e. exited) p.kube_client
    call (λ e. exited) (p.new_manager options)
    new_alcub_con

  -- The end of both: `mgr.Add(runner)` and `mgr.Start`.
  unfoldable pub finish : Runner → Cmd W (Unit {0})
  finish runner = do call returned (p.add runner); call returned p.start
