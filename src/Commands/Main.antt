-- ===== src/Commands/Main.antt =====
-- cmd/main.go, with `NewControllerCmd` and `NewNodeCmd` as commands of cobra, and what runs before
-- it: the `init` functions of cmd/commands/config.go and pkg/api/v1beta1. The libraries of flags
-- and commands are the record `Shell`.
use csi_alcub.Base.{String, List, [], ◌∷◌}
use csi_alcub.Base.Exec.{GoError, ok, err, Go, try, pure, ◌>>=◌, ◌>>◌}
use csi_alcub.Process.{on_world}
use csi_alcub.Commands.{Config, Flag, controller_flags, node_flags}
use csi_alcub.Commands.Start.{Platform, exited, panics, returned, Cmd}
use csi_alcub.Commands.Controller.{controller_cmd}
use csi_alcub.Commands.Plugin.{node_cmd}

-- `schema.GroupVersion`
pub record GroupVersion : Type 0 where
  pub group : String
  pub version : String

-- `GroupVersion`
abbrev pub group_version : GroupVersion
group_version = record { group = "csialcub.es.io"; version = "v1beta1" }

-- The types that `init` of the API package registers with `SchemeBuilder`.
pub data Registered : Type 0 where
  alcub alcub_list : Registered

abbrev pub registered : List Registered
registered = alcub ∷ alcub_list ∷ []

-- A `cobra.Command` with a body: its name, its flags and `RunE`.
pub record Command (W : Type 0) : Type 0 where
  pub use_line : String
  pub flags : List Flag
  pub run_e : Config → Cmd W (Unit {0})

-- A `cobra.Command` that has others.
pub record Root (W : Type 0) : Type 0 where
  pub use_line : String
  pub commands : List (Command W)

-- The two `AddToScheme`, `klog.InitFlags` with `flag.Parse`, `Execute` of cobra, and the line that
-- is written to the error output.
pub record Shell (W : Type 0) : Type 0 where
  pub add_client_go : Go W (Unit {0})
  pub add_to_scheme : GroupVersion → List Registered → Go W (Unit {0})
  -- an unknown flag ends the process
  pub parse_flags : Cmd W (Unit {0})
  pub execute : Root W → Cmd W (Unit {0})
  pub print_error : GoError → W → W

module _ {W : Type 0} (p : Platform W) (sh : Shell W) where
  -- `init` of config.go: both errors are dropped.
  unfoldable pub init : Cmd W (Unit {0})
  init = do
    try (on_world sh.add_client_go)
    try (on_world (sh.add_to_scheme group_version registered))
    pure tt

  -- `NewControllerCmd`
  abbrev pub new_controller_cmd : Command W
  new_controller_cmd = record {
    use_line = "controller";
    flags = controller_flags;
    run_e = controller_cmd p;
  }

  -- `NewNodeCmd`
  abbrev pub new_node_cmd : Command W
  new_node_cmd = record { use_line = "node"; flags = node_flags; run_e = node_cmd p }

  -- `rootCmd`
  unfoldable pub root_cmd : Cmd W (Root W)
  root_cmd = do
    sh.parse_flags
    pure (record { use_line = "hyper"; commands = new_controller_cmd ∷ new_node_cmd ∷ [] })

  -- `main`: an error of `Execute` is written to the error output.
  unfoldable pub main : Cmd W (Unit {0})
  unfolding root_cmd
  main = do
    root ← root_cmd
    λ s.
        let (r, t) = sh.execute root s in
        elim r [
          | ok _ ↦ (ok tt, t)
          | err e ↦ elim e [
            | returned x ↦ (err exited, record t { world = sh.print_error x t.world })
            | exited ↦ (err exited, t)
            | panics m ↦ (err (panics m), t)
          ]
        ]
