-- ===== src/Server.antt =====
-- utils/server.go: the gRPC server of a plugin, which one goroutine runs and another stops. A step
-- below is what a goroutine does up to its next call that can block or that the other one can see.
-- The answers of package os and of package net come with the step.
pub mod Lifetime
use csi_alcub.Base.{
  ℕ, zero, suc, ◌-◌, nat_eq, String, ◌<>◌, Bool, true, false, not, ◌&&◌, Option, none, some, List,
  [], ◌∷◌, ◌==◌, is_nil, if◌then◌else◌,
}
use csi_alcub.Base.Exec.{not_exist, GoError, Result, ok, err}
use csi_alcub.Identity.{IdentityServer}
use csi_alcub.Utils.{parse_endpoint, listen_address}

-- A `*grpc.Server`, as far as the program uses it: the services that are registered with it, and
-- whether `Stop` or `GracefulStop` was called, and how many RPCs are under way.
pub record Grpc : Type 0 where
  pub identity : Bool
  pub controller : Bool
  pub node : Bool
  pub stopped : Bool
  pub pending : ℕ

-- Where the goroutine of `serve` stands; `halted` is a call of `klog.Fatal`.
pub data Phase : Type 0 where
  unborn parsing : Phase
  removing listening : String → String → Phase
  creating registering serving returned : Phase

-- What has become of the process: `fatal` is a call of `klog.Fatal`, and `panicked` a run-time error.
pub data Fate : Type 0 where
  running panicked : Fate
  fatal : String → Fate

-- `nonBlockingGRPCServer`: the counter of its `wg`, its `server` (`none` is nil), and the state of
-- the goroutines.
pub record GrpcServer : Type 0 where
  pub wg : ℕ
  pub server : Option Grpc
  pub phase : Phase
  pub fate : Fate

-- `Runner`: its server apart, what `NewRunner` is given. The services are counted by being nil or not.
pub record Runner : Type 0 where
  pub leaderenable : Bool
  pub endpoint : String
  pub ids : Bool
  pub cs : Bool
  pub ns : Bool

-- `NewNonBlockingGRPCServer`
abbrev pub new_non_blocking_grpc_server : GrpcServer
new_non_blocking_grpc_server = record { wg = 0; server = none; phase = unborn; fate = running }

-- `nonBlockingGRPCServer.Start`
unfoldable pub start_server : GrpcServer → GrpcServer
start_server s = record s { wg = suc s.wg; phase = parsing }

-- Whether `nonBlockingGRPCServer.Wait` returns.
unfoldable pub wait_returns : GrpcServer → Bool
wait_returns s = elim s.wg [ zero ↦ true | suc n ↦ false ]

-- `nonBlockingGRPCServer.Stop`: a method call on the nil pointer is a run-time error. This is the start
-- of `GracefulStop`, from which on the server takes no connection; it goes on to wait for the RPCs that
-- are under way, as `stop_returns` says.
unfoldable pub stop : GrpcServer → GrpcServer
stop s = elim s.server [
  | none ↦ record s { fate = panicked }
  | some g ↦ record s { server = some (record g { stopped = true }) }
]

-- Whether the `GracefulStop` that was started returns.
unfoldable pub stop_returns : GrpcServer → Bool
stop_returns s = elim s.server [ none ↦ false | some g ↦ g.stopped && nat_eq g.pending 0 ]

-- `nonBlockingGRPCServer.ForceStop`, which nothing calls. `Stop` of the server breaks off the RPCs that
-- are under way.
unfoldable pub force_stop : GrpcServer → GrpcServer
force_stop s = elim s.server [
  | none ↦ record s { fate = panicked }
  | some g ↦ record s { server = some (record g { stopped = true; pending = 0 }) }
]

-- The answers of `os.Remove`, of `net.Listen`, or of `Accept` to the next step.
abbrev pub Answer : Type 0
Answer = Result GoError (Unit {0})

abbrev pub is_not_exist : GoError → Bool
is_not_exist e = elim e.kind [ not_exist ↦ true | _ ↦ false ]

-- The first part of `serve`: the protocol, and the address to listen on.
unfoldable pub begin_serve : String → GrpcServer → GrpcServer
begin_serve endpoint s = elim (parse_endpoint endpoint) [
  | err e ↦ record s { fate = fatal e.message }
  | ok (proto, addr) ↦
      let path = listen_address (proto, addr) in
      record s { phase = if proto == "unix" then removing proto path else listening proto path }
]

unfoldable pub remove_socket : String → String → Answer → GrpcServer → GrpcServer
remove_socket proto addr (ok _) s = record s { phase = listening proto addr }
remove_socket proto addr (err e) s =
    if is_not_exist e
    then record s { phase = listening proto addr }
    else record s { fate = fatal ("Failed to remove " <> addr <> ", error: " <> e.message) }

unfoldable pub listen : Answer → GrpcServer → GrpcServer
listen (ok _) s = record s { phase = creating }
listen (err e) s = record s { fate = fatal ("Failed to listen: " <> e.message) }

-- `grpc.NewServer` and the assignment of `s.server`.
abbrev pub new_grpc : Grpc
new_grpc = record {
  identity = false;
  controller = false;
  node = false;
  stopped = false;
  pending = 0;
}

-- The registrations, all on the server that was just created.
unfoldable pub register : Runner → GrpcServer → GrpcServer
register r s = elim s.server [
  | none ↦ s
  | some g ↦ record s {
    server = some (record g { identity = r.ids; controller = r.cs; node = r.ns });
    phase = serving;
  }
]

-- `server.Serve`, at the answer of `Accept`. It returns when `Accept` fails for good, unless the server
-- is stopped. Once it is, it returns when no RPC is under way any more.
unfoldable pub wait_served : Answer → GrpcServer → GrpcServer
unfolding stop_returns
wait_served a s = elim s.server [
  | none ↦ s
  | some g ↦
      if g.stopped
      then if stop_returns s then record s { phase = returned } else s
      else elim a [ ok _ ↦ s | err e ↦ record s { phase = returned } ]
]

abbrev pub change_pending : (ℕ → ℕ) → GrpcServer → GrpcServer
change_pending f s = elim s.server [
  | none ↦ s
  | some g ↦ record s { server = some (record g { pending = f g.pending }) }
]

-- An RPC begins on a connection of the server, or one comes to its end.
unfoldable pub begin_rpc : GrpcServer → GrpcServer
begin_rpc s = elim s.phase [
  | serving ↦ change_pending suc s
  | returned ↦ change_pending suc s
  | _ ↦ s
]

unfoldable pub end_rpc : GrpcServer → GrpcServer
end_rpc s = change_pending (λ n. n - 1) s

-- The next step of `nonBlockingGRPCServer.serve`.
unfoldable pub serve : Runner → Answer → GrpcServer → GrpcServer
unfolding begin_serve remove_socket listen register wait_served
serve r a s = elim s.phase [
  | unborn ↦ s
  | parsing ↦ begin_serve r.endpoint s
  | removing proto addr ↦ remove_socket proto addr a s
  | listening proto addr ↦ listen a s
  | creating ↦ record s { server = some new_grpc; phase = registering }
  | registering ↦ register r s
  | serving ↦ wait_served a s
  | returned ↦ s
]

-- A started `Runner`: its server, whether the context is done, and whether the goroutine of `Start`
-- has stopped the server.
pub record Running : Type 0 where
  pub grpc : GrpcServer
  pub done : Bool
  pub stopping : Bool

-- `NewRunner` and `Runner.Start`
unfoldable pub start_runner : Running
unfolding start_server
start_runner = record {
  grpc = start_server new_non_blocking_grpc_server;
  done = false;
  stopping = false;
}

-- `Runner.NeedLeaderElection`
unfoldable pub need_leader_election : Runner → Bool
need_leader_election r = r.leaderenable

-- The context ends, the goroutine of `serve` goes on, the goroutine of `Runner.Start` does, or an RPC
-- begins or comes to its end.
pub data Event : Type 0 where
  ends stops rpc_begins rpc_ends : Event
  serves : Answer → Event

-- The goroutine of `Runner.Start`: it waits for the context, and then stops the server once. Nothing
-- comes after that.
unfoldable pub stop_runner : Running → Running
unfolding stop
stop_runner s =
    if s.done && not s.stopping then record s { grpc = stop s.grpc; stopping = true } else s

unfoldable pub act : Runner → Event → Running → Running
unfolding serve stop_runner begin_rpc end_rpc
act r ends s = record s { done = true }
act r stops s = stop_runner s
act r rpc_begins s = record s { grpc = begin_rpc s.grpc }
act r rpc_ends s = record s { grpc = end_rpc s.grpc }
act r (serves a) s = record s { grpc = serve r a s.grpc }

-- One step. Nothing goes on in a process that has ended.
unfoldable pub step : Runner → Event → Running → Running
step r e s = elim s.grpc.fate [ running ↦ act r e s | panicked ↦ s | fatal m ↦ s ]

unfoldable pub run : Runner → List Event → Running → Running
run r [] s = s
run r (e ∷ es) s = run r es (step r e s)

-- `logGRPC`: every RPC goes through it, and it passes on what the handler gives.
unfoldable pub log_grpc : {Q A : Type 0} → Q → (Q → A) → A
log_grpc req handler = handler req
