-- ===== src/Server/Lifetime.antt =====
-- The life of a plugin's server, in any order of the steps of its goroutines.
use csi_alcub.Base.{
  ◌≡◌, refl, ◌≢◌, ◌⊎◌, inl, inr, ℕ, ◌-◌, Bool, Bool-cases, true, false, Option, none, some, List,
  [], ◌∷◌, arith,
}
use csi_alcub.Base.Exec.{GoError, Result}
use csi_alcub.Server.{
  Grpc, Phase, registering, serving, returned, running, panicked, Runner, wait_returns, stop, serve,
  Running, start_runner, Event, ends, stops, serves, stop_runner, act, step, run, begin_serve,
  rpc_begins, rpc_ends, begin_rpc, end_rpc, change_pending, stop_returns, remove_socket, listen,
  register, wait_served,
}

-- There is a server, with the services of `r` and no others.
abbrev pub Offers : Runner → Option Grpc → Type 0
Offers r none = ⊥
Offers r (some g) = (g.identity ≡ r.ids) × (g.controller ≡ r.cs) × (g.node ≡ r.ns)

abbrev pub is_stopped : Option Grpc → Bool
is_stopped none = false
is_stopped (some g) = g.stopped

-- Whether `serve` has come to the assignment of `s.server`.
abbrev pub has_server : Phase → Bool
has_server registering = true
has_server serving = true
has_server returned = true
has_server _ = false

abbrev pub is_registered : Phase → Bool
is_registered serving = true
is_registered returned = true
is_registered _ = false

-- What holds of a plugin's server all through its life.
pub record IsSound (r : Runner) (s : Running) : Type 0 where
  pub counts_one : s.grpc.wg ≡ 1
  pub no_server : has_server s.grpc.phase ≡ false → s.grpc.server ≡ none
  pub a_server : has_server s.grpc.phase ≡ true → s.grpc.server ≢ none
  pub offers : is_registered s.grpc.phase ≡ true → Offers r s.grpc.server
  pub stopped_late : is_stopped s.grpc.server ≡ true → s.done ≡ true
  pub stops_once : s.stopping ≡ true → s.grpc.fate ≡ running → is_stopped s.grpc.server ≡ true
  pub panics_early : s.grpc.fate ≡ panicked → (s.grpc.server ≡ none) × (s.done ≡ true)

serve-IsSound :
    (r : Runner) (a : Result GoError (Unit {0})) (s : Running)
    → s.grpc.fate ≡ running
    → IsSound r s
    → IsSound r (record s { grpc = serve r a s.grpc })
unfolding serve begin_serve remove_socket listen register wait_served stop_returns
serve-IsSound r a s f h = record {
  counts_one = ground (arith, h.counts_one);
  no_server = ground (arith, h.no_server);
  a_server = ground (arith, h.a_server, h.no_server);
  offers = ground (arith, h.offers);
  stopped_late = ground (arith, h.stopped_late);
  stops_once = ground (arith, h.stops_once, h.no_server);
  panics_early = ground (arith, h.panics_early);
}

stop_runner-IsSound :
    (r : Runner) (s : Running) → s.grpc.fate ≡ running → IsSound r s → IsSound r (stop_runner s)
unfolding stop_runner stop
stop_runner-IsSound r s f h = record {
  counts_one = ground (arith, h.counts_one);
  no_server = ground (arith, h.no_server);
  a_server = ground (arith, h.a_server);
  offers = ground (arith, h.offers);
  stopped_late = ground (arith, h.stopped_late);
  stops_once = ground (arith, h.stops_once);
  panics_early = ground (arith, h.panics_early);
}

change_pending-IsSound :
    (r : Runner) (f : ℕ → ℕ) (s : Running)
    → s.grpc.fate ≡ running
    → IsSound r s
    → IsSound r (record s { grpc = change_pending f s.grpc })
change_pending-IsSound r f s goes h = record {
  counts_one = ground (arith, h.counts_one);
  no_server = ground (arith, h.no_server);
  a_server = ground (arith, h.a_server);
  offers = ground (arith, h.offers);
  stopped_late = ground (arith, h.stopped_late);
  stops_once = ground (arith, h.stops_once);
  panics_early = ground (arith, h.panics_early);
}

begin_rpc-IsSound :
    (r : Runner) (s : Running)
    → s.grpc.fate ≡ running
    → IsSound r s
    → IsSound r (record s { grpc = begin_rpc s.grpc })
unfolding begin_rpc
begin_rpc-IsSound r s goes h = elim (Bool-cases (is_registered s.grpc.phase)) [
  | inl up ↦ record {
    counts_one = ground (arith, h.counts_one);
    no_server = ground (arith, h.no_server);
    a_server = ground (arith, h.a_server);
    offers = ground (arith, h.offers);
    stopped_late = ground (arith, h.stopped_late);
    stops_once = ground (arith, h.stops_once);
    panics_early = ground (arith, h.panics_early);
  }
  | inr down ↦ let same : begin_rpc s.grpc ≡ s.grpc = ground arith in rw same h
]

act-IsSound :
    (r : Runner) (e : Event) (s : Running)
    → s.grpc.fate ≡ running
    → IsSound r s
    → IsSound r (act r e s)
unfolding act end_rpc
act-IsSound r ends s f h = record {
  counts_one = h.counts_one;
  no_server = h.no_server;
  a_server = h.a_server;
  offers = h.offers;
  stopped_late = λ p. refl;
  stops_once = h.stops_once;
  panics_early = ground (arith, h.panics_early);
}
act-IsSound r stops s f h = stop_runner-IsSound r s f h
act-IsSound r rpc_begins s f h = begin_rpc-IsSound r s f h
act-IsSound r rpc_ends s f h = change_pending-IsSound r (λ n. n - 1) s f h
act-IsSound r (serves a) s f h = serve-IsSound r a s f h

-- A step does nothing, or is an act of a process that goes on.
pub step_cases :
    (r : Runner) (e : Event) (s : Running)
    → (step r e s ≡ s) ⊎ ((s.grpc.fate ≡ running) × (step r e s ≡ act r e s))
unfolding step
step_cases r e s = ground arith

step-IsSound : (r : Runner) (e : Event) (s : Running) → IsSound r s → IsSound r (step r e s)
step-IsSound r e s h = elim (step_cases r e s) [
  | inl same ↦ rw same h
  | inr (f, acts) ↦ rw acts (act-IsSound r e s f h)
]

run_from-IsSound :
    (r : Runner) (es : List Event) (s : Running) → IsSound r s → IsSound r (run r es s)
unfolding run
run_from-IsSound r [] s h = h
run_from-IsSound r (e ∷ es) s h = run_from-IsSound r es (step r e s) (step-IsSound r e s h)

start_runner-IsSound : (r : Runner) → IsSound r start_runner
unfolding start_runner
start_runner-IsSound r = record {
  counts_one = refl;
  no_server = λ p. refl;
  a_server = ground arith;
  offers = ground arith;
  stopped_late = ground arith;
  stops_once = ground arith;
  panics_early = ground arith;
}

-- In any order of the steps of a started runner and of the RPCs, and with any answers of the system: `Wait` never
-- returns; once the server serves, it offers the services that the runner was given and no others;
-- it is stopped only after the context is done; and a run-time error comes only of a context that is
-- done before there is a server.
pub run-IsSound :
    (r : Runner) (es : List Event)
    → IsSound r (run r es start_runner) × (wait_returns (run r es start_runner).grpc ≡ false)
unfolding wait_returns
run-IsSound r es =
    let h = run_from-IsSound r es start_runner (start_runner-IsSound r) in
    (h, ground (arith, h.counts_one))
