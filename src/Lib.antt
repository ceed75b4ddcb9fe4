-- ===== src/Lib.antt =====
-- csi-alcub: a CSI driver that provisions Ceph RBD images and lets nodes mount them through
-- Alcubierre storage servers.
--
-- The program is one binary with two commands. The controller (pkg/controlrpc) creates and deletes
-- volumes and watches the nodes; the node plugin (pkg/noderpc) mounts them. Both keep one custom
-- resource for each volume (pkg/api/v1beta1) through the manager of resources (pkg/manager), which
-- has an index from uuid to name and a table of nodes in memory. Images are made by running `rbd`
-- (pkg/rbd), and devices are connected by requests to the storage servers (pkg/store).
--
-- Files and what they model:
--   Base, Base/*      Go's errors, maps, strings and 64-bit numbers, and the monad of operations
--                     that change a state and may fail, with the state at the point of failure
--   Api               pkg/api/v1beta1/csi_alcub.go, zz_generated.deepcopy.go (the
--                     resource and its list in Copies)
--   Process           the memory of one process: the maps of `AlcubCon`, `Rbd.dnsip`, the two
--                     `DynConf`, and the world outside
--   Manager           pkg/manager/alcubManage.go; Index, History, Nodes,
--                     Finalizers and Server have its laws
--   Rbd               pkg/rbd/rbd.go (Options, Image) and pkg/rbd/rbd_util.go (Util); Removal,
--                     Size, Order, Shuffle, Class, Quiet, Valid and Secret have their laws
--   Utils             utils/buf.go, utils/net.go, `parseEndpoint` of utils/server.go and
--                     `splitLabel` of cmd/commands/config.go; Buffers is the pool of buffers;
--                     Endpoint and Label have their laws
--   Store             pkg/store/interface.go; Client is pkg/store/alcub.go
--   Rpc               the messages of the CSI specification, and gRPC's codes
--   Cluster, Control  pkg/controlrpc: Cluster and Control/NodeManage are nodeManage.go,
--                     Control/Notify is controller.go, and Control/Volumes is rpc.go with
--                     `createVolume` and `deleteVolume` of controller.go; Control/Service is the
--                     service with all its RPCs; Created, Indexed, Creation, Deletion, Errors,
--                     Advertised, Silence, Failover, Labels and Settled have their laws
--   Control/Threads   `CreateVolume` of rpc.go with `createVolume` and `AlcubCon.Create`, as the
--                     steps of a goroutine: a step ends with a call of another component or with
--                     a turn with a lock; Alone has it that the steps of one call, with nothing in
--                     between, are the operation of Control/Volumes, and Backed has the laws
--                     of any number of calls that take turns
--   Identity          pkg/server/identity.go
--   Node              pkg/noderpc: node.go, and rpc.go in Node/Publish; Laws, Records, Status
--                     and Storage have their laws; Usage is an abstract specification
--                     of which node uses which volume, for any number of node plugins
--   Types             types/errors.go
--   Server            utils/server.go: the server of a plugin and its runner, as the steps of two
--                     goroutines; Lifetime has its laws
--   Commands          cmd/commands: config.go here, csicontrol.go in Controller, csinode.go in
--                     Plugin, what both share in Start, all with the constructors that they
--                     call, and cmd/main.go with the registration of the API types in Main;
--                     Started has their laws
--   Ceph              the images of a cluster, what pkg/rbd does to them, and what the controller
--                     does to images and resources together
--   Registry          an abstract specification of the controller's volumes
--   Samples           a small cluster in which the handlers run
--
-- A function of the source has a definition of the same name in snake case, `AlcubCon.GetByUuid` is
-- `Manager.get_by_uuid`. A method takes its receiver's fixed fields as a record and its changing
-- fields in the state `Process W`. The type `W` of the world outside is a parameter of everything.
-- So are the calls into it, in the records `AlcubClient` (the API server and its retry loop),
-- `NodeClient`, `RbdHost` (commands, storage classes, secrets, DNS), `HttpHost`, `Mounter` and
-- `Platform` (controller-runtime), and `Shell` (flags and commands); only `IsServer` in
-- Manager/Server, `IsNodes` in Control/Settled, `IsRegistry` and `IsApart` in Registry, `IsApart`
-- in Node/Usage, `IsQuiet` in Rbd/Quiet, `IsCeph` and `IsHome` in Ceph, and `IsCluster` in
-- Ceph/Together assume anything of them. The goroutines of a server, and the calls of
-- `CreateVolume` in Control/Threads, take their steps in the order of a list of events, which is
-- any list. The client of the manager reads from a cache, so `IsServer` lets a read give an object
-- of the right name that is older than the one that is stored, and nothing is assumed of what a write
-- that fails has stored under its name; where a law needs more, it is a hypothesis of that law.
-- `IsNodes` is about nodes that are read as they are stored. Of package grpc, a
-- server knows its services, whether it was stopped, and the number of RPCs that are under way. A
-- deferred function is the end of the operation that defers it. A handler's early
-- returns are errors of the monad, a Go map is an association list in the order of one iteration
-- over it, and a nil slice or pointer is an empty list or `none`. Operations under a lock are
-- single steps.
--
-- Every loop of the source runs over a slice or a map, and is structural recursion on a list. The
-- only fuel is in `decimal`, which prints a number of 64 bits and has twenty digits to do so,
-- enough as 2 ^ 64 is below 10 ^ 20.
--
-- Not modelled: logging, the parsing of the command line (package flag, pflag and cobra), the seed
-- of package rand, the builder of schemes, the timeout of the HTTP client, and the vendored
-- packages. Calls of `DeleteVolume`, the reconcilers and the node service are single operations
-- here, and do not take turns with the steps in Control/Threads.
pub mod Base
pub mod Api
pub mod Process
pub mod Manager
pub mod Rbd
pub mod Utils
pub mod Store
pub mod Rpc
pub mod Cluster
pub mod Control
pub mod Node
pub mod Types
pub mod Identity
pub mod Server
pub mod Commands
pub mod Ceph
pub mod Registry
pub mod Samples
