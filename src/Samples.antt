-- ===== src/Samples.antt =====
-- A small cluster to run the program in: its world is the list of the resources that the API server
-- holds, the storage servers answer every call, and no command fails. The tests are in the modules
-- below.
mod Volumes
mod Nodes
mod Resources
mod Images
mod Servers
mod Registry
mod Clusters
mod Reclaims
mod Errors
mod Turns
mod Zones
mod Usages
mod Plugins
mod Settings
use csi_alcub.Base.{
  String, Bool, true, false, Option, none, some, List, [], ◌∷◌, ◌==◌, ◌≡◌, refl, ◌≢◌, arith, eq_iff,
  if◌then◌else◌,
}
use csi_alcub.Base.Dict.{Dict}
use csi_alcub.Base.Int.{ℤ, pos}
use csi_alcub.Base.Exec.{Kind, GoError, errorf, ok, err, Go, pure, fail, modify}
use csi_alcub.Process.{Ip, AlcubCon, DynConf, Process}
use csi_alcub.Api.{ObjectMeta, CsiAlcubSpec, CsiAlcubStatus, CsiAlcub, empty_status}
use csi_alcub.Manager.{AlcubClient, finalizers}
use csi_alcub.Manager.Server.{StoredAs, IsServer}
use csi_alcub.Rbd.{Ran, RbdHost, RbdProvisionOptions, Rbd}
use csi_alcub.Store.{Alcuber, Url, Response, AlcubConf, HttpHost}
use csi_alcub.Cluster.{Taint, ClusterNode, NodeClient, NodeConf}
use csi_alcub.Control.{Controller}
use csi_alcub.Node.{Mounter, Node}

abbrev pub World : Type 0
World = List CsiAlcub

unfoldable pub stored : World → String → Option CsiAlcub
stored [] name = none
stored (obj ∷ w) name = let rest = stored w name in if obj.meta.name == name then some obj else rest

unfoldable pub remove : String → World → World
remove name [] = []
remove name (obj ∷ w) =
    let rest = remove name w in if obj.meta.name == name then rest else obj ∷ rest

abbrev pub missing : GoError
missing = record { kind = Kind.not_found; message = "not found" }

abbrev pub address : Ip
address = 10 ∷ 0 ∷ 0 ∷ 1 ∷ []

abbrev pub parse_ip : String → Option Ip
parse_ip t = if t == "10.0.0.1" then some address else none

-- A write puts the object in front of the list, where it hides the older one.
unfoldable pub server : AlcubClient World
unfolding stored remove
server = record {
  get = λ name w. (elim (stored w name) [ some obj ↦ ok obj | none ↦ err missing ], w);
  list = λ w. (ok w, w);
  create = λ obj w. (ok tt, obj ∷ w);
  update = λ obj w. (ok tt, obj ∷ w);
  delete = λ obj w. (ok tt, remove obj.meta.name w);
  retry_on_conflict = λ call. call;
  parse_ip = parse_ip;
}

-- Two texts that a comparison tells apart.
pub differ : (x y : String) → (x == y) ≡ false → x ≢ y
differ x y e = ground (arith, eq_iff x y)

stored_named :
    (w : World) (name : String) (obj : CsiAlcub) → stored w name ≡ some obj → obj.meta.name ≡ name
unfolding stored
stored_named [] name obj e = absurd (ground arith)
stored_named (x ∷ w) name obj e = ground (arith, eq_iff x.meta.name name, stored_named w name obj)

pub server-IsServer : IsServer server stored
unfolding server stored
server-IsServer = record {
  get_named = λ name w obj e. stored_named w name obj (ground arith);
  get_keeps = λ name w m. refl;
  create_ok = λ obj w e. (
    obj,
    ground (arith, eq_iff obj.meta.name obj.meta.name),
    record { same_name = refl; same_spec = refl; same_status = refl },
  );
  update_ok = λ obj w e. (
    obj,
    ground (arith, eq_iff obj.meta.name obj.meta.name),
    record { same_name = refl; same_spec = refl; same_status = refl },
  );
  update_ne = λ obj w m h. ground (arith, eq_iff obj.meta.name m);
}

abbrev pub alcuber : Alcuber (Process World)
alcuber = record {
  do_conn = λ conf pool image. pure "/dev/alcub0";
  do_dis_conn = λ conf pool image. pure tt;
  get_image_status = λ conf pool image s. (true, s);
  fail_node = λ conf node. pure tt;
  dev_stop = λ conf pool image. pure tt;
  get_node = λ conf node. pure ("http://10.0.0.2" ∷ []);
}

abbrev pub good_class : Dict String
good_class = ("adminId", "kube") ∷ ("adminSecretName", "ceph-admin") ∷ []

-- Each command succeeds, and prints nothing.
abbrev pub rbd_host : RbdHost World
rbd_host = record {
  run =
      λ limit command args w. (record { output = ""; failed = none; deadline_exceeded = false }, w);
  storage_class = λ name. pure good_class;
  secret = λ namespace name. pure (("key", "secret") ∷ []);
  find_dns_ip = λ w. ("", w);
  lookup_host = λ host dns. fail (errorf "no such host");
  split_host_port = λ t. (t, "");
  join_host_port = λ host port. host;
  parse_ip = parse_ip;
  round_up_size = λ size unit. pos 1024;
  quote = λ t. t;
}

abbrev pub rbd : Rbd
rbd = record { has_client = true; rbdutil = 30000000000 }

abbrev pub labels : Dict String
labels = ("csi", "alcub") ∷ []

abbrev pub worker : ClusterNode
worker = record {
  name = "worker";
  labels = some labels;
  annotations = none;
  unschedulable = false;
  taints = [];
  deleting = false;
}

abbrev pub controller : Controller World
controller = record {
  store = alcuber;
  alcub_control = server;
  rbd_host = rbd_host;
  rbd = rbd;
  node_client = record {
    get = λ name. pure worker;
    list = pure (worker ∷ []);
    update = λ node. pure tt;
    retry_on_conflict = λ call. call;
    match_taint = λ a b. a.key == b.key;
  };
  node = record { csilabel = labels; halabel = none; filter_key = ""; filtervalue = "" };
  new_uuid = λ w. ("uuid-1", w);
}

abbrev pub mounter : Mounter World
mounter = record {
  is_likely_not_mount_point = λ target. pure true;
  is_not_mount_point = λ target w. ((false, none), w);
  mkdir_all = λ target perm. pure tt;
  format_and_mount = λ source target fs options. pure tt;
  unmount = λ target. pure tt;
  remove_all = λ target. pure tt;
}

abbrev pub plugin : Node World
plugin = record {
  store = alcuber;
  alcub_control = server;
  mounter = mounter;
  node_id = "id-1";
  nodename = "worker";
  storeip = "10.0.0.1";
}

abbrev pub volume : CsiAlcub
volume = record {
  meta = record {
    name = "pvc-1";
    finalizers = finalizers;
    deleting = false;
    resource_version = "7";
  };
  spec = record {
    uuid = "uuid-1";
    capacity = pos 1073741824;
    rbd_sc = "fast";
    pool = "rbd";
    image = "pvc-1";
  };
  status = empty_status;
}

-- The volume in use on the node `worker`.
abbrev pub used_volume : CsiAlcub
used_volume = record volume {
  status = record {
    volume_info = record { devpath = "/dev/alcub0"; storage_ip = "10.0.0.1" };
    prenode = "";
    node = "worker";
    all_nodes = "http://10.0.0.2" ∷ [];
  };
}

-- A process with an index from uuid to name.
abbrev pub process : World → Dict String → Process World
process w index = record {
  world = w;
  alcub_control = record {
    uuidname = index;
    nodes = ("worker", record { store_ip = address; zones = [] }) ∷ [];
  };
  dnsip = "";
  dyn_conf = none;
  alcub_dyn_conf = record { alucb_url = ""; nodename = "" };
}

abbrev pub empty : Process World
empty = process [] []

abbrev pub with_volume : Process World
with_volume = process (volume ∷ []) (("uuid-1", "pvc-1") ∷ [])

abbrev pub with_used_volume : Process World
with_used_volume = process (used_volume ∷ []) (("uuid-1", "pvc-1") ∷ [])
