-- ===== src/Samples/Clusters.antt =====
-- A world that has resources and images, and keeps them together.
use csi_alcub.Base.{
  ℕ, String, Bool, true, false, none, some, Option, List, [], ◌∷◌, ◌≡◌, refl, ◌≢◌, ◌⊎◌, inl, inr,
  arith, eq_iff, ◌==◌, ◌&&◌, if◌then◌else◌,
}
use csi_alcub.Base.Dict.{Dict}
use csi_alcub.Base.Exec.{Go, err}
use csi_alcub.Process.{Process}
use csi_alcub.Api.{CsiAlcub}
use csi_alcub.Manager.{AlcubClient}
use csi_alcub.Rbd.{Ran, RbdHost}
use csi_alcub.Rbd.Util
use csi_alcub.Control.{Controller}
use csi_alcub.Registry.{IsRegistry, IsApart}
use csi_alcub.Ceph.{Place, IsCeph, IsHome, class_pool}
use csi_alcub.Ceph.Together.{IsCluster}
use csi_alcub.Samples.{World, stored, controller, rbd_host, rbd, missing}
use csi_alcub.Samples.Registry.{strict, strict-IsRegistry}

-- The resources, and the images that there are.
pub record Cluster : Type 0 where
  pub resources : World
  pub places : List Place

abbrev is_place : Place → Place → Bool
is_place (pool, image) (pool', image') = (pool == pool') && (image == image')

unfoldable pub has : List Place → Place → Bool
has [] x = false
has (y ∷ ys) x = let rest = has ys x in if is_place y x then true else rest

unfoldable pub without : Place → List Place → List Place
without x [] = []
without x (y ∷ ys) = let rest = without x ys in if is_place y x then rest else y ∷ rest

abbrev pub images : Cluster → Place → Bool
images w = has w.places

abbrev pub resource : Cluster → String → Option CsiAlcub
resource w = stored w.resources

abbrev on_resources : {A : Type 0} → Go World A → Go Cluster A
on_resources m w = let (r, v) = m w.resources in (r, record w { resources = v })

abbrev api : AlcubClient Cluster
api = record {
  get = λ name. on_resources (strict.get name);
  list = on_resources strict.list;
  create = λ obj. on_resources (strict.create obj);
  update = λ obj. on_resources (strict.update obj);
  delete = λ obj. on_resources (strict.delete obj);
  retry_on_conflict = λ call. call;
  parse_ip = strict.parse_ip;
}

abbrev done : Ran
done = record { output = ""; failed = none; deadline_exceeded = false }

abbrev failed : Ran
failed = record { output = ""; failed = some "exit status 2"; deadline_exceeded = false }

-- The command `rbd`, which finds the pool among its arguments.
unfoldable pub rbd_command : List String → Cluster → Ran × Cluster
rbd_command (verb ∷ image ∷ _ ∷ a ∷ _ ∷ b ∷ _) w =
    if verb == "create"
    then if has w.places (b, image)
      then (failed, w)
      else (done, record w { places = (b, image) ∷ w.places })
    else if verb == "rm"
    then (done, record w { places = without (a, image) w.places })
    else (done, w)
rbd_command _ w = (failed, w)

abbrev host : RbdHost Cluster
host = record {
  run = λ limit command args. rbd_command args;
  storage_class = λ name. on_resources (rbd_host.storage_class name);
  secret = λ namespace name. on_resources (rbd_host.secret namespace name);
  find_dns_ip = λ w. ("", w);
  lookup_host = λ dns name. on_resources (rbd_host.lookup_host dns name);
  split_host_port = rbd_host.split_host_port;
  join_host_port = rbd_host.join_host_port;
  parse_ip = rbd_host.parse_ip;
  round_up_size = rbd_host.round_up_size;
  quote = rbd_host.quote;
}

has-without :
    (x y : Place) (ys : List Place)
    → (has (without x ys) x ≡ false) × (x ≢ y → has (without x ys) y ≡ has ys y)
unfolding has without
has-without x y [] = (refl, λ h. refl)
has-without x y (z ∷ ys) =
    ground
      (arith, eq_iff z.0 x.0, eq_iff z.1 x.1, eq_iff z.0 y.0, eq_iff z.1 y.1, has-without x y ys)

host-IsCeph : IsCeph host images
unfolding rbd_command has Util.create_args Util.status_args Util.rm_args
host-IsCeph = record {
  create_ok = λ u o image size w good. ground (arith, eq_iff o.pool o.pool, eq_iff image image);
  create_keeps = λ u o image size w x e. ground arith;
  create_ne = λ u o image size w x ne. ground (arith, eq_iff o.pool x.0, eq_iff image x.1);
  status_keeps = λ u o image w x. ground arith;
  status_missing = λ u o image w bad says. ground arith;
  rm_ok = λ u o image w good. ground (arith, has-without (o.pool, image) (o.pool, image) w.places);
  rm_ne = λ u o image w x ne. ground (arith, has-without (o.pool, image) x w.places);
}

host-IsHome : IsHome host images (λ class. "rbd")
unfolding class_pool csi_alcub.Rbd.Options.option_key csi_alcub.Base.Text.to_lower
host-IsHome = record {
  ceph = host-IsCeph;
  quiet = λ x. record {
    class_keeps = λ name w. refl;
    secret_keeps = λ space name w. refl;
    dns_keeps = λ w. refl;
    host_keeps = λ dns name w. refl;
  };
  fixed = λ name w ps e. ground arith;
}

abbrev pub builder : Controller Cluster
builder = record {
  store = record {
    do_conn = λ conf pool image s. (err missing, s);
    do_dis_conn = λ conf pool image s. (err missing, s);
    get_image_status = λ conf pool image s. (false, s);
    fail_node = λ conf node s. (err missing, s);
    dev_stop = λ conf pool image s. (err missing, s);
    get_node = λ conf node s. (err missing, s);
  };
  alcub_control = api;
  rbd_host = host;
  rbd = rbd;
  node_client = record {
    get = λ name. on_resources (controller.node_client.get name);
    list = on_resources controller.node_client.list;
    update = λ node. on_resources (controller.node_client.update node);
    retry_on_conflict = λ call. call;
    match_taint = controller.node_client.match_taint;
  };
  node = controller.node;
  new_uuid = λ w. ("uuid-1", w);
}

api-IsRegistry : IsRegistry api resource
unfolding strict
api-IsRegistry =
    let known = strict-IsRegistry in
    record {
      server = record {
        get_named = λ name w. known.server.get_named name w.resources;
        get_keeps = λ name w. known.server.get_keeps name w.resources;
        create_ok = λ obj w. known.server.create_ok obj w.resources;
        update_ok = λ obj w. known.server.update_ok obj w.resources;
        update_ne = λ obj w. known.server.update_ne obj w.resources;
      };
      create_new = λ obj w. known.create_new obj w.resources;
      create_alive = λ obj new w. known.create_alive obj new w.resources;
      create_ne = λ obj w. known.create_ne obj w.resources;
      delete_ok = λ obj w. known.delete_ok obj w.resources;
      delete_ne = λ obj w. known.delete_ne obj w.resources;
    }

builder-IsApart : IsApart builder resource
unfolding rbd_command
builder-IsApart = record {
  run_keeps = λ u command args w n. ground arith;
  class_keeps = λ name w n. refl;
  secret_keeps = λ space name w n. refl;
  dns_keeps = λ w n. refl;
  host_keeps = λ dns name w n. refl;
  list_keeps = λ w n. refl;
  uuid_keeps = λ w n. refl;
}

pub builder-IsCluster : IsCluster images resource builder (λ class. "rbd")
unfolding strict
builder-IsCluster = record {
  home = host-IsHome;
  registry = api-IsRegistry;
  apart = builder-IsApart;
  get_keeps = λ name w x. refl;
  create_keeps = λ obj w x. refl;
  delete_keeps = λ obj w x. refl;
  list_keeps = λ w x. refl;
  uuid_keeps = λ w x. refl;
}

-- A process in this world.
abbrev pub at : List Place → World → Dict String → Process Cluster
at places resources index = record {
  world = record { resources = resources; places = places };
  alcub_control = record { uuidname = index; nodes = [] };
  dnsip = "";
  dyn_conf = none;
  alcub_dyn_conf = record { alucb_url = ""; nodename = "" };
}
