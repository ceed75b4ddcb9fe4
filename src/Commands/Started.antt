-- ===== src/Commands/Started.antt =====
-- What a command has made sure of when it hands its services to the manager.
use csi_alcub.Base.{
  ℕ, ◌*◌, true, false, String, ◌<>◌, ◌≡◌, ◌≢◌, refl, sym, subst, inl, inr, Option, none, some, [],
  ◌∷◌, arith, eq_iff,
}
use csi_alcub.Base.Exec.{ok, Result-cases}
use csi_alcub.Process.{DynConf, Process}
use csi_alcub.Utils.{split_label}
use csi_alcub.Utils.Label.{split_label_ok}
use csi_alcub.Rbd.Image.{fetch_url}
use csi_alcub.Store.{null, Alcuber}
use csi_alcub.Store.Client.{target, fill_alcub_url, set_url, new_client, client}
use csi_alcub.Cluster.{NodeConf}
use csi_alcub.Identity.{IdentityServer, Capability, version, new_identy}
use csi_alcub.Server.{Runner}
use csi_alcub.Control.{Controller}
use csi_alcub.Node.{Node, get_stora_if_ip}
use csi_alcub.Node.Storage.{HasAddress, get_stora_if_ip-HasAddress}
use csi_alcub.Commands.{Config, second}
use csi_alcub.Commands.Start.{Options, Platform, begin, open_store, new_rbd, new_alcub_con}
use csi_alcub.Commands.Controller.{
  controller_options, entries, filter_pair, set_up_controller, new_node, new_controller,
}
use csi_alcub.Commands.Plugin

module _ {W : Type 0} (p : Platform W) (conf : Config) where
  open_store_absent :
      (s t : Process W) (store : Alcuber (Process W))
      → open_store p conf none s ≡ (ok store, t)
      → (conf.store_conf.api_url ≢ "")
        × (store ≡ client p.http_host p.rbd_host conf.store_conf)
        × (target null t ≡ none)
        × (t.alcub_control ≡ s.alcub_control)
  unfolding open_store new_client target
  open_store_absent s t store e = ground (arith, eq_iff conf.store_conf.api_url "")

  fill_alcub_url_lem :
      (d : DynConf) (s : Process W)
      → target null s ≡ some d
      → (d' : DynConf) × (target null
            (fill_alcub_url p.http_host p.rbd_host conf.store_conf null d s).1
          ≡ some d')
        × (d'.nodename ≡ d.nodename)
        × ((fill_alcub_url p.http_host p.rbd_host conf.store_conf null d s).1.alcub_control
            ≡ s.alcub_control)
  unfolding fill_alcub_url set_url target
  fill_alcub_url_lem d s e =
      elim (Result-cases
        (fetch_url p.rbd_host conf.store_conf.alucb_pool ("alcubierre_node_" <> d.nodename)
          s.world).0) [
            | inl (url, came) ↦ (record d { alucb_url = url }, ground arith, refl, ground arith)
            | inr (x, failed) ↦ (d, ground arith, refl, ground arith)
          ]

  open_store_given :
      (d : DynConf) (s t : Process W) (store : Alcuber (Process W))
      → open_store p conf (some d) s ≡ (ok store, t)
      → (conf.store_conf.api_url ≢ "")
        × (store ≡ client p.http_host p.rbd_host conf.store_conf)
        × ((d' : DynConf) × (target null t ≡ some d') × (d'.nodename ≡ d.nodename))
        × (t.alcub_control ≡ s.alcub_control)
  unfolding open_store new_client target
  open_store_given d s t store e =
      let s' : Process W = record s { dyn_conf = some d } in
      let (d', found, named, keeps) = fill_alcub_url_lem d s' refl in
      (
        ground (arith, eq_iff conf.store_conf.api_url ""),
        ground (arith, eq_iff conf.store_conf.api_url ""),
        (d', ground (arith, eq_iff conf.store_conf.api_url ""), named),
        ground (arith, eq_iff conf.store_conf.api_url ""),
      )

  new_controller_node :
      (kv : String × String) (ha csi : Option _) (s t : Process W) (n : NodeConf)
      → new_node p kv ha csi s ≡ (ok n, t)
      → (csi ≡ some n.csilabel)
        × (target null t ≡ target null s)
        × (t.alcub_control ≡ s.alcub_control)
  unfolding new_node target
  new_controller_node kv ha none s t n e = absurd (ground arith)
  new_controller_node kv ha (some csi) s t n e = ground arith

  new_plugin_node :
      (store : Alcuber (Process W)) (s : Process W) (n : Node W)
      → (Plugin.new_node p store conf.nodename conf.storage_if_name s).0 ≡ ok n
      → (n.storeip ≢ "")
        × HasAddress (p.interfaces s.world) conf.storage_if_name n.storeip
        × (n.nodename ≡ conf.nodename)
        × (n.store ≡ store)
        × ((Plugin.new_node p store conf.nodename conf.storage_if_name s).1 ≡ s)
  unfolding Plugin.new_node
  new_plugin_node store s n e =
      let ip = get_stora_if_ip (p.interfaces s.world) conf.storage_if_name in
      let named : n.storeip ≡ ip = ground arith in
      let given : ip ≢ "" = ground (arith, eq_iff ip "") in
      (
        ground (arith, named, given),
        subst (λ a. HasAddress (p.interfaces s.world) conf.storage_if_name a) (sym named)
            (get_stora_if_ip-HasAddress (p.interfaces s.world) conf.storage_if_name given),
        ground arith,
        ground arith,
        ground arith,
      )

  begin_lem :
      (o : Options) (s t : Process W)
      → begin p conf o s ≡ (ok tt, t)
      → t.alcub_control ≡ record { uuidname = []; nodes = [] }
  unfolding begin new_alcub_con
  begin_lem o s t e = ground arith

  new_rbd_lem :
      (timeout : ℕ) (s : Process W)
      → ((new_rbd p conf timeout s).0 ≡ ok (record { has_client = true; rbdutil = timeout }))
        × (target null (new_rbd p conf timeout s).1 ≡ target null s)
        × ((new_rbd p conf timeout s).1.alcub_control ≡ s.alcub_control)
  unfolding new_rbd target
  new_rbd_lem timeout s = ground arith

  new_identy_lem :
      (name : String) (x : Capability)
      → new_identy name (x ∷ []) ≡ ok (record { caps = x ∷ []; name = name; version = version })
  unfolding new_identy
  new_identy_lem name x = refl

  module _ (s t : Process W) (ids : IdentityServer) (runner : Runner) where
    -- When the controller is set up, the address of the storage API is not empty, the driver's label
    -- is exactly one key and value, which the flag `csi-label` holds as `key=value`, and the client
    -- of the storage servers has no configuration of its own. The maps of the resource manager are
    -- empty, the identity service names the controller capability, and the runner is one that offers
    -- the controller service and asks the manager to start it by the election of a leader.
    pub set_up_controller_ok :
        (c : Controller W)
        → set_up_controller p conf s ≡ (ok (c, ids, runner), t)
        → (conf.store_conf.api_url ≢ "")
          × ((k : String) × (v : String) × (c.node.csilabel ≡ (k, v) ∷ [])
              × (conf.labels.csilabelkv ≡ k <> ("=" <> v)))
          × (c.store ≡ client p.http_host p.rbd_host conf.store_conf)
          × (target null t ≡ none)
          × (t.alcub_control ≡ record { uuidname = []; nodes = [] })
          × (ids.caps ≡ Capability.controller_service ∷ [])
          × (runner ≡ record {
            leaderenable = true;
            endpoint = conf.endpoint;
            ids = true;
            cs = true;
            ns = false;
          })
    unfolding set_up_controller new_controller
    set_up_controller_ok c e =
        let s1 = (begin p conf (controller_options p conf) s).1 in
        let s2 = (open_store p conf none s1).1 in
        let s3 = (new_rbd p conf (10 * second) s2).1 in
        let kv = filter_pair ("", "") (entries (split_label conf.labels.filterkv)) in
        let ha = split_label conf.labels.hakv in
        let csi = split_label conf.labels.csilabelkv in
        elim (Result-cases (begin p conf (controller_options p conf) s).0) [
          | inr (x, failed) ↦ absurd (ground arith)
          | inl (u, begun) ↦ elim (Result-cases (open_store p conf none s1).0) [
            | inr (x, failed) ↦ absurd (ground arith)
            | inl (store, opened) ↦ elim (Result-cases (new_node p kv ha csi s3).0) [
              | inr (x, failed) ↦ absurd (ground arith)
              | inl (n, made) ↦
                  let s4 = (new_node p kv ha csi s3).1 in
                  let no_maps = begin_lem (controller_options p conf) s s1 (ground arith) in
                  let (url, is_client, no_conf, keeps2) =
                    open_store_absent s1 s2 store (ground arith) in
                  let (given, same3, keeps3) = new_rbd_lem (10 * second) s2 in
                  let (labelled, same4, keeps4) =
                    new_controller_node kv ha csi s3 s4 n (ground arith) in
                  let (k, v, entry, text) =
                    split_label_ok conf.labels.csilabelkv n.csilabel labelled in
                  let ready = new_identy_lem conf.drivername Capability.controller_service in
                  (
                    url,
                    (k, v, ground arith, text),
                    ground arith,
                    ground arith,
                    ground arith,
                    ground arith,
                    ground arith,
                  )
            ]
          ]
        ]

    -- When the node plugin is set up, its storage address is one that the system lists for an
    -- interface of the name that it was told, and it is not empty. The address of the storage API is
    -- not empty, and the client of the storage servers has the configuration of this node, under the
    -- name that the plugin itself has. The maps of the resource manager are empty, the identity
    -- service names the constraint on accessibility, and the runner is one that offers the node
    -- service and is started without the election of a leader.
    pub set_up_plugin_ok :
        (c : Node W)
        → Plugin.set_up_plugin p conf s ≡ (ok (c, ids, runner), t)
        → (conf.store_conf.api_url ≢ "")
          × (c.storeip ≢ "")
          × ((w : W) × HasAddress (p.interfaces w) conf.storage_if_name c.storeip)
          × (c.nodename ≡ conf.nodename)
          × (c.store ≡ client p.http_host p.rbd_host conf.store_conf)
          × ((d : DynConf) × (target null t ≡ some d) × (d.nodename ≡ c.nodename))
          × (t.alcub_control ≡ record { uuidname = []; nodes = [] })
          × (ids.caps ≡ Capability.volume_accessibility_constraints ∷ [])
          × (runner ≡ record {
            leaderenable = false;
            endpoint = conf.endpoint;
            ids = true;
            cs = false;
            ns = true;
          })
    unfolding Plugin.set_up_plugin
    set_up_plugin_ok c e =
        let s1 = (begin p conf (Plugin.plugin_options p conf) s).1 in
        let dyn = Plugin.store_dyn_conf p conf in
        let s2 = (open_store p conf (some dyn) s1).1 in
        let s3 = (new_rbd p conf (5 * second) s2).1 in
        elim (Result-cases (begin p conf (Plugin.plugin_options p conf) s).0) [
          | inr (x, failed) ↦ absurd (ground arith)
          | inl (u, begun) ↦ elim (Result-cases (open_store p conf (some dyn) s1).0) [
            | inr (x, failed) ↦ absurd (ground arith)
            | inl (store, opened) ↦
                let no_maps = begin_lem (Plugin.plugin_options p conf) s s1 (ground arith) in
                let (url, is_client, (d, found, named), keeps2) =
                  open_store_given dyn s1 s2 store (ground arith) in
                let (given, same3, keeps3) = new_rbd_lem (5 * second) s2 in
                elim (Result-cases
                  (Plugin.new_node p store conf.nodename conf.storage_if_name s3).0) [
                    | inr (x, failed) ↦ absurd (ground arith)
                    | inl (n, made) ↦
                        let ready =
                          new_identy_lem conf.drivername
                            Capability.volume_accessibility_constraints in
                        let (ip, listed, of_node, with_store, kept) =
                          new_plugin_node store s3 n made in
                        (
                          url,
                          ground arith,
                          (
                            s3.world,
                            subst (λ a. HasAddress (p.interfaces s3.world) conf.storage_if_name a)
                                (ground arith) listed,
                          ),
                          ground arith,
                          ground arith,
                          (d, ground arith, ground arith),
                          ground arith,
                          ground arith,
                          ground arith,
                        )
                  ]
          ]
        ]
