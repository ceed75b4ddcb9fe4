-- ===== src/Manager.antt =====
-- pkg/manager/alcubManage.go: the custom resources of the volumes, an index from uuid to name, and
-- what is known of each node. The API server's client and the retry loop of client-go are a
-- parameter; `net.ParseIP` is one of its fields.
pub mod Index
pub mod Nodes
pub mod Server
pub mod History
pub mod Finalizers
use csi_alcub.Base.{
  ℕ, String, ◌<>◌, Bool, true, false, ◌&&◌, ◌||◌, Option, none, some, List, [], ◌∷◌, ◌==◌, nat_eq,
  length, if◌then◌else◌,
}
use csi_alcub.Base.Dict.{Dict, lookup, insert, erase}
use csi_alcub.Base.Exec.{
  Kind, not_found, already_exists, GoError, errorf, Result, ok, err, Exec, Go, pure, lift, modify,
  try, error_of, ◌>>=◌, ◌>>◌,
}
use csi_alcub.Process.{Ip, Nodeinfo, AlcubCon, Process, on_world, on_control}
use csi_alcub.Api.{
  ObjectMeta, CsiAlcubSpec, CsiAlcubStatus, CsiAlcub, empty_status, copy, deep_copy_spec,
  deep_copy_status,
}

-- `client.Client` at `CsiAlcub`, `retry.RetryOnConflict` with `retry.DefaultRetry`, and
-- `net.ParseIP`. The resource is cluster-wide, so a name is enough.
pub record AlcubClient (W : Type 0) : Type 0 where
  pub get : String → Go W CsiAlcub
  pub list : Go W (List CsiAlcub)
  pub create : CsiAlcub → Go W (Unit {0})
  pub update : CsiAlcub → Go W (Unit {0})
  pub delete : CsiAlcub → Go W (Unit {0})
  pub retry_on_conflict : Go W (Unit {0}) → Go W (Unit {0})
  pub parse_ip : String → Option Ip

abbrev pub finalizers : List String
finalizers = "controller/csi-alcub" ∷ []

abbrev pub is_not_found : Kind → Bool
is_not_found not_found = true
is_not_found _ = false

abbrev pub is_already_exists : Kind → Bool
is_already_exists already_exists = true
is_already_exists _ = false

-- `(*Nodeinfo).DeepCopy`: both fields of the new value are nil when `copy` writes to them.
unfoldable pub deep_copy_nodeinfo : Nodeinfo → Nodeinfo
unfolding copy
deep_copy_nodeinfo ni = record { store_ip = copy [] ni.store_ip; zones = copy [] ni.zones }

-- `AlcubCon.releaseUuid`
unfoldable pub release_uuid : String → AlcubCon → AlcubCon
release_uuid uuid al = record al { uuidname = erase uuid al.uuidname }

-- `AlcubCon.getNameByuuid`
unfoldable pub get_name_by_uuid : String → AlcubCon → String
get_name_by_uuid uuid al = elim (lookup uuid al.uuidname) [ some v ↦ v | none ↦ "" ]

-- `AlcubCon.GetNodeInfo`
unfoldable pub get_node_info : String → AlcubCon → Option Nodeinfo
get_node_info nodename al = elim (lookup nodename al.nodes) [
  | some v ↦ some (deep_copy_nodeinfo v)
  | none ↦ none
]

bytes_equal : Ip → Ip → Bool
bytes_equal [] [] = true
bytes_equal (a ∷ as') (b ∷ bs) = nat_eq a b && bytes_equal as' bs
bytes_equal _ _ = false

-- `v4InV6Prefix` of package net, in front of a 4-byte address
abbrev pub in_v6 : Ip → Ip
in_v6 ip = 0 ∷ 0 ∷ 0 ∷ 0 ∷ 0 ∷ 0 ∷ 0 ∷ 0 ∷ 0 ∷ 0 ∷ 0xff ∷ 0xff ∷ ip

-- `net.IP.Equal`: a 4-byte address equals its 16-byte form.
unfoldable pub ip_equal : Ip → Ip → Bool
unfolding bytes_equal
ip_equal a b =
    if nat_eq (length a) (length b)
    then bytes_equal a b
    else if nat_eq (length a) 4 && nat_eq (length b) 16
    then bytes_equal (in_v6 a) b
    else if nat_eq (length a) 16 && nat_eq (length b) 4
    then bytes_equal a (in_v6 b)
    else false

-- The entry that `reverseNode` starts from: the one in the map, or a new one.
abbrev pub node_entry : Option Nodeinfo → Nodeinfo
node_entry (some v) = v
node_entry none = record { store_ip = []; zones = [] }

-- The end of `AlcubCon.reverseNode`, once the address is parsed.
save_node : CsiAlcubStatus → Ip → AlcubCon → AlcubCon
save_node stat ip al =
    let oldv = node_entry (lookup stat.node al.nodes) in
    if ip_equal oldv.store_ip ip then al else record al {
      nodes =
          insert stat.node (record { store_ip = ip; zones = copy oldv.zones stat.all_nodes })
            al.nodes;
    }

-- `AlcubCon.reverseNode`
unfoldable pub reverse_node : (String → Option Ip) → CsiAlcubStatus → AlcubCon → AlcubCon
unfolding save_node
reverse_node parse_ip stat al =
    if stat.node == "" || stat.volume_info.storage_ip == ""
    then al
    else elim (parse_ip stat.volume_info.storage_ip) [ none ↦ al | some ip ↦ save_node stat ip al ]

-- `AlcubCon.reverseUuid`
unfoldable pub reverse_uuid : String → String → Go AlcubCon (Unit {0})
reverse_uuid uuid name al = elim (lookup uuid al.uuidname) [
  | some v ↦
      if v == name
      then (ok tt, al)
      else (err (errorf ("Alerady exist: uuid " <> uuid <> ", and value is " <> v)), al)
  | none ↦ (ok tt, record al { uuidname = insert uuid name al.uuidname })
]

-- `AlcubCon.validBeDelete`
unfoldable pub valid_be_delete : CsiAlcub → Result GoError (Unit {0})
valid_be_delete alcub =
    if alcub.status.node == "" then ok tt else err (errorf "status node is not nil")

module _ {W : Type 0} (c : AlcubClient W) where
  -- `AlcubCon.GetByName`: any error of the client gives nil.
  unfoldable pub get_by_name : String → Process W → Option CsiAlcub × Process W
  get_by_name name s =
      let (r, t) = on_world (c.get name) s in elim r [ ok obj ↦ (some obj, t) | err e ↦ (none, t) ]

  -- `AlcubCon.GetByUuid`
  unfoldable pub get_by_uuid : String → Process W → Option CsiAlcub × Process W
  get_by_uuid uuid s =
      if uuid == ""
      then (none, s)
      else let name = get_name_by_uuid uuid s.alcub_control in
        if name == "" then (none, s) else get_by_name name s

  -- The object that `AlcubCon.Create` sends.
  unfoldable pub new_object : String → CsiAlcubSpec → CsiAlcub
  new_object name spec = record {
    meta = record { name = name; finalizers = finalizers; deleting = false; resource_version = "" };
    spec = spec;
    status = empty_status;
  }

  -- `NewAlreadyExistError` of types/errors.go; the error's text is the one that it is given.
  abbrev pub new_already_exist_error : String → GoError
  new_already_exist_error s = record { kind = already_exists; message = s }

  -- What `AlcubCon.Create` returns for an error of the client.
  abbrev pub create_error : String → GoError → GoError
  create_error name e =
      if is_already_exists e.kind then new_already_exist_error (name <> " is alerady exist!") else e

  -- `AlcubCon.Create` at a spec that is not nil. Its deferred call gives the uuid up if the client
  -- has failed.
  unfoldable pub create : String → CsiAlcubSpec → Go (Process W) (Unit {0})
  unfolding new_object
  create name spec = do
    on_control (reverse_uuid spec.uuid name)
    r ← try (on_world (c.create (new_object name spec)))
    elim r [
      | ok _ ↦ pure tt
      | err e ↦ do on_control (modify (release_uuid spec.uuid)); lift (err (create_error name e))
    ]

  -- `AlcubCon.Delete`
  unfoldable pub delete : String → Go (Process W) (Unit {0})
  delete name = do obj ← on_world (c.get name); on_world (c.retry_on_conflict (c.delete obj))

  abbrev pub set_spec : Option CsiAlcubSpec → CsiAlcub → CsiAlcub
  set_spec none obj = obj
  set_spec (some spec) obj = record obj { spec = deep_copy_spec spec }

  abbrev pub set_status : Option CsiAlcubStatus → CsiAlcub → CsiAlcub
  set_status none obj = obj
  set_status (some stat) obj = record obj { status = deep_copy_status stat }

  -- `AlcubCon.Update`: the retries send the object that was read once.
  unfoldable pub update :
      String → Option CsiAlcubSpec → Option CsiAlcubStatus → Go (Process W) (Unit {0})
  update name spec stat = do
    obj ← on_world (c.get name)
    on_world (c.retry_on_conflict (c.update (set_status stat (set_spec spec obj))))

  -- The loop of `AlcubCon.ForEach`.
  for_items : (CsiAlcub → Process W → Process W) → List CsiAlcub → Process W → Process W
  for_items fn [] s = s
  for_items fn (alcub ∷ items) s = for_items fn items (fn alcub s)

  -- `AlcubCon.ForEach`
  unfoldable pub for_each : (CsiAlcub → Process W → Process W) → Go (Process W) (Unit {0})
  unfolding for_items
  for_each fn = do items ← on_world c.list; modify (for_items fn items)

  -- What `Reconcile` does with an object that is being deleted: it drops the finalizers if no node
  -- uses the volume. The outcome of the update is not looked at.
  unfoldable pub finish_delete : CsiAlcub → Go (Process W) (Unit {0})
  finish_delete alcub = elim (valid_be_delete alcub) [
    | err e ↦ pure tt
    | ok _ ↦ do
      let freed = record alcub { meta = record alcub.meta { finalizers = [] } }
      try (on_world (c.retry_on_conflict (c.update freed)))
      pure tt
  ]

  -- What `Reconcile` does with any other object: it enters the uuid, logging a clash, and the node.
  unfoldable pub remember : CsiAlcub → Go (Process W) (Unit {0})
  remember alcub = do
    try (on_control (reverse_uuid alcub.spec.uuid alcub.meta.name))
    on_control (modify (reverse_node c.parse_ip alcub.status))

  -- `AlcubCon.Reconcile` for the object of the given name.
  unfoldable pub reconcile : String → Go (Process W) (Unit {0})
  reconcile name = do
    r ← try (on_world (c.get name))
    elim r [
      | err e ↦ if is_not_found e.kind then pure tt else lift (err e)
      | ok alcub ↦ if alcub.meta.deleting then finish_delete alcub else remember alcub
    ]
