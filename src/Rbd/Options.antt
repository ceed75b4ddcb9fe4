-- ===== src/Rbd/Options.antt =====
-- pkg/rbd/rbd.go: the parameters of a storage class, read into options.
use csi_alcub.Base.{
  String, ◌<>◌, Bool, false, not, ◌&&◌, ◌||◌, List, [], ◌∷◌, ◌++◌, map, ◌==◌, is_nil, is_empty,
  if◌then◌else◌,
}
use csi_alcub.Base.Dict.{Dict}
use csi_alcub.Base.Text.{split, to_lower}
use csi_alcub.Base.Exec.{GoError, errorf, Result, ok, err, Go, pure, lift, fail, wrap, ◌>>=◌}
use csi_alcub.Process.{Process, on_world}
use csi_alcub.Rbd.{
  RbdHost, RbdProvisionOptions, Rbd, rbd_image_format1, rbd_image_format2, secret_key_name,
  supported_features,
}

-- The local variables of `parseParameters`.
pub record Parsing : Type 0 where
  pub opts : RbdProvisionOptions
  pub admin_secret_name : String
  pub admin_secret_namespace : String

abbrev pub default_opts : RbdProvisionOptions
default_opts = record {
  monitors = [];
  pool = "rbd";
  data_pool = "";
  admin_id = "admin";
  admin_secret = "";
  user_id = "";
  user_secret_name = "";
  user_secret_namespace = "";
  fs_type = "";
  image_format = rbd_image_format2;
  image_features = [];
}

abbrev pub start_parsing : Parsing
start_parsing = record {
  opts = default_opts;
  admin_secret_name = "";
  admin_secret_namespace = "default";
}

-- The cases of the `switch` on the key in lower case.
pub data OptionKey : Type 0 where
  monitors admin_id admin_secret_name admin_secret_namespace user_id pool data_pool : OptionKey
  user_secret_name user_secret_namespace image_format image_features fs_type : OptionKey
  unknown : OptionKey

unfoldable pub option_key : String → OptionKey
option_key k =
    if k == "monitors"
    then OptionKey.monitors
    else if k == "adminid"
    then OptionKey.admin_id
    else if k == "adminsecretname"
    then OptionKey.admin_secret_name
    else if k == "adminsecretnamespace"
    then OptionKey.admin_secret_namespace
    else if k == "userid"
    then OptionKey.user_id
    else if k == "pool"
    then OptionKey.pool
    else if k == "datapool"
    then OptionKey.data_pool
    else if k == "usersecretname"
    then OptionKey.user_secret_name
    else if k == "usersecretnamespace"
    then OptionKey.user_secret_namespace
    else if k == "imageformat"
    then OptionKey.image_format
    else if k == "imagefeatures"
    then OptionKey.image_features
    else if k == "fstype"
    then OptionKey.fs_type
    else unknown

-- `supportedFeatures.Has(f)`
unfoldable pub is_supported : List String → String → Bool
is_supported [] f = false
is_supported (g ∷ features) f = g == f || is_supported features f

module _ (quote : String → String) where
  -- The loop over the features of `imagefeatures`, which appends the ones that are supported.
  unfoldable pub read_features : List String → List String → Result GoError (List String)
  unfolding is_supported
  read_features [] done = ok done
  read_features (f ∷ arr) done =
      let rest = read_features arr (done ++ (f ∷ [])) in
      if is_supported supported_features f
      then rest
      else err
          (errorf ("invalid feature " <> quote f <> ", supported features are: map[layering:{}]"))

  -- Every case of the `switch` but `monitors`.
  unfoldable pub set_option : OptionKey → String → String → Parsing → Result GoError Parsing
  unfolding read_features
  set_option OptionKey.admin_id k v p =
      if v == ""
      then err (errorf "missing Ceph adminid")
      else ok (record p { opts = record p.opts { admin_id = v } })
  set_option OptionKey.admin_secret_name k v p = ok (record p { admin_secret_name = v })
  set_option OptionKey.admin_secret_namespace k v p = ok (record p { admin_secret_namespace = v })
  set_option OptionKey.user_id k v p = ok (record p { opts = record p.opts { user_id = v } })
  set_option OptionKey.pool k v p =
      if v == ""
      then err (errorf "missing Ceph pool")
      else ok (record p { opts = record p.opts { pool = v } })
  set_option OptionKey.data_pool k v p = ok (record p { opts = record p.opts { data_pool = v } })
  set_option OptionKey.user_secret_name k v p =
      if v == ""
      then err (errorf "missing user secret name")
      else ok (record p { opts = record p.opts { user_secret_name = v } })
  set_option OptionKey.user_secret_namespace k v p =
      ok (record p { opts = record p.opts { user_secret_namespace = v } })
  set_option OptionKey.image_format k v p =
      if not (v == rbd_image_format1) && not (v == rbd_image_format2)
      then err (errorf ("invalid ceph imageformat " <> v <> ", expecting 1 or 2"))
      else ok (record p { opts = record p.opts { image_format = v } })
  set_option OptionKey.image_features k v p =
      elim (read_features (split v b',') p.opts.image_features) [
        | ok features ↦ ok (record p { opts = record p.opts { image_features = features } })
        | err e ↦ err e
      ]
  set_option OptionKey.fs_type k v p = ok (record p { opts = record p.opts { fs_type = v } })
  set_option OptionKey.monitors k v p = ok p
  set_option unknown k v p = err (errorf ("invalid option " <> quote k))

-- The loop of `parsePVSecret`: the entry named `key`, or the last one.
unfoldable pub pick_secret : Dict String → String → String
pick_secret [] secret = secret
pick_secret ((k, v) ∷ entries) secret =
    let rest = pick_secret entries v in if k == secret_key_name then v else rest

module _ {W : Type 0} (h : RbdHost W) where
  -- The addresses that one monitor contributes: those of the lookup, or the monitor itself if it is
  -- an address, if there is no DNS server or if the lookup fails.
  unfoldable pub resolve_monitor : String → String → W → List String × W
  resolve_monitor dnsip m w =
      let (mhost, mport) = h.split_host_port m in
      let as_given : List String = h.join_host_port mhost mport ∷ [] in
      if not (dnsip == "") && is_nil (h.parse_ip mhost)
      then (let (r, w') = h.lookup_host mhost dnsip w in
          elim r [
            | ok lookup ↦ (map (λ a. h.join_host_port a mport) lookup, w')
            | err e ↦ (as_given, w')
          ])
      else (as_given, w)

  -- The loop over the monitors.
  unfoldable pub resolve_monitors : String → List String → List String → W → List String × W
  resolve_monitors dnsip [] done w = (done, w)
  resolve_monitors dnsip (m ∷ arr) done w =
      let (found, w') = resolve_monitor dnsip m w in resolve_monitors dnsip arr (done ++ found) w'

  -- `r.dnsip` is asked for once, and again as long as it is empty.
  unfoldable pub find_dns : Go (Process W) (Unit {0})
  find_dns s =
      if s.dnsip == ""
      then (let (ip, w) = h.find_dns_ip s.world in (ok tt, record s { world = w; dnsip = ip }))
      else (ok tt, s)

  -- The case `monitors`.
  unfoldable pub set_monitors : String → Parsing → Go (Process W) Parsing
  unfolding find_dns resolve_monitors
  set_monitors v p s =
      let t = (find_dns s).1 in
      let (ms, w) = resolve_monitors t.dnsip (split v b',') p.opts.monitors t.world in
      let t' = record t { world = w } in
      if is_empty ms
      then (err (errorf "missing Ceph monitors"), t')
      else (ok (record p { opts = record p.opts { monitors = ms } }), t')

  -- The `switch` of one round of the loop over the parameters.
  unfoldable pub read_key : OptionKey → String → String → Parsing → Go (Process W) Parsing
  unfolding set_option set_monitors
  read_key OptionKey.monitors k v p = set_monitors v p
  read_key key k v p = lift (set_option h.quote key k v p)

  unfoldable pub read_parameter : String → String → Parsing → Go (Process W) Parsing
  read_parameter k v p = read_key (option_key (to_lower k)) k v p

  unfoldable pub read_parameters : Dict String → Parsing → Go (Process W) Parsing
  read_parameters [] p s = (ok p, s)
  read_parameters ((k, v) ∷ parameters) p s =
      let (r, t) = read_parameter k v p s in
      elim r [ ok p' ↦ read_parameters parameters p' t | err e ↦ (err e, t) ]

  -- `Rbd.parsePVSecret`
  unfoldable pub parse_pv_secret : Rbd → String → String → Go W String
  unfolding pick_secret
  parse_pv_secret r namespace name =
      if not r.has_client
      then fail (errorf "Cannot get kube client")
      else do entries ← h.secret namespace name; pure (pick_secret entries "")

  -- What `parseParameters` does after its loop.
  unfoldable pub finish_options : Rbd → Parsing → Go (Process W) RbdProvisionOptions
  unfolding parse_pv_secret
  finish_options r p =
      if p.admin_secret_name == "" then fail (errorf "missing Ceph admin secret name") else do
        secret ←
            wrap
              (λ (e : GoError). errorf (
                "failed to get admin secret from ["
                <> h.quote p.admin_secret_namespace
                <> "/"
                <> h.quote p.admin_secret_name
                <> "]: "
                <> e.message))
              (on_world (parse_pv_secret r p.admin_secret_namespace p.admin_secret_name))
        pure (record p.opts {
          admin_secret = secret;
          user_id = if p.opts.user_id == "" then p.opts.admin_id else p.opts.user_id;
        })

  -- `Rbd.parseParameters`
  unfoldable pub parse_parameters : Rbd → Dict String → Go (Process W) RbdProvisionOptions
  parse_parameters r parameters = do
    p ← read_parameters parameters start_parsing
    finish_options r p
