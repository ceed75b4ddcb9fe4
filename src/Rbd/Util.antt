-- ===== src/Rbd/Util.antt =====
-- pkg/rbd/rbd_util.go: the commands `rbd`, `rados` and `ceph`.
use csi_alcub.Base.{
  ℕ, String, ◌<>◌, Bool, true, false, ◌||◌, Option, none, some, List, [], ◌∷◌, ◌++◌, ◌==◌,
  if◌then◌else◌,
}
use csi_alcub.Base.Text.{join, contains, decimal}
use csi_alcub.Base.Int.{ℤ, pos, leb_ℤ}
use csi_alcub.Base.Exec.{had_deleted, GoError, errorf, ok, err, Go}
use csi_alcub.Rbd.{
  Ran, RbdHost, RbdProvisionOptions, Volume, rbd_image_format2, image_watcher_str, image_not_found,
}

-- `errHadDeleted`
abbrev pub err_had_deleted : GoError
err_had_deleted = record { kind = had_deleted; message = "had deleted" }

-- `RBDUtil.kernelRBDMonitorsOpt`
unfoldable pub kernel_rbd_monitors_opt : List String → String
kernel_rbd_monitors_opt mons = join mons ","

-- The error that `RBDUtil.execCommand` makes of a run.
abbrev pub exec_error : Ran → Option GoError
exec_error ran =
    if ran.deadline_exceeded then some (errorf "rbd: Command timed out") else elim ran.failed [
      | some e ↦ some (errorf ("rbd: Command exited with non-zero code: " <> e))
      | none ↦ none
    ]

-- The arguments that `CreateImage` gives to `rbd`.
unfoldable pub create_args : RbdProvisionOptions → String → String → List String
unfolding kernel_rbd_monitors_opt
create_args o image size =
    ("create"
      ∷ image
      ∷ "--size"
      ∷ size
      ∷ "--pool"
      ∷ o.pool
      ∷ "--id"
      ∷ o.admin_id
      ∷ "-m"
      ∷ kernel_rbd_monitors_opt o.monitors
      ∷ ("--key=" <> o.admin_secret)
      ∷ "--image-format"
      ∷ o.image_format
      ∷ [])
    ++ ((if o.data_pool == "" then [] else "--data-pool" ∷ o.data_pool ∷ [])
        ++ (if o.image_format == rbd_image_format2
            then "--image-feature" ∷ join o.image_features "," ∷ []
            else []))

unfoldable pub status_args : RbdProvisionOptions → String → List String
unfolding kernel_rbd_monitors_opt
status_args o image =
    "status"
    ∷ image
    ∷ "--pool"
    ∷ o.pool
    ∷ "-m"
    ∷ kernel_rbd_monitors_opt o.monitors
    ∷ "--id"
    ∷ o.admin_id
    ∷ ("--key=" <> o.admin_secret)
    ∷ []

unfoldable pub rm_args : RbdProvisionOptions → String → List String
unfolding kernel_rbd_monitors_opt
rm_args o image =
    "rm"
    ∷ image
    ∷ "--pool"
    ∷ o.pool
    ∷ "--id"
    ∷ o.admin_id
    ∷ "-m"
    ∷ kernel_rbd_monitors_opt o.monitors
    ∷ ("--key=" <> o.admin_secret)
    ∷ []

-- `util.MiB`
abbrev pub mib : ℤ
mib = pos 1048576

module _ {W : Type 0} (h : RbdHost W) (u : ℕ) where
  -- `RBDUtil.execCommand` returns its output beside the error.
  unfoldable pub exec_command : String → List String → W → (String × Option GoError) × W
  exec_command command args w =
      let (ran, w') = h.run u command args w in ((ran.output, exec_error ran), w')

  -- `RBDUtil.CreateImage`
  unfoldable pub create_image : RbdProvisionOptions → String → ℤ → Go W Volume
  unfolding exec_command
  create_image o image size w =
      let sz = h.round_up_size size mib in
      if leb_ℤ sz (pos 0)
      then (
        err (
            errorf (
              "invalid volume size '"
              <> decimal size
              <> "' requested for RBD provisioner, it must greater than zero")),
        w,
      )
      else let (r, w') = exec_command "rbd" (create_args o image (decimal sz)) w in
        elim r.1 [
          | some e ↦ (
            err (
                errorf
                  ("failed to create rbd image: " <> e.message <> ", command output: " <> r.0)),
            w',
          )
          | none ↦ (ok (record { pool = o.pool; image = image }), w')
        ]

  -- What `RBDUtil.rbdStatus` makes of the output and the error of `rbd status`.
  unfoldable pub read_status : String → Option GoError → Bool × Option GoError
  read_status output (some e) =
      if contains output image_not_found then (true, some err_had_deleted) else (false, some e)
  read_status output none =
      if contains output image_watcher_str then (true, none) else (false, none)

  -- `RBDUtil.rbdStatus`: whether the image has a watcher, and an error.
  unfoldable pub rbd_status : String → RbdProvisionOptions → W → (Bool × Option GoError) × W
  unfolding exec_command read_status
  rbd_status image o w =
      let (r, w') = exec_command "rbd" (status_args o image) w in (read_status r.0 r.1, w')

  abbrev pub had_been_deleted : GoError → Bool
  had_been_deleted e = elim e.kind [ had_deleted ↦ true | _ ↦ false ]

  -- The end of `RBDUtil.DeleteImage`: the command `rbd rm`.
  remove_image : RbdProvisionOptions → String → Go W (Unit {0})
  unfolding exec_command
  remove_image o image w =
      let (r, w') = exec_command "rbd" (rm_args o image) w in
      elim r.1 [ none ↦ (ok tt, w') | some e ↦ (err e, w') ]

  -- `RBDUtil.DeleteImage`
  unfoldable pub delete_image : RbdProvisionOptions → String → Go W (Unit {0})
  unfolding rbd_status remove_image
  delete_image o image w =
      let (st, w') = rbd_status image o w in
      elim st.1 [
        | some e ↦ if had_been_deleted e then (ok tt, w') else (err e, w')
        | none ↦
            if st.0
            then (err (errorf ("rbd " <> image <> " is still being used")), w')
            else remove_image o image w'
      ]

  -- `RBDUtil.FetchUrl`
  unfoldable pub fetch_url : String → String → Go W String
  unfolding exec_command
  fetch_url pool attr w =
      if pool == "" || attr == ""
      then (err (errorf "pool or attr not define"), w)
      else let (r, w') = exec_command "rados" ("-p" ∷ pool ∷ "getxattr" ∷ attr ∷ "URL" ∷ []) w in
        elim r.1 [ none ↦ (ok r.0, w') | some e ↦ (err e, w') ]

  -- `RBDUtil.BlackList`
  unfoldable pub black_list : String → String → Bool → Go W (Unit {0})
  unfolding exec_command
  black_list entity_addr id add w =
      if entity_addr == "" || id == ""
      then (err (errorf "pool or attr not define"), w)
      else let op = if add then "add" else "rm" in
        let (r, w') =
          exec_command "ceph" ("--id" ∷ id ∷ "osd" ∷ "blacklist" ∷ op ∷ entity_addr ∷ []) w in
        elim r.1 [ none ↦ (ok tt, w') | some e ↦ (err e, w') ]
