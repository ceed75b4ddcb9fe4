-- ===== src/Registry/Frame.antt =====
-- The handlers of the controller touch no resource but through the client of the API server.
use csi_alcub.Base.{ℕ, String, Option, List, ◌≡◌, ◌∙◌, arith, inl, inr}
use csi_alcub.Base.Int.{ℤ}
use csi_alcub.Base.Text.{decimal}
use csi_alcub.Base.Exec.{Go, ◌>>=◌, Result-cases}
use csi_alcub.Process.{Process, on_world}
use csi_alcub.Api.{CsiAlcub}
use csi_alcub.Rbd.{RbdProvisionOptions}
use csi_alcub.Rbd.Util
use csi_alcub.Rbd.Image
use csi_alcub.Rbd.Quiet.{IsQuiet, parse_parameters_keeps}
use csi_alcub.Rbd.Options.{parse_parameters}
use csi_alcub.Cluster.{labled_nodes}
use csi_alcub.Control.{Controller}
use csi_alcub.Registry.{IsApart}

module _ {W : Type 0} (c : Controller W) (stored : W → String → Option CsiAlcub)
    (apart : IsApart c stored) (n : String) where
  class-IsQuiet : IsQuiet c.rbd_host (λ w. stored w n)
  class-IsQuiet = record {
    class_keeps = λ name w. apart.class_keeps name w n;
    secret_keeps = λ space name w. apart.secret_keeps space name w n;
    dns_keeps = λ w. apart.dns_keeps w n;
    host_keeps = λ host dns w. apart.host_keeps host dns w n;
  }

  exec_command_keeps :
      (u : ℕ) (command : String) (args : List String) (w : W)
      → stored (Util.exec_command c.rbd_host u command args w).1 n ≡ stored w n
  unfolding Util.exec_command
  exec_command_keeps u command args w = apart.run_keeps u command args w n

  rbd_create_keeps :
      (u : ℕ) (o : RbdProvisionOptions) (image : String) (size : ℤ) (w : W)
      → stored (Util.create_image c.rbd_host u o image size w).1 n ≡ stored w n
  unfolding Util.create_image
  rbd_create_keeps u o image size w = ground (
    arith,
    exec_command_keeps u "rbd"
        (Util.create_args o image (decimal (c.rbd_host.round_up_size size Util.mib))) w,
  )

  rbd_delete_keeps :
      (u : ℕ) (o : RbdProvisionOptions) (image : String) (w : W)
      → stored (Util.delete_image c.rbd_host u o image w).1 n ≡ stored w n
  unfolding Util.delete_image Util.rbd_status
  rbd_delete_keeps u o image w =
      let t = (Util.exec_command c.rbd_host u "rbd" (Util.status_args o image) w).1 in
      ground (
        arith,
        exec_command_keeps u "rbd" (Util.status_args o image) w,
        exec_command_keeps u "rbd" (Util.rm_args o image) t,
      )

  -- What both operations on images do: they read the storage class, parse it, and run commands.
  with_options_keeps :
      {A : Type 0} (class : String) (f : RbdProvisionOptions → Go W A)
      → ((o : RbdProvisionOptions) (w : W) → stored (f o w).1 n ≡ stored w n)
      → (s : Process W)
      → stored
          ((on_world (c.rbd_host.storage_class class) >>= λ ps.
              parse_parameters c.rbd_host c.rbd ps >>= λ o. on_world (f o))
            s).1.world
          n
        ≡ stored s.world n
  with_options_keeps class f keeps s =
      let t = (on_world (c.rbd_host.storage_class class) s).1 in
      elim (Result-cases (c.rbd_host.storage_class class s.world).0) [
        | inr (e, bad) ↦ ground (arith, apart.class_keeps class s.world n)
        | inl (ps, good) ↦
            let r = (parse_parameters c.rbd_host c.rbd ps t).1 in
            let same : stored r.world n ≡ stored s.world n =
              parse_parameters_keeps c.rbd_host (λ w. stored w n) class-IsQuiet c.rbd ps t
              ∙ apart.class_keeps class s.world n in
            elim (Result-cases (parse_parameters c.rbd_host c.rbd ps t).0) [
              | inr (e, bad) ↦ ground (arith, same)
              | inl (o, parsed) ↦ ground (arith, same, keeps o r.world)
            ]
      ]

  pub create_image_keeps :
      (class image : String) (size : ℤ) (s : Process W)
      → stored (Image.create_image c.rbd_host c.rbd class image size s).1.world n ≡ stored s.world n
  unfolding Image.create_image
  create_image_keeps class image size s =
      with_options_keeps class (λ o. Util.create_image c.rbd_host c.rbd.rbdutil o image size)
        (λ o. rbd_create_keeps c.rbd.rbdutil o image size) s

  pub delete_image_keeps :
      (class image : String) (s : Process W)
      → stored (Image.delete_image c.rbd_host c.rbd class image s).1.world n ≡ stored s.world n
  unfolding Image.delete_image
  delete_image_keeps class image s =
      with_options_keeps class (λ o. Util.delete_image c.rbd_host c.rbd.rbdutil o image)
        (λ o. rbd_delete_keeps c.rbd.rbdutil o image) s

  pub labled_nodes_keeps : (w : W) → stored (labled_nodes c.node_client c.node w).1 n ≡ stored w n
  unfolding labled_nodes
  labled_nodes_keeps w = ground (arith, apart.list_keeps w n)
