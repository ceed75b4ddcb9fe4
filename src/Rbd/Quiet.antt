-- ===== src/Rbd/Quiet.antt =====
-- What reading a storage class leaves alone: `parseParameters` changes nothing in the world outside
-- that its own calls do not change.
use csi_alcub.Base.{String, List, [], ◌∷◌, ◌++◌, ◌≡◌, refl, ◌∙◌, arith, inl, inr}
use csi_alcub.Base.Dict.{Dict}
use csi_alcub.Base.Text.{split, to_lower}
use csi_alcub.Base.Exec.{Result-cases}
use csi_alcub.Process.{Process}
use csi_alcub.Rbd.{RbdHost, Rbd}
use csi_alcub.Rbd.Options.{
  OptionKey, option_key, Parsing, resolve_monitor, resolve_monitors, find_dns, set_monitors,
  read_key, read_parameter, read_parameters, parse_pv_secret, finish_options, parse_parameters,
  start_parsing,
}

-- The calls that only read keep what `view` shows of the world.
pub record IsQuiet {W V : Type 0} (h : RbdHost W) (view : W → V) : Type 0 where
  pub class_keeps : (name : String) (w : W) → view (h.storage_class name w).1 ≡ view w
  pub secret_keeps : (space name : String) (w : W) → view (h.secret space name w).1 ≡ view w
  pub dns_keeps : (w : W) → view (h.find_dns_ip w).1 ≡ view w
  pub host_keeps : (host dns : String) (w : W) → view (h.lookup_host host dns w).1 ≡ view w

module _ {W V : Type 0} (h : RbdHost W) (view : W → V) (quiet : IsQuiet h view) where
  resolve_monitor_keeps : (dnsip m : String) (w : W) → view (resolve_monitor h dnsip m w).1 ≡ view w
  unfolding resolve_monitor
  resolve_monitor_keeps dnsip m w = ground (arith, quiet.host_keeps (h.split_host_port m).0 dnsip w)

  resolve_monitors_keeps :
      (dnsip : String) (ms done : List String) (w : W)
      → view (resolve_monitors h dnsip ms done w).1 ≡ view w
  unfolding resolve_monitors
  resolve_monitors_keeps dnsip [] done w = refl
  resolve_monitors_keeps dnsip (m ∷ ms) done w =
      let (found, w') = resolve_monitor h dnsip m w in
      resolve_monitors_keeps dnsip ms (done ++ found) w' ∙ resolve_monitor_keeps dnsip m w

  find_dns_keeps : (s : Process W) → view (find_dns h s).1.world ≡ view s.world
  unfolding find_dns
  find_dns_keeps s = ground (arith, quiet.dns_keeps s.world)

  read_key_keeps :
      (key : OptionKey) (k v : String) (p : Parsing) (s : Process W)
      → view (read_key h key k v p s).1.world ≡ view s.world
  unfolding read_key set_monitors
  read_key_keeps OptionKey.monitors k v p s =
      let t : Process W = (find_dns h s).1 in
      ground (
        arith,
        find_dns_keeps s,
        resolve_monitors_keeps t.dnsip (split v b',') p.opts.monitors t.world,
      )
  read_key_keeps _ k v p s = refl

  read_parameters_keeps :
      (parameters : Dict String) (p : Parsing) (s : Process W)
      → view (read_parameters h parameters p s).1.world ≡ view s.world
  unfolding read_parameters read_parameter
  read_parameters_keeps [] p s = refl
  read_parameters_keeps ((k, v) ∷ parameters) p s =
      let t : Process W = (read_parameter h k v p s).1 in
      elim (Result-cases (read_parameter h k v p s).0) [
        | inr (e, bad) ↦ ground (arith, read_key_keeps (option_key (to_lower k)) k v p s)
        | inl (q, good) ↦ ground (
          arith,
          read_key_keeps (option_key (to_lower k)) k v p s,
          read_parameters_keeps parameters q t,
        )
      ]

  pub parse_parameters_keeps :
      (r : Rbd) (parameters : Dict String) (s : Process W)
      → view (parse_parameters h r parameters s).1.world ≡ view s.world
  unfolding parse_parameters finish_options parse_pv_secret
  parse_parameters_keeps r parameters s =
      let t : Process W = (read_parameters h parameters start_parsing s).1 in
      elim (Result-cases (read_parameters h parameters start_parsing s).0) [
        | inr (e, bad) ↦ ground (arith, read_parameters_keeps parameters start_parsing s)
        | inl (q, good) ↦ ground (
          arith,
          read_parameters_keeps parameters start_parsing s,
          quiet.secret_keeps q.admin_secret_namespace q.admin_secret_name t.world,
        )
      ]
