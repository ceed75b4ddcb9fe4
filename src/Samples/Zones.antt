-- ===== src/Samples/Zones.antt =====
-- Tests of the notification of the storage servers of a node's zones.
use csi_alcub.Base.{false, true, [], ◌∷◌, ◌≡◌, refl, ◌⊎◌}
use csi_alcub.Base.Text.{contains}
use csi_alcub.Base.Exec.{GoError, errorf, ok, err}
use csi_alcub.Process.{Nodeinfo}
use csi_alcub.Base.{if◌then◌else◌, ◌==◌}
use csi_alcub.Control.{Controller}
use csi_alcub.Control.Notify.{notidy_alcub}
use csi_alcub.Control.Failover.{Fails, FirstWorks, named, notidy_alcub-FirstWorks}
use csi_alcub.Samples.{World, address, alcuber, controller, empty}

-- The servers, of which the first does not answer.
abbrev one_down : Controller World
one_down = record controller {
  store = record alcuber {
    fail_node = λ conf node s.
        (if s.alcub_dyn_conf.alucb_url == "http://a" then err (errorf "no route") else ok tt, s);
  };
}

abbrev zones : Nodeinfo
zones = record { store_ip = address; zones = "http://a" ∷ "" ∷ "http://b" ∷ "http://c" ∷ [] }

notidy_alcub-FirstWorks_example :
    let (r, t) = notidy_alcub one_down "worker" zones true empty in
    ((r ≡ ok tt)
      × FirstWorks one_down "worker" true zones.zones (named one_down "worker" true empty) t)
    ⊎ (((e : GoError) × (r ≡ err e))
        × Fails one_down "worker" true zones.zones (named one_down "worker" true empty) t)
notidy_alcub-FirstWorks_example = notidy_alcub-FirstWorks one_down "worker" true zones empty

second_works : notidy_alcub one_down "worker" zones true empty ≡ (
  ok tt,
  record empty { alcub_dyn_conf = record { alucb_url = "http://b"; nodename = "worker" } },
)
unfolding notidy_alcub csi_alcub.Control.Notify.action
second_works = refl

foreign : contains "http://a" "worker" ≡ false
unfolding contains
foreign = refl
