-- ===== src/Samples/Settings.antt =====
-- Tests of the labels of nodes against an API server of nodes, and of the order of the parameters.
use mathlib.Core.List.{Permᴰ}
use mathlib.Core.Quot
use csi_alcub.Base.{
  String, false, Option, none, some, List, [], ◌∷◌, ◌==◌, ◌≡◌, refl, ◌≢◌, arith, if◌then◌else◌,
}
use csi_alcub.Base.Dict.{Dict}
use csi_alcub.Base.Exec.{errorf, ok, err}
use csi_alcub.Cluster.{ClusterNode, NodeClient}
use csi_alcub.Rbd.{RbdProvisionOptions}
use csi_alcub.Rbd.Options.{parse_parameters, default_opts}
use csi_alcub.Rbd.Shuffle.{IsOnce, count_option}
use csi_alcub.Rbd.Class.{class_of, options_read, parse_parameters-Class}
use csi_alcub.Samples.{rbd_host, rbd, good_class, empty}
use csi_alcub.Samples.Resources.{managed}

abbrev NodeWorld : Type 0
NodeWorld = String → Option ClusterNode

-- The node that is kept under a name has that name.
abbrev kept : NodeWorld → String → Option ClusterNode
kept w name = elim (w name) [ some node ↦ some (record node { name = name }) | none ↦ none ]

abbrev nodes : NodeClient NodeWorld
nodes = record {
  get = λ name w. (elim (kept w name) [ some node ↦ ok node | none ↦ err (errorf "missing") ], w);
  list = λ w. (ok [], w);
  update = λ node w. (ok tt, λ m. if m == node.name then some node else w m);
  retry_on_conflict = λ call. call;
  match_taint = λ a b. a.key == b.key;
}

-- The only node.
abbrev one_node : NodeWorld
one_node name = if name == "worker" then some managed else none

-- The same class in the other order.
abbrev turned_class : Dict String
turned_class = ("adminSecretName", "ceph-admin") ∷ ("adminId", "kube") ∷ []

good_class-IsOnce : IsOnce good_class
unfolding count_option csi_alcub.Rbd.Options.option_key csi_alcub.Base.Text.to_lower
    csi_alcub.Base.Text.swap_letter
good_class-IsOnce r = ground arith

abbrev options : RbdProvisionOptions
options = record default_opts { admin_id = "kube"; user_id = "kube"; admin_secret = "secret" }

class_parses : parse_parameters rbd_host rbd good_class empty ≡ (ok options, empty)
unfolding parse_parameters csi_alcub.Rbd.Options.read_parameters
    csi_alcub.Rbd.Options.read_parameter csi_alcub.Rbd.Options.read_key
    csi_alcub.Rbd.Options.option_key csi_alcub.Base.Text.to_lower
    csi_alcub.Rbd.Options.finish_options
class_parses = refl

turned_class-IsOnce : IsOnce turned_class
unfolding count_option csi_alcub.Rbd.Options.option_key csi_alcub.Base.Text.to_lower
    csi_alcub.Base.Text.swap_letter
turned_class-IsOnce r = ground arith

one_class : class_of (good_class, good_class-IsOnce) ≡ class_of (turned_class, turned_class-IsOnce)
one_class = Quot.sound (Permᴰ.swap refl refl)

parse_parameters-Class_example :
    options_read (parse_parameters rbd_host rbd good_class empty).0
    ≡ options_read (parse_parameters rbd_host rbd turned_class empty).0
parse_parameters-Class_example =
    parse_parameters-Class rbd_host rbd empty (good_class, good_class-IsOnce)
      (turned_class, turned_class-IsOnce) one_class
