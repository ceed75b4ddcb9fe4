-- ===== src/Ceph/Pools.antt =====
-- The pool of the options that `parseParameters` gives is the one that the storage class names.
use csi_alcub.Base.{String, ◌≡◌, [], ◌∷◌, arith, inl, inr}
use csi_alcub.Base.Dict.{Dict}
use csi_alcub.Base.Text.{to_lower}
use csi_alcub.Base.Exec.{ok, Result-cases}
use csi_alcub.Process.{Process}
use csi_alcub.Rbd.{RbdHost, Rbd, RbdProvisionOptions}
use csi_alcub.Rbd.Options.{
  OptionKey, option_key, Parsing, set_option, set_monitors, read_key, read_parameter,
  read_parameters, finish_options, parse_parameters, start_parsing,
}
use csi_alcub.Ceph.{class_pool}

module _ {W : Type 0} (h : RbdHost W) where
  read_key_pool :
      (key : OptionKey) (k v : String) (p q : Parsing) (s : Process W)
      → (read_key h key k v p s).0 ≡ ok q
      → q.opts.pool ≡ (elim key [ OptionKey.pool ↦ v | _ ↦ p.opts.pool ])
  unfolding read_key set_monitors set_option
  read_key_pool key k v p q s e = ground arith

  read_parameters_pool :
      (ps : Dict String) (p q : Parsing) (s : Process W)
      → (read_parameters h ps p s).0 ≡ ok q
      → q.opts.pool ≡ class_pool p.opts.pool ps
  unfolding read_parameters read_parameter class_pool
  read_parameters_pool [] p q s e = ground arith
  read_parameters_pool ((k, v) ∷ ps) p q s e =
      let key = option_key (to_lower k) in
      let t : Process W = (read_key h key k v p s).1 in
      elim (Result-cases (read_key h key k v p s).0) [
        | inr (x, bad) ↦ absurd (ground arith)
        | inl (p', good) ↦
            ground (arith, read_key_pool key k v p p' s, read_parameters_pool ps p' q t)
      ]

  pub parse_parameters_pool :
      (r : Rbd) (ps : Dict String) (s : Process W) (o : RbdProvisionOptions)
      → (parse_parameters h r ps s).0 ≡ ok o
      → o.pool ≡ class_pool "rbd" ps
  unfolding parse_parameters finish_options
  parse_parameters_pool r ps s o e = elim (Result-cases (read_parameters h ps start_parsing s).0) [
    | inr (x, bad) ↦ absurd (ground arith)
    | inl (p, good) ↦ ground (arith, read_parameters_pool ps start_parsing p s)
  ]
