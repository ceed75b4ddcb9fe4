-- ===== src/Rbd/Valid.antt =====
-- What the options that `parseParameters` accepts satisfy.
use csi_alcub.Base.{
  String, true, ◌≡◌, ◌≢◌, ◌⊎◌, inl, inr, List, [], ◌∷◌, ◌++◌, arith, eq_iff, All, Bool-cases,
}
use csi_alcub.Base.Dict.{Dict}
use csi_alcub.Base.Text.{split, to_lower}
use csi_alcub.Base.Exec.{ok, Result-cases}
use csi_alcub.Process.{Process}
use csi_alcub.Rbd.{RbdHost, RbdProvisionOptions, Rbd, supported_features}
use csi_alcub.Rbd.Options.{
  Parsing, start_parsing, OptionKey, unknown, option_key, is_supported, read_features, set_option,
  set_monitors, read_key, read_parameter, read_parameters, finish_options, parse_parameters,
}

abbrev pub IsLayering : String → Type 0
IsLayering f = f ≡ "layering"

-- What holds of the options all through the loop.
pub record IsSane (o : RbdProvisionOptions) : Type 0 where
  pub has_admin : o.admin_id ≢ ""
  pub has_pool : o.pool ≢ ""
  pub has_format : (o.image_format ≡ "1") ⊎ (o.image_format ≡ "2")
  pub has_features : All IsLayering o.image_features

All-snoc :
    (f : String) (xs : List String)
    → All IsLayering xs
    → IsLayering f
    → All IsLayering (xs ++ (f ∷ []))
All-snoc f [] h e = (e, tt)
All-snoc f (x ∷ xs) h e = (h.0, All-snoc f xs h.1 e)

is_supported-IsLayering : (f : String) → is_supported supported_features f ≡ true → IsLayering f
unfolding is_supported
is_supported-IsLayering f e = ground (arith, eq_iff "layering" f)

module _ (quote : String → String) where
  read_features-IsLayering :
      (arr done : List String) (fs : List String)
      → All IsLayering done
      → read_features quote arr done ≡ ok fs
      → All IsLayering fs
  unfolding read_features
  read_features-IsLayering [] done fs h e = ground arith
  read_features-IsLayering (f ∷ arr) done fs h e =
      elim (Bool-cases (is_supported supported_features f)) [
        | inr bad ↦ absurd (ground arith)
        | inl good ↦
            read_features-IsLayering arr (done ++ (f ∷ [])) fs
              (All-snoc f done h (is_supported-IsLayering f good)) (ground arith)
      ]

  set_option-IsSane :
      (key : OptionKey) (k v : String) (p q : Parsing)
      → IsSane p.opts
      → set_option quote key k v p ≡ ok q
      → IsSane q.opts
  unfolding set_option
  set_option-IsSane OptionKey.image_features k v p q h e =
      elim (Result-cases (read_features quote (split v b',') p.opts.image_features)) [
        | inr (x, bad) ↦ absurd (ground arith)
        | inl (fs, good) ↦ ground (
          arith,
          read_features-IsLayering (split v b',') p.opts.image_features fs h.has_features good,
        )
      ]
  set_option-IsSane _ k v p q h e = ground (arith, eq_iff v "", eq_iff v "1", eq_iff v "2")

module _ {W : Type 0} (h : RbdHost W) where
  set_monitors-IsSane :
      (v : String) (p q : Parsing) (s : Process W)
      → IsSane p.opts
      → (set_monitors h v p s).0 ≡ ok q
      → IsSane q.opts
  unfolding set_monitors
  set_monitors-IsSane v p q s i e = ground arith

  read_key-IsSane :
      (key : OptionKey) (k v : String) (p q : Parsing) (s : Process W)
      → IsSane p.opts
      → (read_key h key k v p s).0 ≡ ok q
      → IsSane q.opts
  unfolding read_key
  read_key-IsSane OptionKey.monitors k v p q s i e = set_monitors-IsSane v p q s i e
  read_key-IsSane key k v p q s i e = set_option-IsSane h.quote key k v p q i e

  read_parameters-IsSane :
      (parameters : Dict String) (p q : Parsing) (s : Process W)
      → IsSane p.opts
      → (read_parameters h parameters p s).0 ≡ ok q
      → IsSane q.opts
  unfolding read_parameters
  read_parameters-IsSane [] p q s i e = ground arith
  read_parameters-IsSane ((k, v) ∷ parameters) p q s i e =
      elim (Result-cases (read_parameter h k v p s).0) [
        | inr (x, bad) ↦ absurd (ground arith)
        | inl (p', good) ↦
            read_parameters-IsSane parameters p' q (read_parameter h k v p s).1
              (read_key-IsSane (option_key (to_lower k)) k v p p' s i
                (unfold read_parameter in good))
              (ground arith)
      ]

  start-IsSane : IsSane start_parsing.opts
  start-IsSane = ground (arith, eq_iff "admin" "", eq_iff "rbd" "")

  -- The options that `parseParameters` returns are sane, whatever the parameters and in whatever
  -- order they are visited: the admin's id, the user's id and the pool are not empty, the image
  -- format is 1 or 2, and every image feature is `layering`.
  pub parse_parameters-IsSane :
      (r : Rbd) (parameters : Dict String) (s : Process W) (o : RbdProvisionOptions)
      → (parse_parameters h r parameters s).0 ≡ ok o
      → IsSane o × (o.user_id ≢ "")
  unfolding parse_parameters finish_options
  parse_parameters-IsSane r parameters s o e =
      elim (Result-cases (read_parameters h parameters start_parsing s).0) [
        | inr (x, bad) ↦ absurd (ground arith)
        | inl (p, good) ↦ ground (
          arith,
          read_parameters-IsSane parameters start_parsing p s start-IsSane good,
          eq_iff p.opts.user_id "",
        )
      ]

  -- Some parameter has a name that no case of the `switch` takes.
  abbrev pub HasUnknown : Dict String → Type 0
  HasUnknown [] = ⊥
  HasUnknown ((k, v) ∷ parameters) = (option_key (to_lower k) ≡ unknown) ⊎ HasUnknown parameters

  read_parameter_unknown :
      (k v : String) (p q : Parsing) (s : Process W)
      → option_key (to_lower k) ≡ unknown
      → (read_parameter h k v p s).0 ≢ ok q
  unfolding read_parameter read_key
  read_parameter_unknown k v p q s u = rw u (ground arith)

  read_parameters_unknown :
      (parameters : Dict String) (p q : Parsing) (s : Process W)
      → HasUnknown parameters
      → (read_parameters h parameters p s).0 ≢ ok q
  unfolding read_parameters
  read_parameters_unknown [] p q s u e = u
  read_parameters_unknown ((k, v) ∷ parameters) p q s u e =
      elim (Result-cases (read_parameter h k v p s).0) [
        | inr (x, bad) ↦ absurd (ground arith)
        | inl (p', good) ↦ elim u [
          | inl here ↦ read_parameter_unknown k v p p' s here good
          | inr later ↦
              read_parameters_unknown parameters p' q (read_parameter h k v p s).1 later
                (ground arith)
        ]
      ]

  -- A storage class with a parameter of an unknown name is never accepted, wherever that parameter
  -- comes in the iteration.
  pub parse_parameters_unknown :
      (r : Rbd) (parameters : Dict String) (s : Process W) (o : RbdProvisionOptions)
      → HasUnknown parameters
      → (parse_parameters h r parameters s).0 ≢ ok o
  unfolding parse_parameters
  parse_parameters_unknown r parameters s o u e =
      elim (Result-cases (read_parameters h parameters start_parsing s).0) [
        | inr (x, bad) ↦ absurd (ground arith)
        | inl (p, good) ↦ read_parameters_unknown parameters start_parsing p s u good
      ]
