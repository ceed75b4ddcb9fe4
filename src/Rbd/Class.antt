-- ===== src/Rbd/Class.antt =====
-- A storage class as the Go map that it is: the entries without their order.
use csi_alcub.Base.{String, Option, none, some, ◌≡◌, ap, inl, inr, arith, ◌==◌, eq_iff, Bool-cases}
use mathlib.Core.List.{Permᴰ}
use mathlib.Core.List.Permᴰ
use mathlib.Core.HLevel.{hedberg}
use mathlib.Core.Quot
use mathlib.Core.Quot.{Quot}
use csi_alcub.Base.Dict.{Dict}
use csi_alcub.Base.Exec.{Result, ok, err, Result-cases}
use csi_alcub.Process.{Process}
use csi_alcub.Rbd.{RbdHost, Rbd, RbdProvisionOptions}
use csi_alcub.Rbd.Options.{parse_parameters}
use csi_alcub.Rbd.Shuffle.{IsOnce, parse_parameters-perm}

-- The order in which an iteration comes to the entries of a class that gives no option twice.
abbrev pub Iteration : Type 0
Iteration = (ps : Dict String) × IsOnce ps

abbrev pub SameEntries : Iteration → Iteration → Type 0
SameEntries a b = Permᴰ a.0 b.0

-- The class itself.
abbrev pub Class : Type 0
Class = Quot SameEntries

-- The class over which an iteration goes.
abbrev pub class_of : Iteration → Class
class_of a = Quot.mk a

-- The options that are read, if they are.
abbrev pub options_read : {E A : Type 0} → Result E A → Option A
options_read (ok a) = some a
options_read (err e) = none

String-IsSet : IsSet String
String-IsSet = hedberg (λ x y. elim (Bool-cases (x == y)) [
  | inl e ↦ yes (ground (arith, eq_iff x y))
  | inr e ↦ no (λ q. ground (arith, eq_iff x y))
])

Option-IsSet : IsSet (Option RbdProvisionOptions)
Option-IsSet = hlevel (String-IsSet)

module _ {W : Type 0} (h : RbdHost W) (r : Rbd) (s : Process W) where
  options_read-perm :
      (a b : Iteration)
      → SameEntries a b
      → options_read (parse_parameters h r a.0 s).0 ≡ options_read (parse_parameters h r b.0 s).0
  options_read-perm a b p =
      let t = (parse_parameters h r a.0 s).1 in
      let u = (parse_parameters h r b.0 s).1 in
      elim (Result-cases (parse_parameters h r a.0 s).0) [
        | inl (o, good) ↦ ground (arith, parse_parameters-perm h r a.0 b.0 s t o p a.1)
        | inr (e, bad) ↦ elim (Result-cases (parse_parameters h r b.0 s).0) [
          | inr (e', bad') ↦ ground arith
          | inl (o, good) ↦
              ground (arith, parse_parameters-perm h r b.0 a.0 s u o (Permᴰ.symm p) b.1)
        ]
      ]

  -- The options of a class.
  class_options : Class → Option RbdProvisionOptions
  class_options =
      Quot.lift Option-IsSet (λ a. options_read (parse_parameters h r a.0 s).0) options_read-perm

  -- Whether a storage class is accepted, and with which options, is a matter of the class as a Go
  -- map: `parseParameters` reads the same options, or fails both times, in any two iterations over
  -- one class, if the class gives no option twice.
  pub parse_parameters-Class :
      (a b : Iteration)
      → class_of a ≡ class_of b
      → options_read (parse_parameters h r a.0 s).0 ≡ options_read (parse_parameters h r b.0 s).0
  unfolding class_options
  parse_parameters-Class a b e = ap class_options e
