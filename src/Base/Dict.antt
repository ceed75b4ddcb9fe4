-- ===== src/Base/Dict.antt =====
-- Go maps with text keys, as association lists. The order of the list is the order in which one
-- run of `range` visits the entries. Proofs elsewhere go by the laws.
use Prim.Native.String.{String}
use mathlib.Core.Path.{◌≡◌}
use mathlib.Core.Logic.{◌≢◌}
use mathlib.Core.Option.{Option, none, some}
use mathlib.Core.List.{List, [], ◌∷◌}
use native.Mathlib.Omega.{arith}
use text.Mathlib.Text.{◌==◌}
use text.Mathlib.TextEquality.{eq_iff}
use csi_alcub.Base.Tests.{if◌then◌else◌}

abbrev pub Dict : Type 0 → Type 0
Dict V = List (String × V)

module _ {V : Type 0} where
  unfoldable pub lookup : String → Dict V → Option V
  lookup key [] = none
  lookup key ((first, value) ∷ rest) =
      let later = lookup key rest in if first == key then some value else later

  -- `delete(m, key)`
  unfoldable pub erase : String → Dict V → Dict V
  erase key [] = []
  erase key ((first, value) ∷ rest) =
      let kept = erase key rest in if first == key then kept else (first, value) ∷ kept

  -- `m[key] = value`. A key is there once; where `range` meets a new one is left open by Go.
  unfoldable pub insert : String → V → Dict V → Dict V
  unfolding erase
  insert key value m = (key, value) ∷ erase key m

  -- Deleting a key deletes its entry and leaves all others.
  pub lookup-erase :
      (key other : String) (m : Dict V)
      → lookup other (erase key m) ≡ (if key == other then none else lookup other m)
  unfolding lookup erase
  lookup-erase key other [] = ground arith
  lookup-erase key other ((first, value) ∷ rest) =
      ground
        (arith, eq_iff first key, eq_iff first other, eq_iff key other, lookup-erase key other rest)

  pub lookup-insert :
      (key other : String) (value : V) (m : Dict V)
      → lookup other (insert key value m) ≡ (if key == other then some value else lookup other m)
  unfolding lookup insert
  lookup-insert key other value m = ground (arith, lookup-erase key other m)

  pub lookup-insert_self :
      (key : String) (value : V) (m : Dict V) → lookup key (insert key value m) ≡ some value
  lookup-insert_self key value m = ground (arith, eq_iff key key, lookup-insert key key value m)

  pub lookup-insert_ne :
      (key other : String) (value : V) (m : Dict V)
      → key ≢ other
      → lookup other (insert key value m) ≡ lookup other m
  lookup-insert_ne key other value m h =
      ground (arith, eq_iff key other, lookup-insert key other value m)

  pub lookup-erase_self : (key : String) (m : Dict V) → lookup key (erase key m) ≡ none
  lookup-erase_self key m = ground (arith, eq_iff key key, lookup-erase key key m)

  pub lookup-erase_ne :
      (key other : String) (m : Dict V) → key ≢ other → lookup other (erase key m) ≡ lookup other m
  lookup-erase_ne key other m h = ground (arith, eq_iff key other, lookup-erase key other m)
