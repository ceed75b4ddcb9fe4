-- ===== src/Base/Text/Split.antt =====
-- What `split` takes apart, `join` puts together again.
use Prim.Native.Nat.{ℕ}
use Prim.Native.Char.{Char, code}
use Prim.Native.String.append
use Prim.Native.String.{String, ◌++◌}
use text.Mathlib.TextEquality.{Char-path}
use mathlib.Core.Path.{◌≡◌, refl, ap, ◌∙◌}
use mathlib.Core.Logic.{inl, inr, ◌≢◌}
use mathlib.Core.List.{List, [], ◌∷◌}
use native.Mathlib.Omega.{arith}
use csi_alcub.Base.Tests.{nat_eq, Bool-cases}
use csi_alcub.Base.Text.{join, push_char, split}

-- The separator of one character, as a text.
abbrev pub one : Char → String
one c = String.◌∷◌ c ""

join-push_char :
    (d : Char) (sep : String) (pieces : List String)
    → pieces ≢ []
    → join (push_char d pieces) sep ≡ String.◌∷◌ d (join pieces sep)
join-push_char d sep [] h = absurd (h refl)
join-push_char d sep (s ∷ []) h = refl
join-push_char d sep (s ∷ t ∷ rest) h = append.cons d s (sep ++ join (t ∷ rest) sep)

join-empty :
    (c : Char) (pieces : List String)
    → pieces ≢ []
    → join ("" ∷ pieces) (one c) ≡ String.◌∷◌ c (join pieces (one c))
join-empty c [] h = absurd (h refl)
join-empty c (s ∷ rest) h =
    append.nil (one c ++ join (s ∷ rest) (one c))
    ∙ (append.cons c "" (join (s ∷ rest) (one c)) ∙ ap (String.◌∷◌ c) (append.nil _))

split_some : (s : String) (sep : ℕ) → split s sep ≢ []
unfolding split
split_some String.[] sep = ground arith
split_some (String.◌∷◌ d s) sep = ground (arith, split_some s sep)

pub join-split : (c : Char) (s : String) → join (split s (code c)) (one c) ≡ s
unfolding split
join-split c String.[] = refl
join-split c (String.◌∷◌ d s) = elim (Bool-cases (nat_eq (code d) (code c))) [
  | inl same ↦
      let e : d ≡ c = Char-path d c (ground arith) in
      ground (arith, e, join-empty c (split s (code c)) (split_some s (code c)), join-split c s)
  | inr other ↦
      ground
        (arith, join-push_char d (one c) (split s (code c)) (split_some s (code c)), join-split c s)
]
