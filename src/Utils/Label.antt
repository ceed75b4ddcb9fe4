-- ===== src/Utils/Label.antt =====
-- `splitLabel` of cmd/commands/config.go, read backwards.
use csi_alcub.Base.{String, ◌<>◌, ◌≡◌, sym, none, some, List, [], ◌∷◌, arith}
use csi_alcub.Base.Dict.{Dict}
use csi_alcub.Base.Text.{split, join}
use csi_alcub.Base.Text.Split.{join-split}
use csi_alcub.Utils.{split_label}

label_pieces :
    (s : String) (ss : List String) (m : Dict String)
    → (elim ss [ k ∷ v ∷ [] ↦ some ((k, v) ∷ []) | _ ↦ none ]) ≡ some m
    → join ss "=" ≡ s
    → (k : String) × (v : String) × (m ≡ (k, v) ∷ []) × (s ≡ k <> ("=" <> v))
label_pieces s [] m e whole = absurd (ground arith)
label_pieces s (k ∷ []) m e whole = absurd (ground arith)
label_pieces s (k ∷ v ∷ []) m e whole = (k, v, ground arith, sym whole)
label_pieces s (k ∷ v ∷ x ∷ rest) m e whole = absurd (ground arith)

pub split_label_ok :
    (s : String) (m : Dict String)
    → split_label s ≡ some m
    → (k : String) × (v : String) × (m ≡ (k, v) ∷ []) × (s ≡ k <> ("=" <> v))
unfolding split_label
split_label_ok s m e = label_pieces s (split s b'=') m e (join-split "=" s)
