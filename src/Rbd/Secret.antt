-- ===== src/Rbd/Secret.antt =====
-- Which entry of a secret `parsePVSecret` takes.
use csi_alcub.Base.{String, ◌≡◌, refl, none, some, [], ◌∷◌, arith}
use csi_alcub.Base.Dict.{Dict, lookup}
use csi_alcub.Rbd.{secret_key_name}
use csi_alcub.Rbd.Options.{pick_secret}

-- The value of the last entry, or `d`.
abbrev pub last_value : Dict String → String → String
last_value [] d = d
last_value ((k, v) ∷ entries) d = last_value entries v

-- `parsePVSecret` takes the entry named `key` wherever it comes in the iteration, and the last
-- entry if none has that name (the empty text if there is no entry).
pub pick_secret_lem :
    (entries : Dict String) (d : String)
    → pick_secret entries d
      ≡ elim (lookup secret_key_name entries) [ some v ↦ v | none ↦ last_value entries d ]
unfolding pick_secret lookup
pick_secret_lem [] d = refl
pick_secret_lem ((k, v) ∷ entries) d = ground (arith, pick_secret_lem entries v)
