-- ===== src/Rbd/Size.antt =====
-- The size that `rbd create` is given.
use csi_alcub.Base.{ℕ, ◌^◌, ◌<◌, String, ◌≡◌, inl, inr, List, [], ◌∷◌, arith, Bool-cases}
use csi_alcub.Base.Text.{decimal}
use csi_alcub.Base.Text.Decimal.{value_onto, value_onto-decimal}
use csi_alcub.Base.Int.{ℤ, pos, negsuc, pos_part, leb_ℤ, ◌≤ℤ◌}
use csi_alcub.Base.Exec.{ok}
use csi_alcub.Rbd.{RbdHost, RbdProvisionOptions, Volume}
use csi_alcub.Rbd.Util.{create_args, mib, exec_command, create_image}

size_reads_back :
    (sz : ℤ) → pos 1 ≤ℤ sz → pos_part sz < 2 ^ 63 → value_onto 0 (decimal sz) ≡ pos_part sz
size_reads_back (pos n) h below = value_onto-decimal n (omega (arith, below))
size_reads_back (negsuc n) h below = absurd (omega (arith, h))

-- The arguments behind the size.
abbrev behind_size : List String → List String
behind_size (command ∷ image ∷ option ∷ size ∷ rest) = rest
behind_size _ = []

module _ {W : Type 0} (h : RbdHost W) (u : ℕ) (o : RbdProvisionOptions) (image : String) (size : ℤ)
    (w : W) where
  -- When `CreateImage` succeeds, the command that it has run is `rbd create` of the image with a
  -- `--size` whose digits stand for the size in MiB, which is not 0, to the last digit: for every
  -- size that an int64 can hold, nothing is cut off.
  pub create_image_size :
      (v : Volume)
      → (create_image h u o image size w).0 ≡ ok v
      → pos_part (h.round_up_size size mib) < 2 ^ 63
      → (text : String) × (rest : List String) × ((create_image h u o image size w).1
          ≡ (h.run u "rbd" ("create" ∷ image ∷ "--size" ∷ text ∷ rest) w).1)
        × (value_onto 0 text ≡ pos_part (h.round_up_size size mib))
        × (pos 1 ≤ℤ h.round_up_size size mib)
  unfolding create_image exec_command create_args
  create_image_size v e below = elim (Bool-cases (leb_ℤ (h.round_up_size size mib) (pos 0))) [
    | inl small ↦ absurd (ground arith)
    | inr fits ↦
        let big : pos 1 ≤ℤ h.round_up_size size mib = ground arith in
        (
          decimal (h.round_up_size size mib),
          behind_size (create_args o image (decimal (h.round_up_size size mib))),
          ground arith,
          size_reads_back (h.round_up_size size mib) big below,
          big,
        )
  ]
