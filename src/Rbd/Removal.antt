-- ===== src/Rbd/Removal.antt =====
-- When an image is created and when it is removed.
use csi_alcub.Base.{
  ℕ, String, true, false, ◌≡◌, ◌≢◌, ◌⊎◌, inl, inr, none, arith, Bool-cases, Option-cases,
}
use csi_alcub.Base.Text.{contains, decimal}
use csi_alcub.Base.Int.{ℤ, pos, leb_ℤ, ◌≤ℤ◌}
use csi_alcub.Base.Exec.{ok}
use csi_alcub.Rbd.{Ran, RbdHost, RbdProvisionOptions, Volume, image_watcher_str, image_not_found}
use csi_alcub.Rbd.Util.{create_args, status_args, rm_args, mib, create_image, delete_image}

-- The run ended in time and without an error.
abbrev pub Succeeded : Ran → Type 0
Succeeded ran = (ran.deadline_exceeded ≡ false) × (ran.failed ≡ none)

module _ {W : Type 0} (h : RbdHost W) (u : ℕ) (o : RbdProvisionOptions) (image : String)
    (w : W) where
  abbrev pub status_run : Ran × W
  status_run = h.run u "rbd" (status_args o image) w

  -- The run of `rbd rm`, after that of `rbd status`.
  abbrev pub rm_run : Ran × W
  rm_run = h.run u "rbd" (rm_args o image) status_run.1

  -- `rbd rm` is run only on an image that is idle: `rbd status` has succeeded just before and its
  -- output names no watcher. In every other case `rbd status` is the only command that is run, and
  -- the result is a success only if that command has failed and says that there is no such image.
  pub delete_image_safe :
      (Succeeded status_run.0
        × (contains status_run.0.output image_watcher_str ≡ false)
        × ((delete_image h u o image w).1 ≡ rm_run.1)
        × ((delete_image h u o image w).0 ≡ ok tt → Succeeded rm_run.0))
      ⊎ (((delete_image h u o image w).1 ≡ status_run.1)
          × ((delete_image h u o image w).0 ≡ ok tt
              → (¬ Succeeded status_run.0) × (contains status_run.0.output image_not_found ≡ true)))
  unfolding delete_image
  delete_image_safe = elim (Bool-cases status_run.0.deadline_exceeded) [
    | inl late ↦ inr (ground arith, ground arith)
    | inr timely ↦ elim (Option-cases status_run.0.failed) [
      | inr (e, bad) ↦ inr (ground arith, ground arith)
      | inl good ↦ elim (Bool-cases (contains status_run.0.output image_watcher_str)) [
        | inl watched ↦ inr (ground arith, ground arith)
        | inr idle ↦ inl ((timely, good), idle, ground arith, ground arith)
      ]
    ]
  ]

module _ {W : Type 0} (h : RbdHost W) (u : ℕ) (o : RbdProvisionOptions) (image : String) (size : ℤ)
    (w : W) where
  -- The size in MiB that is asked for.
  abbrev pub megabytes : ℤ
  megabytes = h.round_up_size size mib

  abbrev pub create_run : Ran × W
  create_run = h.run u "rbd" (create_args o image (decimal megabytes)) w

  -- `CreateImage` runs `rbd create`, with the size in MiB, exactly if that size is at least 1, and
  -- otherwise fails and runs nothing. It succeeds only if the command does, with the pool of the
  -- options and the name that was asked for.
  pub create_image_safe :
      ((pos 1 ≤ℤ megabytes)
        × ((create_image h u o image size w).1 ≡ create_run.1)
        × ((v : Volume)
            → (create_image h u o image size w).0 ≡ ok v
            → Succeeded create_run.0 × (v ≡ record { pool = o.pool; image = image })))
      ⊎ ((megabytes ≤ℤ pos 0)
          × ((create_image h u o image size w).1 ≡ w)
          × ((v : Volume) → (create_image h u o image size w).0 ≢ ok v))
  unfolding create_image
  create_image_safe = elim (Bool-cases (leb_ℤ megabytes (pos 0))) [
    | inl small ↦ inr (ground arith, ground arith, λ v. ground arith)
    | inr fits ↦ elim (Bool-cases create_run.0.deadline_exceeded) [
      | inl late ↦ inl (ground arith, ground arith, λ v. ground arith)
      | inr timely ↦ elim (Option-cases create_run.0.failed) [
        | inl good ↦ inl (ground arith, ground arith, λ v. ground arith)
        | inr (e, bad) ↦ inl (ground arith, ground arith, λ v. ground arith)
      ]
    ]
  ]
