-- ===== src/Rbd/Shuffle.antt =====
-- `parseParameters` on one map, iterated over in another order.
use mathlib.Core.List.{Permᴰ}
use csi_alcub.Base.{
  ℕ, suc, ◌≤◌, String, ◌≡◌, ◌≢◌, refl, subst, inl, inr, [], ◌∷◌, arith, nat_eq, if◌then◌else◌,
}
use csi_alcub.Base.Dict.{Dict}
use csi_alcub.Base.Text.{to_lower}
use csi_alcub.Base.Exec.{ok, Result-cases}
use csi_alcub.Process.{Process}
use csi_alcub.Rbd.{RbdHost, Rbd, RbdProvisionOptions}
use csi_alcub.Rbd.Options.{
  Parsing, start_parsing, option_key, read_key, read_parameter, read_parameters, parse_parameters,
}
use csi_alcub.Rbd.Order.{rank, read_key_swap}

-- How many entries are for the option of that rank.
unfoldable pub count_option : ℕ → Dict String → ℕ
count_option r [] = 0
count_option r ((k, v) ∷ ps) =
    let rest = count_option r ps in
    if nat_eq r (rank (option_key (to_lower k))) then suc rest else rest

-- No option is given twice, in whatever case its letters are.
abbrev pub IsOnce : Dict String → Type 0
IsOnce ps = (r : ℕ) → count_option r ps ≤ 1

count_option-perm :
    {ps qs : Dict String} → Permᴰ ps qs → (r : ℕ) → count_option r ps ≡ count_option r qs
unfolding count_option
count_option-perm Permᴰ.nil r = refl
count_option-perm (Permᴰ.cons e d) r = ground (arith, e, count_option-perm d r)
count_option-perm (Permᴰ.swap e1 e2) r = ground (arith, e1, e2)
count_option-perm (Permᴰ.trans d1 d2) r =
    ground (arith, count_option-perm d1 r, count_option-perm d2 r)

tail-IsOnce : (e : String × String) (ps : Dict String) → IsOnce (e ∷ ps) → IsOnce ps
unfolding count_option
tail-IsOnce e ps h r = ground (arith, h r)

first_apart :
    (k1 v1 k2 v2 : String) (ps : Dict String)
    → IsOnce ((k1, v1) ∷ (k2, v2) ∷ ps)
    → rank (option_key (to_lower k1)) ≢ rank (option_key (to_lower k2))
unfolding count_option
first_apart k1 v1 k2 v2 ps h = ground (arith, h (rank (option_key (to_lower k1))))

module _ {W : Type 0} (h : RbdHost W) where
  read_two :
      (a b : String × String) (ps : Dict String) (p q : Parsing) (s t : Process W)
      → IsOnce (a ∷ b ∷ ps)
      → read_parameters h (a ∷ b ∷ ps) p s ≡ (ok q, t)
      → read_parameters h (b ∷ a ∷ ps) p s ≡ (ok q, t)
  unfolding read_parameters read_parameter
  read_two (k1, v1) (k2, v2) ps p q s t once e =
      let key1 = option_key (to_lower k1) in
      let key2 = option_key (to_lower k2) in
      elim (Result-cases (read_key h key1 k1 v1 p s).0) [
        | inr (x, bad) ↦ absurd (ground arith)
        | inl (p1, good) ↦
            let s1 = (read_key h key1 k1 v1 p s).1 in
            elim (Result-cases (read_key h key2 k2 v2 p1 s1).0) [
              | inr (x, bad) ↦ absurd (ground arith)
              | inl (p2, good2) ↦
                  let s2 = (read_key h key2 k2 v2 p1 s1).1 in
                  let sw =
                    read_key_swap h key1 k1 v1 key2 k2 v2 p p1 p2 s s1 s2 (ground arith)
                      (ground arith) (first_apart k1 v1 k2 v2 ps once) in
                  ground (arith, sw.second_first, sw.first_second)
            ]
      ]

  read_parameters-perm :
      {ps qs : Dict String} (d : Permᴰ ps qs) (p q : Parsing) (s t : Process W)
      → IsOnce ps
      → read_parameters h ps p s ≡ (ok q, t)
      → read_parameters h qs p s ≡ (ok q, t)
  unfolding read_parameters
  read_parameters-perm Permᴰ.nil p q s t once e = e
  read_parameters-perm (Permᴰ.cons {a = a} {b = b} {l₁ = l1} {l₂ = l2} same d) p q s t once e =
      elim (Result-cases (read_parameter h a.0 a.1 p s).0) [
        | inr (x, bad) ↦ absurd (ground arith)
        | inl (p1, good) ↦
            let s1 = (read_parameter h a.0 a.1 p s).1 in
            let rest = read_parameters-perm d p1 q s1 t (tail-IsOnce a l1 once) (ground arith) in
            ground (arith, same, good, rest)
      ]
  read_parameters-perm (Permᴰ.swap {a = a} {b = b} {l = l} e1 e2) p q s t once e =
      let swapped = read_two a b l p q s t once e in ground (arith, e1, e2, swapped)
  read_parameters-perm (Permᴰ.trans d1 d2) p q s t once e =
      read_parameters-perm d2 p q s t (λ r. subst (λ n. n ≤ 1) (count_option-perm d1 r) (once r))
        (read_parameters-perm d1 p q s t once e)

  -- Where a storage class gives no option twice, `parseParameters` reads the same options from it, and
  -- leaves the same state, in whatever order the iteration over its map comes, if it succeeds in one
  -- of them.
  pub parse_parameters-perm :
      (r : Rbd) (ps qs : Dict String) (s t : Process W) (o : RbdProvisionOptions)
      → Permᴰ ps qs
      → IsOnce ps
      → parse_parameters h r ps s ≡ (ok o, t)
      → parse_parameters h r qs s ≡ (ok o, t)
  unfolding parse_parameters
  parse_parameters-perm r ps qs s t o d once e =
      elim (Result-cases (read_parameters h ps start_parsing s).0) [
        | inr (x, bad) ↦ absurd (ground arith)
        | inl (p, good) ↦
            let s1 = (read_parameters h ps start_parsing s).1 in
            let other = read_parameters-perm d start_parsing p s s1 once (ground arith) in
            ground (arith, other)
      ]
