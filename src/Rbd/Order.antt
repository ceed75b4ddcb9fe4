-- ===== src/Rbd/Order.antt =====
-- The order of the parameters of a storage class.
use csi_alcub.Base.{ℕ, String, ◌≡◌, ◌≢◌, refl, inl, inr, List, sym, Bool-cases, nat_eq, arith}
use csi_alcub.Base.Exec.{ok, err}
use csi_alcub.Process.{Process}
use csi_alcub.Rbd.{RbdHost}
use csi_alcub.Rbd.Options.{read_key, set_monitors, Parsing, OptionKey, unknown, set_option}

-- The place of an option among the cases of the `switch`.
abbrev pub rank : OptionKey → ℕ
rank OptionKey.monitors = 0
rank OptionKey.admin_id = 1
rank OptionKey.admin_secret_name = 2
rank OptionKey.admin_secret_namespace = 3
rank OptionKey.user_id = 4
rank OptionKey.pool = 5
rank OptionKey.data_pool = 6
rank OptionKey.user_secret_name = 7
rank OptionKey.user_secret_namespace = 8
rank OptionKey.image_format = 9
rank OptionKey.image_features = 10
rank OptionKey.fs_type = 11
rank unknown = 12

module _ (quote : String → String) where
  -- What an option becomes, where it is not refused.
  unfoldable pub after : OptionKey → String → String → Parsing → Parsing
  after key k v p = elim (set_option quote key k v p) [ ok q ↦ q | err e ↦ p ]

  set_option_swap :
      (key1 : OptionKey) (k1 v1 : String) (key2 : OptionKey) (k2 v2 : String) (p p1 p2 : Parsing)
      → rank key1 ≢ rank key2
      → set_option quote key1 k1 v1 p ≡ ok p1
      → set_option quote key2 k2 v2 p1 ≡ ok p2
      → (set_option quote key2 k2 v2 p ≡ ok (after key2 k2 v2 p))
        × (set_option quote key1 k1 v1 (after key2 k2 v2 p) ≡ ok p2)
  unfolding set_option after
  set_option_swap key1 k1 v1 key2 k2 v2 p p1 p2 apart e1 e2 = ground arith

-- The monitors put into the options.
abbrev pub with_monitors : List String → Parsing → Parsing
with_monitors ms p = record p { opts = record p.opts { monitors = ms } }

module _ {W : Type 0} (h : RbdHost W) where
  read_key_plain :
      (key : OptionKey) (k v : String) (p : Parsing) (s : Process W)
      → rank key ≢ 0
      → read_key h key k v p s ≡ (set_option h.quote key k v p, s)
  unfolding read_key
  read_key_plain key k v p s plain = ground arith

  set_monitors_any :
      (v : String) (p q p' : Parsing) (s t : Process W)
      → set_monitors h v p s ≡ (ok q, t)
      → p'.opts.monitors ≡ p.opts.monitors
      → (q ≡ with_monitors q.opts.monitors p)
        × (set_monitors h v p' s ≡ (ok (with_monitors q.opts.monitors p'), t))
  unfolding set_monitors
  set_monitors_any v p q p' s t e same = ground arith

  set_option_monitors :
      (key : OptionKey) (k v : String) (p q : Parsing) (ms : List String)
      → rank key ≢ 0
      → set_option h.quote key k v p ≡ ok q
      → (q.opts.monitors ≡ p.opts.monitors)
        × (set_option h.quote key k v (with_monitors ms p) ≡ ok (with_monitors ms q))
  unfolding set_option
  set_option_monitors key k v p q ms plain e = ground arith

  read_key_monitors :
      (key : OptionKey) (k v : String) (p : Parsing) (s : Process W)
      → rank key ≡ 0
      → read_key h key k v p s ≡ set_monitors h v p s
  unfolding read_key
  read_key_monitors key k v p s e = ground arith

  -- Two rounds of the loop, at different options, in the other order.
  pub record Swaps (key1 : OptionKey) (k1 v1 : String) (key2 : OptionKey) (k2 v2 : String)
      (p : Parsing) (s : Process W) (q : Parsing) (t : Process W) : Type 0 where
    pub between : Parsing
    pub state : Process W
    pub second_first : read_key h key2 k2 v2 p s ≡ (ok between, state)
    pub first_second : read_key h key1 k1 v1 between state ≡ (ok q, t)

  module _ (key1 : OptionKey) (k1 v1 : String) (key2 : OptionKey) (k2 v2 : String)
      (p p1 p2 : Parsing) (s s1 s2 : Process W) (e1 : read_key h key1 k1 v1 p s ≡ (ok p1, s1))
      (e2 : read_key h key2 k2 v2 p1 s1 ≡ (ok p2, s2)) where
    swap_plain :
        rank key1 ≢ rank key2
        → rank key1 ≢ 0
        → rank key2 ≢ 0
        → Swaps key1 k1 v1 key2 k2 v2 p s p2 s2
    swap_plain apart plain1 plain2 =
        let r1 = read_key_plain key1 k1 v1 p s plain1 in
        let r2 = read_key_plain key2 k2 v2 p1 s1 plain2 in
        let (second, first) =
          set_option_swap h.quote key1 k1 v1 key2 k2 v2 p p1 p2 apart (ground arith)
            (ground arith) in
        let q = after h.quote key2 k2 v2 p in
        record {
          between = q;
          state = s;
          second_first = ground (arith, second, read_key_plain key2 k2 v2 p s plain2);
          first_second = ground (arith, first, r1, r2, read_key_plain key1 k1 v1 q s plain1);
        }

    swap_monitors_first : rank key1 ≡ 0 → rank key2 ≢ 0 → Swaps key1 k1 v1 key2 k2 v2 p s p2 s2
    swap_monitors_first first plain2 =
        let r1 = read_key_monitors key1 k1 v1 p s first in
        let r2 = read_key_plain key2 k2 v2 p1 s1 plain2 in
        let q = with_monitors p.opts.monitors p2 in
        let set1 : set_monitors h v1 p s ≡ (ok p1, s1) = ground arith in
        let set2 : set_option h.quote key2 k2 v2 p1 ≡ ok p2 = ground arith in
        let (same, back) = set_option_monitors key2 k2 v2 p1 p2 p.opts.monitors plain2 set2 in
        let (put, again) = set_monitors_any v1 p p1 q s s1 set1 refl in
        record {
          between = q;
          state = s;
          second_first = ground (arith, back, put, read_key_plain key2 k2 v2 p s plain2);
          first_second = ground (arith, again, same, read_key_monitors key1 k1 v1 q s first);
        }

    swap_monitors_second : rank key1 ≢ 0 → rank key2 ≡ 0 → Swaps key1 k1 v1 key2 k2 v2 p s p2 s2
    swap_monitors_second plain1 second =
        let r1 = read_key_plain key1 k1 v1 p s plain1 in
        let r2 = read_key_monitors key2 k2 v2 p1 s1 second in
        let set1 : set_option h.quote key1 k1 v1 p ≡ ok p1 = ground arith in
        let set2 : set_monitors h v2 p1 s1 ≡ (ok p2, s2) = ground arith in
        let ms = p2.opts.monitors in
        let q = with_monitors ms p in
        let (same, forth) = set_option_monitors key1 k1 v1 p p1 ms plain1 set1 in
        let (put, again) = set_monitors_any v2 p1 p2 p s1 s2 set2 (sym same) in
        record {
          between = q;
          state = s2;
          second_first = ground (arith, again, read_key_monitors key2 k2 v2 p s second);
          first_second = ground (arith, forth, put, read_key_plain key1 k1 v1 q s2 plain1);
        }

    pub read_key_swap : rank key1 ≢ rank key2 → Swaps key1 k1 v1 key2 k2 v2 p s p2 s2
    read_key_swap apart = elim (Bool-cases (nat_eq (rank key1) 0)) [
      | inl first ↦ swap_monitors_first (ground arith) (ground arith)
      | inr plain1 ↦ elim (Bool-cases (nat_eq (rank key2) 0)) [
        | inl second ↦ swap_monitors_second (ground arith) (ground arith)
        | inr plain2 ↦ swap_plain apart (ground arith) (ground arith)
      ]
    ]
