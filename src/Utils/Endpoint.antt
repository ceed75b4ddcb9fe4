-- ===== src/Utils/Endpoint.antt =====
-- `parseEndpoint` of utils/server.go, read backwards.
use Prim.Native.Char.{Char, code}
use Prim.Native.String.append
use text.Mathlib.TextEquality.{Char-path}
use csi_alcub.Base.{
  String, ◌<>◌, ◌≡◌, refl, ◌≢◌, Bool-cases, some, Option-cases, inl, inr, arith, eq_iff, nat_eq,
}
use csi_alcub.Base.Text.{strip, cut}
use csi_alcub.Base.Exec.{ok}
use csi_alcub.Utils.{parse_endpoint}

nil_eq : (t : String) → "" <> t ≡ t
nil_eq t = append.nil t

cons_eq : (c : Char) (s t : String) → String.◌∷◌ c s <> t ≡ String.◌∷◌ c (s <> t)
cons_eq c s t = append.cons c s t

strip_ok : (s sub r : String) → strip s sub ≡ some r → s ≡ sub <> r
unfolding strip
strip_ok s String.[] r e = ground (arith, nil_eq r)
strip_ok String.[] (String.◌∷◌ d sub) r e = absurd (ground arith)
strip_ok (String.◌∷◌ c s) (String.◌∷◌ d sub) r e = elim (Bool-cases (nat_eq (code c) (code d))) [
  | inr other ↦ absurd (ground arith)
  | inl same ↦
      let one : c ≡ d = Char-path c d (ground arith) in
      let rest : s ≡ sub <> r = strip_ok s sub r (ground arith) in
      ground (arith, one, rest, cons_eq d sub r)
]

cut_ok :
    (s sep before after : String)
    → cut s sep ≡ (before, after)
    → after ≢ ""
    → s ≡ before <> (sep <> after)
unfolding cut
cut_ok String.[] sep before after e ne = absurd (ground arith)
cut_ok (String.◌∷◌ c s) sep before after e ne = elim (Option-cases (strip (String.◌∷◌ c s) sep)) [
  | inr (rest, there) ↦
      let whole : String.◌∷◌ c s ≡ sep <> rest = strip_ok (String.◌∷◌ c s) sep rest there in
      ground (arith, whole, nil_eq (sep <> after))
  | inl later ↦
      let tail : s ≡ (cut s sep).0 <> (sep <> (cut s sep).1) =
        cut_ok s sep (cut s sep).0 (cut s sep).1 refl (ground arith) in
      ground (arith, tail, cons_eq c (cut s sep).0 (sep <> after))
]

-- When `parseEndpoint` accepts an endpoint, the endpoint is the protocol, `://` and the address that
-- it returns, and the address is not empty.
pub parse_endpoint_ok :
    (ep proto addr : String)
    → parse_endpoint ep ≡ ok (proto, addr)
    → (ep ≡ proto <> ("://" <> addr)) × (addr ≢ "")
unfolding parse_endpoint
parse_endpoint_ok ep proto addr e =
    let ne : addr ≢ "" = ground (arith, eq_iff (cut ep "://").1 "") in
    let parts : cut ep "://" ≡ (proto, addr) = ground arith in
    (cut_ok ep "://" proto addr parts ne, ne)
