-- ===== src/Utils/Buffers.antt =====
-- utils/buf.go: the pool of buffers. A buffer is the text in it, and `sync.Pool` is a parameter: what
-- `Get` takes, with whatever text is left in it, and what `Put` makes of the pool.
use Prim.Native.String.append
use text.Mathlib.TextLemmas.{append-nil, append_assoc}
use csi_alcub.Base.{String, ◌<>◌, ◌≡◌, refl, sym, List, [], ◌∷◌, arith}
use csi_alcub.Utils.{combine}

-- `sync.Pool` with items of the pool's type.
pub record SyncPool (P : Type 0) : Type 0 where
  pub get : P → String × P
  pub put : String → P → P

-- The loop of `Combine`: `WriteString` appends.
unfoldable pub write_strings : List String → String → String
write_strings [] buf = buf
write_strings (v ∷ strs) buf = write_strings strs (buf <> v)

module _ {P : Type 0} (pool : SyncPool P) where
  -- `GetBuf`
  unfoldable pub get_buf : P → String × P
  get_buf p = let (buf, q) = pool.get p in ("", q)

  -- `PutBuf`
  unfoldable pub put_buf : String → P → P
  put_buf b p = pool.put b p

  -- `Combine` over the pool; the result is a copy of the buffer.
  unfoldable pub combine_in : List String → P → String × P
  unfolding get_buf put_buf write_strings
  combine_in [] p = ("", p)
  combine_in (s ∷ strs) p =
      let (buf, q) = get_buf p in let done = write_strings (s ∷ strs) buf in (done, put_buf done q)

  write_strings_lem :
      (strs : List String) (buf : String) → write_strings strs buf ≡ buf <> combine strs
  unfolding write_strings combine
  write_strings_lem [] buf = sym (append-nil buf)
  write_strings_lem (v ∷ strs) buf =
      ground (arith, write_strings_lem strs (buf <> v), append_assoc buf v (combine strs))

  -- `Combine` gives the texts one after the other, whatever the pool holds and whatever an earlier
  -- user has left in the buffer.
  pub combine_in_lem : (strs : List String) (p : P) → (combine_in strs p).0 ≡ combine strs
  unfolding combine_in combine
  combine_in_lem [] p = refl
  combine_in_lem (s ∷ strs) p =
      ground (arith, write_strings_lem (s ∷ strs) "", append.nil (combine (s ∷ strs)))
