-- ===== src/Base/Exec.antt =====
-- Go code that changes a state and may return an error. What was written before an error stays
-- written, so the state comes back beside the error too.
use Prim.Native.String.{String}
use mathlib.Core.Path.{◌≡◌, refl}
use mathlib.Core.Bool.{Bool}
use mathlib.Core.Logic.{◌⊎◌, inl, inr}
use mathlib.Core.Option.{Option, none, some}
use csi_alcub.Base.Tests.{if◌then◌else◌}

-- What the program asks of an error by `apierrs.IsNotFound`, `apierrs.IsAlreadyExists`,
-- `os.IsNotExist`, by a retry loop, or by a comparison with a value that it declares.
pub data Kind : Type 0 where
  plain not_found conflict already_exists not_exist had_deleted : Kind

-- A Go `error`: its kind and what its `Error()` returns.
pub record GoError : Type 0 where
  pub kind : Kind
  pub message : String

-- `fmt.Errorf` and `errors.New`
abbrev pub errorf : String → GoError
errorf m = record { kind = plain; message = m }

pub data Result (E A : Type 0) : Type 0 where
  ok : A → Result E A
  err : E → Result E A

abbrev pub Exec : Type 0 → Type 0 → Type 0 → Type 0
Exec E S A = S → Result E A × S

-- An operation that can return an `error`.
abbrev pub Go : Type 0 → Type 0 → Type 0
Go S A = Exec GoError S A

module _ {E S A : Type 0} where
  abbrev pub pure : A → Exec E S A
  pure a s = (ok a, s)

  abbrev pub fail : E → Exec E S A
  fail e s = (err e, s)

  abbrev pub lift : Result E A → Exec E S A
  lift r s = (r, s)

  abbrev pub gets : (S → A) → Exec E S A
  gets f s = (ok (f s), s)

abbrev pub modify : {E S : Type 0} → (S → S) → Exec E S (Unit {0})
modify f s = (ok tt, f s)

infixl 5 ◌>>=◌ ◌>>◌
abbrev pub ◌>>=◌ : {E S A B : Type 0} → Exec E S A → (A → Exec E S B) → Exec E S B
◌>>=◌ m f s = let (r, s') = m s in elim r [ ok a ↦ f a s' | err e ↦ (err e, s') ]

abbrev pub ◌>>◌ : {E S A B : Type 0} → Exec E S A → Exec E S B → Exec E S B
m >> k = m >>= λ _. k

-- `if c { return e }`
abbrev pub fail_if : {E S : Type 0} → Bool → E → Exec E S (Unit {0})
fail_if c e s = (if c then err e else ok tt, s)

-- `v, err := m`, where the code goes on in both cases.
abbrev pub try : {E F S A : Type 0} → Exec E S A → Exec F S (Result E A)
try m s = let (r, s') = m s in (ok r, s')

-- `if err != nil { return f(err) }`
abbrev pub on_err : {E F A : Type 0} → (E → F) → Result E A → Result F A
on_err f (ok a) = ok a
on_err f (err e) = err (f e)

abbrev pub wrap : {E F S A : Type 0} → (E → F) → Exec E S A → Exec F S A
wrap f m s = let (r, s') = m s in (on_err f r, s')

-- The error of a call whose value is dropped.
abbrev pub error_of : {E A : Type 0} → Result E A → Option E
error_of (ok a) = none
error_of (err e) = some e

abbrev pub is_ok : {E A : Type 0} → Result E A → Bool
is_ok (ok a) = Bool.true
is_ok (err e) = Bool.false

pub Result-cases :
    {E A : Type 0} (r : Result E A) → ((a : A) × (r ≡ ok a)) ⊎ ((e : E) × (r ≡ err e))
Result-cases (ok a) = inl (a, refl)
Result-cases (err e) = inr (e, refl)
