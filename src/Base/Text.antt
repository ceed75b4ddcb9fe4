-- ===== src/Base/Text.antt =====
-- The functions of Go's `strings` that the program calls, over texts.
pub mod Decimal
pub mod Split
use Prim.Native.Nat.{ℕ, zero, suc, ◌/◌, ◌%◌}
use Prim.Native.Char.{Char, code}
use Prim.Native.String.{String, ◌++◌}
use mathlib.Core.Bool.{Bool, ◌||◌}
use mathlib.Core.Option.{Option, none, some}
use mathlib.Core.List.{List, [], ◌∷◌}
use text.Mathlib.Text.{starts_with}
use csi_alcub.Base.Tests.{if◌then◌else◌, nat_eq, ltb}
use csi_alcub.Base.Int.{ℤ, pos, negsuc}

-- `strings.Join(list, sep)`
abbrev pub join : List String → String → String
join [] sep = ""
join (s ∷ []) sep = s
join (s ∷ t ∷ rest) sep = s ++ (sep ++ join (t ∷ rest) sep)

-- `strings.Contains(s, sub)`
unfoldable pub contains : String → String → Bool
contains String.[] sub = starts_with "" sub
contains (String.◌∷◌ c s) sub = starts_with (String.◌∷◌ c s) sub || contains s sub

-- One step of `split`: `c` goes in front of the first piece.
abbrev push_char : Char → List String → List String
push_char c [] = String.◌∷◌ c "" ∷ []
push_char c (s ∷ rest) = String.◌∷◌ c s ∷ rest

-- `strings.Split(s, sep)` for a separator of one character.
unfoldable pub split : String → ℕ → List String
split String.[] sep = "" ∷ []
split (String.◌∷◌ c s) sep =
    let rest = split s sep in if nat_eq (code c) sep then "" ∷ rest else push_char c rest

-- The letter of `to` at the place where `c` stands in `from`, or `c`.
unfoldable pub swap_letter : String → String → Char → Char
swap_letter String.[] to c = c
swap_letter (String.◌∷◌ a from) String.[] c = c
swap_letter (String.◌∷◌ a from) (String.◌∷◌ b to) c =
    if nat_eq (code a) (code c) then b else swap_letter from to c

abbrev upper_letters : String
upper_letters = "ABCDEFGHIJKLMNOPQRSTUVWXYZİK"

abbrev lower_letters : String
lower_letters = "abcdefghijklmnopqrstuvwxyzik"

-- `strings.ToLower(s)`, exact on ASCII letters and on the two others (U+0130 and U+212A) whose
-- lower case is an ASCII letter. Other letters are left alone: the program compares the result
-- with ASCII words only.
unfoldable pub to_lower : String → String
unfolding swap_letter
to_lower String.[] = ""
to_lower (String.◌∷◌ c s) = String.◌∷◌ (swap_letter upper_letters lower_letters c) (to_lower s)

abbrev digit : ℕ → String
digit n =
    if nat_eq n 0
    then "0"
    else if nat_eq n 1
    then "1"
    else if nat_eq n 2
    then "2"
    else if nat_eq n 3
    then "3"
    else if nat_eq n 4
    then "4"
    else if nat_eq n 5
    then "5"
    else if nat_eq n 6
    then "6"
    else if nat_eq n 7
    then "7"
    else if nat_eq n 8
    then "8"
    else "9"

digits_onto : ℕ → ℕ → String → String
digits_onto zero n out = out
digits_onto (suc fuel) n out =
    let more = digits_onto fuel (n / 10) (digit (n % 10) ++ out) in
    if ltb n 10 then digit (n % 10) ++ out else more

-- `fmt.Sprintf("%d", n)` for an int64. Twenty digits are enough, since 2^63 has nineteen.
unfoldable pub decimal : ℤ → String
unfolding digits_onto
decimal (pos n) = digits_onto 20 n ""
decimal (negsuc n) = "-" ++ digits_onto 20 (suc n) ""

-- The text behind `sub` at the start of `s`, if `s` starts with `sub`.
unfoldable pub strip : String → String → Option String
strip s String.[] = some s
strip String.[] (String.◌∷◌ d sub) = none
strip (String.◌∷◌ c s) (String.◌∷◌ d sub) = if nat_eq (code c) (code d) then strip s sub else none

abbrev put_char : Char → String × String → String × String
put_char c (before, after) = (String.◌∷◌ c before, after)

-- `strings.SplitN(s, sep, 2)`: the text before the first `sep` and the text behind it, which is
-- empty where there is no `sep` (the program reads it only where there is one).
unfoldable pub cut : String → String → String × String
unfolding strip
cut String.[] sep = ("", "")
cut (String.◌∷◌ c s) sep =
    let rest = put_char c (cut s sep) in
    elim (strip (String.◌∷◌ c s) sep) [ some after ↦ ("", after) | none ↦ rest ]
