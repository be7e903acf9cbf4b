-- ===== src/Base/Text.antt =====
-- Texts put together as the source's f-strings do, and Python's tests on them.
use Prim.Native.Nat.{ℕ, zero, suc, ◌+◌, ◌/◌, ◌%◌}
use Prim.Native.String
use Prim.Native.String.{String}
use mathlib.Core.Bool.{Bool}
use mathlib.Core.Option.{Option, none, some}
use mathlib.Core.Path.{◌≡◌, refl}
use text.Mathlib.Text.{◌==◌ as str_eq, is_lt}
use tod_dl.Base.Int.{ℤ, pos, negsuc}
use tod_dl.Base.Tests.{ltb, ◌==◌, if◌then◌else◌}

infixr 66 ◌<>◌
abbrev pub ◌<>◌ : String → String → String
s <> t = String.◌++◌ s t

digit : ℕ → String
digit d =
    if d == 0
    then "0"
    else if d == 1
    then "1"
    else if d == 2
    then "2"
    else if d == 3
    then "3"
    else if d == 4
    then "4"
    else if d == 5
    then "5"
    else if d == 6
    then "6"
    else if d == 7
    then "7"
    else if d == 8
    then "8"
    else "9"

decimal_from : ℕ → ℕ → String
decimal_from zero n = ""
decimal_from (suc fuel) n =
    let rest = decimal_from fuel (n / 10) <> digit (n % 10) in if ltb n 10 then digit n else rest

-- str(n); a number has fewer digits than its value plus one
unfoldable pub decimal : ℕ → String
unfolding decimal_from digit
decimal n = decimal_from (n + 1) n

-- the truth value of a text or of None
unfoldable pub is_truthy : Option String → Bool
is_truthy none = Bool.false
is_truthy (some s) = if str_eq s "" then Bool.false else Bool.true

-- s < t, by code points
unfoldable pub str_lt : String → String → Bool
str_lt s t = is_lt (String.compare s t)

decimal_runs : "n=" <> decimal 1207 ≡ "n=1207"
unfolding decimal
decimal_runs = refl

-- str(n) of an int
unfoldable pub signed : ℤ → String
unfolding decimal
signed (pos n) = decimal n
signed (negsuc n) = "-" <> decimal (n + 1)
