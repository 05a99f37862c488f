-- ===== src/Prelude/Texts.antt =====
-- What the source uses of JavaScript strings.
use Prim.Native.Nat.{ℕ, zero, suc, ◌+◌, ◌/◌, ◌%◌}
use Prim.Native.Char.{code}
use Prim.Native.String
use Prim.Native.String.{String, [], ◌∷◌}
use mathlib.Core.Bool.{Bool, true, false, ◌&&◌, ◌||◌}
use backend_showcase.Prelude.Tests.{ltb, ◌==◌, if◌then◌else◌}

infixr 66 ◌+s◌
abbrev pub ◌+s◌ : String → String → String
s +s t = String.◌++◌ s t

digit : ℕ → String
digit n =
    if n == 0
    then "0"
    else if n == 1
    then "1"
    else if n == 2
    then "2"
    else if n == 3
    then "3"
    else if n == 4
    then "4"
    else if n == 5
    then "5"
    else if n == 6
    then "6"
    else if n == 7
    then "7"
    else if n == 8
    then "8"
    else "9"

show_from : ℕ → ℕ → String
show_from zero n = ""
show_from (suc fuel) n =
    let more = show_from fuel (n / 10) +s digit (n % 10) in if ltb n 10 then digit n else more

-- `${n}` of a whole number: `n + 1` rounds are enough for its digits.
unfoldable pub show_ℕ : ℕ → String
unfolding show_from digit
show_ℕ n = show_from (suc n) n

-- `s.length`: UTF-16 units, two for a code point outside the basic plane.
unfoldable pub utf16_length : String → ℕ
utf16_length [] = 0
utf16_length (c ∷ s) = (if ltb (code c) 65536 then 1 else 2) + utf16_length s

-- `s.startsWith(prefix)`
unfoldable pub starts_with : String → String → Bool
starts_with s [] = true
starts_with [] (p ∷ ps) = false
starts_with (c ∷ s) (p ∷ ps) = code c == code p && starts_with s ps

-- Whether the test holds at some position of the text, its end included.
unfoldable pub at_some_position : (String → Bool) → String → Bool
at_some_position p [] = p []
at_some_position p (c ∷ s) = p (c ∷ s) || at_some_position p s
