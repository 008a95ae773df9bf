-- ===== src/Prelude/Decimal.antt =====
-- Python's integers, `str` of one and `int` of a text, and the split of a text at a colon. A text that
-- is written before another one is a function of that other one: `show_int n rest` is
-- `str(n) + rest`.
use Prim.Native.Nat.{ℕ, zero, suc, ◌+◌, ◌-◌, ◌*◌, ◌/◌, ◌%◌, ◌<◌}
use Prim.Native.Char.{Char, code}
use Prim.Native.String.{String}
use mathlib.Core.Path.{◌≡◌, refl}
use mathlib.Core.Logic.{inl, inr}
use mathlib.Core.Bool.{Bool, true, false, ◌||◌}
use mathlib.Core.Option.{Option, none, some}
use native.Mathlib.Omega.{arith}
use weather_agent.Prelude.Tests.{ltb, ◌==◌, if◌then◌else◌, Bool-cases}
use weather_agent.Prelude.Text.{strip}
pub mod RoundTrip

-- `negsuc n` is `-(n + 1)`.
pub data ℤ : Type 0 where
  pos negsuc : ℕ → ℤ

unfoldable pub digit : ℕ → Char
digit zero = "0"
digit (suc zero) = "1"
digit (suc (suc zero)) = "2"
digit (suc (suc (suc zero))) = "3"
digit (suc (suc (suc (suc zero)))) = "4"
digit (suc (suc (suc (suc (suc zero))))) = "5"
digit (suc (suc (suc (suc (suc (suc zero)))))) = "6"
digit (suc (suc (suc (suc (suc (suc (suc zero))))))) = "7"
digit (suc (suc (suc (suc (suc (suc (suc (suc zero)))))))) = "8"
digit _ = "9"

-- The digits of a number that has at most as many as the fuel, before the text.
unfoldable pub digits : ℕ → ℕ → String → String
digits zero n rest = rest
digits (suc fuel) n rest =
    let more = digits fuel (n / 10) (String.◌∷◌ (digit (n % 10)) rest) in
    if n == 0 then rest else more

unfoldable pub show_nat : ℕ → String → String
unfolding digit digits
show_nat zero rest = String.◌∷◌ (digit 0) rest
show_nat (suc n) rest = digits (suc n) (suc n) rest

unfoldable pub show_int : ℤ → String → String
unfolding show_nat
show_int (ℤ.pos n) rest = show_nat n rest
show_int (ℤ.negsuc n) rest = String.◌∷◌ "-" (show_nat (suc n) rest)

-- The number that digits spell behind `n`. The flag is that a digit stands before; a single underscore
-- may stand between two digits.
abbrev pub scan : Bool → String → ℕ → Option ℕ
scan after String.[] n = if after then some n else none
scan after (String.◌∷◌ c s) n =
    let next = scan true s (n * 10 + (code c - b'0')) in
    let skip = scan false s n in
    if code c == b'_'
    then if after then skip else none
    else if ltb (code c) b'0' || ltb b'9' (code c)
    then none
    else next

abbrev pub as_pos : Option ℕ → Option ℤ
as_pos none = none
as_pos (some n) = some (ℤ.pos n)

abbrev pub negated : Option ℕ → Option ℤ
negated none = none
negated (some zero) = some (ℤ.pos 0)
negated (some (suc n)) = some (ℤ.negsuc n)

abbrev pub signed : String → Option ℤ
signed String.[] = none
signed (String.◌∷◌ c s) =
    if code c == b'-'
    then negated (scan false s 0)
    else if code c == b'+'
    then as_pos (scan false s 0)
    else as_pos (scan false (String.◌∷◌ c s) 0)

-- `int(text)`, for digits of ASCII; none where it raises `ValueError`.
unfoldable pub parse_int : String → Option ℤ
unfolding strip
parse_int s = signed (strip s)

abbrev pub with_head : Char → Option (String × String) → Option (String × String)
with_head c none = none
with_head c (some (a, b)) = some (String.◌∷◌ c a, b)

-- `text.split(":", 1)`, where the text has a colon.
unfoldable pub split_colon : String → Option (String × String)
split_colon String.[] = none
split_colon (String.◌∷◌ c s) =
    let rest = split_colon s in if code c == b':' then some ("", s) else with_head c rest
