-- ===== src/Std/Format.antt =====
-- Go's `%d`.
use Prim.Native.String.{◌++◌ as ◌+++◌}
use node_shell.Base.{ℕ, zero, suc, ◌/◌, ◌%◌, String, ltb, eqb, if◌then◌else◌, ℤ, pos, negsuc}

abbrev digit : ℕ → String
digit n =
    if ltb n 5
    then (if eqb n 0
        then "0"
        else if eqb n 1
        then "1"
        else if eqb n 2
        then "2"
        else if eqb n 3
        then "3"
        else "4")
    else (if eqb n 5
        then "5"
        else if eqb n 6
        then "6"
        else if eqb n 7
        then "7"
        else if eqb n 8
        then "8"
        else "9")

-- A number has at most as many digits as itself and one more.
unfoldable pub digits : ℕ → ℕ → String
digits zero n = ""
digits (suc fuel) n =
    let front = digits fuel (n / 10) in if ltb n 10 then digit n else front +++ digit (n % 10)

unfoldable pub decimal : ℤ → String
unfolding digits
decimal (pos n) = digits (suc n) n
decimal (negsuc n) = "-" +++ digits (suc (suc n)) (suc n)
