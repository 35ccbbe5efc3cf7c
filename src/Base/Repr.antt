-- ===== src/Base/Repr.antt =====
-- `repr` of a text: single quotes unless the text holds a single quote and no double quote. Of the
-- characters that Python escapes, those above 127 that are not printable are left as they are.
use Prim.Native.Nat.{ℕ, zero, suc, ◌/◌, ◌%◌, ◌-◌}
use Prim.Native.Char.{code}
use Prim.Native.String.{String, [], ◌∷◌, ◌++◌}
use mathlib.Core.Bool.{Bool, false, ◌&&◌, ◌||◌, not}
use as_lib.Base.Equality.{if◌then◌else◌, leb, ltb}
use as_lib.Base.Text.{show}

same : ℕ → ℕ → Bool
same a b = leb a b && leb b a

has_code : ℕ → String → Bool
unfolding same
has_code n [] = false
has_code n (c ∷ s) = same (code c) n || has_code n s

hex_letter : ℕ → String
hex_letter zero = "a"
hex_letter (suc zero) = "b"
hex_letter (suc (suc zero)) = "c"
hex_letter (suc (suc (suc zero))) = "d"
hex_letter (suc (suc (suc (suc zero)))) = "e"
hex_letter _ = "f"

hex : ℕ → String
unfolding hex_letter show
hex n = if ltb n 10 then show n else hex_letter (n - 10)

escaped : ℕ → ℕ → String → String
unfolding same hex
escaped quote n plain =
    if same n quote || same n 92
    then "\\" ++ plain
    else if same n 9
    then "\\t"
    else if same n 10
    then "\\n"
    else if same n 13
    then "\\r"
    else if ltb n 32 || same n 127
    then "\\x" ++ hex (n / 16) ++ hex (n % 16)
    else plain

escape : ℕ → String → String
unfolding escaped
escape quote [] = []
escape quote (c ∷ s) = escaped quote (code c) (c ∷ []) ++ escape quote s

unfoldable pub repr : String → String
unfolding has_code escape
repr s =
    if has_code 39 s && not (has_code 34 s)
    then "\"" ++ escape 34 s ++ "\""
    else "'" ++ escape 39 s ++ "'"
