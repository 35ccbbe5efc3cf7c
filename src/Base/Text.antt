-- ===== src/Base/Text.antt =====
-- Python's `str` methods that the program calls, over the characters of a text.
pub mod Unspaced
use Prim.Native.Nat.{ℕ, zero, suc, ◌+◌, ◌/◌, ◌%◌, compare, Ordering}
use Prim.Native.Char.{code}
use Prim.Native.String.{String, [], ◌∷◌, ◌++◌}
use mathlib.Core.Bool.{Bool, true, false, ◌&&◌, ◌||◌}
use mathlib.Core.Option.{Option, none, some}
use mathlib.Core.List
use as_lib.Base.Equality.{if◌then◌else◌, leb, ltb}

unfoldable pub code_eq : ℕ → ℕ → Bool
code_eq a b = elim (compare a b) [ Ordering.eq ↦ true | _ ↦ false ]

-- What follows the prefix `p` in `s`, if `s` starts with it.
unfoldable pub after_prefix : String → String → Option String
unfolding code_eq
after_prefix [] s = some s
after_prefix (c ∷ p) [] = none
after_prefix (c ∷ p) (d ∷ s) =
    let rest = after_prefix p s in if code_eq (code c) (code d) then rest else none

-- `s.startswith(p)`
unfoldable pub starts_with : String → String → Bool
unfolding after_prefix
starts_with s p = elim (after_prefix p s) [ none ↦ false | some _ ↦ true ]

-- `s.removeprefix(p)`
unfoldable pub remove_prefix : String → String → String
unfolding after_prefix
remove_prefix s p = elim (after_prefix p s) [ none ↦ s | some rest ↦ rest ]

-- `str.isspace` of one character.
is_space : ℕ → Bool
unfolding code_eq
is_space c =
    (leb 9 c && leb c 13)
    || (leb 28 c && leb c 32)
    || code_eq c 133
    || code_eq c 160
    || code_eq c 5760
    || (leb 8192 c && leb c 8202)
    || code_eq c 8232
    || code_eq c 8233
    || code_eq c 8239
    || code_eq c 8287
    || code_eq c 12288

lstrip : String → String
lstrip [] = []
lstrip (c ∷ s) = let rest = lstrip s in if is_space (code c) then rest else c ∷ s

rstrip : String → String
rstrip [] = []
rstrip (c ∷ s) = elim (rstrip s) [
  | [] ↦ if is_space (code c) then [] else c ∷ []
  | d ∷ t ↦ c ∷ d ∷ t
]

-- `s.strip()`
unfoldable pub strip : String → String
unfolding is_space lstrip rstrip
strip s = rstrip (lstrip s)

-- `bool(s)`
unfoldable pub nonempty : String → Bool
nonempty [] = false
nonempty (c ∷ s) = true

-- `sep.join(parts)`
unfoldable pub join : String → List.List String → String
join sep List.[] = []
join sep (List.◌∷◌ s List.[]) = s
join sep (List.◌∷◌ s (List.◌∷◌ t rest)) = s ++ sep ++ join sep (List.◌∷◌ t rest)

-- `s.split()`: the runs of characters that are no white space. `word` is the run that is open.
split_onto : String → String → List.List String
unfolding is_space nonempty
split_onto word [] = if nonempty word then List.◌∷◌ word List.[] else List.[]
split_onto word (c ∷ s) =
    let space = is_space (code c) in
    let rest = split_onto (if space then [] else word ++ (c ∷ [])) s in
    if space && nonempty word then List.◌∷◌ word rest else rest

unfoldable pub split : String → List.List String
unfolding split_onto
split s = split_onto [] s

digit : ℕ → String
digit zero = "0"
digit (suc zero) = "1"
digit (suc (suc zero)) = "2"
digit (suc (suc (suc zero))) = "3"
digit (suc (suc (suc (suc zero)))) = "4"
digit (suc (suc (suc (suc (suc zero))))) = "5"
digit (suc (suc (suc (suc (suc (suc zero)))))) = "6"
digit (suc (suc (suc (suc (suc (suc (suc zero))))))) = "7"
digit (suc (suc (suc (suc (suc (suc (suc (suc zero)))))))) = "8"
digit _ = "9"

show_onto : ℕ → ℕ → String
unfolding digit
show_onto zero n = ""
show_onto (suc fuel) n =
    let more = show_onto fuel (n / 10) in if ltb n 10 then digit n else more ++ digit (n % 10)

-- `str(n)`: as many rounds as `n` has digits, and `n + 1` are enough.
unfoldable pub show : ℕ → String
unfolding show_onto
show n = show_onto (n + 1) n

-- The characters of `s` that are none of those in `chars`, from the left on.
one_of : ℕ → String → Bool
unfolding code_eq
one_of n [] = false
one_of n (c ∷ s) = code_eq (code c) n || one_of n s

lstrip_of : String → String → String
unfolding one_of
lstrip_of chars [] = []
lstrip_of chars (c ∷ s) =
    let rest = lstrip_of chars s in if one_of (code c) chars then rest else c ∷ s

rstrip_of : String → String → String
unfolding one_of
rstrip_of chars [] = []
rstrip_of chars (c ∷ s) = elim (rstrip_of chars s) [
  | [] ↦ if one_of (code c) chars then [] else c ∷ []
  | d ∷ t ↦ c ∷ d ∷ t
]

-- `s.strip(chars)`
unfoldable pub strip_of : String → String → String
unfolding lstrip_of rstrip_of
strip_of s chars = rstrip_of chars (lstrip_of chars s)

utf8_of : ℕ → List.List ℕ
utf8_of n =
    if ltb n 128
    then List.◌∷◌ n List.[]
    else if ltb n 2048
    then List.◌∷◌ (192 + n / 64) (List.◌∷◌ (128 + n % 64) List.[])
    else if ltb n 65536
    then List.◌∷◌ (224 + n / 4096)
        (List.◌∷◌ (128 + (n / 64) % 64) (List.◌∷◌ (128 + n % 64) List.[]))
    else List.◌∷◌ (240 + n / 262144) (
        List.◌∷◌ (128 + (n / 4096) % 64)
          (List.◌∷◌ (128 + (n / 64) % 64) (List.◌∷◌ (128 + n % 64) List.[])))

-- `s.encode("utf-8")`
unfoldable pub utf8 : String → List.List ℕ
unfolding utf8_of
utf8 [] = List.[]
utf8 (c ∷ s) = List.◌++◌ (utf8_of (code c)) (utf8 s)
