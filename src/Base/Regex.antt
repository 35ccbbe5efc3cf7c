-- ===== src/Base/Regex.antt =====
-- The one shape of pattern that the program matches with Python's `re`: `(.*)SEP…`, where the group
-- is greedy and `.` stands for any character but a line feed; and `str.split`, by one separator.
pub mod Longest
use Prim.Native.Char.{code}
use Prim.Native.String.{String, [], ◌∷◌, ◌++◌}
use mathlib.Core.Bool.{Bool, true, false}
use mathlib.Core.Option.{Option, none, some}
use as_lib.Base.Equality.{if◌then◌else◌}
use as_lib.Base.Text.{after_prefix, code_eq}

-- `.*` cannot leave the line that it starts on.
unfoldable pub first_line : String → String
unfolding code_eq
first_line [] = []
first_line (c ∷ s) = let rest = first_line s in if code_eq (code c) 10 then [] else c ∷ rest

-- The separator here, and then the rest of the pattern.
unfoldable pub matches_here {ℓ} :
    {A : Type ℓ} → String → (String → Option A) → String → Option (String × A)
unfolding after_prefix
matches_here sep k s = elim (after_prefix sep s) [
  | none ↦ none
  | some rest ↦ (elim (k rest) [ none ↦ none | some a ↦ some ([], a) ])
]

-- `(.*)SEP` and then `k`: the longest text before a separator after which `k` matches.
unfoldable pub greedy {ℓ} :
    {A : Type ℓ} → String → (String → Option A) → String → Option (String × A)
unfolding matches_here
greedy sep k [] = matches_here sep k []
greedy sep k (c ∷ s) = elim (greedy sep k s) [
  | some (before, a) ↦ some (c ∷ before, a)
  | none ↦ matches_here sep k (c ∷ s)
]

-- `(.*)` at the end of a pattern
abbrev pub rest_of_line : String → Option String
rest_of_line s = some s

-- `s.split(sep)[0]`
unfoldable pub before_first : String → String → String
unfolding after_prefix
before_first sep [] = []
before_first sep (c ∷ s) =
    let rest = before_first sep s in
    elim (after_prefix sep (c ∷ s)) [ some _ ↦ [] | none ↦ c ∷ rest ]

-- What follows the first separator, if there is one.
unfoldable pub after_first : String → String → Option String
unfolding after_prefix
after_first sep [] = none
after_first sep (c ∷ s) =
    let rest = after_first sep s in
    elim (after_prefix sep (c ∷ s)) [ some found ↦ some found | none ↦ rest ]
