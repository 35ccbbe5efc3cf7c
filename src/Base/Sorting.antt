-- ===== src/Base/Sorting.antt =====
-- `sorted` on texts: Python orders them by code points, which is the order of their UTF-8 bytes.
use Prim.Native.String.{String, compare}
use Prim.Native.Nat.{Ordering}
use mathlib.Core.Bool.{Bool, true, false}
use mathlib.Core.List.{List, [], ◌∷◌}
use as_lib.Base.Equality.{if◌then◌else◌}

text_le : String → String → Bool
text_le s t = elim (compare s t) [ Ordering.gt ↦ false | _ ↦ true ]

insert : String → List String → List String
unfolding text_le
insert s [] = s ∷ []
insert s (t ∷ rest) = if text_le s t then s ∷ t ∷ rest else t ∷ insert s rest

unfoldable pub sorted : List String → List String
unfolding insert
sorted [] = []
sorted (s ∷ rest) = insert s (sorted rest)
