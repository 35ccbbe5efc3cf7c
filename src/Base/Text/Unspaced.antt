-- ===== src/Base/Text/Unspaced.antt =====
-- `str.strip` leaves alone a text that holds no white space.
use Prim.Native.Char.{code}
use Prim.Native.String.{String, [], ◌∷◌}
use mathlib.Core.Path.{◌≡◌, refl}
use mathlib.Core.Bool.{Bool, false, ◌||◌}
use native.Mathlib.Omega.{arith}
use as_lib.Base.Text.{is_space, lstrip, rstrip, strip}

unfoldable pub has_space : String → Bool
unfolding is_space
has_space [] = false
has_space (c ∷ s) = is_space (code c) || has_space s

both_false : (a b : Bool) → a || b ≡ false → (a ≡ false) × (b ≡ false)
both_false a b h = ground arith

rstrip-same : (s : String) → has_space s ≡ false → rstrip s ≡ s
unfolding has_space rstrip
rstrip-same [] h = refl
rstrip-same (c ∷ []) h = rw (rstrip, (both_false (is_space (code c)) false h).0) refl
rstrip-same (c ∷ d ∷ s) h =
    rw (rstrip, rstrip-same (d ∷ s) (both_false (is_space (code c)) (has_space (d ∷ s)) h).1) refl

pub strip-same : (s : String) → has_space s ≡ false → strip s ≡ s
unfolding strip lstrip has_space
strip-same [] h = refl
strip-same (c ∷ s) h =
    rw (strip, lstrip, (both_false (is_space (code c)) (has_space s) h).0) (rstrip-same (c ∷ s) h)
