-- ===== src/Base/Prefix.antt =====
-- What `str.startswith` and `str.removeprefix` give on a text that begins with the prefix.
use Prim.Native.Nat.{ℕ}
use Prim.Native.Char.{code}
use Prim.Native.String.append
use Prim.Native.String.{String, [], ◌∷◌, ◌++◌}
use mathlib.Core.Path.{◌≡◌, refl, sym, ap, ◌∙◌}
use mathlib.Core.Bool.{true}
use mathlib.Core.Logic.{inl, inr}
use mathlib.Core.Option.{some, none-ne-some, some-injective}
use native.Mathlib.Omega.{arith}
use text.Mathlib.TextEquality.{Char-path}
use as_lib.Base.Equality.{Bool-cases}
use as_lib.Base.Text.{after_prefix, code_eq, starts_with, remove_prefix}

code_eq-eq : (m n : ℕ) → code_eq m n ≡ true → m ≡ n
unfolding code_eq
code_eq-eq m n h = ground arith

code_eq-same : (n : ℕ) → code_eq n n ≡ true
unfolding code_eq
code_eq-same n = ground arith

pub after_prefix-text : (p s r : String) → after_prefix p s ≡ some r → s ≡ p ++ r
unfolding after_prefix
after_prefix-text [] s r h = some-injective s r h ∙ sym (append.nil r)
after_prefix-text (c ∷ p) [] r h = absurd (none-ne-some r h)
after_prefix-text (c ∷ p) (d ∷ s) r h = elim (Bool-cases (code_eq (code c) (code d))) [
  | inl y ↦
      let same : c ≡ d = Char-path c d (code_eq-eq (code c) (code d) y) in
      rw (same, append.cons d p r) (ap (λ t. d ∷ t) (after_prefix-text p s r (rw y at h)))
  | inr n ↦ absurd (none-ne-some r (rw n at h))
]

pub after_prefix-append : (p r : String) → after_prefix p (p ++ r) ≡ some r
unfolding after_prefix
after_prefix-append [] r = rw (append.nil r) refl
after_prefix-append (c ∷ p) r =
    rw (append.cons c p r, code_eq-same (code c), after_prefix-append p r) refl

pub starts_with-append : (p r : String) → starts_with (p ++ r) p ≡ true
unfolding starts_with
starts_with-append p r = rw (starts_with, after_prefix-append p r) refl

pub remove_prefix-append : (p r : String) → remove_prefix (p ++ r) p ≡ r
unfolding remove_prefix
remove_prefix-append p r = rw (remove_prefix, after_prefix-append p r) refl
