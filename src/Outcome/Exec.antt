-- ===== src/Outcome/Exec.antt =====
-- Code that writes to an object and may raise. What was written before a raise stays written, so the
-- state comes back beside the error.
use as_lib.Base.{◌≡◌, refl, arith}
use as_lib.Outcome.{Result, ok, err}

abbrev pub Exec : Type 0 → Type 0 → Type 0
Exec S A = S → Result A × S

module _ {S A : Type 0} where
  abbrev pub lift : Result A → Exec S A
  lift r s = (r, s)

module _ {S A B : Type 0} where
  abbrev pub continue : Result A → (A → Exec S B) → Exec S B
  continue (ok a) f s = f a s
  continue (err e) f s = (err e, s)

  infixl 5 ◌>>=◌
  abbrev pub ◌>>=◌ : Exec S A → (A → Exec S B) → Exec S B
  ◌>>=◌ m f s = continue (m s).0 f (m s).1

module _ {S B : Type 0} where
  infixl 5 ◌>>◌
  abbrev pub ◌>>◌ : Exec S (Unit {0}) → Exec S B → Exec S B
  ◌>>◌ m k s = continue (m s).0 (λ _. k) (m s).1

module _ {S : Type 0} where
  -- `self.x = v`, or `fields["x"] = v`
  abbrev pub modify : (S → S) → Exec S (Unit {0})
  modify f s = (ok tt, f s)

pub continue-eq-ok :
    {S A B : Type 0} (r : Result A) (k : A → Exec S B) (s : S) {b : B} {t : S}
    → continue r k s ≡ (ok b, t)
    → (a : A) × (r ≡ ok a) × (k a s ≡ (ok b, t))
continue-eq-ok (ok a) k s h = (a, refl, h)
continue-eq-ok (err e) k s h = ground arith
