-- ===== src/Base/Dict.antt =====
-- Python's `dict` with text keys: the entries in insertion order.
use Prim.Native.String.{String}
use mathlib.Core.Path.{◌≡◌, refl}
use mathlib.Core.Bool.{Bool, true, false}
use mathlib.Core.Option.{Option, none, some}
use mathlib.Core.List.{List, [], ◌∷◌, map}
use native.Mathlib.Omega.{arith}
use as_lib.Base.Equality.{if◌then◌else◌, ◌==◌, string_eq}

abbrev pub Dict {ℓ} : Type ℓ → Type ℓ
Dict V = List (String × V)

module _ {ℓ} {V : Type ℓ} where
  -- `d.get(k)`
  unfoldable pub get : Dict V → String → Option V
  get [] k = none
  get ((j, v) ∷ d) k = if k == j then some v else get d k

  -- `k in d`
  unfoldable pub has_key : Dict V → String → Bool
  unfolding get
  has_key d k = elim (get d k) [ none ↦ false | some _ ↦ true ]

  -- `d[k] = v`: an old key keeps its place.
  unfoldable pub put : Dict V → String → V → Dict V
  put [] k v = (k, v) ∷ []
  put ((j, w) ∷ d) k v = if k == j then (j, v) ∷ d else (j, w) ∷ put d k v

  unfoldable pub keys : Dict V → List String
  keys = map (λ (k, _). k)

  unfoldable pub values : Dict V → List V
  values = map (λ (_, v). v)

  pub get-nil : (k : String) → get [] k ≡ none
  unfolding get
  get-nil k = refl

  pub get-put :
      (d : Dict V) (k : String) (v : V) (j : String)
      → get (put d k v) j ≡ (if j == k then some v else get d j)
  unfolding get put
  get-put [] k v j = ground arith
  get-put (_ ∷ d) k v j = ground (arith, get-put d k v j)
