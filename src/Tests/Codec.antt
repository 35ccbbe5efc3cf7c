-- ===== src/Tests/Codec.antt =====
-- A stand-in for base64, which decodes what it encodes: a number is as many letters `a`, and a `b`.
use Prim.Native.Char.{code}
use Prim.Native.String.{String, [], ◌∷◌}
use as_lib.Base.{
  ℕ, zero, suc, ◌+◌, ◌≡◌, refl, ap, ◌∙◌, false, Option, some, List, arith, if◌then◌else◌,
}
use as_lib.Base.Text.{code_eq, strip}
use as_lib.Base.Text.Unspaced.{has_space, strip-same}
use as_lib.Platform.{Bytes}

letters : ℕ → String → String
letters zero rest = "b" ∷ rest
letters (suc n) rest = "a" ∷ letters n rest

unfoldable pub encode : Bytes → String
unfolding letters
encode List.[] = []
encode (List.◌∷◌ n b) = letters n (encode b)

decode_onto : ℕ → String → Bytes
unfolding code_eq
decode_onto n [] = List.[]
decode_onto n (c ∷ s) =
    let more = decode_onto (n + 1) s in
    let rest = decode_onto 0 s in if code_eq (code c) 98 then List.◌∷◌ n rest else more

unfoldable pub decode : String → Option Bytes
unfolding decode_onto
decode s = some (decode_onto 0 s)

decode_onto-letters :
    (n k : ℕ) (rest : String)
    → decode_onto k (letters n rest) ≡ List.◌∷◌ (k + n) (decode_onto 0 rest)
unfolding decode_onto letters code_eq
decode_onto-letters zero k rest = ap (λ n. List.◌∷◌ n (decode_onto 0 rest)) (omega arith)
decode_onto-letters (suc n) k rest =
    decode_onto-letters n (k + 1) rest ∙ ap (λ m. List.◌∷◌ m (decode_onto 0 rest)) (omega arith)

decode_onto-encode : (b : Bytes) → decode_onto 0 (encode b) ≡ b
unfolding encode decode_onto
decode_onto-encode List.[] = refl
decode_onto-encode (List.◌∷◌ n b) =
    decode_onto-letters n 0 (encode b)
    ∙ ap (λ m. List.◌∷◌ m (decode_onto 0 (encode b))) (omega arith)
    ∙ ap (List.◌∷◌ n) (decode_onto-encode b)

pub decode-encode : (b : Bytes) → decode (encode b) ≡ some b
unfolding decode
decode-encode b = ap some (decode_onto-encode b)

has_space-letters : (n : ℕ) (rest : String) → has_space (letters n rest) ≡ has_space rest
unfolding has_space letters
has_space-letters zero rest = refl
has_space-letters (suc n) rest = has_space-letters n rest

has_space-encode : (b : Bytes) → has_space (encode b) ≡ false
unfolding encode has_space
has_space-encode List.[] = refl
has_space-encode (List.◌∷◌ n b) = has_space-letters n (encode b) ∙ has_space-encode b

pub strip-encode : (b : Bytes) → strip (encode b) ≡ encode b
strip-encode b = strip-same (encode b) (has_space-encode b)
