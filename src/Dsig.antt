-- ===== src/Dsig.antt =====
-- The operations of as4/models/dsig/reference.py: digests of elements and attachments, the
-- transforms that the library will apply, and the fields by which references are compared.
pub mod Verify
pub mod Matching
use as_lib.Base.{
  Eq, String, ◌<>◌, Bool, true, false, ◌&&◌, not, Option, none, some, List, [], ◌∷◌, map, contains,
  string_eq, option_eq, ◌==◌, if◌then◌else◌,
}
use as_lib.Base.Text.{strip, join, nonempty}
use as_lib.Base.Sorting.{sorted}
use as_lib.Platform.{Bytes, HashAlgorithm, sha256, sha384, sha512, Crypto}
use as_lib.Etree.{Element}
use as_lib.Outcome.{
  Raised, Result, ok, err, ensure, ◌>>=◌, ◌>>◌, unsupported_digest_algorithm, unsupported_transform,
}
use as_lib.Models.Transforms.{Transform, Transforms}
use as_lib.Models.Reference.{Reference, DigestMethod, DigestValue}
use as_lib.Models.Wildcard.{transform_namespaces}

-- `DigestAlgorithm` and `TransformAlgorithm`
abbrev pub digest_sha256 : String
digest_sha256 = "http://www.w3.org/2001/04/xmlenc#sha256"

abbrev pub digest_sha384 : String
digest_sha384 = "http://www.w3.org/2001/04/xmldsig-more#sha384"

abbrev pub digest_sha512 : String
digest_sha512 = "http://www.w3.org/2001/04/xmlenc#sha512"

abbrev pub exclusive_c14n : String
exclusive_c14n = "http://www.w3.org/2001/10/xml-exc-c14n#"

abbrev pub attachment_content_signature : String
attachment_content_signature =
    "http://docs.oasis-open.org/wss/oasis-wss-SwAProfile-1.1#Attachment-Content-Signature-Transform"

-- `DIGEST_ALGORITHM_MAP.get`
unfoldable pub digest_function : String → Option HashAlgorithm
digest_function a =
    if a == digest_sha256
    then some sha256
    else if a == digest_sha384
    then some sha384
    else if a == digest_sha512
    then some sha512
    else none

-- `Reference.inclusive_namespaces`: of the first transform that is exclusive canonicalisation.
unfoldable pub inclusive_namespaces : List Transform → List String
unfolding transform_namespaces
inclusive_namespaces [] = []
inclusive_namespaces (t ∷ rest) =
    let others = inclusive_namespaces rest in
    if t.algorithm == some exclusive_c14n then transform_namespaces t else others

-- `str(algorithm)`
unfoldable pub str_of : Option String → String
str_of none = "None"
str_of (some a) = a

-- The set that a comprehension builds, as its elements without repetition.
distinct : List String → List String
distinct [] = []
distinct (a ∷ rest) = let others = distinct rest in if contains others a then others else a ∷ others

-- Every algorithm of the list is one of those allowed.
unfoldable pub all_allowed : List String → List Transform → Bool
all_allowed allowed [] = true
all_allowed allowed (t ∷ rest) =
    (elim t.algorithm [ none ↦ false | some a ↦ contains allowed a ]) && all_allowed allowed rest

some_transform : List Transform → Bool
some_transform [] = false
some_transform (t ∷ rest) = true

or_none : String → String
unfolding nonempty
or_none text = if nonempty text then text else "none"

unfoldable pub require_transforms : List String → Reference → Result (Unit {0})
unfolding all_allowed some_transform or_none distinct str_of
require_transforms allowed r =
    let ts = r.transforms.transforms in
    ensure (some_transform ts && all_allowed allowed ts) (
      unsupported_transform
        (or_none (join ", " (sorted (distinct (map (λ (t : Transform). str_of t.algorithm) ts))))))

string_discrete : Discrete String
unfolding string_eq
string_discrete = string_eq.dec

-- A reference as receipts and senders compare it. The transforms are in sorted order.
pub record ComparableReferenceFields : Type 0 where
  pub uri : String
  pub transform_algorithms : List String
  pub digest_algorithm : String
  pub digest_value : String

comparable_discrete : Discrete ComparableReferenceFields
unfolding string_discrete
comparable_discrete = hlevel string_discrete

instance unfoldable pub comparable_eq : Eq ComparableReferenceFields
unfolding comparable_discrete
comparable_eq = record { dec = comparable_discrete }

-- `value or ""`
abbrev pub or_empty : Option String → String
or_empty none = ""
or_empty (some s) = s

-- `[t.algorithm for t in transforms if t.algorithm]`
unfoldable pub named_algorithms : List Transform → List String
unfolding nonempty
named_algorithms [] = []
named_algorithms (t ∷ rest) =
    let others = named_algorithms rest in
    elim t.algorithm [ none ↦ others | some a ↦ if nonempty a then a ∷ others else others ]

-- `ComparableReferenceFields.from_reference`
unfoldable pub from_reference : Reference → ComparableReferenceFields
unfolding named_algorithms sorted strip
from_reference r = record {
  uri = or_empty r.uri;
  transform_algorithms = sorted (named_algorithms r.transforms.transforms);
  digest_algorithm = r.digest_method.algorithm;
  digest_value = strip r.digest_value.text;
}

-- The algorithm of a `Transform` that the library writes itself.
abbrev pub single_transform : String → Transforms
single_transform a = record {
  transforms = record { etree_element = none; algorithm = some a } ∷ [];
}

module _ (c : Crypto) (c14n : Element → List String → Bytes) where
  unfoldable pub compute_digest : String → Bytes → Result String
  unfolding digest_function
  compute_digest algorithm content = elim (digest_function algorithm) [
    | none ↦ err (unsupported_digest_algorithm algorithm)
    | some h ↦ ok (c.b64encode (c.digest h content))
  ]

  unfoldable pub digest_bytes : Reference → Bytes → Result String
  unfolding compute_digest
  digest_bytes r content = compute_digest r.digest_method.algorithm content

  unfoldable pub digest_element : Reference → Element → Result String
  unfolding digest_bytes inclusive_namespaces
  digest_element r e = digest_bytes r (c14n e (inclusive_namespaces r.transforms.transforms))

  unfoldable pub digest_matches : Reference → Element → Result Bool
  unfolding require_transforms digest_element strip
  digest_matches r e = do
    require_transforms (exclusive_c14n ∷ []) r
    computed ← digest_element r e
    ok (computed == strip r.digest_value.text)

  unfoldable pub digest_matches_bytes : Reference → Bytes → Result Bool
  unfolding require_transforms digest_bytes strip
  digest_matches_bytes r content = do
    require_transforms (attachment_content_signature ∷ []) r
    computed ← digest_bytes r content
    ok (computed == strip r.digest_value.text)

  -- `Reference.for_bytes`
  unfoldable pub for_bytes : String → Bytes → String → String → Result Reference
  unfolding compute_digest
  for_bytes uri content digest_algorithm transform_algorithm = do
    text ← compute_digest digest_algorithm content
    ok (record {
      transforms = single_transform transform_algorithm;
      digest_method = record { algorithm = digest_algorithm };
      digest_value = record { text = text };
      id = none;
      uri = some uri;
      type_value = none;
    })

  -- `Reference.for_element`
  unfoldable pub for_element : String → Element → String → Result Reference
  unfolding for_bytes
  for_element uri e digest_algorithm = for_bytes uri (c14n e []) digest_algorithm exclusive_c14n
