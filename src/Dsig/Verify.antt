-- ===== src/Dsig/Verify.antt =====
-- `Signature.verify` of as4/models/dsig/signature.py.
use as_lib.Base.{
  String, ◌<>◌, Option, none, some, List, [], string_eq, option_eq, ◌==◌, if◌then◌else◌,
}
use as_lib.Platform.{Bytes, Certificate, HashAlgorithm, sha256, sha384, sha512, Crypto}
use as_lib.Etree.{Element}
use as_lib.Outcome.{
  Result, ensure, require, ◌>>=◌, ◌>>◌, unsupported_signature_algorithm, unsupported_transform,
  value_error, invalid_signature,
}
use as_lib.Models.Signature.{Signature, SignedInfo}
use as_lib.Models.Wildcard.{canonicalization_namespaces}
use as_lib.Dsig.{exclusive_c14n, str_of}

-- `SIGNATURE_ALGORITHMS.get`
unfoldable pub signature_algorithm : String → Option HashAlgorithm
signature_algorithm a =
    if a == "http://www.w3.org/2001/04/xmldsig-more#rsa-sha256"
    then some sha256
    else if a == "http://www.w3.org/2001/04/xmldsig-more#rsa-sha384"
    then some sha384
    else if a == "http://www.w3.org/2001/04/xmldsig-more#rsa-sha512"
    then some sha512
    else none

unfoldable pub require_exclusive_canonicalization : Option String → Result (Unit {0})
unfolding str_of
require_exclusive_canonicalization a =
    ensure (a == some exclusive_c14n) (unsupported_transform (str_of a))

unfoldable pub signature_bytes : Signature → Result Bytes
signature_bytes s =
    require s.signature_value.value (value_error "No signature bytes found for signature")

module _ (c : Crypto) (c14n : Element → List String → Bytes) where
  unfoldable pub signed_info_canonicalized : SignedInfo → Bytes
  unfolding canonicalization_namespaces
  signed_info_canonicalized i = elim i.etree_element [
    | none ↦ []
    | some e ↦ c14n e (canonicalization_namespaces i.canonicalization_method)
  ]

  unfoldable pub require_rsa_public_key : Certificate → String → Result (Unit {0})
  require_rsa_public_key certificate algorithm =
      ensure (c.is_rsa certificate)
        (unsupported_signature_algorithm (algorithm <> " with a " <> c.key_type_name certificate))

  unfoldable pub verify : Signature → Certificate → Result (Unit {0})
  unfolding require_exclusive_canonicalization signature_algorithm require_rsa_public_key
      signature_bytes signed_info_canonicalized
  verify s certificate =
      let name = s.signed_info.signature_method.algorithm in
      do
        require_exclusive_canonicalization s.signed_info.canonicalization_method.algorithm
        algorithm ← require (signature_algorithm name) (unsupported_signature_algorithm name)
        require_rsa_public_key certificate name
        signature ← signature_bytes s
        ensure
            (c.rsa_verify certificate algorithm signature (signed_info_canonicalized s.signed_info))
            invalid_signature
