-- ===== src/Message/Coverage.antt =====
-- Which parts of a message its signature covers: `signature_coverage` and
-- `verify_signature_coverage` of as4/core/message.py.
pub mod Meaning
use as_lib.Base.{
  ℕ, ◌≤◌, ◌≡◌, ◌≢◌, refl, String, ◌<>◌, Bool, true, false, not, ◌&&◌, ◌||◌, Option, none, some,
  List, [], ◌∷◌, ◌++◌, ◌⊎◌, inl, inr, find, keep, take, drop, All, In, Any, length, contains,
  string_eq, option_eq, ◌==◌, if◌then◌else◌, arith, Bool-cases, Option-cases,
}
use as_lib.Base.Text.{starts_with, remove_prefix, nonempty}
use as_lib.Base.Sorting.{sorted}
use as_lib.Base.Dict
use as_lib.Base.Dict.{Dict}
use as_lib.Errors
use as_lib.Errors.{error_of}
use as_lib.Platform.{Bytes, Certificate, Crypto}
use as_lib.Etree.{Element, tag, index_elements_by_id}
use as_lib.Outcome.{
  Raised, Result, ok, err, require, ensure, ◌>>=◌, ◌>>◌, receiptable, unsupported_digest_algorithm,
  unsupported_transform, unsupported_signature_algorithm, unsupported_security_token_type,
  invalid_signature, untrusted_signer,
}
use as_lib.Models.Reference.{Reference}
use as_lib.Models.Signature.{Signature}
use as_lib.Models.Security.{Security}
use as_lib.Models.Soap.{Envelope}
use as_lib.Models.UserMessage.{PartyFrom, PartInfo, UserMessage}
use as_lib.Models.Tokens.{BinarySecurityToken, SecurityTokenReference}
use as_lib.Models.Xenc.{DataReference, EncryptedType}
use as_lib.Dsig.{or_empty, digest_matches, digest_matches_bytes}
use as_lib.Dsig.Verify.{verify}
use as_lib.Documents.{user_message, x509_certificate, get_encrypted_data, decompress}
use as_lib.Parties.{SecurityPolicy, As4ParseContext, As4PrivateKey}
use as_lib.Environment.{Environment, Xml, Schemas}
use as_lib.Message.{present, or_blank, As4Message, blank}

-- `COVERAGE_BY_TAG.get`
unfoldable pub coverage_by_tag : String → Option String
coverage_by_tag t =
    if t == "{http://docs.oasis-open.org/ebxml-msg/ebms/v3.0/ns/core/200704/}Messaging"
    then some "messaging"
    else if t == "{http://www.w3.org/2003/05/soap-envelope}Body"
    then some "body"
    else none

-- The two sets that the loop fills: the kinds covered, and the `cid:` references.
pub record Coverage : Type 0 where
  pub covered : List String
  pub signed_payloads : List String

unfoldable pub kind_of : Option Element → Option String
unfolding coverage_by_tag
kind_of none = none
kind_of (some target) = coverage_by_tag (tag target)

unfoldable pub cover : String → Option String → Coverage → Coverage
unfolding starts_with
cover uri kind c =
    if starts_with uri "cid:"
    then record c { signed_payloads = uri ∷ c.signed_payloads }
    else (elim kind [ none ↦ c | some k ↦ record c { covered = k ∷ c.covered } ])

unfoldable pub cover_all : Dict Element → List Reference → Coverage
unfolding cover kind_of Dict.get remove_prefix
cover_all elements [] = record { covered = []; signed_payloads = [] }
cover_all elements (r ∷ rest) =
    let uri = or_empty r.uri in
    cover uri (kind_of (Dict.get elements (remove_prefix uri "#"))) (cover_all elements rest)

-- `payload_hrefs <= signed_payloads`
unfoldable pub subset : List String → List String → Bool
subset [] ys = true
subset (x ∷ xs) ys = contains ys x && subset xs ys

unfoldable pub signature_coverage : Signature → Dict Element → List String → List String
unfolding cover_all subset
signature_coverage s elements payload_hrefs =
    let c = cover_all elements s.signed_info.references in
    if subset payload_hrefs c.signed_payloads then "payloads" ∷ c.covered else c.covered

-- `required_coverage - coverage`
unfoldable pub missing_coverage : List String → List String → List String
missing_coverage required coverage = keep (λ k. not (contains coverage k)) required

unfoldable pub refuse_missing : List String → Result (Unit {0})
unfolding sorted
refuse_missing [] = ok tt
refuse_missing (k ∷ ks) = err (receiptable (Errors.signature_coverage_error (sorted (k ∷ ks))))

unfoldable pub verify_signature_coverage :
    Signature → Dict Element → List String → List String → Result (Unit {0})
unfolding refuse_missing missing_coverage signature_coverage
verify_signature_coverage s elements payload_hrefs required_coverage =
    refuse_missing
      (missing_coverage required_coverage (signature_coverage s elements payload_hrefs))
