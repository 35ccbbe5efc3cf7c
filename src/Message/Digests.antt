-- ===== src/Message/Digests.antt =====
-- The digests of the references of a signature: `verify_reference_digests` and
-- `verify_attachment_digests` of as4/core/message.py.
pub mod Meaning
use as_lib.Base.{
  ℕ, ◌≤◌, ◌≡◌, ◌≢◌, refl, String, ◌<>◌, Bool, true, false, not, ◌&&◌, ◌||◌, Option, none, some,
  List, [], ◌∷◌, ◌++◌, ◌⊎◌, inl, inr, find, keep, take, drop, All, In, Any, length, contains,
  string_eq, option_eq, ◌==◌, if◌then◌else◌, arith, Bool-cases, Option-cases,
}
use as_lib.Base.Text.{starts_with, remove_prefix, nonempty}
use as_lib.Base.Sorting.{sorted}
use as_lib.Base.Dict
use as_lib.Base.Dict.{Dict}
use as_lib.Errors
use as_lib.Errors.{error_of}
use as_lib.Platform.{Bytes, Certificate, Crypto}
use as_lib.Etree.{Element, tag, index_elements_by_id}
use as_lib.Outcome.{
  Raised, Result, ok, err, require, ensure, ◌>>=◌, ◌>>◌, receiptable, unsupported_digest_algorithm,
  unsupported_transform, unsupported_signature_algorithm, unsupported_security_token_type,
  invalid_signature, untrusted_signer,
}
use as_lib.Models.Reference.{Reference}
use as_lib.Models.Signature.{Signature}
use as_lib.Models.Security.{Security}
use as_lib.Models.Soap.{Envelope}
use as_lib.Models.UserMessage.{PartyFrom, PartInfo, UserMessage}
use as_lib.Models.Tokens.{BinarySecurityToken, SecurityTokenReference}
use as_lib.Models.Xenc.{DataReference, EncryptedType}
use as_lib.Dsig.{or_empty, digest_matches, digest_matches_bytes}
use as_lib.Dsig.Verify.{verify}
use as_lib.Documents.{user_message, x509_certificate, get_encrypted_data, decompress}
use as_lib.Parties.{SecurityPolicy, As4ParseContext, As4PrivateKey}
use as_lib.Environment.{Environment, Xml, Schemas}
use as_lib.Message.{present, or_blank, As4Message, blank}

-- `except UnsupportedDigestAlgorithm` and `except UnsupportedTransform`
unfoldable pub refuse_unsupported : Result Bool → Result Bool
refuse_unsupported (ok matches) = ok matches
refuse_unsupported (err (unsupported_digest_algorithm a)) =
    err (receiptable (Errors.unsupported_digest_algorithm_error a))
refuse_unsupported (err (unsupported_transform a)) =
    err (receiptable (Errors.unsupported_transform_error a))
refuse_unsupported (err e) = err e

module _ (env : Environment) where
  -- One round of the loop of `verify_reference_digests`.
  unfoldable pub verify_reference_digest : Dict Element → Reference → Result (Unit {0})
  unfolding refuse_unsupported starts_with remove_prefix Dict.get digest_matches
  verify_reference_digest elements r =
      let uri = or_empty r.uri in
      if starts_with uri "cid:" then ok tt else (do
        target ←
            require (Dict.get elements (remove_prefix uri "#"))
              (receiptable (Errors.reference_target_not_found_error uri))
        matches ← refuse_unsupported (digest_matches env.crypto env.xml.c14n r target)
        ensure matches (receiptable (Errors.digest_mismatch_error uri)))

  unfoldable pub verify_each : List Reference → Dict Element → Result (Unit {0})
  unfolding verify_reference_digest
  verify_each [] elements = ok tt
  verify_each (r ∷ rest) elements = do verify_reference_digest elements r; verify_each rest elements

  unfoldable pub verify_reference_digests : Signature → Dict Element → Result (Unit {0})
  unfolding verify_each
  verify_reference_digests s elements = verify_each s.signed_info.references elements

  -- One round of the loop of `verify_attachment_digests`.
  unfoldable pub verify_attachment_digest : Dict Bytes → Reference → Result (Unit {0})
  unfolding refuse_unsupported starts_with remove_prefix Dict.get digest_matches_bytes
  verify_attachment_digest attachments r =
      let uri = or_empty r.uri in
      if starts_with uri "cid:"
      then (do
        content ←
            require (Dict.get attachments (remove_prefix uri "cid:"))
              (receiptable (Errors.reference_target_not_found_error uri))
        matches ← refuse_unsupported (digest_matches_bytes env.crypto env.xml.c14n r content)
        ensure matches (receiptable (Errors.digest_mismatch_error uri)))
      else ok tt

  unfoldable pub verify_each_attachment : List Reference → Dict Bytes → Result (Unit {0})
  unfolding verify_attachment_digest
  verify_each_attachment [] attachments = ok tt
  verify_each_attachment (r ∷ rest) attachments = do
    verify_attachment_digest attachments r
    verify_each_attachment rest attachments

  unfoldable pub verify_attachment_digests : Signature → Dict Bytes → Result (Unit {0})
  unfolding verify_each_attachment
  verify_attachment_digests s attachments =
      verify_each_attachment s.signed_info.references attachments
