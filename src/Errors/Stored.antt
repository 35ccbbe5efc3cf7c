-- ===== src/Errors/Stored.antt =====
-- Errors as they are stored: `dump_parse_error` and `load_parse_error` of as4/core/serialisation.py.
pub mod RoundTrip
use as_lib.Base.{
  String, Option, none, some, List, [], ◌∷◌, map, ◌==◌, string_eq, if◌then◌else◌, find,
}
use as_lib.Errors.{
  ErrorFamily, ErrorClass, base, ReceiptableError, feature_not_supported, value_inconsistent,
  profile_level, mime_inconsistency, invalid_header, decompression_failure, failed_authentication,
  encrypted_data_reference, policy_noncompliance, bundled_messages_not_supported,
  user_message_not_found, payload_info_not_found, messaging_not_found, message_id_not_found,
  party_to_not_found, part_info_without_mime_part, duplicate_header_element,
  malformed_soap_envelope, soap_part_not_found, payload_part_not_found, decompression_failed,
  decompressed_payload_too_large, digest_mismatch, reference_target_not_found, duplicate_element_id,
  signature_security_token_reference_not_found, signature_coverage, untrusted_signer,
  signature_verification_failed, encrypted_data_reference_not_found, encrypted_data_not_found,
  cipher_value_not_found, cipher_reference_not_found, encrypted_attachment_not_found,
  decryption_failed, signature_required, encryption_required, unsupported_security_token_type,
  unsupported_signature_algorithm, unsupported_encryption_algorithm, unsupported_transform,
  unsupported_digest_algorithm, peppol_sbdh, peppol_party_identifier, peppol_not_serviced,
}

-- `error.__name__`
unfoldable pub class_name : ErrorClass → String
class_name (base feature_not_supported) = "BaseFeatureNotSupportedException"
class_name (base value_inconsistent) = "BaseValueInconsistentException"
class_name (base profile_level) = "BaseProfileLevelException"
class_name (base mime_inconsistency) = "BaseMimeInconsistencyException"
class_name (base invalid_header) = "BaseInvalidHeaderException"
class_name (base decompression_failure) = "BaseDecompressionFailureException"
class_name (base failed_authentication) = "BaseFailedAuthenticationException"
class_name (base encrypted_data_reference) = "BaseEncryptedDataReferenceException"
class_name (base policy_noncompliance) = "BasePolicyNoncomplianceException"
class_name bundled_messages_not_supported = "BundledMessagesNotSupportedException"
class_name user_message_not_found = "UserMessageNotFoundException"
class_name payload_info_not_found = "PayloadInfoNotFoundException"
class_name messaging_not_found = "MessagingNotFoundException"
class_name message_id_not_found = "MessageIdNotFoundException"
class_name party_to_not_found = "PartyToNotFoundException"
class_name part_info_without_mime_part = "PartInfoWithoutMimePartException"
class_name duplicate_header_element = "DuplicateHeaderElementException"
class_name malformed_soap_envelope = "MalformedSoapEnvelopeException"
class_name soap_part_not_found = "SoapPartNotFoundException"
class_name payload_part_not_found = "PayloadPartNotFoundException"
class_name decompression_failed = "DecompressionFailedException"
class_name decompressed_payload_too_large = "DecompressedPayloadTooLargeException"
class_name digest_mismatch = "DigestMismatchException"
class_name reference_target_not_found = "ReferenceTargetNotFoundException"
class_name duplicate_element_id = "DuplicateElementIdException"
class_name signature_security_token_reference_not_found =
    "SignatureSecurityTokenReferenceNotFoundException"
class_name signature_coverage = "SignatureCoverageException"
class_name untrusted_signer = "UntrustedSignerException"
class_name signature_verification_failed = "SignatureVerificationFailedException"
class_name encrypted_data_reference_not_found = "EncryptedDataReferenceNotFoundException"
class_name encrypted_data_not_found = "EncryptedDataNotFoundException"
class_name cipher_value_not_found = "CipherValueNotFoundException"
class_name cipher_reference_not_found = "CipherReferenceNotFoundException"
class_name encrypted_attachment_not_found = "EncryptedAttachmentNotFoundException"
class_name decryption_failed = "DecryptionFailedException"
class_name signature_required = "SignatureRequiredException"
class_name encryption_required = "EncryptionRequiredException"
class_name unsupported_security_token_type = "UnsupportedSecurityTokenTypeException"
class_name unsupported_signature_algorithm = "UnsupportedSignatureAlgorithmException"
class_name unsupported_encryption_algorithm = "UnsupportedEncryptionAlgorithmException"
class_name unsupported_transform = "UnsupportedTransformException"
class_name unsupported_digest_algorithm = "UnsupportedDigestAlgorithmException"
class_name peppol_sbdh = "PeppolSBDHException"
class_name peppol_party_identifier = "PeppolPartyIdentifierException"
class_name peppol_not_serviced = "PeppolNotServicedException"

-- `descendants(BaseAS4ReceiptableError)`: each family's class, then its subclasses. Those of the
-- Peppol profile are there once its module is imported, which `as4.peppol` does.
abbrev pub descendants : List ErrorClass
descendants =
    base feature_not_supported
    ∷ bundled_messages_not_supported
    ∷ base value_inconsistent
    ∷ user_message_not_found
    ∷ payload_info_not_found
    ∷ messaging_not_found
    ∷ message_id_not_found
    ∷ party_to_not_found
    ∷ base profile_level
    ∷ peppol_sbdh
    ∷ peppol_party_identifier
    ∷ peppol_not_serviced
    ∷ base mime_inconsistency
    ∷ part_info_without_mime_part
    ∷ base invalid_header
    ∷ duplicate_header_element
    ∷ malformed_soap_envelope
    ∷ soap_part_not_found
    ∷ payload_part_not_found
    ∷ base decompression_failure
    ∷ decompression_failed
    ∷ decompressed_payload_too_large
    ∷ base failed_authentication
    ∷ digest_mismatch
    ∷ reference_target_not_found
    ∷ duplicate_element_id
    ∷ signature_security_token_reference_not_found
    ∷ signature_coverage
    ∷ untrusted_signer
    ∷ signature_verification_failed
    ∷ base encrypted_data_reference
    ∷ encrypted_data_reference_not_found
    ∷ encrypted_data_not_found
    ∷ cipher_value_not_found
    ∷ cipher_reference_not_found
    ∷ encrypted_attachment_not_found
    ∷ decryption_failed
    ∷ base policy_noncompliance
    ∷ signature_required
    ∷ encryption_required
    ∷ unsupported_security_token_type
    ∷ unsupported_signature_algorithm
    ∷ unsupported_encryption_algorithm
    ∷ unsupported_transform
    ∷ unsupported_digest_algorithm
    ∷ []

pub record StoredError : Type 0 where
  pub type : String
  pub detail : String

-- `load_parse_error` returns a value that is no dict as it is, and refuses an unknown name.
pub data Loaded : Type 0 where
  loaded : ReceiptableError → Loaded
  unknown_receiptable : String → Loaded

-- `BaseAS4ReceiptableError.from_stored` goes round `__init__`.
unfoldable pub from_stored : ErrorClass → String → ReceiptableError
from_stored c detail = record { class = c; detail = detail }

unfoldable pub dump_parse_error : ReceiptableError → StoredError
unfolding class_name
dump_parse_error e = record { type = class_name e.class; detail = e.detail }

class_named : String → List ErrorClass → Option ErrorClass
unfolding class_name
class_named name = find (λ c. class_name c == name)

unfoldable pub load_parse_error : StoredError → Loaded
unfolding class_named from_stored
load_parse_error s = elim (class_named s.type descendants) [
  | none ↦ unknown_receiptable s.type
  | some c ↦ loaded (from_stored c s.detail)
]
