-- ===== src/Errors.antt =====
-- The receiptable errors of as4/errors.py and as4/profiles/peppol/exceptions.py: an error is its
-- class and its detail text, and what the class declares is a function of the class. The abstract
-- root is left out, since it has no instances.
pub mod Attributes
pub mod Stored
use as_lib.Base.{String, ◌<>◌, List, if◌then◌else◌}
use as_lib.Base.Text.{nonempty, join}

-- The direct subclasses of `BaseAS4ReceiptableError`, each with an error code of its own.
pub data ErrorFamily : Type 0 where
  feature_not_supported : ErrorFamily
  value_inconsistent : ErrorFamily
  profile_level : ErrorFamily
  mime_inconsistency : ErrorFamily
  invalid_header : ErrorFamily
  decompression_failure : ErrorFamily
  failed_authentication : ErrorFamily
  encrypted_data_reference : ErrorFamily
  policy_noncompliance : ErrorFamily

-- The classes below the root: a family's own class, or one of its subclasses.
pub data ErrorClass : Type 0 where
  base : ErrorFamily → ErrorClass
  bundled_messages_not_supported : ErrorClass
  user_message_not_found : ErrorClass
  payload_info_not_found : ErrorClass
  messaging_not_found : ErrorClass
  message_id_not_found : ErrorClass
  party_to_not_found : ErrorClass
  part_info_without_mime_part : ErrorClass
  duplicate_header_element : ErrorClass
  malformed_soap_envelope : ErrorClass
  soap_part_not_found : ErrorClass
  payload_part_not_found : ErrorClass
  decompression_failed : ErrorClass
  decompressed_payload_too_large : ErrorClass
  digest_mismatch : ErrorClass
  reference_target_not_found : ErrorClass
  duplicate_element_id : ErrorClass
  signature_security_token_reference_not_found : ErrorClass
  signature_coverage : ErrorClass
  untrusted_signer : ErrorClass
  signature_verification_failed : ErrorClass
  encrypted_data_reference_not_found : ErrorClass
  encrypted_data_not_found : ErrorClass
  cipher_value_not_found : ErrorClass
  cipher_reference_not_found : ErrorClass
  encrypted_attachment_not_found : ErrorClass
  decryption_failed : ErrorClass
  signature_required : ErrorClass
  encryption_required : ErrorClass
  unsupported_security_token_type : ErrorClass
  unsupported_signature_algorithm : ErrorClass
  unsupported_encryption_algorithm : ErrorClass
  unsupported_transform : ErrorClass
  unsupported_digest_algorithm : ErrorClass
  peppol_sbdh : ErrorClass
  peppol_party_identifier : ErrorClass
  peppol_not_serviced : ErrorClass

unfoldable pub family_of : ErrorClass → ErrorFamily
family_of (base f) = f
family_of bundled_messages_not_supported = feature_not_supported
family_of user_message_not_found = value_inconsistent
family_of payload_info_not_found = value_inconsistent
family_of messaging_not_found = value_inconsistent
family_of message_id_not_found = value_inconsistent
family_of party_to_not_found = value_inconsistent
family_of part_info_without_mime_part = mime_inconsistency
family_of duplicate_header_element = invalid_header
family_of malformed_soap_envelope = invalid_header
family_of soap_part_not_found = invalid_header
family_of payload_part_not_found = invalid_header
family_of decompression_failed = decompression_failure
family_of decompressed_payload_too_large = decompression_failure
family_of digest_mismatch = failed_authentication
family_of reference_target_not_found = failed_authentication
family_of duplicate_element_id = failed_authentication
family_of signature_security_token_reference_not_found = failed_authentication
family_of signature_coverage = failed_authentication
family_of untrusted_signer = failed_authentication
family_of signature_verification_failed = failed_authentication
family_of encrypted_data_reference_not_found = encrypted_data_reference
family_of encrypted_data_not_found = encrypted_data_reference
family_of cipher_value_not_found = encrypted_data_reference
family_of cipher_reference_not_found = encrypted_data_reference
family_of encrypted_attachment_not_found = encrypted_data_reference
family_of decryption_failed = encrypted_data_reference
family_of signature_required = policy_noncompliance
family_of encryption_required = policy_noncompliance
family_of unsupported_security_token_type = policy_noncompliance
family_of unsupported_signature_algorithm = policy_noncompliance
family_of unsupported_encryption_algorithm = policy_noncompliance
family_of unsupported_transform = policy_noncompliance
family_of unsupported_digest_algorithm = policy_noncompliance
family_of peppol_sbdh = profile_level
family_of peppol_party_identifier = profile_level
family_of peppol_not_serviced = profile_level

-- The class attribute `detail`.
unfoldable pub default_detail : ErrorClass → String
default_detail bundled_messages_not_supported = "eb:Messaging bundles more than one message"
default_detail user_message_not_found = "Missing UserMessage in ebMS Messaging header"
default_detail payload_info_not_found = "Missing PayloadInfo in UserMessage"
default_detail duplicate_header_element = "A header element permitted once appears more than once"
default_detail malformed_soap_envelope = "SOAP part is not well-formed XML"
default_detail soap_part_not_found = "Message carries no readable application/soap+xml part"
default_detail payload_part_not_found = "Message carries no readable application/octet-stream part"
default_detail decompression_failed = "Payload is not valid gzip"
default_detail decompressed_payload_too_large =
    "Decompressed payload exceeds the configured maximum size"
default_detail signature_security_token_reference_not_found =
    "Missing or empty SecurityTokenReference URI for Signature"
default_detail untrusted_signer = "Signing certificate rejected"
default_detail signature_verification_failed =
    "Signature does not verify against the signing certificate"
default_detail encrypted_data_reference_not_found =
    "Error processing the WSSecurity Header, cannot find a reference to the encrypted data"
default_detail cipher_value_not_found =
    "Error processing the WSSecurity Header, missing xenc:CipherData / xenc:CipherValue from EncryptedKey"
default_detail cipher_reference_not_found =
    "Error processing the WSSecurity Header, missing xenc:CipherData / xenc:CipherReference from EncryptedData"
default_detail decryption_failed = "Could not decrypt the message payload"
default_detail signature_required =
    "SecurityPolicy requires a signature and the message carries no ds:Signature"
default_detail encryption_required =
    "SecurityPolicy requires encryption and the message carries no xenc:EncryptedKey"
default_detail peppol_not_serviced = "PEPPOL:NOT_SERVICED"
default_detail _ = ""

pub record ReceiptableError : Type 0 where
  pub class : ErrorClass
  pub detail : String

-- `BaseAS4ReceiptableError.__init__`: an empty detail falls back to the class's.
unfoldable pub error_of : ErrorClass → String → ReceiptableError
unfolding default_detail nonempty
error_of c detail = record {
  class = c;
  detail = if nonempty detail then detail else default_detail c;
}

-- The constructors that compute their detail.
abbrev pub part_info_without_mime_part_error : String → ReceiptableError
part_info_without_mime_part_error href =
    error_of part_info_without_mime_part
      ("eb:PartInfo/@href " <> href <> " names no MIME part in the message")

abbrev pub digest_mismatch_error : String → ReceiptableError
digest_mismatch_error uri =
    error_of digest_mismatch ("Digest mismatch for signature reference " <> uri)

abbrev pub reference_target_not_found_error : String → ReceiptableError
reference_target_not_found_error uri =
    error_of reference_target_not_found ("Cannot resolve signature reference " <> uri)

abbrev pub duplicate_element_id_error : String → ReceiptableError
duplicate_element_id_error identifier =
    error_of duplicate_element_id ("Duplicate element id " <> identifier)

abbrev pub signature_coverage_error : List String → ReceiptableError
signature_coverage_error missing =
    error_of signature_coverage ("Signature does not cover " <> join ", " missing)

abbrev pub encrypted_data_not_found_error : String → ReceiptableError
encrypted_data_not_found_error encrypted_data_uri = error_of encrypted_data_not_found (
    "Error processing the WSSecurity Header, cannot find the EncryptedData with the reference "
    <> encrypted_data_uri <> ".")

abbrev pub encrypted_attachment_not_found_error : String → ReceiptableError
encrypted_attachment_not_found_error attachment_id =
    error_of encrypted_attachment_not_found
      ("Error processing the WSSecurity Header, no MIME attachment matches cid:" <> attachment_id)

abbrev pub unsupported_security_token_type_error : String → ReceiptableError
unsupported_security_token_type_error value_type =
    error_of unsupported_security_token_type
      ("Unsupported security token value type " <> value_type)

abbrev pub unsupported_signature_algorithm_error : String → ReceiptableError
unsupported_signature_algorithm_error algorithm =
    error_of unsupported_signature_algorithm ("Unsupported signature algorithm " <> algorithm)

abbrev pub unsupported_encryption_algorithm_error : String → ReceiptableError
unsupported_encryption_algorithm_error algorithm =
    error_of unsupported_encryption_algorithm ("Unsupported encryption algorithm " <> algorithm)

abbrev pub unsupported_transform_error : String → ReceiptableError
unsupported_transform_error algorithm =
    error_of unsupported_transform ("Unsupported transform " <> algorithm)

abbrev pub unsupported_digest_algorithm_error : String → ReceiptableError
unsupported_digest_algorithm_error algorithm =
    error_of unsupported_digest_algorithm ("Unsupported digest algorithm " <> algorithm)
