-- ===== src/Errors/Attributes.antt =====
-- What each class of as4/errors.py declares beside its detail.
use as_lib.Base.{String, Option, none, some}
use as_lib.Errors.{
  ErrorFamily, ErrorClass, family_of, feature_not_supported, value_inconsistent, profile_level,
  mime_inconsistency, invalid_header, decompression_failure, failed_authentication,
  encrypted_data_reference, policy_noncompliance, peppol_sbdh, peppol_party_identifier,
  peppol_not_serviced,
}

unfoldable pub family_code : ErrorFamily → String
family_code feature_not_supported = "EBMS:0002"
family_code value_inconsistent = "EBMS:0003"
family_code profile_level = "EBMS:0004"
family_code mime_inconsistency = "EBMS:0007"
family_code invalid_header = "EBMS:0009"
family_code decompression_failure = "EBMS:0303"
family_code failed_authentication = "EBMS:0101"
family_code encrypted_data_reference = "EBMS:0102"
family_code policy_noncompliance = "EBMS:0103"

unfoldable pub family_short_description : ErrorFamily → String
family_short_description feature_not_supported = "FeatureNotSupported"
family_short_description value_inconsistent = "ValueInconsistent"
family_short_description profile_level = "Other"
family_short_description mime_inconsistency = "MimeInconsistency"
family_short_description invalid_header = "InvalidHeader"
family_short_description decompression_failure = "DecompressionFailure"
family_short_description failed_authentication = "FailedAuthentication"
family_short_description encrypted_data_reference = "FailedDecryption"
family_short_description policy_noncompliance = "PolicyNoncompliance"

unfoldable pub severity : ErrorFamily → String
severity feature_not_supported = "warning"
severity value_inconsistent = "failure"
severity profile_level = "failure"
severity mime_inconsistency = "failure"
severity invalid_header = "failure"
severity decompression_failure = "failure"
severity failed_authentication = "failure"
severity encrypted_data_reference = "failure"
severity policy_noncompliance = "failure"

unfoldable pub category : ErrorFamily → String
category feature_not_supported = "Content"
category value_inconsistent = "Content"
category profile_level = "Content"
category mime_inconsistency = "Unpackaging"
category invalid_header = "Unpackaging"
category decompression_failure = "Communication"
category failed_authentication = "Processing"
category encrypted_data_reference = "Processing"
category policy_noncompliance = "Processing"

-- `BaseProfileLevelException` declares no description: its subclasses do.
unfoldable pub family_description : ErrorFamily → Option String
family_description feature_not_supported =
    some
      "Although the message document is well formed and schema valid, some element/attribute value cannot be processed as expected because the related feature is not supported by the MSH."
family_description value_inconsistent =
    some
      "Although the message document is well formed and schema valid, some element/attribute value is inconsistent either with the content of other element/attribute, or with the processing mode of the MSH, or with the normative requirements of the ebMS specification."
family_description profile_level = none
family_description mime_inconsistency =
    some "The use of MIME is not consistent with the required usage in this specification."
family_description invalid_header =
    some
      "The ebMS header is either not valid against the ebMS packaging rules, or not conform to the processing mode of the MSH."
family_description decompression_failure = some "An error occurred during the decompression."
family_description failed_authentication =
    some
      "The signature in the Security header intended for the \"ebms\" SOAP actor, could not be validated by the Security module."
family_description encrypted_data_reference =
    some
      "The encrypted data reference the Security header intended for the \"ebms\" SOAP actor could not be decrypted by the Security Module."
family_description policy_noncompliance =
    some
      "The processor determined that the message's security methods, parameters, scope or other security policy-level requirements or agreements were not satisfied."

unfoldable pub description : ErrorClass → Option String
unfolding family_description family_of
description peppol_sbdh = some "Undefined SBDH error"
description peppol_party_identifier = some "Party identifier does not follow the Peppol AS4 profile"
description peppol_not_serviced =
    some "The addressed participant is not serviced by this access point"
description c = family_description (family_of c)

unfoldable pub error_code : ErrorClass → String
unfolding family_code family_of
error_code c = family_code (family_of c)

unfoldable pub short_description : ErrorClass → String
unfolding family_short_description family_of
short_description c = family_short_description (family_of c)
