-- ===== src/Tests/Signatures.antt =====
-- A signed message and a signed receipt, their digests and their coverage.
use as_lib.Base.{◌≡◌, ◌↔◌, In, refl, true, false, none, some, [], ◌∷◌, All, string_eq, option_eq}
use as_lib.Base.Dict.{Dict, get}
use as_lib.Base.Text.{starts_with}
use as_lib.Etree.{Element, index_elements_by_id, id_attributes}
use as_lib.Etree.Index.{index_elements_by_id_lem, index_elements_by_id_total, Distinct}
use as_lib.Errors.{ReceiptableError, error_of, digest_mismatch}
use as_lib.Errors.Stored.{dump_parse_error, load_parse_error, loaded}
use as_lib.Errors.Stored.RoundTrip.{load_parse_error-dump_parse_error}
use as_lib.Outcome.{ok}
use as_lib.Dsig.{or_empty}
use as_lib.Message.Coverage.{verify_signature_coverage}
use as_lib.Message.Coverage.Meaning.{
  CoverageMeaning, Reaches, signature_coverage-CoverageMeaning, verify_signature_coverage_iff,
}
use as_lib.Message.Digests.{verify_reference_digests, verify_attachment_digests}
use as_lib.Message.Digests.Meaning.{
  ElementMatches, AttachmentMatches, verify_reference_digests_iff, verify_attachment_digests_iff,
}
use as_lib.Message.Signature.{get_verified_signature}
use as_lib.Message.Signature.Soundness.{
  SignedBy, get_verified_signature-SignedBy, get_verified_signature_unsigned,
}
use as_lib.Models.Security.{Security}
use as_lib.Receipt.Verification.{parse}
use as_lib.Receipt.Soundness.{Authentic, parse-Authentic}
use as_lib.Tests.Fixtures.{
  alice, signature, security, envelope, document, messaging_element, body_element,
}
use as_lib.Tests.Settings.{signal_envelope, environment, context, receipt_m1}

abbrev elements : Dict Element
elements = ("msg", messaging_element) ∷ ("body", body_element) ∷ []

get_verified_signature-SignedBy_example :
    SignedBy (environment envelope) context security envelope elements signature alice
unfolding get_verified_signature string_eq option_eq
get_verified_signature-SignedBy_example =
    get_verified_signature-SignedBy (environment envelope) context security envelope elements
      signature alice refl

abbrev unsigned : Security
unsigned = record security { signature = none }

get_verified_signature_unsigned_example :
    (get_verified_signature (environment envelope) context unsigned envelope elements
      ≡ ok (none, none))
    ↔ (unsigned.signature ≡ none) × (context.security_policy.sign_required ≡ false)
get_verified_signature_unsigned_example =
    get_verified_signature_unsigned (environment envelope) context unsigned envelope elements

parse-Authentic_example : Authentic (environment signal_envelope) [] alice receipt_m1
unfolding parse string_eq as_lib.Platform.certificate_eq native.Mathlib.Decide.ℕ_discrete option_eq
parse-Authentic_example = parse-Authentic (environment signal_envelope) [] alice receipt_m1 refl

signature_coverage-CoverageMeaning_example : CoverageMeaning signature elements []
signature_coverage-CoverageMeaning_example =
    signature_coverage-CoverageMeaning signature elements []

verify_signature_coverage_iff_example :
    (verify_signature_coverage signature elements [] ("messaging" ∷ []) ≡ ok tt)
    ↔ All (Reaches signature elements []) ("messaging" ∷ [])
verify_signature_coverage_iff_example =
    verify_signature_coverage_iff signature elements [] ("messaging" ∷ [])

verify_reference_digests_iff_example :
    (verify_reference_digests (environment envelope) signature elements ≡ ok tt)
    ↔ All
        (λ r.
          starts_with (or_empty r.uri) "cid:" ≡ false
          → ElementMatches (environment envelope) elements r)
        signature.signed_info.references
verify_reference_digests_iff_example =
    verify_reference_digests_iff (environment envelope) signature elements

verify_attachment_digests_iff_example :
    (verify_attachment_digests (environment envelope) signature [] ≡ ok tt)
    ↔ All
        (λ r.
          starts_with (or_empty r.uri) "cid:" ≡ true
          → AttachmentMatches (environment envelope) [] r)
        signature.signed_info.references
verify_attachment_digests_iff_example =
    verify_attachment_digests_iff (environment envelope) signature []

index_elements_by_id_lem_example :
    (get elements "msg" ≡ some messaging_element)
    ↔ In ("msg", messaging_element) (id_attributes document)
unfolding index_elements_by_id string_eq starts_with
index_elements_by_id_lem_example =
    index_elements_by_id_lem document elements "msg" messaging_element refl

index_elements_by_id_total_example :
    ((d : Dict Element) × (index_elements_by_id document ≡ ok d))
    ↔ Distinct (id_attributes document)
index_elements_by_id_total_example = index_elements_by_id_total document

abbrev mismatch : ReceiptableError
mismatch = error_of digest_mismatch ""

load_parse_error-dump_parse_error_example :
    load_parse_error (dump_parse_error mismatch) ≡ loaded mismatch
load_parse_error-dump_parse_error_example = load_parse_error-dump_parse_error mismatch
