-- ===== src/Receipt/Verification.antt =====
-- `AS4Receipt.parse`, `peek_original_message_id` and `verify_signature` of as4/core/receipt.py.
use as_lib.Base.{
  String, Bool, true, false, not, ◌&&◌, Option, none, some, List, [], ◌∷◌, contains, string_eq,
  option_eq, ◌==◌,
}
use as_lib.Base.Text.{remove_prefix, nonempty}
use as_lib.Base.Dict
use as_lib.Base.Dict.{Dict}
use as_lib.Platform.{Bytes, Certificate}
use as_lib.Etree.{Element, index_elements_by_id}
use as_lib.Outcome.{
  Raised, Result, ok, err, require, ensure, ◌>>=◌, ◌>>◌, receiptable, unsupported_digest_algorithm,
  unsupported_transform, unsupported_signature_algorithm, unsupported_security_token_type,
  invalid_signature, receipt_verification, xml_syntax, validation, value_error, bind, ReceiptFault,
  untrusted_signer,
}
use as_lib.Models.Reference.{Reference}
use as_lib.Models.Signature.{Signature}
use as_lib.Models.Security.{Security}
use as_lib.Models.Soap.{Envelope}
use as_lib.Dsig.{or_empty, digest_matches}
use as_lib.Dsig.Verify.{verify}
use as_lib.Documents.{x509_certificate}
use as_lib.Environment.{Environment}
use as_lib.Message.{present}
use as_lib.Outcome
use as_lib.Platform.{certificate_eq}
use as_lib.Models.Mapping.{model_validate_etree}
use as_lib.Models.SignalMessage.{SignalMessage}
use as_lib.Documents.{signal_message}
use as_lib.Message.Coverage.{signature_coverage}
use as_lib.Message.Signature.{token_uri, named_token}
use as_lib.Receipt.{As4Receipt, error}

-- `except (XMLSyntaxError, ValidationError, BaseAS4ReceiptableError)`
unfoldable pub readable : {A : Type 0} → Result A → Result A
readable (ok a) = ok a
readable (err xml_syntax) = err (receipt_verification Outcome.unreadable)
readable (err (validation first rest)) = err (receipt_verification Outcome.unreadable)
readable (err (receiptable e)) = err (receipt_verification Outcome.unreadable)
readable (err e) = err e

-- The handlers round `signature.verify`.
unfoldable pub unverifiable_signature : Result (Unit {0}) → Result (Unit {0})
unverifiable_signature (ok u) = ok u
unverifiable_signature (err invalid_signature) =
    err (receipt_verification Outcome.signature_does_not_verify)
unverifiable_signature (err (unsupported_signature_algorithm a)) =
    err (receipt_verification (Outcome.signature_not_verifiable a))
unverifiable_signature (err (unsupported_transform a)) =
    err (receipt_verification (Outcome.signature_not_verifiable a))
unverifiable_signature (err e) = err e

-- The handlers round `reference.digest_matches`.
unfoldable pub unverifiable_reference : String → Result Bool → Result Bool
unverifiable_reference uri (ok b) = ok b
unverifiable_reference uri (err (unsupported_digest_algorithm a)) =
    err (receipt_verification (Outcome.reference_not_verifiable uri a))
unverifiable_reference uri (err (unsupported_transform a)) =
    err (receipt_verification (Outcome.reference_not_verifiable uri a))
unverifiable_reference uri (err e) = err e

-- `signal_message.message_info.ref_to_message_id.value`, where it is there
unfoldable pub original_id : Option SignalMessage → Option String
original_id none = none
original_id (some s) = elim s.message_info.ref_to_message_id [ none ↦ none | some r ↦ some r.value ]

unfoldable pub no_error : As4Receipt → Result Bool
unfolding error
no_error r = bind (error r) (λ e. ok (elim e [ none ↦ true | some _ ↦ false ]))

module _ (env : Environment) where
  -- The certificate of the token that the signature names: the generator's `x509_certificate` is
  -- read outside any handler.
  unfoldable pub embedded_certificate : Security → Signature → Result Certificate
  unfolding token_uri named_token x509_certificate
  embedded_certificate security s = elim (token_uri s.key_info.security_token_reference) [
    | none ↦ err (receipt_verification Outcome.no_security_token)
    | some uri ↦ (elim (named_token security.binary_security_tokens uri) [
      | none ↦ err (receipt_verification Outcome.no_security_token)
      | some token ↦ x509_certificate env.crypto token
    ])
  ]

  -- One round of the loop over the references.
  unfoldable pub verify_receipt_reference : Dict Element → Reference → Result (Unit {0})
  unfolding unverifiable_reference digest_matches Dict.get remove_prefix
  verify_receipt_reference elements r = do
    let uri = or_empty r.uri
    target ←
        require (Dict.get elements (remove_prefix uri "#"))
          (receipt_verification (Outcome.reference_not_in_document uri))
    matches ← unverifiable_reference uri (digest_matches env.crypto env.xml.c14n r target)
    ensure matches (receipt_verification (Outcome.receipt_digest_mismatch uri))

  unfoldable pub verify_receipt_references : List Reference → Dict Element → Result (Unit {0})
  unfolding verify_receipt_reference
  verify_receipt_references [] elements = ok tt
  verify_receipt_references (r ∷ rest) elements = do
    verify_receipt_reference elements r
    verify_receipt_references rest elements

  -- The part of `verify_signature` that reads the elements.
  unfoldable pub verify_covered : Element → Signature → Result (Unit {0})
  unfolding index_elements_by_id signature_coverage verify_receipt_references
  verify_covered e s = do
    elements ← index_elements_by_id e
    ensure (contains (signature_coverage s elements []) "messaging")
        (receipt_verification Outcome.messaging_not_covered)
    verify_receipt_references s.signed_info.references elements

  unfoldable pub verify_signature : As4Receipt → Element → Certificate → Result (Unit {0})
  unfolding embedded_certificate unverifiable_signature verify verify_covered
  verify_signature r e expected_signer = do
    envelope ← require r.soap_envelope (receipt_verification Outcome.no_soap_envelope)
    let security = envelope.header.security
    s ← require security.signature (receipt_verification Outcome.no_signature)
    embedded ← embedded_certificate security s
    ensure (embedded == expected_signer)
        (receipt_verification (Outcome.wrong_signer embedded expected_signer))
    unverifiable_signature (verify env.crypto env.xml.c14n s expected_signer)
    verify_covered e s

  -- The body of the first `try` of `parse`.
  unfoldable pub read_signal : Bytes → Result (Element × Envelope × Option SignalMessage)
  unfolding model_validate_etree signal_message
  read_signal receipt_data = do
    e ← require (env.xml.parse_xml receipt_data) xml_syntax
    envelope ← model_validate_etree env.schemas.envelope e
    signal ← signal_message envelope.header.messaging
    ok (e, envelope, signal)

  unfoldable pub parse : Bytes → Certificate → Result As4Receipt
  unfolding read_signal readable original_id no_error verify_signature nonempty
  parse receipt_data expected_signer = do
    read ← readable (read_signal receipt_data)
    let original = original_id read.2
    let r : As4Receipt = record {
      soap_envelope = some read.1;
      original_message_id = original;
      references = none;
      profile_name = none;
    }
    accepted ← no_error r
    ensure (not (accepted && not (present original)))
        (receipt_verification Outcome.no_ref_to_message_id)
    verify_signature r read.0 expected_signer
    ok r

  unfoldable pub peek_original_message_id : Bytes → Option String
  peek_original_message_id signal_data = elim (env.xml.parse_xml signal_data) [
    | none ↦ none
    | some e ↦
        env.xml.findtext e
          "S12:Header/eb3:Messaging/eb3:SignalMessage/eb3:MessageInfo/eb3:RefToMessageId"
  ]
