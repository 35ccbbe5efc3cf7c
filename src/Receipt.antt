-- ===== src/Receipt.antt =====
-- `AS4Receipt` of as4/core/receipt.py: the signal, the reads of it, and the comparison of what it
-- acknowledges with what was sent. Its verification and its construction are in the child modules.
pub mod Verification
pub mod Signals
pub mod Build
pub mod NonRepudiation
pub mod Soundness
pub mod Answers
use as_lib.Base.{
  ℕ, ◌≤◌, ◌≡◌, ◌≢◌, refl, String, ◌<>◌, Bool, true, false, not, ◌&&◌, ◌||◌, Option, none, some,
  List, [], ◌∷◌, ◌++◌, ◌⊎◌, inl, inr, map, ◌↔◌, head?, find, keep, take, drop, All, In, Any, length,
  contains, string_eq, option_eq, ◌==◌, if◌then◌else◌, arith, Bool-cases, Option-cases,
}
use as_lib.Base.Text.{starts_with, remove_prefix, nonempty}
use as_lib.Base.Sorting.{sorted}
use as_lib.Base.Dict
use as_lib.Base.Dict.{Dict}
use as_lib.Errors
use as_lib.Errors.{error_of}
use as_lib.Platform.{Bytes, Certificate, Crypto}
use as_lib.Etree.{Element, tag, index_elements_by_id}
use as_lib.Outcome.{
  Raised, Result, ok, err, require, ensure, ◌>>=◌, ◌>>◌, receiptable, unsupported_digest_algorithm,
  unsupported_transform, unsupported_signature_algorithm, unsupported_security_token_type,
  invalid_signature, receipt_verification, xml_syntax, validation, value_error, bind, ReceiptFault,
  untrusted_signer,
}
use as_lib.Models.Reference.{Reference}
use as_lib.Models.Signature.{Signature}
use as_lib.Models.Security.{Security}
use as_lib.Models.Soap.{Envelope}
use as_lib.Models.UserMessage.{PartyFrom, PartInfo, UserMessage}
use as_lib.Models.Tokens.{BinarySecurityToken, SecurityTokenReference}
use as_lib.Models.Xenc.{DataReference, EncryptedType}
use as_lib.Dsig.{or_empty, digest_matches, digest_matches_bytes}
use as_lib.Dsig.Verify.{verify}
use as_lib.Documents.{user_message, x509_certificate, get_encrypted_data, decompress}
use as_lib.Parties.{SecurityPolicy, As4ParseContext, As4PrivateKey}
use as_lib.Environment.{Environment, Xml, Schemas}
use as_lib.Message.{present, or_blank, As4Message, blank, signature_references, signed_references}
use as_lib.Outcome
use as_lib.Dsig.{ComparableReferenceFields, from_reference, comparable_eq}
use as_lib.Models.SignalMessage.{SignalMessage, Error, Receipt, MessagePartNrInformation}
use as_lib.Documents.{signal_message}
use as_lib.References.{As4References}

pub record As4Receipt : Type 0 where
  pub soap_envelope : Option Envelope
  pub original_message_id : Option String
  pub references : Option As4References
  pub profile_name : Option String

-- `self.soap_envelope.header.messaging.signal_message`, where there is an envelope
unfoldable pub signal_of : As4Receipt → Result (Option SignalMessage)
unfolding signal_message
signal_of r = elim r.soap_envelope [
  | none ↦ ok none
  | some envelope ↦ signal_message envelope.header.messaging
]

unfoldable pub errors_in : Option SignalMessage → List Error
errors_in none = []
errors_in (some s) = s.errors

unfoldable pub receipt_in : Option SignalMessage → Option Receipt
receipt_in none = none
receipt_in (some s) = s.receipt

-- The property `errors`; reading a signal that bundles messages raises.
unfoldable pub errors : As4Receipt → Result (List Error)
unfolding signal_of errors_in
errors r = bind (signal_of r) (λ s. ok (errors_in s))

-- The property `error`.
unfoldable pub error : As4Receipt → Result (Option Error)
unfolding errors
error r = bind (errors r) (λ es. ok (head? es))

-- The property `receipt`.
unfoldable pub receipt : As4Receipt → Result (Option Receipt)
unfolding signal_of receipt_in
receipt r = bind (signal_of r) (λ s. ok (receipt_in s))

-- The property `success`: a model object is true.
unfoldable pub success : As4Receipt → Result Bool
unfolding receipt
success r = bind (receipt r) (λ found. ok (elim found [ none ↦ false | some _ ↦ true ]))

unfoldable pub fields_of_parts : List MessagePartNrInformation → List ComparableReferenceFields
unfolding from_reference
fields_of_parts [] = []
fields_of_parts (p ∷ rest) = map from_reference p.references ++ fields_of_parts rest

unfoldable pub acknowledged_by : Option Receipt → List ComparableReferenceFields
unfolding fields_of_parts
acknowledged_by none = []
acknowledged_by (some r) = elim r.non_repudiation_information [
  | none ↦ []
  | some i ↦ fields_of_parts i.message_part_nr_information
]

-- The property `non_repudiated_references`.
unfoldable pub non_repudiated_references : As4Receipt → Result (List ComparableReferenceFields)
unfolding receipt acknowledged_by
non_repudiated_references r = bind (receipt r) (λ found. ok (acknowledged_by found))

-- The first reference that is not in the list, if there is one, is what the loop raises for.
unfoldable pub require_each :
    (String → ReceiptFault)
    → List ComparableReferenceFields
    → List ComparableReferenceFields
    → Result (Unit {0})
require_each fault wanted [] = ok tt
require_each fault wanted (r ∷ rest) =
    let more = require_each fault wanted rest in
    if contains wanted r then more else err (receipt_verification (fault r.uri))

nonempty_requirement : Option (List ComparableReferenceFields) → Bool
nonempty_requirement none = true
nonempty_requirement (some []) = false
nonempty_requirement (some (_ ∷ _)) = true

-- `required_references if required_references is not None else sent_references`
abbrev pub required_or_sent :
    Option (List ComparableReferenceFields)
    → List ComparableReferenceFields
    → List ComparableReferenceFields
required_or_sent none sent = sent
required_or_sent (some required) sent = required

unfoldable pub verify_non_repudiation :
    As4Receipt
    → List ComparableReferenceFields
    → Option (List ComparableReferenceFields)
    → Result (Unit {0})
unfolding receipt non_repudiated_references nonempty_requirement require_each
verify_non_repudiation r sent required = bind (receipt r) λ found.
    bind (require found (receipt_verification Outcome.no_receipt)) λ _.
      bind (ensure (nonempty_requirement required) (receipt_verification Outcome.nothing_required))
        λ _. bind (non_repudiated_references r) λ acknowledged.
          bind (require_each Outcome.acknowledges_unsent sent acknowledged) λ _.
            require_each Outcome.does_not_acknowledge acknowledged (required_or_sent required sent)
