-- ===== src/Peppol.antt =====
-- `PeppolAS4Message` of as4/profiles/peppol/message.py, its parsing side: the party identifiers, the
-- SBDH of the first attachment, and the participants that it names.
pub mod DocumentIdentifier
pub mod Build
pub mod Profile
pub mod Process
pub mod Agreement
pub mod Routing
use as_lib.Base.{
  ℕ, ◌≤◌, ◌≡◌, ◌≢◌, refl, String, ◌<>◌, Bool, true, false, not, ◌&&◌, ◌||◌, Option, none, some,
  List, [], ◌∷◌, ◌++◌, ◌⊎◌, inl, inr, find, keep, take, drop, All, In, Any, length, contains,
  string_eq, option_eq, ◌==◌, if◌then◌else◌, arith, Bool-cases, Option-cases,
}
use as_lib.Base.Text.{starts_with, remove_prefix, nonempty}
use as_lib.Base.Sorting.{sorted}
use as_lib.Base.Dict
use as_lib.Base.Dict.{Dict}
use as_lib.Errors
use as_lib.Errors.{error_of}
use as_lib.Platform.{Bytes, Certificate, Crypto}
use as_lib.Etree.{Element, tag, index_elements_by_id}
use as_lib.Outcome.{
  Raised, Result, ok, err, require, ensure, receiptable, unsupported_digest_algorithm,
  unsupported_transform, unsupported_signature_algorithm, unsupported_security_token_type,
  invalid_signature, untrusted_signer,
}
use as_lib.Models.Reference.{Reference}
use as_lib.Models.Signature.{Signature}
use as_lib.Models.Security.{Security}
use as_lib.Models.Soap.{Envelope}
use as_lib.Models.UserMessage.{PartyFrom, PartInfo, UserMessage}
use as_lib.Models.Tokens.{BinarySecurityToken, SecurityTokenReference}
use as_lib.Models.Xenc.{DataReference, EncryptedType}
use as_lib.Dsig.{or_empty, digest_matches, digest_matches_bytes}
use as_lib.Dsig.Verify.{verify}
use as_lib.Documents.{user_message, x509_certificate, get_encrypted_data, decompress}
use as_lib.Parties.{SecurityPolicy, As4ParseContext, As4PrivateKey}
use as_lib.Environment.{Environment, Xml, Schemas}
use as_lib.Message.{present, or_blank, As4Message, blank, signature_references, signed_references}
use as_lib.Base.Repr.{repr}
use as_lib.Outcome.{validation, participant_not_serviced, xml_syntax, bind}
use as_lib.Outcome.Validation.{from_pydantic_error}
use as_lib.Outcome.Exec.{Exec, lift, modify, continue, ◌>>=◌, ◌>>◌}
use as_lib.Models.Mapping.{model_validate_etree}
use as_lib.Models.UserMessage.{MessageProperties, Property, PartyInfo, PartyId}
use as_lib.Models.Sbdh.{Identifier, Scope, StandardBusinessDocument, StandardBusinessDocumentHeader}
use as_lib.Documents.{original_sender, final_recipient}
use as_lib.Message.Process.{process}
use as_lib.Message.Parse.{MessageClass}
use as_lib.Parties.{ParticipantAcceptor}

pub record PeppolAs4Message : Type 0 where
  pub as4 : As4Message
  pub open as4 use *
  pub sender : Option String
  pub recipient : Option String
  pub document_type_identifier_value : Option String
  pub document_type_identifier_scheme : Option String
  pub process_identifier : Option String

-- `PeppolAS4Message()`
abbrev pub blank_peppol : PeppolAs4Message
blank_peppol = record {
  as4 = blank;
  sender = none;
  recipient = none;
  document_type_identifier_value = none;
  document_type_identifier_scheme = none;
  process_identifier = none;
}

abbrev pub peppol_party_identifier_type : String
peppol_party_identifier_type = "urn:fdc:peppol.eu:2017:identifiers:ap"

abbrev sbdh_error : String → Raised
sbdh_error detail = receiptable (error_of Errors.peppol_sbdh detail)

-- `{text!r}` of an optional text
unfoldable pub repr_of : Option String → String
unfolding repr
repr_of none = "None"
repr_of (some s) = repr s

-- `PeppolPartyIdentifierException(element, scheme)`
abbrev party_identifier_error : String → Option String → Raised
party_identifier_error element scheme = receiptable (
    error_of Errors.peppol_party_identifier (
      "PartyInfo/"
      <> element
      <> "/PartyId/@type must be "
      <> peppol_party_identifier_type
      <> ", not "
      <> repr_of scheme))

unfoldable pub check_party : String → PartyId → Result (Unit {0})
unfolding repr_of
check_party element id =
    ensure (id.type_value == some peppol_party_identifier_type)
      (party_identifier_error element id.type_value)

-- `envelope.header.messaging.user_message`, where there is an envelope
unfoldable pub user_message_of : Option Envelope → Result (Option UserMessage)
unfolding user_message
user_message_of none = ok none
user_message_of (some envelope) = user_message envelope.header.messaging

unfoldable pub verify_party_identifiers : Option Envelope → Result (Unit {0})
unfolding user_message_of check_party
verify_party_identifiers envelope = bind (user_message_of envelope) λ found.
    bind (require found (receiptable (error_of Errors.user_message_not_found ""))) λ um.
      bind (check_party "From" um.party_info.party_from.party_id)
        λ _. check_party "To" um.party_info.party_to.party_id

-- One round of the loop of `verify_participants_agree`.
unfoldable pub verify_participant : String → Option Property → Identifier → Result (Unit {0})
unfolding repr_of
verify_participant name none i =
    err
      (sbdh_error ("SBDH names " <> repr i.value <> " where the " <> name <> " property is absent"))
verify_participant name (some declared) i =
    ensure (declared.value == i.value && declared.property_type == i.authority) (
      sbdh_error (
        "SBDH names "
        <> repr i.value
        <> " under "
        <> repr_of i.authority
        <> " where the "
        <> name
        <> " property names "
        <> repr declared.value
        <> " under "
        <> repr_of declared.property_type))

unfoldable pub declared_sender : Option MessageProperties → Option Property
unfolding original_sender
declared_sender ps = elim ps [ none ↦ none | some p ↦ original_sender p ]

unfoldable pub declared_recipient : Option MessageProperties → Option Property
unfolding final_recipient
declared_recipient ps = elim ps [ none ↦ none | some p ↦ final_recipient p ]

unfoldable pub verify_participants_agree :
    Option MessageProperties → Identifier → Identifier → Result (Unit {0})
unfolding verify_participant declared_sender declared_recipient
verify_participants_agree properties sender recipient =
    bind (verify_participant "originalSender" (declared_sender properties) sender)
      λ _. verify_participant "finalRecipient" (declared_recipient properties) recipient

-- `except ParticipantNotServicedError`
unfoldable pub refuse_not_serviced : Result (Unit {0}) → Result (Unit {0})
refuse_not_serviced (ok u) = ok u
refuse_not_serviced (err participant_not_serviced) =
    err (receiptable (error_of Errors.peppol_not_serviced ""))
refuse_not_serviced (err e) = err e

unfoldable pub accept_recipient : Option ParticipantAcceptor → String → Result (Unit {0})
unfolding refuse_not_serviced
accept_recipient none recipient = ok tt
accept_recipient (some accept) recipient = refuse_not_serviced (accept recipient)

-- `{scope.scope_type.value: scope for scope in scopes}`: the last scope of a type.
unfoldable pub scope_of : String → List Scope → Option Scope
scope_of name [] = none
scope_of name (s ∷ rest) = elim (scope_of name rest) [
  | some later ↦ some later
  | none ↦ if s.scope_type.value == name then some s else none
]

abbrev pub mandatory_scopes : List String
mandatory_scopes = "PROCESSID" ∷ "DOCUMENTID" ∷ "COUNTRY_C1" ∷ []

unfoldable pub has_scope : List Scope → String → Bool
unfolding scope_of
has_scope scopes name = elim (scope_of name scopes) [ none ↦ false | some _ ↦ true ]

unfoldable pub missing_scopes : List Scope → List String
unfolding has_scope
missing_scopes scopes = keep (λ name. not (has_scope scopes name)) mandatory_scopes

unfoldable pub none_missing : List String → Bool
none_missing [] = true
none_missing (_ ∷ _) = false

-- The fields that the scopes give.
unfoldable pub scope_fields : Scope → Scope → PeppolAs4Message → PeppolAs4Message
scope_fields document_scope process_scope f = record f {
  document_type_identifier_value = some document_scope.instance_identifier.value;
  document_type_identifier_scheme =
      some (elim document_scope.identifier [ none ↦ "busdox-docid-qns" | some i ↦ i.value ]);
  process_identifier = some process_scope.instance_identifier.value;
}
