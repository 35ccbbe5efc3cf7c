-- ===== src/Message.antt =====
-- `AS4Message` of as4/core/message.py: the parsed message and the reads of it. The steps of a parse
-- are in the child modules.
pub mod Coverage
pub mod Digests
pub mod Signature
pub mod Decryption
pub mod Process
pub mod Parse
pub mod Handled
use as_lib.Base.{
  String, ◌&&◌, Bool, true, false, not, Option, none, some, List, [], ◌∷◌, map, if◌then◌else◌,
}
use as_lib.Base.Text.{nonempty}
use as_lib.Base.Dict.{Dict}
use as_lib.Errors.{
  ReceiptableError, error_of, messaging_not_found, message_id_not_found, party_to_not_found,
  user_message_not_found,
}
use as_lib.Platform.{Bytes, Certificate}
use as_lib.Etree.{Element, attrib}
use as_lib.Outcome.{
  Result, ok, err, require, ensure, ◌>>=◌, ◌>>◌, receiptable, remote_party_not_verified,
}
use as_lib.Models.Mapping.{model_validate_etree}
use as_lib.Models.Reference.{Reference}
use as_lib.Models.Soap.{Envelope}
use as_lib.Dsig.{ComparableReferenceFields, from_reference}
use as_lib.Documents.{user_message}
use as_lib.Parties.{As4PartyIdentity, As4ExternalParty, from_party_to, from_party_from}
use as_lib.Environment.{Xml, Schemas}

pub record As4Message : Type 0 where
  pub soap_envelope : Option Envelope
  pub mime_attachments : Dict Bytes
  pub decrypted_data : Dict Bytes
  pub profile_name : Option String
  pub message_id : String
  pub messaging_id : String
  pub addressed_to : Option As4PartyIdentity
  pub signer_certificate : Option Certificate
  pub parse_error : Option ReceiptableError

-- `AS4Message()`
abbrev pub blank : As4Message
blank = record {
  soap_envelope = none;
  mime_attachments = [];
  decrypted_data = [];
  profile_name = none;
  message_id = "";
  messaging_id = "";
  addressed_to = none;
  signer_certificate = none;
  parse_error = none;
}

unfoldable pub parse_successful : As4Message → Bool
parse_successful m = elim m.parse_error [ none ↦ true | some _ ↦ false ]

-- `bool(s)` of an optional text
abbrev pub present : Option String → Bool
present none = false
present (some s) = nonempty s

abbrev pub or_blank : Option String → String
or_blank none = ""
or_blank (some s) = s

abbrev wsu_id : String
wsu_id = "{http://docs.oasis-open.org/wss/2004/01/oasis-200401-wss-wssecurity-utility-1.0.xsd}Id"

abbrev pub party_to_path : String
party_to_path = "./S12:Header/eb3:Messaging/eb3:UserMessage/eb3:PartyInfo/eb3:To"

module _ (x : Xml) where
  unfoldable pub pre_validate : Element → Result (String × String)
  unfolding nonempty as_lib.Base.Dict.get
  pre_validate e = do
    let message_id =
        x.findtext e "S12:Header/eb3:Messaging/eb3:UserMessage/eb3:MessageInfo/eb3:MessageId"
    messaging ← require (x.find e "S12:Header/eb3:Messaging") (
        receiptable (error_of messaging_not_found "Missing ebMS Messaging header in SOAP envelope"))
    let messaging_id = as_lib.Base.Dict.get (attrib messaging) wsu_id
    ensure (present message_id && present messaging_id) (
        receiptable
          (error_of message_id_not_found "Missing MessageId or Messaging wsu:Id in SOAP envelope"))
    ok (or_blank message_id, or_blank messaging_id)

unfoldable pub get_addressed_to : Schemas → Option Element → Result As4PartyIdentity
unfolding model_validate_etree from_party_to
get_addressed_to s party_to_element = do
  e ←
      require party_to_element
        (receiptable (error_of party_to_not_found "Missing PartyInfo/To element in UserMessage"))
  party ← model_validate_etree s.party_to e
  ok (from_party_to party)

unfoldable pub get_remote_party : As4Message → Result As4ExternalParty
unfolding user_message from_party_from
get_remote_party m = do
  certificate ← require m.signer_certificate (
      remote_party_not_verified
        "Message signature has not been verified, so the access point that sent it is not established")
  envelope ←
      require m.soap_envelope
        (remote_party_not_verified "Message carries no SOAP envelope to read eb:From from")
  found ← user_message envelope.header.messaging
  um ← require found (receiptable (error_of user_message_not_found ""))
  ok (record {
    identity = from_party_from um.party_info.party_from;
    credentials = record { certificate = certificate };
  })

unfoldable pub conversation_id : As4Message → Result (Option String)
unfolding user_message
conversation_id m = elim m.soap_envelope [
  | none ↦ ok none
  | some envelope ↦ do
    found ← user_message envelope.header.messaging
    ok (elim found [ none ↦ none | some um ↦ some um.collaboration_info.conversation_id.value ])
]

unfoldable pub signature_references : As4Message → List Reference
signature_references m = elim m.soap_envelope [
  | none ↦ []
  | some envelope ↦ elim envelope.header.security.signature [
    | none ↦ []
    | some s ↦ s.signed_info.references
  ]
]

unfoldable pub signed_references : As4Message → List ComparableReferenceFields
unfolding signature_references from_reference
signed_references m = map from_reference (signature_references m)
