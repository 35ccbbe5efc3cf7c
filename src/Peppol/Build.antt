-- ===== src/Peppol/Build.antt =====
-- The building side of as4/profiles/peppol/message.py, and as4/utils/cipher_handler.py: what a message
-- is built from, its business document and its user message. `namespace_map` names prefixes, which
-- the elements of Etree.antt do not have.
pub mod Security
pub mod Signing
pub mod Envelope
pub mod Parts
pub mod Accepted
pub mod Opens
pub mod Unzips
pub mod Signed
pub mod Digests
pub mod Covered
pub mod Delivered
pub mod Stated
pub mod Routed
pub mod Arrived
pub mod Read
pub mod ReadBack
use as_lib.Base.{String, ◌<>◌, true, Option, none, some, List, [], ◌∷◌, ◌++◌, map, take, drop}
use as_lib.Base.Dict.{Dict}
use as_lib.Platform.{Bytes, Certificate, Crypto, DateTime}
use as_lib.Etree.{Element, element, Elements, end, child}
use as_lib.Outcome.{Result, ok, ◌>>=◌}
use as_lib.Models.MessageInfo.{MessageInfo}
use as_lib.Models.UserMessage.{PartInfo, Property, UserMessage}
use as_lib.Models.Messaging.{Messaging}
use as_lib.Models.Sbdh.{Scope, StandardBusinessDocument}
use as_lib.Parties.{As4ExternalParty, As4InternalParty, to_party_from, to_party_to}
use as_lib.References.{As4References}
use as_lib.Receipt.Signals.{Moment}
use as_lib.Peppol.DocumentIdentifier.{
  BusdoxDocidQnsDocumentIdentifier, action, identifier_value, root_element_name,
  root_element_namespace,
}

pub record BuilderArgs : Type 0 where
  pub namespace_map : Dict String
  pub sender : String
  pub recipient : String
  pub document_type_identifier : BusdoxDocidQnsDocumentIdentifier
  pub document_identification_instance_identifier : String
  pub process_identifier : String
  pub c1_country_id : String

-- What the third parties give while a message is built: the clock and the random values, lxml's
-- serialiser, gzip, AES-GCM with a key and a nonce, and RSA-OAEP under the key of a certificate.
pub record Supplies : Type 0 where
  pub moment : Moment
  -- `datetime.now(UTC)` of the business document
  pub created : DateTime
  pub generate_key : Bytes
  pub urandom : Bytes
  pub tostring : Element → Bytes
  pub gzip_compress : Bytes → Bytes
  pub aes_gcm_encrypt : Bytes → Bytes → Bytes → Bytes
  pub rsa_oaep_encrypt : Certificate → Bytes → Bytes

abbrev pub actor_id : String
actor_id = "iso6523-actorid-upis"

abbrev pub process_scheme : String
process_scheme = "cenbii-procid-ubl"

-- `CipherHandler.encrypt_payload`: the session key, and the nonce with the ciphertext.
unfoldable pub encrypt_payload : Supplies → Bytes → Bytes × Bytes
encrypt_payload s payload =
    (s.generate_key, s.urandom ++ s.aes_gcm_encrypt s.generate_key s.urandom payload)

-- `CipherHandler.decrypt_payload`, with no answer where `AESGCM.decrypt` raises.
unfoldable pub decrypt_payload : Crypto → Bytes → Bytes → Option Bytes
decrypt_payload c session_key encrypted_blob =
    c.aes_gcm_decrypt session_key (take 12 encrypted_blob) (drop 12 encrypted_blob)

scope : String → String → Option String → Scope
scope name value identifier = record {
  scope_type = record { value = name };
  instance_identifier = record { value = value };
  identifier = elim identifier [ none ↦ none | some i ↦ some (record { value = i }) ];
}

unfoldable pub business_scopes : BuilderArgs → List Scope
unfolding scope identifier_value
business_scopes a =
    let doc_id = a.document_type_identifier in
    scope "DOCUMENTID" (identifier_value doc_id) (some doc_id.scheme)
    ∷ scope "PROCESSID" a.process_identifier (some process_scheme)
    ∷ scope "COUNTRY_C1" a.c1_country_id none
    ∷ []

unfoldable pub get_standard_business_document :
    Supplies → BuilderArgs → Result StandardBusinessDocument
unfolding root_element_namespace root_element_name business_scopes
get_standard_business_document s a =
    let doc_id = a.document_type_identifier in
    do
      name ← root_element_name doc_id
      ok (record {
        standard_business_document_header = record {
          header_version = record { value = "1.0" };
          sender = record { identifier = record { authority = some actor_id; value = a.sender } };
          receiver = record {
            identifier = record { authority = some actor_id; value = a.recipient };
          };
          document_identification = record {
            standard = record { value = root_element_namespace doc_id };
            type_version = record { value = doc_id.version };
            instance_identifier = record { value = a.document_identification_instance_identifier };
            document_identification_type = record { value = name };
            creation_date_and_time = record { value = s.created };
          };
          business_scope = record { scopes = business_scopes a };
        };
      })

-- `Property(name=…, value=…)`
abbrev part_property : String → String → Property
part_property name value = record { property_type = none; value = value; name = name }

abbrev pub actor_property : String → String → Property
actor_property name value = record { property_type = some actor_id; value = value; name = name }

-- The part of one attachment of the references' map.
unfoldable pub part_of : String × String → PartInfo
part_of entry = record {
  part_schema = [];
  description = [];
  part_properties = record {
    properties =
        part_property "MimeType" "application/xml"
        ∷ part_property "CompressionType" "application/gzip"
        ∷ [];
  };
  href = some ("cid:" <> entry.0);
}

unfoldable pub get_user_message :
    Supplies → As4InternalParty → As4ExternalParty → BuilderArgs → As4References → UserMessage
unfolding to_party_to to_party_from action part_of
get_user_message s local_party remote_party a references = record {
  message_info = record {
    timestamp = record { value = s.moment.now };
    message_id = record { value = references.message_id };
    ref_to_message_id = none;
  };
  party_info = record {
    party_from = to_party_from local_party.identity;
    party_to = to_party_to remote_party.identity;
  };
  collaboration_info = record {
    agreement_ref = some (record {
      value = "urn:fdc:peppol.eu:2017:agreements:tia:ap_provider";
      type_value = none;
      pmode = none;
    });
    service = record { value = a.process_identifier; type_value = some process_scheme };
    action = record { value = action a.document_type_identifier };
    conversation_id = record { value = references.conversation_id };
  };
  message_properties = some (record {
    properties =
        actor_property "originalSender" a.sender ∷ actor_property "finalRecipient" a.recipient ∷ [];
  });
  payload_info =
      some (record { part_info = map part_of references.attachment_id_encrypted_data_id_map });
  mpc = none;
}

unfoldable pub get_messaging : As4References → UserMessage → Messaging
get_messaging references user_message = record {
  signal_messages = [];
  user_messages = user_message ∷ [];
  messaging_id = some references.messaging_id;
  w3_org_2003_05_soap_envelope_must_understand = some true;
}

last_child : Element → Elements → Elements
last_child e end = child e end
last_child e (child f fs) = child f (last_child e fs)

-- `parent.append(e)`
unfoldable pub append_element : Element → Element → Element
unfolding last_child
append_element e (element name attributes text children) =
    element name attributes text (last_child e children)
