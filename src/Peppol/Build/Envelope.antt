-- ===== src/Peppol/Build/Envelope.antt =====
-- `get_soap_envelope` and `build_message` of as4/profiles/peppol/message.py.
use as_lib.Base.{String, true, some, [], ◌∷◌, string_eq, option_eq}
use as_lib.Base.Dict.{Dict}
use as_lib.Platform.{Bytes}
use as_lib.Outcome.{Result, ok, ensure, require, ◌>>=◌, ◌>>◌, value_error, xml_syntax}
use as_lib.Environment.{Environment}
use as_lib.Etree.{Element}
use as_lib.Models.Sbdh.{StandardBusinessDocument}
use as_lib.Models.Signature.{SignedInfo}
use as_lib.Models.Soap.{Body, Envelope}
use as_lib.Models.Messaging.{Messaging}
use as_lib.Parties.{As4ExternalParty, As4InternalParty}
use as_lib.References.{As4References, encrypted_data_attachment_mapping}
use as_lib.Serialise.Sbdh.{dump_standard_business_document}
use as_lib.Message.{blank}
use as_lib.Peppol.{PeppolAs4Message}
use as_lib.Peppol.DocumentIdentifier.{identifier_value}
use as_lib.Peppol.Build.{
  BuilderArgs, Supplies, append_element, encrypt_payload, get_messaging,
  get_standard_business_document, get_user_message,
}
use as_lib.Peppol.Build.Security.{
  get_encrypted_data, get_encrypted_key, get_local_binary_security_token,
  get_remote_binary_security_token,
}
use as_lib.Peppol.Build.Signing.{get_signature, get_signed_info}

-- `get_messaging` of `get_user_message`
unfoldable pub messaging_of :
    Supplies → As4InternalParty → As4ExternalParty → BuilderArgs → As4References → Messaging
unfolding get_messaging get_user_message
messaging_of s local_party remote_party builder_args references =
    get_messaging references (get_user_message s local_party remote_party builder_args references)

abbrev pub body_of : As4References → Body
body_of references = record { body_id = some references.body_id }

-- The payload under its header, as bytes.
unfoldable pub written_of : Supplies → StandardBusinessDocument → Element → Bytes
unfolding dump_standard_business_document append_element
written_of s sbd document =
    s.tostring (append_element document (dump_standard_business_document s.moment.isoformat sbd))

-- `cls(soap_envelope=…, …)`
unfoldable pub message_of :
    BuilderArgs → As4References → String → Bytes → Bytes → Envelope → PeppolAs4Message
unfolding identifier_value
message_of builder_args references attachment_id encrypted_payload payload envelope = record {
  as4 = record blank {
    soap_envelope = some envelope;
    message_id = references.message_id;
    messaging_id = references.messaging_id;
    mime_attachments = (attachment_id, encrypted_payload) ∷ [];
    decrypted_data = (attachment_id, payload) ∷ [];
  };
  sender = some builder_args.sender;
  recipient = some builder_args.recipient;
  document_type_identifier_value = some (identifier_value builder_args.document_type_identifier);
  document_type_identifier_scheme = some builder_args.document_type_identifier.scheme;
  process_identifier = some builder_args.process_identifier;
}

module _ (env : Environment) (s : Supplies) (local_party : As4InternalParty)
    (remote_party : As4ExternalParty) where
  -- The envelope round the signed references.
  unfoldable pub envelope_of : BuilderArgs → As4References → Bytes → SignedInfo → Envelope
  unfolding messaging_of get_signature get_remote_binary_security_token
      get_local_binary_security_token get_encrypted_key get_encrypted_data
  envelope_of builder_args references encrypted_session_key signed_info = record {
    header = record {
      security = record {
        binary_security_tokens =
            get_remote_binary_security_token env remote_party references
            ∷ get_local_binary_security_token env local_party references
            ∷ [];
        encrypted_key = some (get_encrypted_key env references encrypted_session_key);
        encrypted_data = some (get_encrypted_data references);
        signature = some (get_signature env s local_party references signed_info);
        must_understand = true;
      };
      messaging = messaging_of s local_party remote_party builder_args references;
    };
    body = body_of references;
  }

  unfoldable pub get_soap_envelope :
      BuilderArgs → As4References → Bytes → Dict Bytes → Result Envelope
  unfolding messaging_of get_signed_info envelope_of
  get_soap_envelope builder_args references encrypted_session_key compressed_payloads = do
    signed_info ←
        get_signed_info env s references
          (messaging_of s local_party remote_party builder_args references) (body_of references)
          compressed_payloads
    ok (envelope_of builder_args references encrypted_session_key signed_info)

  -- The message, and the references, whose map of attachments is filled.
  unfoldable pub build_message :
      Bytes → BuilderArgs → As4References → Result (PeppolAs4Message × As4References)
  unfolding get_standard_business_document written_of encrypt_payload
      encrypted_data_attachment_mapping get_soap_envelope message_of
  build_message payload builder_args references = do
    sbd ← get_standard_business_document s builder_args
    document ← require (env.xml.parse_xml payload) xml_syntax
    let written = written_of s sbd document
    let compressed = s.gzip_compress written
    let sealed = encrypt_payload s compressed
    ensure (env.crypto.is_rsa remote_party.credentials.certificate) (value_error "AssertionError")
    let encrypted_session_key = s.rsa_oaep_encrypt remote_party.credentials.certificate sealed.0
    let mapped = encrypted_data_attachment_mapping s.moment.uuid references
    envelope ←
        get_soap_envelope builder_args mapped.1 encrypted_session_key
          ((mapped.0.0, compressed) ∷ [])
    ok (message_of builder_args references mapped.0.0 sealed.1 written envelope, mapped.1)
