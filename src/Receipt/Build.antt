-- ===== src/Receipt/Build.antt =====
-- The building side of as4/core/receipt.py: the signals that answer a message, with their signatures.
-- A class attribute that the error class does not declare, its description, raises as Python's
-- `AttributeError` does.
pub mod Accepted
use as_lib.Base.{String, ◌<>◌, true, Option, none, some, List, [], ◌∷◌, string_eq, option_eq}
use as_lib.Outcome.{Result, ok, require, ◌>>=◌, value_error}
use as_lib.Models.Reference.{Reference}
use as_lib.Models.Signature.{Signature}
use as_lib.Models.Soap.{Envelope}
use as_lib.Models.Tokens.{BinarySecurityToken}
use as_lib.Environment.{Environment}
use as_lib.Message.{As4Message, signature_references}
use as_lib.Errors.{ReceiptableError}
use as_lib.Errors.Attributes.{error_code, short_description, description, severity, category}
use as_lib.Errors.{family_of}
use as_lib.Models.Signature.{SignedInfo}
use as_lib.Models.Soap.{Body}
use as_lib.Models.SignalMessage.{SignalMessage}
use as_lib.Models.Messaging.{Messaging}
use as_lib.Dsig.{for_element, exclusive_c14n, digest_sha256}
use as_lib.Dsig.Verify.{signed_info_canonicalized}
use as_lib.Documents.{x509v3}
use as_lib.Parties.{As4InternalParty}
use as_lib.References.{As4References}
use as_lib.Serialise.{dump_signed_info, dump_body}
use as_lib.Serialise.Signal.{dump_signal_messaging}
use as_lib.Receipt.{As4Receipt}
use as_lib.Receipt.Signals.{
  ErrorArgs, Moment, get_error_signal_message, get_messaging, get_success_signal_message,
  given_or_new,
}

module _ (env : Environment) (t : Moment) (local_party : As4InternalParty)
    (references : As4References) where
  get_messaging_digest_reference : Messaging → Result Reference
  unfolding for_element dump_signal_messaging
  get_messaging_digest_reference m =
      for_element env.crypto env.xml.c14n ("#" <> references.messaging_id)
        (dump_signal_messaging t.isoformat m.signal_messages m.messaging_id true) digest_sha256

  get_body_digest_reference : Body → Result Reference
  unfolding for_element dump_body
  get_body_digest_reference body =
      for_element env.crypto env.xml.c14n ("#" <> references.body_id)
        (dump_body "{http://www.w3.org/2003/05/soap-envelope}Body" body) digest_sha256

  -- The `etree_element` is set by `get_signature`, from the dump of the rest.
  unfoldable pub get_signed_info : Messaging → Body → Result SignedInfo
  unfolding get_messaging_digest_reference get_body_digest_reference
  get_signed_info messaging body = do
    first ← get_messaging_digest_reference messaging
    second ← get_body_digest_reference body
    ok (record {
      etree_element = none;
      canonicalization_method = record { etree_element = none; algorithm = some exclusive_c14n };
      signature_method = record { algorithm = "http://www.w3.org/2001/04/xmldsig-more#rsa-sha256" };
      references = first ∷ second ∷ [];
      id = none;
    })

  get_local_binary_security_token : BinarySecurityToken
  get_local_binary_security_token = record {
    encoding_type =
        "http://docs.oasis-open.org/wss/2004/01/oasis-200401-wss-soap-message-security-1.0#Base64Binary";
    value_type = x509v3;
    bst_id = references.signature_bst_id;
    value = env.crypto.b64encode local_party.credentials.certificate.der;
  }

  -- `SignatureValue` decodes the text that it is given.
  get_signature : SignedInfo → Signature
  unfolding dump_signed_info signed_info_canonicalized
  get_signature i =
      let dumped = record i {
        etree_element = some (dump_signed_info "{http://www.w3.org/2000/09/xmldsig#}SignedInfo" i);
      } in
      let signature_bytes =
        local_party.credentials.private_key.sign
          (signed_info_canonicalized env.crypto env.xml.c14n dumped) in
      record {
        signed_info = dumped;
        signature_value = record {
          value = env.crypto.b64decode (env.crypto.b64encode signature_bytes);
          id = none;
        };
        key_info = record {
          key_info_id = some references.key_info_id;
          key_name = [];
          key_value = [];
          retrieval_method = [];
          x509_data = [];
          pgp_data = [];
          spki_data = [];
          mgmt_data = [];
          security_token_reference =
              record {
                security_token_reference_id = some references.signature_security_token_reference_id;
                usage = "";
                reference = record {
                  uri = some ("#" <> references.signature_bst_id);
                  value_type = some x509v3;
                };
                token_type = none;
              }
              ∷ [];
        };
        object_value = [];
        signature_id = some references.signature_id;
      }

  -- `get_success_soap_envelope` and `get_error_soap_envelope`, which differ in the signal message.
  unfoldable pub get_soap_envelope : SignalMessage → Result Envelope
  unfolding get_messaging get_signed_info get_signature get_local_binary_security_token
  get_soap_envelope signal = do
    let messaging = get_messaging references signal
    let body : Body = record { body_id = some references.body_id }
    signed_info ← get_signed_info messaging body
    ok (record {
      header = record {
        security = record {
          binary_security_tokens = get_local_binary_security_token ∷ [];
          encrypted_key = none;
          encrypted_data = none;
          signature = some (get_signature signed_info);
          must_understand = true;
        };
        messaging = messaging;
      };
      body = body;
    })

module _ (env : Environment) (t : Moment) (local_party : As4InternalParty) where
  unfoldable pub signal_receipt : As4References → SignalMessage → Result As4Receipt
  unfolding get_soap_envelope
  signal_receipt references signal = do
    envelope ← get_soap_envelope env t local_party references signal
    ok (record {
      soap_envelope = some envelope;
      original_message_id = none;
      references = some references;
      profile_name = none;
    })

  unfoldable pub create_non_repudiation_receipt :
      String → List Reference → Option As4References → Result As4Receipt
  unfolding signal_receipt get_success_signal_message given_or_new
  create_non_repudiation_receipt referenced_message_id references_to_confirm references =
      let r = given_or_new t references in
      signal_receipt r (get_success_signal_message t referenced_message_id references_to_confirm r)

  unfoldable pub create_error_signal : ErrorArgs → String → Option As4References → Result As4Receipt
  unfolding signal_receipt get_error_signal_message given_or_new
  create_error_signal a referenced_message_id references =
      let r = given_or_new t references in
      signal_receipt r (get_error_signal_message t a referenced_message_id r)

  unfoldable pub error_args : ReceiptableError → Result ErrorArgs
  unfolding error_code short_description description family_of severity category
  error_args e = do
    text ← require (description e.class) (value_error "AttributeError: description")
    ok (record {
      error_code = error_code e.class;
      error_short_description = short_description e.class;
      error_severity = severity (family_of e.class);
      error_detail = e.detail;
      error_description = text;
      error_category = category (family_of e.class);
    })

  unfoldable pub create_error_signal_from_exception :
      ReceiptableError → String → Option As4References → Result As4Receipt
  unfolding error_args create_error_signal
  create_error_signal_from_exception e referenced_message_id references = do
    a ← error_args e
    create_error_signal a referenced_message_id references

  unfoldable pub answer_to :
      As4Message → Option As4References → Option ReceiptableError → Result As4Receipt
  unfolding create_error_signal_from_exception create_non_repudiation_receipt signature_references
  answer_to m references none =
      create_non_repudiation_receipt m.message_id (signature_references m) references
  answer_to m references (some e) = create_error_signal_from_exception e m.message_id references

  unfoldable pub for_message : As4Message → Option As4References → Result As4Receipt
  unfolding answer_to
  for_message m references = answer_to m references m.parse_error
