-- ===== src/Tests/Building.antt =====
-- A small message that is built, and what stands between its sender and its receiver.
use as_lib.Base.{
  ◌≡◌, refl, arith, String, Bool, true, false, Option, none, some, List, [], ◌∷◌, ◌==◌, ==_refl,
  All, ◌≤◌, length, if◌then◌else◌,
}
use as_lib.Base.Dict
use as_lib.Base.Dict.{Dict}
use as_lib.Base.Text.{utf8}
use as_lib.Platform.{Bytes, Crypto, DateTime, bytes_eq}
use as_lib.Serialise.Reading.{read_business_document}
use Prim.Native.Nat.{◌*◌, ◌/◌}
use as_lib.Etree.{Element, tag, index_elements_by_id}
use as_lib.Outcome.{ok}
use as_lib.Environment.{Environment}
use as_lib.Models.Mapping.{valid}
use as_lib.Models.Sbdh.{StandardBusinessDocument}
use as_lib.Models.Soap.{Envelope}
use as_lib.Parties.{As4ExternalParty, As4InternalParty, As4ParseContext, default_security_policy}
use as_lib.References.{As4References}
use as_lib.Message.{As4Message, blank}
use as_lib.Peppol.{PeppolAs4Message}
use as_lib.Peppol.Build.{BuilderArgs, Supplies, business_scopes, encrypt_payload}
use as_lib.Peppol.Build.Envelope.{
  body_of, build_message, envelope_of, message_of, messaging_of, written_of,
}
use as_lib.Peppol.Build.Parts.{entry_of, filled}
use as_lib.Peppol.Build.Opens.{OneAttachment, Opening}
use as_lib.Peppol.Build.Accepted.{Trusted}
use as_lib.Peppol.Build.Routed.{Reads}
use as_lib.Peppol.Build.Delivered.{Delivered}
use as_lib.Peppol.Build.Signed.{Verifiable, references_of, signed_info_of}
use as_lib.Peppol.Profile.{
  Business, builder_args, create_peppol_external_party, create_peppol_internal_party,
}
use as_lib.Tests.Codec.{decode, decode-encode, encode, strip-encode}
use as_lib.Tests.Fixtures.{alice, anchor, body_element, document, envelope, messaging_element}
use as_lib.Tests.Settings.{environment, identifiers}
use as_lib.Tests.Identifiers.{invoice, invoice_text}

-- RSA signs with the bytes themselves, and puts a byte before what it encrypts.
abbrev pub crypto : Crypto
crypto = record {
  load_der_x509_certificate = λ der. some (record { der = der });
  is_rsa = λ _. true;
  key_type_name = λ _. "RSAPublicKey";
  subject_name = λ _. "CN=alice";
  rsa_verify = λ _ _ signature content. signature == content;
  digest = λ _ content. content;
  aes_gcm_decrypt = λ _ _ sealed. some sealed;
  b64decode_strict = decode;
  b64decode = decode;
  b64encode = encode;
  gzip_read = λ content _. some content;
}

abbrev pub unwrap : Bytes → Option Bytes
unwrap [] = none
unwrap (_ ∷ b) = some b

abbrev pub sender : As4InternalParty
sender = create_peppol_internal_party "alice" alice (record { sign = λ b. b; decrypt = unwrap })

abbrev pub host : As4InternalParty
host = create_peppol_internal_party "bob" anchor (record { sign = λ b. b; decrypt = unwrap })

abbrev pub receiver : As4ExternalParty
receiver = create_peppol_external_party "bob" anchor

abbrev pub supplies : Supplies
supplies = record {
  moment = record { now = 1234567; isoformat = λ _. "1970"; uuid = λ _. "u" };
  created = 1234567;
  generate_key = 3 ∷ [];
  urandom = 0 ∷ 0 ∷ 0 ∷ 0 ∷ 0 ∷ 0 ∷ 0 ∷ 0 ∷ 0 ∷ 0 ∷ 0 ∷ 0 ∷ [];
  tostring = λ e. utf8 (tag e);
  gzip_compress = λ b. b;
  aes_gcm_encrypt = λ _ _ b. b;
  rsa_oaep_encrypt = λ _ b. 1 ∷ b;
}

abbrev pub business : Business
business = record {
  sender = "9915:a";
  recipient = "9915:b";
  document_type_identifier_scheme = "busdox-docid-qns";
  document_type_identifier_value = invoice_text;
  process_identifier = "urn:process";
  sender_country_id = "DE";
  document_identification_instance_identifier = none;
}

abbrev pub args : BuilderArgs
args = builder_args [] "i" business invoice

abbrev pub sbd : StandardBusinessDocument
sbd = record {
  standard_business_document_header = record {
    header_version = record { value = "1.0" };
    sender = record {
      identifier = record { authority = some "iso6523-actorid-upis"; value = "9915:a" };
    };
    receiver = record {
      identifier = record { authority = some "iso6523-actorid-upis"; value = "9915:b" };
    };
    document_identification = record {
      standard = record { value = "urn:oasis" };
      type_version = record { value = "2.1" };
      instance_identifier = record { value = "i" };
      document_identification_type = record { value = "Invoice" };
      creation_date_and_time = record { value = 1234567 };
    };
    business_scope = record { scopes = business_scopes args };
  };
}

-- The canonical form is the tag, and every text parses to the document, which is the envelope of the
-- argument and has the business document.
-- A time as it is written, in whole milliseconds.
abbrev pub to_milliseconds : DateTime → DateTime
to_milliseconds t = (t / 1000) * 1000

abbrev pub world_of : Envelope → Environment
world_of v = record {
  crypto = crypto;
  xml = record (environment v).xml { c14n = λ e _. utf8 (tag e) };
  schemas = record (environment v).schemas {
    standard_business_document = λ _. valid (read_business_document to_milliseconds sbd);
  };
}

abbrev pub world : Environment
world = world_of envelope

abbrev pub reader : As4ParseContext
reader = record {
  local_party = host;
  accept_participant = none;
  security_policy = record default_security_policy { signer_resolver = λ _ _. ok alice };
}

abbrev pub message : PeppolAs4Message
message =
    message_of args identifiers (entry_of supplies identifiers).0
      (encrypt_payload supplies (written_of supplies sbd document)).1
      (written_of supplies sbd document)
      (envelope_of world supplies sender receiver args (filled supplies identifiers) (1 ∷ 3 ∷ []) (
        signed_info_of world supplies (
          references_of world supplies (filled supplies identifiers)
            (messaging_of supplies sender receiver args (filled supplies identifiers))
            (body_of (filled supplies identifiers)) (entry_of supplies identifiers).0
            (written_of supplies sbd document))))

pub built :
    (v : Envelope)
    → build_message (world_of v) supplies sender receiver [] args identifiers
      ≡ ok (message, filled supplies identifiers)
unfolding build_message builder_args as_lib.Base.string_eq references_of
built v = refl

pub verifiable : (v : Envelope) → Verifiable (world_of v) sender
unfolding create_peppol_internal_party
verifiable v = record {
  rsa_key = refl;
  rsa_pkcs1 = λ b. ==_refl b;
  base64 = decode-encode;
  unspaced = strip-encode;
  loads = refl;
}

pub opening : Opening crypto supplies receiver reader.local_party.credentials.private_key
unfolding create_peppol_internal_party as_lib.Base.Text.nonempty encode
opening = record {
  nonce_length = refl;
  aes_gcm = λ p. refl;
  rsa_oaep = refl;
  base64 = decode-encode;
  sealed_text = refl;
}

pub one : OneAttachment supplies identifiers
unfolding as_lib.References.encrypted_data_attachment_mapping
one = refl

abbrev pub elements : Dict Element
elements = ("msg", messaging_element) ∷ ("body", body_element) ∷ []

pub trusted :
    (v : Envelope)
    → Trusted
        (world_of v)
        supplies
        sender
        receiver
        args
        (filled supplies identifiers)
        (entry_of supplies identifiers)
        one
        reader
        elements
unfolding Dict.get as_lib.Base.string_eq as_lib.References.encrypted_data_attachment_mapping
    as_lib.Serialise.UserMessages.dump_messaging as_lib.Serialise.dump_body
    create_peppol_internal_party as_lib.Message.Coverage.missing_coverage
trusted v = record {
  verifiable = verifiable v;
  first = record { target = messaging_element; found = refl; tagged = refl; same = refl };
  second = record { target = body_element; found = refl; tagged = refl; same = refl };
  other_token = refl;
  trusts = refl;
  requires = refl;
}

pub delivered :
    (v : Envelope)
    → Delivered (world_of v) supplies sender receiver args identifiers reader document
unfolding index_elements_by_id as_lib.Base.string_eq as_lib.Base.Text.starts_with
delivered v = record {
  one = one;
  elements = elements;
  indexed = refl;
  trusted = trusted v;
  opening = opening;
  unzips = λ b h. refl;
}

abbrev pub received : Envelope
received =
    (envelope_of world supplies sender receiver args (filled supplies identifiers) (1 ∷ 3 ∷ []) (
      signed_info_of world supplies (
        references_of world supplies (filled supplies identifiers)
          (messaging_of supplies sender receiver args (filled supplies identifiers))
          (body_of (filled supplies identifiers)) (entry_of supplies identifiers).0
          (written_of supplies sbd document))))

pub small :
    All
      (λ ((_, b) : String × Bytes). length b ≤ reader.security_policy.maximum_decompressed_size)
      message.decrypted_data
unfolding message_of written_of utf8
small = (omega arith, tt)

pub reads :
    (v : Envelope)
    → All
        (λ ((_, b) : String × Bytes). Reads (world_of v) to_milliseconds b sbd)
        message.decrypted_data
unfolding message_of as_lib.Models.Mapping.model_validate_etree
reads v = (
  record {
    element = document;
    parsed = refl;
    header = messaging_element;
    found = refl;
    valid = refl;
    validated = refl;
  },
  tt,
)
