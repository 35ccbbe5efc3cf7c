-- ===== src/Tests/Settings.antt =====
-- A signal, a business document, the parties and the policy of the examples.
use as_lib.Base.{String, false, none, some, List, [], ◌∷◌}
use as_lib.Outcome.{ok}
use as_lib.Environment.{Environment}
use as_lib.Models.Soap.{Envelope}
use as_lib.Models.SignalMessage.{SignalMessage}
use as_lib.Models.Mapping.{valid}
use as_lib.Models.Sbdh.{Scope, StandardBusinessDocument}
use as_lib.Parties.{As4ParseContext, As4InternalParty, As4ExternalParty, default_security_policy}
use as_lib.Receipt.{As4Receipt}
use as_lib.References.{As4References}
use as_lib.Tests.Fixtures.{
  alice, crypto, document, envelope, messaging_element, messaging_reference, security, user,
}

-- A signal with a receipt for the message `m1` that acknowledges its one reference.
abbrev pub signal : SignalMessage
signal = record {
  message_info = record {
    timestamp = record { value = 0 };
    message_id = record { value = "s1" };
    ref_to_message_id = some (record { value = "m1" });
  };
  pull_request = none;
  receipt = some (record {
    non_repudiation_information = some (record {
      message_part_nr_information = record { references = messaging_reference ∷ [] } ∷ [];
    });
  });
  errors = [];
}

abbrev pub signal_envelope : Envelope
signal_envelope = record envelope {
  header = record {
    security = security;
    messaging = record {
      signal_messages = signal ∷ [];
      user_messages = [];
      messaging_id = some "msg";
      w3_org_2003_05_soap_envelope_must_understand = none;
    };
  };
}

abbrev scope : String → Scope
scope name = record {
  scope_type = record { value = name };
  instance_identifier = record { value = "x" };
  identifier = none;
}

abbrev pub document_scope : Scope
document_scope = scope "DOCUMENTID"

abbrev pub process_scope : Scope
process_scope = scope "PROCESSID"

abbrev pub scopes : List Scope
scopes = document_scope ∷ process_scope ∷ scope "COUNTRY_C1" ∷ []

abbrev pub business_document : StandardBusinessDocument
business_document = record {
  standard_business_document_header = record {
    header_version = record { value = "1.0" };
    sender = record { identifier = record { authority = none; value = "c1" } };
    receiver = record { identifier = record { authority = none; value = "c4" } };
    document_identification = record {
      standard = record { value = "" };
      type_version = record { value = "" };
      instance_identifier = record { value = "" };
      document_identification_type = record { value = "" };
      creation_date_and_time = record { value = 0 };
    };
    business_scope = record { scopes = scopes };
  };
}

-- Every text parses to the document, which is the envelope of the argument.
abbrev pub environment : Envelope → Environment
environment e = record {
  crypto = crypto;
  xml = record {
    parse_xml = λ _. some document;
    find = λ _ _. some messaging_element;
    findtext = λ _ _. some "m1";
    c14n = λ _ _. [];
    sbdh_validation_error = λ _. none;
  };
  schemas = record {
    envelope = λ _. valid e;
    party_to = λ _. valid user.party_info.party_to;
    standard_business_document = λ _. valid business_document;
  };
}

abbrev pub local_party : As4InternalParty
local_party = record {
  identity = record { party_id = "bob"; party_type = none };
  credentials = record {
    base_credentials = record { certificate = alice };
    private_key = record { sign = λ _. 5 ∷ []; decrypt = λ _. some (7 ∷ []) };
  };
}

abbrev pub remote_party : As4ExternalParty
remote_party = record {
  identity = record { party_id = "alice"; party_type = none };
  credentials = record { certificate = alice };
}

abbrev pub identifiers : As4References
identifiers = record {
  message_id = "m1";
  messaging_id = "msg";
  conversation_id = "c";
  encrypted_key_bst_id = "k";
  signature_bst_id = "token";
  encrypted_key_id = "ek";
  signature_id = "s";
  key_info_id = "ki";
  signature_security_token_reference_id = "str";
  body_id = "body";
  attachment_id_encrypted_data_id_map = [];
}

-- The policy asks for a signature over the messaging header, and trusts whoever signs.
abbrev pub context : As4ParseContext
context = record {
  local_party = local_party;
  accept_participant = none;
  security_policy = record default_security_policy {
    signer_resolver = λ _ embedded. elim embedded [ none ↦ ok alice | some c ↦ ok c ];
    required_coverage = "messaging" ∷ [];
    encrypt_required = false;
    verify_participants = false;
  };
}

-- The receipt that the signal parses to.
abbrev pub receipt_m1 : As4Receipt
receipt_m1 = record {
  soap_envelope = some signal_envelope;
  original_message_id = some "m1";
  references = none;
  profile_name = none;
}
