-- ===== src/Tests/Fixtures.antt =====
-- A small message, the parties that exchange it, and stand-ins for the third parties.
use as_lib.Base.{String, true, none, some, [], ◌∷◌}
use as_lib.Platform.{Certificate, X509, Crypto}
use as_lib.Etree.{Element, element, end, child}
use as_lib.Models.Transforms.{Transforms}
use as_lib.Models.Reference.{Reference}
use as_lib.Models.KeyInfo.{KeyInfo}
use as_lib.Models.Tokens.{BinarySecurityToken}
use as_lib.Models.Signature.{Signature}
use as_lib.Models.Security.{Security}
use as_lib.Models.Soap.{Envelope}
use as_lib.Models.UserMessage.{UserMessage, PartInfo, PartyId}

abbrev pub alice : Certificate
alice = record { der = 1 ∷ [] }

abbrev pub anchor : Certificate
anchor = record { der = 9 ∷ [] }

-- Every digest is empty, every signature verifies, and gzip gives back what it is given.
abbrev pub crypto : Crypto
crypto = record {
  load_der_x509_certificate = λ der. some (record { der = der });
  is_rsa = λ _. true;
  key_type_name = λ _. "RSAPublicKey";
  subject_name = λ _. "CN=alice";
  rsa_verify = λ _ _ _ _. true;
  digest = λ _ _. [];
  aes_gcm_decrypt = λ _ _ sealed. some sealed;
  b64decode_strict = λ _. some (1 ∷ []);
  b64decode = λ _. some (1 ∷ []);
  b64encode = λ _. "AA==";
  gzip_read = λ content _. some content;
}

abbrev pub x509 : X509
x509 = record {
  fingerprint = λ c. c.der;
  basic_constraints_ca = λ _. some true;
  key_cert_sign = λ _. none;
  directly_issued_by = λ _ _. true;
  not_valid_before = λ _. 0;
  not_valid_after = λ _. 100;
  common_names = λ _. "alice" ∷ [];
}

abbrev pub wsu_id : String
wsu_id = "{http://docs.oasis-open.org/wss/2004/01/oasis-200401-wss-wssecurity-utility-1.0.xsd}Id"

abbrev pub messaging_element : Element
messaging_element =
    element "{http://docs.oasis-open.org/ebxml-msg/ebms/v3.0/ns/core/200704/}Messaging"
      ((wsu_id, "msg") ∷ []) none end

abbrev pub body_element : Element
body_element =
    element "{http://www.w3.org/2003/05/soap-envelope}Body" ((wsu_id, "body") ∷ []) none end

abbrev pub document : Element
document =
    element "{http://www.w3.org/2003/05/soap-envelope}Envelope" [] none
      (child messaging_element (child body_element end))

abbrev exclusive : Transforms
exclusive = record {
  transforms =
      record { etree_element = none; algorithm = some "http://www.w3.org/2001/10/xml-exc-c14n#" }
      ∷ [];
}

abbrev pub messaging_reference : Reference
messaging_reference = record {
  transforms = exclusive;
  digest_method = record { algorithm = "http://www.w3.org/2001/04/xmlenc#sha256" };
  digest_value = record { text = "AA==" };
  id = none;
  uri = some "#msg";
  type_value = none;
}

abbrev pub key_info : KeyInfo
key_info = record {
  key_info_id = none;
  key_name = [];
  key_value = [];
  retrieval_method = [];
  x509_data = [];
  pgp_data = [];
  spki_data = [];
  mgmt_data = [];
  security_token_reference =
      record {
        security_token_reference_id = none;
        usage = "";
        reference = record { uri = some "#token"; value_type = none };
        token_type = none;
      }
      ∷ [];
}

abbrev pub signature : Signature
signature = record {
  signed_info = record {
    etree_element = none;
    canonicalization_method = record {
      etree_element = none;
      algorithm = some "http://www.w3.org/2001/10/xml-exc-c14n#";
    };
    signature_method = record { algorithm = "http://www.w3.org/2001/04/xmldsig-more#rsa-sha256" };
    references = messaging_reference ∷ [];
    id = none;
  };
  signature_value = record { value = some (5 ∷ []); id = none };
  key_info = key_info;
  object_value = [];
  signature_id = none;
}

abbrev pub token : BinarySecurityToken
token = record {
  encoding_type = "";
  value_type =
      "http://docs.oasis-open.org/wss/2004/01/oasis-200401-wss-x509-token-profile-1.0#X509v3";
  bst_id = "token";
  value = "AQ==";
}

abbrev pub security : Security
security = record {
  binary_security_tokens = token ∷ [];
  encrypted_key = none;
  encrypted_data = none;
  signature = some signature;
  must_understand = true;
}

abbrev pub peppol_id : String → PartyId
peppol_id name = record { value = name; type_value = some "urn:fdc:peppol.eu:2017:identifiers:ap" }

abbrev pub gzip_part : PartInfo
gzip_part = record {
  part_schema = [];
  description = [];
  part_properties = record {
    properties =
        record { property_type = none; value = "application/gzip"; name = "CompressionType" } ∷ [];
  };
  href = some "cid:p";
}

abbrev pub user : UserMessage
user = record {
  message_info = record {
    timestamp = record { value = 0 };
    message_id = record { value = "m1" };
    ref_to_message_id = none;
  };
  party_info = record {
    party_from = record { party_id = peppol_id "alice"; role = record { value = "" } };
    party_to = record { party_id = peppol_id "bob"; role = record { value = "" } };
  };
  collaboration_info = record {
    agreement_ref = none;
    service = record { value = ""; type_value = none };
    action = record { value = "" };
    conversation_id = record { value = "" };
  };
  message_properties = none;
  payload_info = some (record { part_info = gzip_part ∷ [] });
  mpc = none;
}

abbrev pub envelope : Envelope
envelope = record {
  header = record {
    security = security;
    messaging = record {
      signal_messages = [];
      user_messages = user ∷ [];
      messaging_id = some "msg";
      w3_org_2003_05_soap_envelope_must_understand = none;
    };
  };
  body = record { body_id = none };
}
