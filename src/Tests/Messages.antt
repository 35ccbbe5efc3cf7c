-- ===== src/Tests/Messages.antt =====
-- Messages that are parsed, decrypted, unpacked and processed.
use as_lib.Base.{
  ◌≡◌, ◌↔◌, In, refl, ◌≤◌, ◌⊎◌, ◌==◌, find, String, true, false, none, some, List, [], ◌∷◌, All,
  string_eq, option_eq,
}
use as_lib.Base.Dict
use as_lib.Base.Dict.{Dict}
use as_lib.Platform.{Bytes}
use as_lib.Errors.{error_of, soap_part_not_found}
use as_lib.Outcome.{Raised, ok, err, value_error, receiptable}
use as_lib.Documents.{compression_type, decompress}
use as_lib.Documents.Payloads.{Zipped, decompress_lem}
use as_lib.Message.{As4Message, blank}
use as_lib.Message.Decryption.{get_decrypted_data}
use as_lib.Message.Decryption.Meaning.{DecryptedBy, get_decrypted_data-DecryptedBy}
use as_lib.Message.Process.{process, process_parts}
use as_lib.Message.Process.Steps.{Passed, process_parts-keys, process_parts-Passed}
use as_lib.Message.Process.Kept.{SameIds, process-SameIds}
use as_lib.Message.Parse.{message_class, parse_steps, parse}
use as_lib.Message.Handled.{Reported, parse-ids, parse_successful_iff, parse-raises}
use as_lib.Parties.{As4ParseContext}
use as_lib.Mime.{Part, part, no_parts, first_part, find_part, unpack_message}
use as_lib.Mime.Unpacking.{
  content_type, related_parts, find_part_lem, Unpacked, unpack_message-Unpacked, Reports,
  unpack_message-raises,
}
use as_lib.Models.Security.{Security}
use as_lib.Models.Xenc.{EncryptedKey}
use as_lib.Peppol.{PeppolAs4Message, blank_peppol, has_scope, mandatory_scopes}
use as_lib.Peppol.Process.{check_scopes, process_sbdh}
use as_lib.Peppol.Agreement.{Agreed, process_sbdh-Agreed}
use as_lib.Peppol.Routing.{check_scopes-In}
use as_lib.Tests.Fixtures.{crypto, key_info, security, envelope, document, gzip_part}
use as_lib.Tests.Settings.{environment, context, scopes, document_scope, process_scope}

abbrev contents : Dict Bytes
contents = ("p", 1 ∷ 2 ∷ []) ∷ []

decompress_lem_example :
    (((compression_type gzip_part.part_properties.properties == some "application/gzip") ≡ false)
      × (◌≡◌ {A = Bytes} (1 ∷ 2 ∷ []) (1 ∷ 2 ∷ [])))
    ⊎ (Zipped gzip_part.part_properties
        × (crypto.gzip_read (1 ∷ 2 ∷ []) 5 ≡ some (1 ∷ 2 ∷ []))
        × (2 ≤ 4))
unfolding decompress option_eq string_eq
decompress_lem_example =
    decompress_lem crypto gzip_part.part_properties (1 ∷ 2 ∷ []) 4 (1 ∷ 2 ∷ []) refl

process_parts-keys_example :
    Dict.keys (process_parts crypto 1 (gzip_part ∷ []) contents contents).1 ≡ Dict.keys contents
process_parts-keys_example = process_parts-keys crypto 1 contents (gzip_part ∷ []) contents

process_parts-Passed_example : All (Passed crypto 4 contents contents) (gzip_part ∷ [])
unfolding process_parts string_eq option_eq
process_parts-Passed_example =
    process_parts-Passed crypto 4 contents (gzip_part ∷ []) contents contents refl

abbrev encrypted_key : EncryptedKey
encrypted_key = record {
  encrypted_type = record {
    encryption_method = record {
      algorithm = "http://www.w3.org/2009/xmlenc11#rsa-oaep";
      digest_method = none;
      mgf = none;
    };
    key_info = key_info;
    cipher_data = record {
      cipher_value = some (record { value = some "AA==" });
      cipher_reference = none;
    };
    encryption_properties = [];
    encrypted_type_id = none;
    type_value = none;
    mime_type = none;
    encoding = none;
  };
  reference_list = record { data_reference = record { uri = some "#ED" } ∷ []; key_reference = [] };
  carried_key_name = [];
  recipient = none;
}

abbrev encrypted : Security
encrypted = record security {
  encrypted_key = some encrypted_key;
  encrypted_data = some (
      record {
        encryption_method = record {
          algorithm = "http://www.w3.org/2009/xmlenc11#aes128-gcm";
          digest_method = none;
          mgf = none;
        };
        key_info = key_info;
        cipher_data = record {
          cipher_value = none;
          cipher_reference =
              some (record { transforms = record { transforms = [] }; uri = some "cid:p" });
        };
        encryption_properties = [];
        encrypted_type_id = some "ED";
        type_value = none;
        mime_type = none;
        encoding = none;
      }
      ∷ []);
}

abbrev sealed : Dict Bytes
sealed = ("p", 0 ∷ 1 ∷ 2 ∷ 3 ∷ 4 ∷ 5 ∷ 6 ∷ 7 ∷ 8 ∷ 9 ∷ 10 ∷ 11 ∷ 77 ∷ []) ∷ []

get_decrypted_data-DecryptedBy_example :
    DecryptedBy crypto context sealed encrypted.encrypted_key (("p", 77 ∷ []) ∷ [])
unfolding get_decrypted_data string_eq option_eq
get_decrypted_data-DecryptedBy_example =
    get_decrypted_data-DecryptedBy crypto context encrypted sealed (("p", 77 ∷ []) ∷ []) refl

process-SameIds_example :
    SameIds (process (environment envelope) context document contents blank).1 blank
process-SameIds_example = process-SameIds (environment envelope) context document contents blank

-- The message names an attachment that it does not have.
abbrev rejected_message : As4Message
rejected_message =
    elim (parse (environment envelope) (message_class (environment envelope)) context [] []) [
      | ok m ↦ m
      | err _ ↦ blank
    ]

parse-ids_example : (rejected_message.message_id ≡ "m1") × (rejected_message.messaging_id ≡ "msg")
unfolding as_lib.Message.pre_validate string_eq parse message_class option_eq
parse-ids_example =
    parse-ids (environment envelope) context [] [] document ("m1", "msg") rejected_message refl refl
      refl

parse_successful_iff_example : (rejected_message.parse_error ≡ none) ↔ (
    (parse_steps
      (environment envelope)
      (message_class (environment envelope))
      context
      []
      []
      blank).0
    ≡ ok tt)
unfolding parse string_eq message_class option_eq
parse_successful_iff_example =
    parse_successful_iff (environment envelope) context [] [] rejected_message refl

-- The resolver of a policy may raise an exception of its own.
abbrev raising : As4ParseContext
raising = record context {
  security_policy = record context.security_policy {
    signer_resolver = λ _ _. err (value_error "no");
  };
}

parse-raises_example :
    ((parse_steps
        (environment envelope)
        (message_class (environment envelope))
        raising
        []
        []
        blank).0
      ≡ err (value_error "no"))
    × (Reported (value_error "no") → ⊥)
unfolding parse string_eq message_class
parse-raises_example =
    parse-raises (environment envelope) (message_class (environment envelope)) raising [] []
      (value_error "no") refl

abbrev soap_part : Part
soap_part = part "application/soap+xml" none (some (60 ∷ [])) no_parts

abbrev payload_part : Part
payload_part = part "application/octet-stream" (some "<p>") (some (1 ∷ [])) no_parts

abbrev mime_message : Part
mime_message =
    part "multipart/related" none none (first_part soap_part (first_part payload_part no_parts))

find_part_lem_example :
    find_part "application/octet-stream" mime_message
    ≡ find (λ q. content_type q == "application/octet-stream") (related_parts mime_message)
find_part_lem_example = find_part_lem "application/octet-stream" mime_message

unpack_message-Unpacked_example : Unpacked (λ _. mime_message) [] (60 ∷ []) (("p", 1 ∷ []) ∷ [])
unfolding unpack_message string_eq
unpack_message-Unpacked_example =
    unpack_message-Unpacked (λ _. mime_message) [] (60 ∷ []) (("p", 1 ∷ []) ∷ []) refl

abbrev no_soap : Raised
no_soap = receiptable (error_of soap_part_not_found "")

unpack_message-raises_example : Reports (λ _. payload_part) no_soap
unfolding unpack_message string_eq
unpack_message-raises_example = unpack_message-raises (λ _. payload_part) [] no_soap refl

abbrev show_set : List String → String
show_set _ = ""

check_scopes-In_example :
    All (λ name. has_scope scopes name ≡ true) mandatory_scopes
    × ((document_scope.scope_type.value == "DOCUMENTID") ≡ true)
    × In document_scope scopes
    × ((process_scope.scope_type.value == "PROCESSID") ≡ true)
    × In process_scope scopes
unfolding check_scopes string_eq
check_scopes-In_example =
    check_scopes-In (environment envelope) show_set context scopes document_scope process_scope refl

abbrev peppol_message : PeppolAs4Message
peppol_message = record blank_peppol {
  as4 = record blank {
    soap_envelope = some envelope;
    mime_attachments = contents;
    decrypted_data = contents;
  };
}

abbrev routed : PeppolAs4Message
routed = record peppol_message {
  sender = some "c1";
  recipient = some "c4";
  document_type_identifier_value = some "x";
  document_type_identifier_scheme = some "busdox-docid-qns";
  process_identifier = some "x";
}

process_sbdh-Agreed_example : Agreed (environment envelope) show_set context peppol_message routed
unfolding process_sbdh option_eq string_eq
process_sbdh-Agreed_example =
    process_sbdh-Agreed (environment envelope) show_set context peppol_message routed refl
