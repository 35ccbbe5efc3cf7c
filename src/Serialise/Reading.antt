-- ===== src/Serialise/Reading.antt =====
-- What lxml and pydantic read of an envelope that `dump_to_xml` of as4/models/common.py has written,
-- where its texts and the ids in it are not empty and have no white space round them, no list that an
-- element holds alone is empty, and there is no `KeyValue`. It is the envelope, except that
-- `element_to_dict` gives a model the element that it is read from, which is kept here where the
-- code uses it, an empty attribute was not written, and a time comes back as it was written.
pub mod Kept
use as_lib.Base.{String, Option, none, some, List, map, if◌then◌else◌}
use as_lib.Base.Text.{nonempty}
use as_lib.Platform.{DateTime}
use as_lib.Models.MessageInfo.{MessageInfo}
use as_lib.Models.Messaging.{Messaging}
use as_lib.Models.Reference.{Reference}
use as_lib.Models.Sbdh.{StandardBusinessDocument}
use as_lib.Models.Security.{Security}
use as_lib.Models.SignalMessage.{MessagePartNrInformation, Receipt, SignalMessage}
use as_lib.Models.Signature.{CanonicalizationMethod, Signature, SignedInfo}
use as_lib.Models.Soap.{Envelope}
use as_lib.Models.Transforms.{Transform}
use as_lib.Models.UserMessage.{UserMessage}
use as_lib.Models.Xenc.{CipherReference, EncryptedKey, EncryptedType}
use as_lib.Serialise.{dump_canonicalization_method, dump_signed_info, dump_transform}
use as_lib.Serialise.KeyInfos.{ds}

-- An attribute that `dump_to_xml` leaves out is `None` when it is read.
unfoldable pub read_attribute : Option String → Option String
unfolding nonempty
read_attribute none = none
read_attribute (some s) = if nonempty s then some s else none

abbrev pub read_transform : Transform → Transform
read_transform t = record t { etree_element = some (dump_transform (ds "Transform") t) }

abbrev pub read_reference : Reference → Reference
read_reference r = record r {
  transforms = record { transforms = map read_transform r.transforms.transforms };
}

abbrev pub read_canonicalization_method : CanonicalizationMethod → CanonicalizationMethod
read_canonicalization_method m = record m {
  etree_element = some (dump_canonicalization_method (ds "CanonicalizationMethod") m);
}

abbrev pub read_signed_info : SignedInfo → SignedInfo
read_signed_info i = record i {
  etree_element = some (dump_signed_info (ds "SignedInfo") i);
  canonicalization_method = read_canonicalization_method i.canonicalization_method;
  references = map read_reference i.references;
}

abbrev pub read_signature : Signature → Signature
read_signature s = record s { signed_info = read_signed_info s.signed_info }

abbrev pub read_cipher_reference : CipherReference → CipherReference
read_cipher_reference r = record r {
  transforms = record { transforms = map read_transform r.transforms.transforms };
}

abbrev pub read_encrypted_type : EncryptedType → EncryptedType
read_encrypted_type e = record e {
  cipher_data = record e.cipher_data {
    cipher_reference = elim e.cipher_data.cipher_reference [
      | none ↦ none
      | some r ↦ some (read_cipher_reference r)
    ];
  };
  type_value = read_attribute e.type_value;
  mime_type = read_attribute e.mime_type;
  encoding = read_attribute e.encoding;
}

abbrev pub read_encrypted_key : EncryptedKey → EncryptedKey
read_encrypted_key k = record k { encrypted_type = read_encrypted_type k.encrypted_type }

abbrev pub read_security : Security → Security
read_security s = record s {
  encrypted_key = elim s.encrypted_key [ none ↦ none | some k ↦ some (read_encrypted_key k) ];
  encrypted_data = elim s.encrypted_data [
    | none ↦ none
    | some d ↦ some (map read_encrypted_type d)
  ];
  signature = elim s.signature [ none ↦ none | some x ↦ some (read_signature x) ];
}

abbrev pub read_part : MessagePartNrInformation → MessagePartNrInformation
read_part p = record { references = map read_reference p.references }

abbrev pub read_receipt : Receipt → Receipt
read_receipt r = record {
  non_repudiation_information = elim r.non_repudiation_information [
    | none ↦ none
    | some i ↦
        some (record { message_part_nr_information = map read_part i.message_part_nr_information })
  ];
}

-- `read_time` is `datetime.fromisoformat` after `isoformat(timespec="milliseconds")`.
module _ (read_time : DateTime → DateTime) where
  abbrev pub read_message_info : MessageInfo → MessageInfo
  read_message_info i = record i { timestamp = record { value = read_time i.timestamp.value } }

  abbrev pub read_user_message : UserMessage → UserMessage
  read_user_message m = record m { message_info = read_message_info m.message_info }

  abbrev pub read_signal_message : SignalMessage → SignalMessage
  read_signal_message m = record m {
    message_info = read_message_info m.message_info;
    receipt = elim m.receipt [ none ↦ none | some r ↦ some (read_receipt r) ];
  }

  abbrev pub read_messaging : Messaging → Messaging
  read_messaging m = record m {
    signal_messages = map read_signal_message m.signal_messages;
    user_messages = map read_user_message m.user_messages;
  }

  abbrev pub read_envelope : Envelope → Envelope
  read_envelope v = record v {
    header = record {
      security = read_security v.header.security;
      messaging = read_messaging v.header.messaging;
    };
  }

  -- The envelope of a message, which is there once the message is built.
  abbrev pub read_carried : Option Envelope → Option Envelope
  read_carried none = none
  read_carried (some v) = some (read_envelope v)

  abbrev pub read_business_document : StandardBusinessDocument → StandardBusinessDocument
  read_business_document d =
      let header = d.standard_business_document_header in
      let identification = header.document_identification in
      record {
        standard_business_document_header = record header {
          document_identification = record identification {
            creation_date_and_time = record {
              value = read_time identification.creation_date_and_time.value;
            };
          };
        };
      }
