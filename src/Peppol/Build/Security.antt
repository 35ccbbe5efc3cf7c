-- ===== src/Peppol/Build/Security.antt =====
-- The tokens, the encrypted key and the encrypted data of a built message:
-- as4/profiles/peppol/message.py.
use as_lib.Base.{String, ◌<>◌, Option, none, some, List, [], ◌∷◌, map, string_eq, option_eq}
use as_lib.Platform.{Bytes}
use as_lib.Environment.{Environment}
use as_lib.Models.KeyInfo.{KeyInfo}
use as_lib.Models.Tokens.{BinarySecurityToken, SecurityTokenReference}
use as_lib.Models.Xenc.{DataReference, EncryptedKey, EncryptedType}
use as_lib.Dsig.{digest_sha256}
use as_lib.Documents.{x509v3}
use as_lib.Parties.{As4ExternalParty, As4InternalParty}
use as_lib.References.{As4References}
use as_lib.Message.Decryption.{aes128_gcm, rsa_oaep}

-- `KeyInfo(key_info_id=…, security_token_reference=[…])`
abbrev pub key_info_of : Option String → SecurityTokenReference → KeyInfo
key_info_of id r = record {
  key_info_id = id;
  key_name = [];
  key_value = [];
  retrieval_method = [];
  x509_data = [];
  pgp_data = [];
  spki_data = [];
  mgmt_data = [];
  security_token_reference = r ∷ [];
}

-- The `EncryptedData` of one attachment of the references' map.
unfoldable pub encrypted_part : As4References → String × String → EncryptedType
encrypted_part references (attachment_part_id, encrypted_data_id) = record {
  encryption_method = record { algorithm = aes128_gcm; digest_method = none; mgf = none };
  key_info = key_info_of none (record {
    security_token_reference_id = none;
    usage = "";
    reference = record { uri = some ("#" <> references.encrypted_key_id); value_type = none };
    token_type =
        some "http://docs.oasis-open.org/wss/oasis-wss-soap-message-security-1.1#EncryptedKey";
  });
  cipher_data = record {
    cipher_value = none;
    cipher_reference = some (record {
      transforms = record {
        transforms =
            record {
              etree_element = none;
              algorithm =
                  some
                    "http://docs.oasis-open.org/wss/oasis-wss-SwAProfile-1.1#Attachment-Ciphertext-Transform";
            }
            ∷ [];
      };
      uri = some ("cid:" <> attachment_part_id);
    });
  };
  encryption_properties = [];
  encrypted_type_id = some encrypted_data_id;
  type_value =
      some "http://docs.oasis-open.org/wss/oasis-wss-SwAProfile-1.1#Attachment-Content-Only";
  mime_type = some "application/gzip";
  encoding = none;
}

unfoldable pub get_encrypted_data : As4References → List EncryptedType
unfolding encrypted_part
get_encrypted_data references =
    map (encrypted_part references) references.attachment_id_encrypted_data_id_map

-- `XencReference(uri=f"#{encrypted_data_id}")`
abbrev pub data_reference : String × String → DataReference
data_reference entry = record { uri = some ("#" <> entry.1) }

module _ (env : Environment) where
  unfoldable pub get_encrypted_key : As4References → Bytes → EncryptedKey
  get_encrypted_key references encrypted_session_key = record {
    encrypted_type = record {
      encryption_method = record {
        algorithm = rsa_oaep;
        digest_method = some (record { algorithm = digest_sha256 });
        mgf = some (record { algorithm = "http://www.w3.org/2009/xmlenc11#mgf1sha256" });
      };
      key_info = key_info_of none (record {
        security_token_reference_id = none;
        usage = "";
        reference = record {
          uri = some ("#" <> references.encrypted_key_bst_id);
          value_type = some x509v3;
        };
        token_type = none;
      });
      cipher_data = record {
        cipher_value = some (record { value = some (env.crypto.b64encode encrypted_session_key) });
        cipher_reference = none;
      };
      encryption_properties = [];
      encrypted_type_id = some references.encrypted_key_id;
      type_value = some "";
      mime_type = some "";
      encoding = some "";
    };
    reference_list = record {
      data_reference = map data_reference references.attachment_id_encrypted_data_id_map;
      key_reference = [];
    };
    carried_key_name = [];
    recipient = none;
  }

  -- `get_remote_binary_security_token` and `get_local_binary_security_token` differ in the id and in
  -- the party.
  abbrev token_for : String → Bytes → BinarySecurityToken
  token_for id der = record {
    encoding_type =
        "http://docs.oasis-open.org/wss/2004/01/oasis-200401-wss-soap-message-security-1.0#Base64Binary";
    value_type = x509v3;
    bst_id = id;
    value = env.crypto.b64encode der;
  }

  unfoldable pub get_remote_binary_security_token :
      As4ExternalParty → As4References → BinarySecurityToken
  get_remote_binary_security_token remote_party references =
      token_for references.encrypted_key_bst_id remote_party.credentials.certificate.der

  unfoldable pub get_local_binary_security_token :
      As4InternalParty → As4References → BinarySecurityToken
  get_local_binary_security_token local_party references =
      token_for references.signature_bst_id local_party.credentials.certificate.der
