-- ===== src/Peppol/Build/Signing.antt =====
-- The references of the signature of a built message, and the signature:
-- as4/profiles/peppol/message.py.
use as_lib.Base.{String, ◌<>◌, none, some, List, [], ◌∷◌, string_eq, option_eq}
use as_lib.Base.Dict.{Dict}
use as_lib.Platform.{Bytes}
use as_lib.Outcome.{Result, ok, ◌>>=◌}
use as_lib.Environment.{Environment}
use as_lib.Models.Reference.{Reference}
use as_lib.Models.Signature.{Signature, SignedInfo}
use as_lib.Models.Soap.{Body}
use as_lib.Models.Messaging.{Messaging}
use as_lib.Dsig.{
  attachment_content_signature, digest_sha256, exclusive_c14n, for_bytes, for_element,
}
use as_lib.Dsig.Verify.{signed_info_canonicalized}
use as_lib.Documents.{x509v3}
use as_lib.Parties.{As4InternalParty}
use as_lib.References.{As4References}
use as_lib.Serialise.{dump_body, dump_signed_info}
use as_lib.Serialise.UserMessages.{dump_messaging}
use as_lib.Peppol.Build.{Supplies}
use as_lib.Peppol.Build.Security.{key_info_of}

module _ (env : Environment) (s : Supplies) where
  unfoldable pub get_messaging_digest_reference : As4References → Messaging → Result Reference
  unfolding for_element dump_messaging
  get_messaging_digest_reference references messaging =
      for_element env.crypto env.xml.c14n ("#" <> references.messaging_id)
        (dump_messaging s.moment.isoformat messaging) digest_sha256

  unfoldable pub get_body_digest_reference : As4References → Body → Result Reference
  unfolding for_element dump_body
  get_body_digest_reference references body =
      for_element env.crypto env.xml.c14n ("#" <> references.body_id)
        (dump_body "{http://www.w3.org/2003/05/soap-envelope}Body" body) digest_sha256

  unfoldable pub get_payload_digest_reference : String × Bytes → Result Reference
  unfolding for_bytes
  get_payload_digest_reference (attachment_id, compressed_payload) =
      for_bytes env.crypto env.xml.c14n ("cid:" <> attachment_id) compressed_payload digest_sha256
        attachment_content_signature

  unfoldable pub get_payload_digest_references : Dict Bytes → Result (List Reference)
  unfolding get_payload_digest_reference
  get_payload_digest_references [] = ok []
  get_payload_digest_references (entry ∷ rest) = do
    first ← get_payload_digest_reference entry
    others ← get_payload_digest_references rest
    ok (first ∷ others)

  -- The `etree_element` is set by `get_signature`, from the dump of the rest.
  unfoldable pub get_signed_info : As4References → Messaging → Body → Dict Bytes → Result SignedInfo
  unfolding get_messaging_digest_reference get_body_digest_reference get_payload_digest_references
  get_signed_info references messaging body compressed_payloads = do
    first ← get_messaging_digest_reference references messaging
    second ← get_body_digest_reference references body
    payloads ← get_payload_digest_references compressed_payloads
    ok (record {
      etree_element = none;
      canonicalization_method = record { etree_element = none; algorithm = some exclusive_c14n };
      signature_method = record { algorithm = "http://www.w3.org/2001/04/xmldsig-more#rsa-sha256" };
      references = first ∷ second ∷ payloads;
      id = none;
    })

  -- `SignatureValue` decodes the text that it is given.
  unfoldable pub get_signature : As4InternalParty → As4References → SignedInfo → Signature
  unfolding dump_signed_info signed_info_canonicalized
  get_signature local_party references i =
      let dumped = record i {
        etree_element = some (dump_signed_info "{http://www.w3.org/2000/09/xmldsig#}SignedInfo" i);
      } in
      let signature_bytes =
        local_party.credentials.private_key.sign
          (signed_info_canonicalized env.crypto env.xml.c14n dumped) in
      record {
        signed_info = dumped;
        signature_value = record {
          value = env.crypto.b64decode (env.crypto.b64encode signature_bytes);
          id = none;
        };
        key_info = key_info_of (some references.key_info_id) (record {
          security_token_reference_id = some references.signature_security_token_reference_id;
          usage = "";
          reference = record {
            uri = some ("#" <> references.signature_bst_id);
            value_type = some x509v3;
          };
          token_type = none;
        });
        object_value = [];
        signature_id = some references.signature_id;
      }
