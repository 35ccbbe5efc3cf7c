-- ===== src/Peppol/Build/Signed.antt =====
-- The signature that `get_signature` of as4/profiles/peppol/message.py makes, against the checks of
-- `get_verified_signature` of as4/core/message.py.
use as_lib.Base.{
  ◌≡◌, refl, String, ◌<>◌, true, none, some, List, [], ◌∷◌, ==_refl, ◌==◌, string_eq, option_eq,
}
use as_lib.Base.Dict
use as_lib.Base.Dict.{Dict}
use as_lib.Platform.{Bytes, sha256}
use as_lib.Etree.{Element, tag}
use as_lib.Outcome.{ok}
use as_lib.Environment.{Environment}
use as_lib.Models.Reference.{Reference}
use as_lib.Models.Messaging.{Messaging}
use as_lib.Models.Signature.{SignedInfo}
use as_lib.Models.Soap.{Body}
use as_lib.Dsig.{attachment_content_signature, exclusive_c14n, for_element}
use as_lib.Dsig.Verify.{signature_algorithm, signed_info_canonicalized, verify}
use as_lib.Dsig.Matching.{verify_iff}
use as_lib.Parties.{As4InternalParty}
use as_lib.References.{As4References}
use as_lib.Serialise.{dump_body}
use as_lib.Serialise.UserMessages.{dump_messaging}
use as_lib.Peppol.Build.{Supplies}
use as_lib.Peppol.Build.Signing.{
  get_body_digest_reference, get_messaging_digest_reference, get_payload_digest_reference,
  get_payload_digest_references, get_signature, get_signed_info,
}
use as_lib.Peppol.Build.Digests.{Unspaced, for_bytes-sha256, reference_for}

-- What RSA, base64 and the parser of certificates document, for the party that signs.
pub record Verifiable (env : Environment) (local_party : As4InternalParty) : Type 0 where
  pub rsa_key : env.crypto.is_rsa local_party.credentials.certificate ≡ true
  pub rsa_pkcs1 :
      (b : Bytes)
      → env.crypto.rsa_verify local_party.credentials.certificate sha256
          (local_party.credentials.private_key.sign b)
          b
        ≡ true
  pub base64 : (b : Bytes) → env.crypto.b64decode (env.crypto.b64encode b) ≡ some b
  pub unspaced : Unspaced env.crypto
  pub loads :
      env.crypto.load_der_x509_certificate local_party.credentials.certificate.der
      ≡ some local_party.credentials.certificate

-- The element under the id, and its tag and canonical form: it is what the sender dumped.
pub record Received (env : Environment) (elements : Dict Element) (id name : String) (e : Element)
    : Type 0 where
  pub target : Element
  pub found : Dict.get elements id ≡ some target
  pub tagged : tag target ≡ name
  pub same : env.xml.c14n target [] ≡ env.xml.c14n e []

abbrev pub messaging_tag : String
messaging_tag = "{http://docs.oasis-open.org/ebxml-msg/ebms/v3.0/ns/core/200704/}Messaging"

abbrev pub body_tag : String
body_tag = "{http://www.w3.org/2003/05/soap-envelope}Body"

module _ (env : Environment) (s : Supplies) where
  -- The three references of a message with one attachment.
  abbrev pub to_messaging : As4References → Messaging → Reference
  to_messaging references messaging =
      reference_for env.crypto ("#" <> references.messaging_id)
        (env.xml.c14n (dump_messaging s.moment.isoformat messaging) []) exclusive_c14n

  abbrev pub to_body : As4References → Body → Reference
  to_body references body =
      reference_for env.crypto ("#" <> references.body_id)
        (env.xml.c14n (dump_body body_tag body) []) exclusive_c14n

  abbrev pub to_attachment : String → Bytes → Reference
  to_attachment attachment_id compressed =
      reference_for env.crypto ("cid:" <> attachment_id) compressed attachment_content_signature

  unfoldable pub references_of : As4References → Messaging → Body → String → Bytes → List Reference
  references_of references messaging body attachment_id compressed =
      to_messaging references messaging
      ∷ to_body references body
      ∷ to_attachment attachment_id compressed
      ∷ []

  abbrev pub signed_info_of : List Reference → SignedInfo
  signed_info_of references = record {
    etree_element = none;
    canonicalization_method = record { etree_element = none; algorithm = some exclusive_c14n };
    signature_method = record { algorithm = "http://www.w3.org/2001/04/xmldsig-more#rsa-sha256" };
    references = references;
    id = none;
  }

  messaging_reference :
      (references : As4References) (messaging : Messaging)
      → get_messaging_digest_reference env s references messaging
        ≡ ok (to_messaging references messaging)
  unfolding get_messaging_digest_reference for_element
  messaging_reference references messaging = for_bytes-sha256 env.crypto env.xml.c14n _ _ _

  body_reference :
      (references : As4References) (body : Body)
      → get_body_digest_reference env s references body ≡ ok (to_body references body)
  unfolding get_body_digest_reference for_element
  body_reference references body = for_bytes-sha256 env.crypto env.xml.c14n _ _ _

  payload_reference :
      (id : String) (b : Bytes)
      → get_payload_digest_reference env s (id, b) ≡ ok (to_attachment id b)
  unfolding get_payload_digest_reference
  payload_reference id b = for_bytes-sha256 env.crypto env.xml.c14n _ _ _

  pub get_signed_info-references_of :
      (references : As4References) (messaging : Messaging) (body : Body) (id : String) (b : Bytes)
      → get_signed_info env s references messaging body ((id, b) ∷ [])
        ≡ ok (signed_info_of (references_of references messaging body id b))
  unfolding get_signed_info get_payload_digest_references references_of
  get_signed_info-references_of references messaging body id b =
      rw
        (
          get_signed_info,
          messaging_reference references messaging,
          body_reference references body,
          get_payload_digest_references,
          payload_reference id b,
        )
        refl

  module _ (local_party : As4InternalParty) (v : Verifiable env local_party)
      (references : As4References) (i : SignedInfo) where
    signed_bytes :
        (get_signature env s local_party references i).signature_value.value
        ≡ some (
            local_party.credentials.private_key.sign (
              signed_info_canonicalized env.crypto env.xml.c14n
                (get_signature env s local_party references i).signed_info))
    unfolding get_signature
    signed_bytes = v.base64 _

    canonicalized :
        i.canonicalization_method.algorithm ≡ some exclusive_c14n
        → ((get_signature env s local_party references
              i).signed_info.canonicalization_method.algorithm
            == some exclusive_c14n)
          ≡ true
    unfolding get_signature
    canonicalized e = rw e (==_refl (some exclusive_c14n))

    supported :
        i.signature_method.algorithm ≡ "http://www.w3.org/2001/04/xmldsig-more#rsa-sha256"
        → signature_algorithm
            (get_signature env s local_party references i).signed_info.signature_method.algorithm
          ≡ some sha256
    unfolding get_signature signature_algorithm string_eq
    supported e = rw e refl

    pub verify-get_signature :
        i.canonicalization_method.algorithm ≡ some exclusive_c14n
        → i.signature_method.algorithm ≡ "http://www.w3.org/2001/04/xmldsig-more#rsa-sha256"
        → verify env.crypto env.xml.c14n
            (get_signature env s local_party references i)
            local_party.credentials.certificate
          ≡ ok tt
    verify-get_signature e1 e2 =
        (verify_iff env.crypto env.xml.c14n (get_signature env s local_party references i)
            local_party.credentials.certificate).1
          (record {
            algorithm = sha256;
            bytes = _;
            canonicalized = canonicalized e1;
            supported = supported e2;
            rsa_key = v.rsa_key;
            has_bytes = signed_bytes;
            signed = v.rsa_pkcs1 _;
          })
