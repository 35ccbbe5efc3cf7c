-- ===== src/Serialise/Envelopes.antt =====
-- `dump_to_xml` of the security header and of the envelope: as4/models/xenc, as4/models/dsig,
-- as4/models/wsse and as4/models/soap, of an envelope that the program has built.
use as_lib.Base.{String, ◌<>◌, none, some, List, [], ◌∷◌}
use as_lib.Platform.{Bytes, DateTime}
use as_lib.Etree.{Element}
use as_lib.Models.Reference.{DigestMethod}
use as_lib.Models.Security.{Security}
use as_lib.Models.Signature.{Object, Signature}
use as_lib.Models.Soap.{Envelope}
use as_lib.Models.Tokens.{BinarySecurityToken}
use as_lib.Models.Xenc.{
  CarriedKeyName, CipherData, CipherReference, CipherValue, DataReference, EncryptedKey,
  EncryptedType, EncryptionMethod, EncryptionProperties, EncryptionProperty, Mgf, ReferenceList,
}
use as_lib.Serialise.{
  Field, text_field, optional_field, element_field, list_field, optional_element, bool_text, dump,
  dump_algorithm, dump_body, dump_signed_info, dump_transform, wsu_id_alias,
}
use as_lib.Serialise.KeyInfos.{ds, dump_key_info, wsse}
use as_lib.Serialise.Signal.{eb}
use as_lib.Serialise.UserMessages.{dump_messaging}

abbrev xenc : String → String
xenc name = "{http://www.w3.org/2001/04/xmlenc#}" <> name

abbrev soap : String → String
soap name = "{http://www.w3.org/2003/05/soap-envelope}" <> name

dump_encryption_method : EncryptionMethod → Element
unfolding dump
dump_encryption_method m =
    dump (xenc "EncryptionMethod")
      (text_field "@Algorithm" m.algorithm
        ∷ optional_element (ds "DigestMethod")
            (λ (d : DigestMethod). dump_algorithm (ds "DigestMethod") d.algorithm) m.digest_method
        ∷ optional_element "{http://www.w3.org/2009/xmlenc11#}MGF"
            (λ (g : Mgf). dump_algorithm "{http://www.w3.org/2009/xmlenc11#}MGF" g.algorithm) m.mgf
        ∷ [])
      []

dump_cipher_reference : CipherReference → Element
unfolding dump_transform
dump_cipher_reference r =
    dump (xenc "CipherReference")
      (element_field (xenc "Transforms") (
          dump (xenc "Transforms")
            (list_field (ds "Transform") (dump_transform (ds "Transform")) r.transforms.transforms
              ∷ [])
            [])
        ∷ optional_field "@URI" r.uri
        ∷ [])
      []

dump_cipher_data : CipherData → Element
unfolding dump_cipher_reference
dump_cipher_data d =
    dump (xenc "CipherData")
      (optional_element (xenc "CipherValue")
          (λ (v : CipherValue). dump (xenc "CipherValue") (optional_field "#text" v.value ∷ []) [])
          d.cipher_value
        ∷ optional_element (xenc "CipherReference") dump_cipher_reference d.cipher_reference
        ∷ [])
      []

dump_encryption_properties : EncryptionProperties → Element
unfolding dump
dump_encryption_properties ps =
    dump (xenc "EncryptionProperties")
      (list_field (xenc "EncryptionProperty")
          (λ (p : EncryptionProperty).
            dump (xenc "EncryptionProperty")
              (optional_field "@Target" p.target ∷ optional_field "@Id" p.id ∷ []) [])
          ps.encryption_property
        ∷ optional_field "@Id" ps.id
        ∷ [])
      []

dump_reference_list : ReferenceList → Element
unfolding dump
dump_reference_list l =
    let to : String → DataReference → Element =
      λ name r. dump (xenc name) (optional_field "@URI" r.uri ∷ []) [] in
    dump (xenc "ReferenceList")
      (list_field (xenc "DataReference") (to "DataReference") l.data_reference
        ∷ list_field (xenc "KeyReference") (to "KeyReference") l.key_reference
        ∷ [])
      []

dump_token : BinarySecurityToken → Element
unfolding dump
dump_token t =
    dump (wsse "BinarySecurityToken")
      (text_field "@EncodingType" t.encoding_type
        ∷ text_field "@ValueType" t.value_type
        ∷ text_field wsu_id_alias t.bst_id
        ∷ text_field "#text" t.value
        ∷ [])
      []

module _ (b64encode : Bytes → String) where
  -- The fields of `EncryptedType`, which come before those of `EncryptedKey`.
  encrypted_fields : EncryptedType → List Field → List Field
  unfolding dump_encryption_method dump_key_info dump_cipher_data dump_encryption_properties
  encrypted_fields t rest =
      element_field (xenc "EncryptionMethod") (dump_encryption_method t.encryption_method)
      ∷ element_field (ds "KeyInfo") (dump_key_info b64encode t.key_info)
      ∷ element_field (xenc "CipherData") (dump_cipher_data t.cipher_data)
      ∷ list_field (xenc "EncryptionProperties") dump_encryption_properties t.encryption_properties
      ∷ optional_field "@Id" t.encrypted_type_id
      ∷ optional_field "@Type" t.type_value
      ∷ optional_field "@MimeType" t.mime_type
      ∷ optional_field "@Encoding" t.encoding
      ∷ rest

  dump_encrypted_data : EncryptedType → Element
  unfolding encrypted_fields
  dump_encrypted_data t = dump (xenc "EncryptedData") (encrypted_fields t []) []

  dump_encrypted_key : EncryptedKey → Element
  unfolding encrypted_fields dump_reference_list
  dump_encrypted_key k =
      dump (xenc "EncryptedKey")
        (encrypted_fields k.encrypted_type (
          element_field (xenc "ReferenceList") (dump_reference_list k.reference_list)
          ∷ list_field (xenc "CarriedKeyName")
              (λ (n : CarriedKeyName).
                dump (xenc "CarriedKeyName") (optional_field "#text" n.text ∷ []) [])
              k.carried_key_name
          ∷ optional_field "@Recipient" k.recipient
          ∷ []))
        []

  dump_signature : Signature → Element
  unfolding dump_signed_info dump_key_info
  dump_signature s =
      dump (ds "Signature")
        (element_field (ds "SignedInfo") (dump_signed_info (ds "SignedInfo") s.signed_info)
          ∷ element_field (ds "SignatureValue") (
              dump (ds "SignatureValue")
                (optional_field "#text"
                    (elim s.signature_value.value [ none ↦ none | some b ↦ some (b64encode b) ])
                  ∷ optional_field "@Id" s.signature_value.id
                  ∷ [])
                [])
          ∷ element_field (ds "KeyInfo") (dump_key_info b64encode s.key_info)
          ∷ list_field (ds "Object")
              (λ (o : Object).
                dump (ds "Object")
                  (optional_field "@Id" o.id
                    ∷ optional_field "@MimeType" o.mime_type
                    ∷ optional_field "@Encoding" o.encoding
                    ∷ [])
                  [])
              s.object_value
          ∷ optional_field "@Id" s.signature_id
          ∷ [])
        []

  dump_security : Security → Element
  unfolding dump_token dump_encrypted_key dump_encrypted_data dump_signature
  dump_security s =
      dump (wsse "Security")
        (list_field (wsse "BinarySecurityToken") dump_token s.binary_security_tokens
          ∷ optional_element (xenc "EncryptedKey") dump_encrypted_key s.encrypted_key
          ∷ list_field (xenc "EncryptedData") dump_encrypted_data
              (elim s.encrypted_data [ none ↦ [] | some all ↦ all ])
          ∷ optional_element (ds "Signature") dump_signature s.signature
          ∷ text_field ("@" <> soap "mustUnderstand") (bool_text s.must_understand)
          ∷ [])
        []

  unfoldable pub dump_envelope : (DateTime → String) → Envelope → Element
  unfolding dump_security dump_messaging dump_body
  dump_envelope isoformat e =
      dump (soap "Envelope")
        (element_field (soap "Header") (
            dump (soap "Header")
              (element_field (wsse "Security") (dump_security e.header.security)
                ∷ element_field (eb "Messaging") (dump_messaging isoformat e.header.messaging)
                ∷ [])
              [])
          ∷ element_field (soap "Body") (dump_body (soap "Body") e.body)
          ∷ [])
        []
