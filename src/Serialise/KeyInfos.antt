-- ===== src/Serialise/KeyInfos.antt =====
-- `dump_to_xml` of the models of as4/models/dsig/key_info.py and of
-- as4/models/wsse/security_token_reference.py. Among the models of an envelope that the program
-- has built only `SignedInfo` has an `etree_element`, so these have no wildcard content.
use as_lib.Base.{String, ◌<>◌, [], ◌∷◌}
use as_lib.Base.Text.{show}
use as_lib.Platform.{Bytes}
use as_lib.Etree.{Element}
use as_lib.Models.KeyInfo.{
  CryptoBinary, KeyInfo, KeyName, KeyValue, MgmtData, PgpData, RetrievalMethod, SpkiData,
  X509Certificate, X509Crl, X509Data, X509IssuerSerial, X509Ski, X509SubjectName,
}
use as_lib.Models.Tokens.{SecurityTokenReference}
use as_lib.Models.Wildcard.{wildcard_content}
use as_lib.Serialise.{
  text_field, optional_field, element_field, list_field, dump, dump_text, dump_transforms,
  wsu_id_alias,
}

abbrev pub ds : String → String
ds name = "{http://www.w3.org/2000/09/xmldsig#}" <> name

abbrev pub wsse : String → String
wsse name =
    "{http://docs.oasis-open.org/wss/2004/01/oasis-200401-wss-wssecurity-secext-1.0.xsd}" <> name

unfoldable pub dump_security_token_reference : SecurityTokenReference → Element
unfolding dump
dump_security_token_reference r =
    dump (wsse "SecurityTokenReference")
      (optional_field wsu_id_alias r.security_token_reference_id
        ∷ text_field ("@" <> wsse "Usage") r.usage
        ∷ element_field (wsse "Reference") (
            dump (wsse "Reference")
              (optional_field "@URI" r.reference.uri
                ∷ optional_field "@ValueType" r.reference.value_type
                ∷ [])
              [])
        ∷ optional_field
            "@{http://docs.oasis-open.org/wss/oasis-wss-wssecurity-secext-1.1.xsd}TokenType"
            r.token_type
        ∷ [])
      []

dump_key_value : KeyValue → Element
unfolding wildcard_content dump
dump_key_value v = dump (ds "KeyValue") [] (wildcard_content v.etree_element)

dump_retrieval_method : RetrievalMethod → Element
unfolding dump_transforms
dump_retrieval_method m =
    dump (ds "RetrievalMethod")
      (list_field (ds "Transforms") (dump_transforms (ds "Transforms")) m.transforms
        ∷ optional_field "@URI" m.uri
        ∷ optional_field "@Type" m.type_value
        ∷ [])
      []

dump_issuer_serial : X509IssuerSerial → Element
unfolding show dump
dump_issuer_serial i =
    dump (ds "X509IssuerSerial")
      (element_field (ds "X509IssuerName") (dump_text (ds "X509IssuerName") i.x509_issuer_name.text)
        ∷ element_field (ds "X509SerialNumber")
            (dump_text (ds "X509SerialNumber") (show i.x509_serial_number.text))
        ∷ [])
      []

-- `Base64Bytes` fields are written by `base64.b64encode`.
module _ (b64encode : Bytes → String) where
  dump_binary : String → Bytes → Element
  unfolding dump
  dump_binary name b = dump_text (ds name) (b64encode b)

  dump_x509_data : X509Data → Element
  unfolding dump_issuer_serial dump_binary
  dump_x509_data d =
      dump (ds "X509Data")
        (list_field (ds "X509IssuerSerial") dump_issuer_serial d.x509_issuer_serial
          ∷ list_field (ds "X509SKI") (λ (k : X509Ski). dump_binary "X509SKI" k.text) d.x509_ski
          ∷ list_field (ds "X509SubjectName")
              (λ (n : X509SubjectName). dump_text (ds "X509SubjectName") n.text) d.x509_subject_name
          ∷ list_field (ds "X509Certificate")
              (λ (c : X509Certificate). dump_binary "X509Certificate" c.text) d.x509_certificate
          ∷ list_field (ds "X509CRL") (λ (c : X509Crl). dump_binary "X509CRL" c.text) d.x509_crl
          ∷ [])
        []

  dump_pgp_data : PgpData → Element
  unfolding dump_binary
  dump_pgp_data d =
      dump (ds "PGPData")
        (element_field (ds "PGPKeyID") (dump_binary "PGPKeyID" d.pgpkey_id.text)
          ∷ list_field (ds "PGPKeyPacket") (λ (p : CryptoBinary). dump_binary "PGPKeyPacket" p.text)
              d.pgpkey_packet
          ∷ [])
        []

  dump_spki_data : SpkiData → Element
  unfolding dump_binary
  dump_spki_data d =
      dump (ds "SPKIData")
        (list_field (ds "SPKISexp") (λ (p : CryptoBinary). dump_binary "SPKISexp" p.text) d.spkisexp
          ∷ [])
        []

  unfoldable pub dump_key_info : KeyInfo → Element
  unfolding dump_key_value dump_retrieval_method dump_x509_data dump_pgp_data dump_spki_data
      dump_security_token_reference
  dump_key_info i =
      dump (ds "KeyInfo")
        (optional_field "@Id" i.key_info_id
          ∷ list_field (ds "KeyName") (λ (n : KeyName). dump_text (ds "KeyName") n.text) i.key_name
          ∷ list_field (ds "KeyValue") dump_key_value i.key_value
          ∷ list_field (ds "RetrievalMethod") dump_retrieval_method i.retrieval_method
          ∷ list_field (ds "X509Data") dump_x509_data i.x509_data
          ∷ list_field (ds "PGPData") dump_pgp_data i.pgp_data
          ∷ list_field (ds "SPKIData") dump_spki_data i.spki_data
          ∷ list_field (ds "MgmtData") (λ (d : MgmtData). dump_text (ds "MgmtData") d.text)
              i.mgmt_data
          ∷ list_field (wsse "SecurityTokenReference") dump_security_token_reference
              i.security_token_reference
          ∷ [])
        []
