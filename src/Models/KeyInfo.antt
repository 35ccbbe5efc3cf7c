-- ===== src/Models/KeyInfo.antt =====
-- The models of as4/models/dsig/key_info.py.
use as_lib.Base.{ℕ, String, Option, List}
use as_lib.Platform.{Bytes}
use as_lib.Etree.{Element}
use as_lib.Models.Transforms.{Transforms}
use as_lib.Models.Tokens.{SecurityTokenReference}

pub record CryptoBinary : Type 0 where
  pub text : Bytes

pub record DsaKeyValue : Type 0 where
  pub p : Option CryptoBinary
  pub q : Option CryptoBinary
  pub g : Option CryptoBinary
  pub y : Option CryptoBinary
  pub j : Option CryptoBinary
  pub seed : Option CryptoBinary
  pub pgen_counter : Option CryptoBinary

pub record RsaKeyValue : Type 0 where
  pub modulus : CryptoBinary
  pub exponent : CryptoBinary

pub record KeyValue : Type 0 where
  pub etree_element : Option Element

pub record KeyName : Type 0 where
  pub text : String

pub record RetrievalMethod : Type 0 where
  pub transforms : List Transforms
  pub uri : Option String
  pub type_value : Option String

pub record X509IssuerName : Type 0 where
  pub text : String

pub record X509SerialNumber : Type 0 where
  pub text : ℕ

pub record X509IssuerSerial : Type 0 where
  pub x509_issuer_name : X509IssuerName
  pub x509_serial_number : X509SerialNumber

pub record X509Ski : Type 0 where
  pub text : Bytes

pub record X509SubjectName : Type 0 where
  pub text : String

pub record X509Certificate : Type 0 where
  pub text : Bytes

pub record X509Crl : Type 0 where
  pub text : Bytes

pub record X509Data : Type 0 where
  pub x509_issuer_serial : List X509IssuerSerial
  pub x509_ski : List X509Ski
  pub x509_subject_name : List X509SubjectName
  pub x509_certificate : List X509Certificate
  pub x509_crl : List X509Crl

pub record PgpData : Type 0 where
  pub pgpkey_id : CryptoBinary
  pub pgpkey_packet : List CryptoBinary

pub record SpkiData : Type 0 where
  pub spkisexp : List CryptoBinary

pub record MgmtData : Type 0 where
  pub text : String

pub record KeyInfo : Type 0 where
  pub key_info_id : Option String
  pub key_name : List KeyName
  pub key_value : List KeyValue
  pub retrieval_method : List RetrievalMethod
  pub x509_data : List X509Data
  pub pgp_data : List PgpData
  pub spki_data : List SpkiData
  pub mgmt_data : List MgmtData
  pub security_token_reference : List SecurityTokenReference
