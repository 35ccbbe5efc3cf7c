-- ===== src/Storage.antt =====
-- Certificates and bytes as they are stored: as4/core/serialisation.py.
use as_lib.Base.{◌≡◌, refl, String, some}
use as_lib.Platform.{Bytes, Certificate, Crypto}
use as_lib.Outcome.{Result, ok, require, ◌>>=◌, value_error}

-- What pydantic hands to a `BeforeValidator`: a text, or a value, which stays as it is.
pub data Given (A : Type 0) : Type 0 where
  text : String → Given A
  loaded : A → Given A

module _ (c : Crypto) where
  unfoldable pub load_bytes : Given Bytes → Result Bytes
  load_bytes (text s) = require (c.b64decode s) (value_error "Incorrect padding")
  load_bytes (loaded b) = ok b

  unfoldable pub dump_bytes : Bytes → String
  dump_bytes b = c.b64encode b

  unfoldable pub load_certificate : Given Certificate → Result Certificate
  load_certificate (text s) = do
    der ← require (c.b64decode s) (value_error "Incorrect padding")
    require (c.load_der_x509_certificate der) (value_error "error parsing asn1 value")
  load_certificate (loaded certificate) = ok certificate

  unfoldable pub dump_certificate : Certificate → String
  dump_certificate certificate = c.b64encode certificate.der

  -- A certificate and bytes are loaded back from the texts that they are dumped as, where base64
  -- decodes what it encoded and the certificate is parsed from its own encoding.
  pub load_certificate-dump_certificate :
      ((b : Bytes) → c.b64decode (c.b64encode b) ≡ some b)
      → (certificate : Certificate) (bytes : Bytes)
      → c.load_der_x509_certificate certificate.der ≡ some certificate
      → (load_certificate (text (dump_certificate certificate)) ≡ ok certificate)
        × (load_bytes (text (dump_bytes bytes)) ≡ ok bytes)
  unfolding load_certificate dump_certificate load_bytes dump_bytes
  load_certificate-dump_certificate base64 certificate bytes loads =
      (rw (base64 certificate.der, loads) refl, rw (base64 bytes) refl)
