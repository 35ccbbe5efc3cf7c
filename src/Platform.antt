-- ===== src/Platform.antt =====
-- What the program calls and does not implement: cryptography, lxml's parser, paths and serialiser,
-- hashlib, gzip, base64, and the checks that pydantic makes of the dicts that the program builds.
-- A certificate is known by its encoding, which is what `cryptography` compares; all else about it
-- is asked of the record. `none` stands for the exception that the call documents.
use native.Mathlib.Decide.{ℕ_discrete}
use as_lib.Base.{ℕ, String, Bool, Option, List, Eq}

abbrev pub Bytes : Type 0
Bytes = List ℕ

-- Microseconds since the epoch, in UTC.
abbrev pub DateTime : Type 0
DateTime = ℕ

pub record Certificate : Type 0 where
  pub der : Bytes

bytes_discrete : Discrete Bytes
bytes_discrete = hlevel ℕ_discrete

instance unfoldable pub bytes_eq : Eq Bytes
unfolding bytes_discrete
bytes_eq = record { dec = bytes_discrete }

certificate_discrete : Discrete Certificate
certificate_discrete = hlevel ℕ_discrete

instance unfoldable pub certificate_eq : Eq Certificate
unfolding certificate_discrete
certificate_eq = record { dec = certificate_discrete }

pub data HashAlgorithm : Type 0 where
  sha256 sha384 sha512 : HashAlgorithm

-- `cryptography`, `hashlib`, `gzip` and `base64`.
-- What the trust rules ask of X.509.
pub record X509 : Type 0 where
  pub fingerprint : Certificate → Bytes
  -- the `ca` of BasicConstraints and the `key_cert_sign` of KeyUsage, where the extension is there
  pub basic_constraints_ca : Certificate → Option Bool
  pub key_cert_sign : Certificate → Option Bool
  -- `certificate.verify_directly_issued_by(candidate)` does not raise
  pub directly_issued_by : Certificate → Certificate → Bool
  pub not_valid_before : Certificate → DateTime
  pub not_valid_after : Certificate → DateTime
  pub common_names : Certificate → List String

pub record Crypto : Type 0 where
  -- `ValueError` where the bytes are no certificate
  pub load_der_x509_certificate : Bytes → Option Certificate
  -- `isinstance(certificate.public_key(), RSAPublicKey)`, and the name of the key's type
  pub is_rsa : Certificate → Bool
  pub key_type_name : Certificate → String
  -- `rfc4514_string()` of the subject
  pub subject_name : Certificate → String
  -- the key of the certificate, the hash, the signature and the signed bytes, by PKCS #1 v1.5
  pub rsa_verify : Certificate → HashAlgorithm → Bytes → Bytes → Bool
  pub digest : HashAlgorithm → Bytes → Bytes
  -- the session key, the nonce and the ciphertext; `ValueError` or `InvalidTag`
  pub aes_gcm_decrypt : Bytes → Bytes → Bytes → Option Bytes
  -- with and without `validate=True`; `ValueError`
  pub b64decode_strict : String → Option Bytes
  pub b64decode : String → Option Bytes
  pub b64encode : Bytes → String
  -- at most so many bytes of the unzipped stream; `OSError`, `EOFError` or `zlib.error`
  pub gzip_read : Bytes → ℕ → Option Bytes
