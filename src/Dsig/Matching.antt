-- ===== src/Dsig/Matching.antt =====
-- What a verified signature is: `Signature.verify` of as4/models/dsig/signature.py.
use as_lib.Base.{◌≡◌, ◌↔◌, refl, String, List, true, some, ◌==◌, string_eq, option_eq}
use as_lib.Platform.{Bytes, Certificate, Crypto, HashAlgorithm}
use as_lib.Etree.{Element}
use as_lib.Outcome.{ok, require, ensure, bind-eq-ok, ensure-eq-ok, require-eq-some}
use as_lib.Models.Signature.{Signature}
use as_lib.Dsig.{exclusive_c14n}
use as_lib.Dsig.Verify.{
  signature_algorithm, require_exclusive_canonicalization, require_rsa_public_key, signature_bytes,
  signed_info_canonicalized, verify,
}

module _ (c : Crypto) (c14n : Element → List String → Bytes) where
  -- The signature is an RSA signature, made with the key of the certificate, of the canonical form
  -- of what it says it signs.
  pub record Signs (s : Signature) (certificate : Certificate) : Type 0 where
    pub algorithm : HashAlgorithm
    pub bytes : Bytes
    pub canonicalized :
        (s.signed_info.canonicalization_method.algorithm == some exclusive_c14n) ≡ true
    pub supported : signature_algorithm s.signed_info.signature_method.algorithm ≡ some algorithm
    pub rsa_key : c.is_rsa certificate ≡ true
    pub has_bytes : s.signature_value.value ≡ some bytes
    pub signed :
        c.rsa_verify certificate algorithm bytes (signed_info_canonicalized c c14n s.signed_info)
        ≡ true

  verify-Signs :
      (s : Signature) (certificate : Certificate)
      → verify c c14n s certificate ≡ ok tt
      → Signs s certificate
  unfolding verify require_exclusive_canonicalization require_rsa_public_key signature_bytes
  verify-Signs s certificate h =
      let (u, e, h1) =
        bind-eq-ok
          (ensure (s.signed_info.canonicalization_method.algorithm == some exclusive_c14n) _) _ h in
      let (a, is_a, h2) =
        bind-eq-ok (require (signature_algorithm s.signed_info.signature_method.algorithm) _) _
          h1 in
      let (u2, r, h3) = bind-eq-ok (ensure (c.is_rsa certificate) _) _ h2 in
      let (b, is_b, h4) = bind-eq-ok (require s.signature_value.value _) _ h3 in
      record {
        algorithm = a;
        bytes = b;
        canonicalized = ensure-eq-ok _ _ _ e;
        supported = require-eq-some _ _ is_a;
        rsa_key = ensure-eq-ok _ _ _ r;
        has_bytes = require-eq-some _ _ is_b;
        signed = ensure-eq-ok _ _ _ h4;
      }

  Signs-verify :
      (s : Signature) (certificate : Certificate)
      → Signs s certificate
      → verify c c14n s certificate ≡ ok tt
  unfolding verify require_exclusive_canonicalization require_rsa_public_key signature_bytes
  Signs-verify s certificate g =
      rw (g.canonicalized, g.supported, g.rsa_key, g.has_bytes, g.signed) refl

  pub verify_iff :
      (s : Signature) (certificate : Certificate)
      → (verify c c14n s certificate ≡ ok tt) ↔ Signs s certificate
  verify_iff s certificate = (verify-Signs s certificate, Signs-verify s certificate)
