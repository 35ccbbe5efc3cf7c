-- ===== src/Peppol/Build/Read.antt =====
-- The signature of a built message, as it is read from the document: the checks of as4/core/message.py
-- see no difference.
use mathlib.Core.Path.{subst}
use as_lib.Base.{
  ◌≡◌, refl, ap, sym, ◌∙◌, String, none, some, List, [], ◌∷◌, map, All, string_eq, option_eq,
}
use as_lib.Base.Dict.{Dict}
use as_lib.Platform.{Bytes, Certificate, Crypto}
use as_lib.Etree.{Element}
use as_lib.Outcome.{◌>>◌}
use as_lib.Environment.{Environment}
use as_lib.Models.Reference.{Reference}
use as_lib.Models.Signature.{Signature, SignedInfo}
use as_lib.Models.Wildcard.{canonicalization_namespaces, transform_namespaces, wildcard_content}
use as_lib.Dsig.{
  all_allowed, attachment_content_signature, digest_bytes, digest_element, digest_matches,
  digest_matches_bytes, exclusive_c14n, inclusive_namespaces, require_transforms,
}
use as_lib.Dsig.Verify.{signed_info_canonicalized, verify}
use as_lib.Base.Text.{remove_prefix}
use as_lib.Base.Dict
use as_lib.Dsig.{or_empty}
use as_lib.Message.Coverage.{
  cover, kind_of, cover_all, signature_coverage, verify_signature_coverage,
}
use as_lib.Message.Digests.{
  verify_attachment_digest, verify_each, verify_each_attachment, verify_reference_digest,
}
use as_lib.Serialise.{dump, dump_canonicalization_method, dump_signed_info, dump_transform}
use as_lib.Serialise.Reading.{read_reference, read_signature}
use as_lib.Serialise.KeyInfos.{ds}
use as_lib.Peppol.Build.Digests.{reference_for}

-- Coverage is about the URIs alone.
pub cover_all-read :
    (elements : Dict Element) (rs : List Reference)
    → cover_all elements (map read_reference rs) ≡ cover_all elements rs
unfolding cover_all
cover_all-read elements [] = refl
cover_all-read elements (r ∷ rs) =
    ap (cover (or_empty r.uri) (kind_of (Dict.get elements (remove_prefix (or_empty r.uri) "#"))))
      (cover_all-read elements rs)

pub signature_coverage-read :
    (sig : Signature) (elements : Dict Element) (hrefs : List String)
    → signature_coverage (read_signature sig) elements hrefs ≡ signature_coverage sig elements hrefs
unfolding signature_coverage
signature_coverage-read sig elements hrefs =
    rw (signature_coverage, cover_all-read elements sig.signed_info.references) refl

module _ (c : Crypto) (c14n : Element → List String → Bytes) where
  -- A reference to an element or to an attachment, read: the element of its one transform has no
  -- child, so it names no prefixes.
  pub digest_matches-read :
      (uri : String) (content : Bytes) (target : Element)
      → digest_matches c c14n (read_reference (reference_for c uri content exclusive_c14n)) target
        ≡ digest_matches c c14n (reference_for c uri content exclusive_c14n) target
  unfolding digest_matches require_transforms all_allowed digest_element digest_bytes
      inclusive_namespaces transform_namespaces wildcard_content dump_transform dump string_eq
      option_eq
  digest_matches-read uri content target = refl

  pub digest_matches_bytes-read :
      (uri : String) (content attached : Bytes)
      → digest_matches_bytes c c14n
          (read_reference (reference_for c uri content attachment_content_signature))
          attached
        ≡ digest_matches_bytes c c14n
            (reference_for c uri content attachment_content_signature)
            attached
  unfolding digest_matches_bytes require_transforms all_allowed digest_bytes string_eq option_eq
  digest_matches_bytes-read uri content attached = refl

-- What the signatures of both builders sign: references, named by an algorithm that takes no prefixes.
abbrev pub exclusive_info : List Reference → SignedInfo
exclusive_info references = record {
  etree_element = none;
  canonicalization_method = record { etree_element = none; algorithm = some exclusive_c14n };
  signature_method = record { algorithm = "http://www.w3.org/2001/04/xmldsig-more#rsa-sha256" };
  references = references;
  id = none;
}

abbrev pub dumped_info : List Reference → SignedInfo
dumped_info references = record (exclusive_info references) {
  etree_element = some (dump_signed_info (ds "SignedInfo") (exclusive_info references));
}

-- The canonical form of `SignedInfo` is of the element that it was dumped to, which is the one read.
pub verify-read :
    (c : Crypto) (c14n : Element → List String → Bytes) (sig : Signature)
    (references : List Reference) (certificate : Certificate)
    → sig.signed_info ≡ dumped_info references
    → verify c c14n (read_signature sig) certificate ≡ verify c c14n sig certificate
unfolding verify signed_info_canonicalized inclusive_namespaces canonicalization_namespaces
    wildcard_content dump_canonicalization_method dump_signed_info dump string_eq option_eq
verify-read c c14n sig references certificate e =
    subst
      (λ (x : SignedInfo).
        verify c c14n (read_signature (record sig { signed_info = x })) certificate
        ≡ verify c c14n (record sig { signed_info = x }) certificate)
      (sym e) refl

module _ (env : Environment) (elements : Dict Element) where
  pub verify_reference_digest-read :
      (uri : String) (content : Bytes)
      → verify_reference_digest env elements
          (read_reference (reference_for env.crypto uri content exclusive_c14n))
        ≡ verify_reference_digest env elements (reference_for env.crypto uri content exclusive_c14n)
  unfolding verify_reference_digest digest_matches require_transforms all_allowed digest_element
      digest_bytes inclusive_namespaces transform_namespaces wildcard_content dump_transform dump
      string_eq option_eq
  verify_reference_digest-read uri content = refl

pub verify_attachment_digest-read :
    (env : Environment) (attachments : Dict Bytes) (uri : String) (content : Bytes)
    → verify_attachment_digest env attachments
        (read_reference (reference_for env.crypto uri content attachment_content_signature))
      ≡ verify_attachment_digest env attachments
          (reference_for env.crypto uri content attachment_content_signature)
unfolding verify_attachment_digest digest_matches_bytes require_transforms all_allowed digest_bytes
    string_eq option_eq
verify_attachment_digest-read env attachments uri content = refl

-- Where a round skips the reference.
pub skip_attachment-read :
    (env : Environment) (elements : Dict Element) (uri : String) (content : Bytes)
    → verify_reference_digest env elements
        (read_reference (reference_for env.crypto uri content attachment_content_signature))
      ≡ verify_reference_digest env elements
          (reference_for env.crypto uri content attachment_content_signature)
unfolding verify_reference_digest digest_matches require_transforms all_allowed string_eq option_eq
skip_attachment-read env elements uri content = refl

pub skip_element-read :
    (env : Environment) (attachments : Dict Bytes) (uri : String) (content : Bytes)
    → verify_attachment_digest env attachments
        (read_reference (reference_for env.crypto uri content exclusive_c14n))
      ≡ verify_attachment_digest env attachments
          (reference_for env.crypto uri content exclusive_c14n)
unfolding verify_attachment_digest digest_matches_bytes require_transforms all_allowed string_eq
    option_eq
skip_element-read env attachments uri content = refl

pub verify_signature_coverage-read :
    (sig : Signature) (elements : Dict Element) (hrefs required : List String)
    → verify_signature_coverage (read_signature sig) elements hrefs required
      ≡ verify_signature_coverage sig elements hrefs required
unfolding verify_signature_coverage
verify_signature_coverage-read sig elements hrefs required =
    rw (verify_signature_coverage, signature_coverage-read sig elements hrefs) refl

-- The loops over the references, when each round sees no difference.
pub verify_each-read :
    (env : Environment) (elements : Dict Element) (rs : List Reference)
    → All
        (λ r.
          verify_reference_digest env elements (read_reference r)
          ≡ verify_reference_digest env elements r)
        rs
    → verify_each env (map read_reference rs) elements ≡ verify_each env rs elements
unfolding verify_each
verify_each-read env elements [] h = refl
verify_each-read env elements (r ∷ rs) h =
    ap (λ x. x >> verify_each env (map read_reference rs) elements) h.0
    ∙ ap (λ y. verify_reference_digest env elements r >> y) (verify_each-read env elements rs h.1)

pub verify_each_attachment-read :
    (env : Environment) (attachments : Dict Bytes) (rs : List Reference)
    → All
        (λ r.
          verify_attachment_digest env attachments (read_reference r)
          ≡ verify_attachment_digest env attachments r)
        rs
    → verify_each_attachment env (map read_reference rs) attachments
      ≡ verify_each_attachment env rs attachments
unfolding verify_each_attachment
verify_each_attachment-read env attachments [] h = refl
verify_each_attachment-read env attachments (r ∷ rs) h =
    ap (λ x. x >> verify_each_attachment env (map read_reference rs) attachments) h.0
    ∙ ap (λ y. verify_attachment_digest env attachments r >> y)
        (verify_each_attachment-read env attachments rs h.1)
