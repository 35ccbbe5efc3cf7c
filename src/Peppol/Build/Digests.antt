-- ===== src/Peppol/Build/Digests.antt =====
-- The references that as4/profiles/peppol/message.py signs, against the digest checks of
-- as4/core/message.py.
use Prim.Native.String.append
use as_lib.Base.{
  ◌≡◌, refl, sym, Bool, String, ◌<>◌, true, false, none, some, List, [], ◌∷◌, ==_refl, ◌==◌,
  string_eq, option_eq,
}
use as_lib.Base.Dict
use as_lib.Base.Dict.{Dict}
use as_lib.Base.Text.{after_prefix, code_eq, starts_with, strip}
use as_lib.Base.Prefix.{starts_with-append, remove_prefix-append}
use as_lib.Platform.{Bytes, Crypto, sha256}
use as_lib.Etree.{Element}
use as_lib.Outcome.{Result, ok}
use as_lib.Environment.{Environment}
use as_lib.Models.Reference.{Reference}
use as_lib.Dsig.{
  all_allowed, attachment_content_signature, compute_digest, digest_bytes, digest_element,
  digest_function, digest_matches, digest_matches_bytes, digest_sha256, exclusive_c14n, for_bytes,
  inclusive_namespaces, require_transforms, single_transform,
}
use as_lib.Models.Wildcard.{transform_namespaces}
use as_lib.Message.Digests.{refuse_unsupported, verify_attachment_digest, verify_reference_digest}
use as_lib.Peppol.Build.Opens.{get-attached}

-- The `#` URI of an element's id.
pub starts_with-id : (id : String) → starts_with ("#" <> id) "cid:" ≡ false
unfolding starts_with after_prefix code_eq
starts_with-id id = rw (append.cons "#" "" id) refl

-- What `Reference.for_bytes` returns for SHA-256.
abbrev pub reference_for : Crypto → String → Bytes → String → Reference
reference_for c uri content transform = record {
  transforms = single_transform transform;
  digest_method = record { algorithm = digest_sha256 };
  digest_value = record { text = c.b64encode (c.digest sha256 content) };
  id = none;
  uri = some uri;
  type_value = none;
}

-- Base64 holds no white space.
abbrev pub Unspaced : Crypto → Type 0
Unspaced c = (b : Bytes) → strip (c.b64encode b) ≡ c.b64encode b

same_text : (s t : String) → s ≡ t → ◌≡◌ {A = Result Bool} (ok (s == t)) (ok true)
same_text s t e = rw (e, ==_refl t) refl

module _ (c : Crypto) (c14n : Element → List String → Bytes) where
  compute_digest-sha256 :
      (content : Bytes)
      → compute_digest c c14n digest_sha256 content ≡ ok (c.b64encode (c.digest sha256 content))
  unfolding compute_digest digest_function string_eq
  compute_digest-sha256 content = refl

  pub for_bytes-sha256 :
      (uri : String) (content : Bytes) (transform : String)
      → for_bytes c c14n uri content digest_sha256 transform
        ≡ ok (reference_for c uri content transform)
  unfolding for_bytes
  for_bytes-sha256 uri content transform = rw (for_bytes, compute_digest-sha256 content) refl

  module _ (unspaced : Unspaced c) where
    pub digest_matches-reference_for :
        (uri : String) (e target : Element)
        → c14n target [] ≡ c14n e []
        → digest_matches c c14n (reference_for c uri (c14n e []) exclusive_c14n) target ≡ ok true
    unfolding digest_matches require_transforms all_allowed digest_element digest_bytes
        inclusive_namespaces transform_namespaces string_eq option_eq
    digest_matches-reference_for uri e target same =
        rw same (same_text _ _ (sym (unspaced (c.digest sha256 (c14n e [])))))

    digest_matches_bytes-reference_for :
        (uri : String) (content : Bytes)
        → digest_matches_bytes c c14n
            (reference_for c uri content attachment_content_signature)
            content
          ≡ ok true
    unfolding digest_matches_bytes require_transforms all_allowed digest_bytes string_eq option_eq
    digest_matches_bytes-reference_for uri content =
        same_text _ _ (sym (unspaced (c.digest sha256 content)))

module _ (env : Environment) (unspaced : Unspaced env.crypto) where
  -- A reference to an element of the document, found there in the same canonical form.
  pub verify_reference_digest-element :
      (elements : Dict Element) (id : String) (e target : Element)
      → Dict.get elements id ≡ some target
      → env.xml.c14n target [] ≡ env.xml.c14n e []
      → verify_reference_digest env elements
          (reference_for env.crypto ("#" <> id) (env.xml.c14n e []) exclusive_c14n)
        ≡ ok tt
  unfolding verify_reference_digest refuse_unsupported
  verify_reference_digest-element elements id e target found same =
      rw
        (
          verify_reference_digest,
          starts_with-id id,
          remove_prefix-append "#" id,
          found,
          digest_matches-reference_for env.crypto env.xml.c14n unspaced ("#" <> id) e target same,
        )
        refl

  -- A reference to an attachment is left to the other loop.
  pub verify_reference_digest-attachment :
      (elements : Dict Element) (id : String) (content : Bytes)
      → verify_reference_digest env elements
          (reference_for env.crypto ("cid:" <> id) content attachment_content_signature)
        ≡ ok tt
  unfolding verify_reference_digest
  verify_reference_digest-attachment elements id content =
      rw (verify_reference_digest, starts_with-append "cid:" id) refl

  pub verify_attachment_digest-attachment :
      (id : String) (content : Bytes)
      → verify_attachment_digest env
          ((id, content) ∷ [])
          (reference_for env.crypto ("cid:" <> id) content attachment_content_signature)
        ≡ ok tt
  unfolding verify_attachment_digest refuse_unsupported
  verify_attachment_digest-attachment id content =
      rw
        (
          verify_attachment_digest,
          starts_with-append "cid:" id,
          get-attached id content,
          digest_matches_bytes-reference_for env.crypto env.xml.c14n unspaced ("cid:" <> id)
              content,
        )
        refl

  pub verify_attachment_digest-element :
      (attachments : Dict Bytes) (id : String) (content : Bytes)
      → verify_attachment_digest env attachments
          (reference_for env.crypto ("#" <> id) content exclusive_c14n)
        ≡ ok tt
  unfolding verify_attachment_digest
  verify_attachment_digest-element attachments id content =
      rw (verify_attachment_digest, starts_with-id id) refl
