-- ===== src/Message/Digests/Meaning.antt =====
-- What the digest checks of a signature establish.
use as_lib.Base.{
  ◌≡◌, refl, Bool, true, false, some, List, [], ◌∷◌, inl, inr, ◌↔◌, All, string_eq, option_eq,
  arith, Bool-cases, Option-cases,
}
use as_lib.Base.Text.{starts_with, remove_prefix}
use as_lib.Base.Dict
use as_lib.Base.Dict.{Dict}
use as_lib.Platform.{Bytes}
use as_lib.Etree.{Element}
use as_lib.Outcome.{Result, ok, err, receiptable}
use as_lib.Models.Reference.{Reference}
use as_lib.Models.Signature.{Signature}
use as_lib.Dsig.{or_empty, digest_matches, digest_matches_bytes}
use as_lib.Environment.{Environment}
use as_lib.Message.Digests.{
  refuse_unsupported, verify_reference_digest, verify_each, verify_reference_digests,
  verify_attachment_digest, verify_each_attachment, verify_attachment_digests,
}

module _ (env : Environment) where
  -- A reference of the document: the element that it names is there, and its digest is the one that
  -- the reference gives.
  abbrev pub ElementMatches : Dict Element → Reference → Type 0
  ElementMatches elements r =
      (e : Element) × (Dict.get elements (remove_prefix (or_empty r.uri) "#") ≡ some e)
      × (digest_matches env.crypto env.xml.c14n r e ≡ ok true)

  -- A reference to an attachment.
  abbrev pub AttachmentMatches : Dict Bytes → Reference → Type 0
  AttachmentMatches attachments r =
      (content : Bytes) × (Dict.get attachments (remove_prefix (or_empty r.uri) "cid:")
        ≡ some content)
      × (digest_matches_bytes env.crypto env.xml.c14n r content ≡ ok true)

  refuse_unsupported-eq-ok :
      (m : Result Bool) (b : Bool) → (refuse_unsupported m ≡ ok b) ↔ (m ≡ ok b)
  unfolding refuse_unsupported
  refuse_unsupported-eq-ok (ok x) b = ground arith
  refuse_unsupported-eq-ok (err (receiptable e)) b = ground arith
  refuse_unsupported-eq-ok (err _) b = ground arith

  element_check :
      (elements : Dict Element) (r : Reference)
      → verify_reference_digest env elements r ≡ ok tt
      → starts_with (or_empty r.uri) "cid:" ≡ false
      → ElementMatches elements r
  unfolding verify_reference_digest
  element_check elements r h local =
      elim (Option-cases (Dict.get elements (remove_prefix (or_empty r.uri) "#"))) [
        | inl absent ↦ ground arith
        | inr (e, found) ↦ (
          e,
          found,
          ground
              (arith, refuse_unsupported-eq-ok (digest_matches env.crypto env.xml.c14n r e) true),
        )
      ]

  element_check_complete :
      (elements : Dict Element) (r : Reference)
      → (starts_with (or_empty r.uri) "cid:" ≡ false → ElementMatches elements r)
      → verify_reference_digest env elements r ≡ ok tt
  unfolding verify_reference_digest
  element_check_complete elements r k = elim (Bool-cases (starts_with (or_empty r.uri) "cid:")) [
    | inl cid ↦ ground arith
    | inr local ↦
        let (e, found, same) = k local in
        ground (arith, refuse_unsupported-eq-ok (digest_matches env.crypto env.xml.c14n r e) true)
  ]

  verify_each_lem :
      (refs : List Reference) (elements : Dict Element)
      → (verify_each env refs elements ≡ ok tt)
        ↔ All (λ r. verify_reference_digest env elements r ≡ ok tt) refs
  unfolding verify_each
  verify_each_lem [] elements = ground arith
  verify_each_lem (r ∷ rest) elements = ground (arith, verify_each_lem rest elements)

  verify_each_elements :
      (refs : List Reference) (elements : Dict Element)
      → All (λ r. verify_reference_digest env elements r ≡ ok tt) refs
        ↔ All (λ r. starts_with (or_empty r.uri) "cid:" ≡ false → ElementMatches elements r) refs
  verify_each_elements [] elements = (λ h. tt, λ h. tt)
  verify_each_elements (r ∷ rest) elements = (
    λ (h, hs). (element_check elements r h, (verify_each_elements rest elements).0 hs),
    λ (k, ks). (element_check_complete elements r k, (verify_each_elements rest elements).1 ks),
  )

  -- The reference digests of a signature pass exactly when each of its references that is no `cid:`
  -- reference names an element of the index whose digest is the one that the reference gives.
  pub verify_reference_digests_iff :
      (s : Signature) (elements : Dict Element)
      → (verify_reference_digests env s elements ≡ ok tt)
        ↔ All
            (λ r. starts_with (or_empty r.uri) "cid:" ≡ false → ElementMatches elements r)
            s.signed_info.references
  unfolding verify_reference_digests
  verify_reference_digests_iff s elements =
      let refs = s.signed_info.references in
      (
        λ h. (verify_each_elements refs elements).0 ((verify_each_lem refs elements).0 h),
        λ h. (verify_each_lem refs elements).1 ((verify_each_elements refs elements).1 h),
      )

  attachment_check :
      (attachments : Dict Bytes) (r : Reference)
      → verify_attachment_digest env attachments r ≡ ok tt
      → starts_with (or_empty r.uri) "cid:" ≡ true
      → AttachmentMatches attachments r
  unfolding verify_attachment_digest
  attachment_check attachments r h cid =
      elim (Option-cases (Dict.get attachments (remove_prefix (or_empty r.uri) "cid:"))) [
        | inl absent ↦ ground arith
        | inr (content, found) ↦ (
          content,
          found,
          ground (
            arith,
            refuse_unsupported-eq-ok (digest_matches_bytes env.crypto env.xml.c14n r content) true,
          ),
        )
      ]

  attachment_check_complete :
      (attachments : Dict Bytes) (r : Reference)
      → (starts_with (or_empty r.uri) "cid:" ≡ true → AttachmentMatches attachments r)
      → verify_attachment_digest env attachments r ≡ ok tt
  unfolding verify_attachment_digest
  attachment_check_complete attachments r k =
      elim (Bool-cases (starts_with (or_empty r.uri) "cid:")) [
        | inr local ↦ ground arith
        | inl cid ↦
            let (content, found, same) = k cid in
            ground (
              arith,
              refuse_unsupported-eq-ok (digest_matches_bytes env.crypto env.xml.c14n r content)
                  true,
            )
      ]

  verify_each_attachment_lem :
      (refs : List Reference) (attachments : Dict Bytes)
      → (verify_each_attachment env refs attachments ≡ ok tt)
        ↔ All
            (λ r. starts_with (or_empty r.uri) "cid:" ≡ true → AttachmentMatches attachments r)
            refs
  unfolding verify_each_attachment
  verify_each_attachment_lem [] attachments = (λ h. tt, λ h. refl)
  verify_each_attachment_lem (r ∷ rest) attachments = (
    λ h. (
      attachment_check attachments r (ground arith),
      (verify_each_attachment_lem rest attachments).0 (ground arith),
    ),
    λ (k, ks).
        rw (attachment_check_complete attachments r k)
          ((verify_each_attachment_lem rest attachments).1 ks),
  )

  -- The attachment digests pass exactly when each `cid:` reference of the signature names an
  -- attachment whose content has the digest that the reference gives.
  pub verify_attachment_digests_iff :
      (s : Signature) (attachments : Dict Bytes)
      → (verify_attachment_digests env s attachments ≡ ok tt)
        ↔ All
            (λ r. starts_with (or_empty r.uri) "cid:" ≡ true → AttachmentMatches attachments r)
            s.signed_info.references
  unfolding verify_attachment_digests
  verify_attachment_digests_iff s attachments =
      verify_each_attachment_lem s.signed_info.references attachments
