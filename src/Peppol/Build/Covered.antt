-- ===== src/Peppol/Build/Covered.antt =====
-- The signature of a built message covers the message: `verify_signature_coverage`,
-- `verify_reference_digests` and `verify_attachment_digests` of as4/core/message.py on what
-- `get_signature` of as4/profiles/peppol/message.py signs.
use as_lib.Base.{
  ◌≡◌, refl, ap, ◌∙◌, String, ◌<>◌, Option, some, List, [], ◌∷◌, ==_refl, string_eq, option_eq,
}
use as_lib.Base.Dict
use as_lib.Base.Dict.{Dict}
use as_lib.Base.Text.{remove_prefix}
use as_lib.Base.Prefix.{starts_with-append, remove_prefix-append}
use as_lib.Platform.{Bytes}
use as_lib.Etree.{Element}
use as_lib.Outcome.{ok}
use as_lib.Environment.{Environment}
use as_lib.Models.Messaging.{Messaging}
use as_lib.Models.Signature.{Signature}
use as_lib.Models.Soap.{Body}
use as_lib.Models.Reference.{Reference}
use as_lib.Dsig.{or_empty}
use as_lib.Message.Coverage.{
  Coverage, coverage_by_tag, cover, cover_all, kind_of, missing_coverage, refuse_missing,
  signature_coverage, subset, verify_signature_coverage,
}
use as_lib.Message.Digests.{
  verify_attachment_digests, verify_each, verify_each_attachment, verify_reference_digests,
}
use as_lib.References.{As4References}
use as_lib.Serialise.{dump_body}
use as_lib.Serialise.UserMessages.{dump_messaging}
use as_lib.Peppol.Build.{Supplies}
use as_lib.Peppol.Build.Digests.{
  Unspaced, starts_with-id, verify_attachment_digest-attachment, verify_attachment_digest-element,
  verify_reference_digest-attachment, verify_reference_digest-element,
}
use as_lib.Peppol.Build.Signed.{
  Received, body_tag, messaging_tag, references_of, to_attachment, to_body, to_messaging,
}

cover-element :
    (id kind : String) (c : Coverage)
    → cover ("#" <> id) (some kind) c ≡ record c { covered = kind ∷ c.covered }
unfolding cover
cover-element id kind c = rw (cover, starts_with-id id) refl

cover-attachment :
    (id : String) (kind : Option String) (c : Coverage)
    → cover ("cid:" <> id) kind c
      ≡ record c { signed_payloads = ("cid:" <> id) ∷ c.signed_payloads }
unfolding cover
cover-attachment id kind c = rw (cover, starts_with-append "cid:" id) refl

pub cover_all-element :
    (elements : Dict Element) (id kind : String) (r : Reference) (rest : List Reference)
    (c : Coverage)
    → r.uri ≡ some ("#" <> id)
    → kind_of (Dict.get elements (remove_prefix ("#" <> id) "#")) ≡ some kind
    → cover_all elements rest ≡ c
    → cover_all elements (r ∷ rest) ≡ record c { covered = kind ∷ c.covered }
unfolding cover_all
cover_all-element elements id kind r rest c u k e =
    ap
      (λ o.
        cover (or_empty o) (kind_of (Dict.get elements (remove_prefix (or_empty o) "#")))
          (cover_all elements rest))
      u
    ∙ ap (λ o. cover ("#" <> id) o (cover_all elements rest)) k
    ∙ ap (cover ("#" <> id) (some kind)) e
    ∙ cover-element id kind c

module _ (env : Environment) (s : Supplies) (references : As4References) (messaging : Messaging)
    (body : Body) (id : String) (b : Bytes) (elements : Dict Element)
    (first : Received env elements references.messaging_id messaging_tag
      (dump_messaging s.moment.isoformat messaging))
    (second : Received env elements references.body_id body_tag (dump_body body_tag body))
    (sig : Signature)
    (signs : sig.signed_info.references ≡ references_of env s references messaging body id b) where
  messaging_kind :
      kind_of (Dict.get elements (remove_prefix ("#" <> references.messaging_id) "#"))
      ≡ some "messaging"
  unfolding kind_of coverage_by_tag string_eq
  messaging_kind =
      rw (remove_prefix-append "#" references.messaging_id, first.found, first.tagged) refl

  body_kind :
      kind_of (Dict.get elements (remove_prefix ("#" <> references.body_id) "#")) ≡ some "body"
  unfolding kind_of coverage_by_tag string_eq
  body_kind = rw (remove_prefix-append "#" references.body_id, second.found, second.tagged) refl

  cover_all-references_of :
      cover_all elements (references_of env s references messaging body id b)
      ≡ record { covered = "messaging" ∷ "body" ∷ []; signed_payloads = ("cid:" <> id) ∷ [] }
  unfolding cover_all references_of
  cover_all-references_of =
      cover_all-element elements references.messaging_id "messaging"
        (to_messaging env s references messaging)
        (to_body env s references body ∷ to_attachment env s id b ∷ []) _ refl messaging_kind
        (cover_all-element elements references.body_id "body" (to_body env s references body)
          (to_attachment env s id b ∷ []) _ refl body_kind
          (cover-attachment id (kind_of (Dict.get elements (remove_prefix ("cid:" <> id) "#")))
            (record { covered = []; signed_payloads = [] })))

  pub signature_coverage-references_of :
      signature_coverage sig elements (("cid:" <> id) ∷ []) ≡ "payloads" ∷ "messaging" ∷ "body" ∷ []
  unfolding signature_coverage subset
  signature_coverage-references_of =
      rw (signature_coverage, signs, cover_all-references_of, ==_refl ("cid:" <> id)) refl

  pub verify_signature_coverage-references_of :
      (required : List String)
      → missing_coverage required ("payloads" ∷ "messaging" ∷ "body" ∷ []) ≡ []
      → verify_signature_coverage sig elements (("cid:" <> id) ∷ []) required ≡ ok tt
  unfolding verify_signature_coverage refuse_missing
  verify_signature_coverage-references_of required h =
      rw (verify_signature_coverage, signature_coverage-references_of, h) refl

  module _ (unspaced : Unspaced env.crypto) where
    pub verify_reference_digests-references_of : verify_reference_digests env sig elements ≡ ok tt
    unfolding verify_reference_digests verify_each references_of
    verify_reference_digests-references_of =
        rw
          (
            verify_reference_digests,
            signs,
            verify_each,
            verify_reference_digest-element env unspaced elements references.messaging_id _
                first.target first.found first.same,
            verify_reference_digest-element env unspaced elements references.body_id _ second.target
                second.found second.same,
            verify_reference_digest-attachment env unspaced elements id b,
          )
          refl

    pub verify_attachment_digests-references_of :
        verify_attachment_digests env sig ((id, b) ∷ []) ≡ ok tt
    unfolding verify_attachment_digests verify_each_attachment references_of
    verify_attachment_digests-references_of =
        rw
          (
            verify_attachment_digests,
            signs,
            verify_each_attachment,
            verify_attachment_digest-element env unspaced ((id, b) ∷ []) references.messaging_id _,
            verify_attachment_digest-element env unspaced ((id, b) ∷ []) references.body_id _,
            verify_attachment_digest-attachment env unspaced id b,
          )
          refl
