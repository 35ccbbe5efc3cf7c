-- ===== src/Peppol/Build/Accepted.antt =====
-- What `get_verified_signature` of as4/core/message.py makes of an envelope that
-- `get_soap_envelope` of as4/profiles/peppol/message.py has built.
use as_lib.Base.{
  ◌≡◌, refl, String, ◌<>◌, false, some, [], ◌∷◌, ==_refl, ◌==◌, Bool-cases, inl, inr, string_eq,
  option_eq, if◌then◌else◌,
}
use as_lib.Base.Dict.{Dict}
use as_lib.Platform.{Bytes}
use as_lib.Etree.{Element}
use as_lib.Outcome.{Result, ok}
use as_lib.Environment.{Environment}
use as_lib.Models.Messaging.{Messaging}
use as_lib.Models.Signature.{Signature, SignedInfo}
use as_lib.Models.Security.{Security}
use as_lib.Models.Soap.{Envelope}
use as_lib.Documents.{user_message, x509_certificate, x509v3}
use as_lib.Parties.{As4ExternalParty, As4InternalParty, As4ParseContext, to_party_from}
use as_lib.References.{As4References}
use as_lib.Serialise.{dump_body}
use as_lib.Serialise.UserMessages.{dump_messaging}
use as_lib.Message.Coverage.{missing_coverage, verify_signature_coverage}
use as_lib.Message.Digests.{verify_reference_digests}
use as_lib.Dsig.Verify.{verify}
use as_lib.Message.Signature.{
  declared_hrefs, get_verified_signature, hrefs_of, named_token, refuse_token_type,
  refuse_unverified, resolve_signer, refuse_untrusted, signing_token, token_uri, verified_signature,
  verified_signer,
}
use as_lib.Peppol.Build.{BuilderArgs, Supplies, get_messaging, get_user_message, part_of}
use as_lib.Peppol.Build.Opens.{nonempty-cid, nonempty-id}
use as_lib.Peppol.Build.Security.{get_local_binary_security_token, get_remote_binary_security_token}
use as_lib.Peppol.Build.Signing.{get_signature}
use as_lib.Peppol.Build.Envelope.{body_of, envelope_of, messaging_of}
use as_lib.Peppol.Build.Signed.{
  Received, Verifiable, body_tag, messaging_tag, references_of, signed_info_of,
  verify-get_signature,
}
use as_lib.Peppol.Build.Covered.{
  verify_reference_digests-references_of, verify_signature_coverage-references_of,
}

module _ (env : Environment) (s : Supplies) (local_party : As4InternalParty)
    (remote_party : As4ExternalParty) (a : BuilderArgs) (references : As4References)
    (entry : String × String)
    (one : references.attachment_id_encrypted_data_id_map ≡ entry ∷ []) where
  abbrev messaging : Messaging
  messaging = messaging_of s local_party remote_party a references

  -- What a receiver finds in the document, and whom it trusts: the elements that the sender
  -- signed, another id on the other token, a resolver that accepts the sender's certificate, and
  -- no requirement but the three that there are.
  pub record Trusted (ctx : As4ParseContext) (elements : Dict Element) : Type 0 where
    pub verifiable : Verifiable env local_party
    pub first :
        Received env elements references.messaging_id messaging_tag
          (dump_messaging s.moment.isoformat messaging)
    pub second :
        Received env elements references.body_id body_tag (dump_body body_tag (body_of references))
    pub other_token :
        (("#" <> references.signature_bst_id) == ("#" <> references.encrypted_key_bst_id)) ≡ false
    pub trusts :
        ctx.security_policy.signer_resolver
          (to_party_from local_party.identity)
          (some local_party.credentials.certificate)
        ≡ ok local_party.credentials.certificate
    pub requires :
        missing_coverage ctx.security_policy.required_coverage
          ("payloads" ∷ "messaging" ∷ "body" ∷ [])
        ≡ []

  declared_hrefs-part_of :
      declared_hrefs (get_user_message s local_party remote_party a references)
      ≡ ("cid:" <> entry.0) ∷ []
  unfolding declared_hrefs hrefs_of get_user_message part_of
  declared_hrefs-part_of = rw (declared_hrefs, one, hrefs_of, nonempty-cid entry.0) refl

  x509_certificate-local :
      Verifiable env local_party
      → x509_certificate env.crypto (get_local_binary_security_token env local_party references)
        ≡ ok local_party.credentials.certificate
  unfolding x509_certificate get_local_binary_security_token
  x509_certificate-local v =
      rw
        (
          x509_certificate,
          ==_refl x509v3,
          v.base64 local_party.credentials.certificate.der,
          v.loads,
        )
        refl

  module _ (b : Bytes) (ctx : As4ParseContext) (elements : Dict Element)
      (t : Trusted ctx elements) where
    abbrev pub built_signed_info : SignedInfo
    built_signed_info =
        signed_info_of env s
          (references_of env s references messaging (body_of references) entry.0 b)

    abbrev pub built_signature : Signature
    built_signature = get_signature env s local_party references built_signed_info

    pub signed_references :
        built_signature.signed_info.references
        ≡ references_of env s references messaging (body_of references) entry.0 b
    unfolding get_signature
    signed_references = refl

    pub digests_verified :
        ◌≡◌ {A = Result (Unit {0})}
          (if ctx.security_policy.verify_digests
            then verify_reference_digests env built_signature elements
            else ok tt)
          (ok tt)
    digests_verified = elim (Bool-cases ctx.security_policy.verify_digests) [
      | inl y ↦ rw y (
          verify_reference_digests-references_of env s references messaging (body_of references)
            entry.0 b elements t.first t.second built_signature signed_references
            t.verifiable.unspaced)
      | inr n ↦ rw n refl
    ]

    pub resolved :
        resolve_signer ctx.security_policy
          (get_user_message s local_party remote_party a references).party_info.party_from
          (some local_party.credentials.certificate)
        ≡ ok local_party.credentials.certificate
    unfolding resolve_signer refuse_untrusted get_user_message
    resolved = rw (resolve_signer, t.trusts) refl

    pub certified :
        refuse_token_type
          (x509_certificate env.crypto (get_local_binary_security_token env local_party references))
        ≡ ok local_party.credentials.certificate
    unfolding refuse_token_type
    certified = rw (x509_certificate-local t.verifiable) refl

    pub verified :
        refuse_unverified
          (verify env.crypto env.xml.c14n built_signature local_party.credentials.certificate)
        ≡ ok tt
    unfolding refuse_unverified
    verified =
        rw
          (verify-get_signature env s local_party t.verifiable references built_signed_info refl
            refl)
          refl

    pub covered :
        verify_signature_coverage built_signature elements
          (declared_hrefs (get_user_message s local_party remote_party a references))
          ctx.security_policy.required_coverage
        ≡ ok tt
    covered = rw declared_hrefs-part_of (
        verify_signature_coverage-references_of env s references messaging (body_of references)
          entry.0 b elements t.first t.second built_signature signed_references
          ctx.security_policy.required_coverage t.requires)

    verified_signer-built :
        (security : Security)
        → verified_signer env ctx security built_signature
            (get_user_message s local_party remote_party a references)
            elements
            (get_local_binary_security_token env local_party references)
          ≡ ok local_party.credentials.certificate
    unfolding verified_signer
    verified_signer-built security =
        rw (verified_signer, certified, resolved, verified, covered, digests_verified) refl

    module _ (sealed : Bytes) where
      abbrev pub built_envelope : Envelope
      built_envelope =
          envelope_of env s local_party remote_party a references sealed built_signed_info

      pub named :
          named_token
            (get_remote_binary_security_token env remote_party references
              ∷ get_local_binary_security_token env local_party references
              ∷ [])
            ("#" <> references.signature_bst_id)
          ≡ some (get_local_binary_security_token env local_party references)
      unfolding named_token get_remote_binary_security_token get_local_binary_security_token
      named = rw (named_token, t.other_token, ==_refl ("#" <> references.signature_bst_id)) refl

      signing :
          signing_token built_envelope.header.security built_signature
          ≡ ok (get_local_binary_security_token env local_party references)
      unfolding signing_token token_uri envelope_of get_signature
      signing = rw (signing_token, nonempty-id references.signature_bst_id, named) refl

      pub stated :
          user_message built_envelope.header.messaging
          ≡ ok (some (get_user_message s local_party remote_party a references))
      unfolding user_message envelope_of messaging_of get_messaging
      stated = refl

      verified_signature-built :
          verified_signature env ctx built_envelope.header.security built_envelope elements
            built_signature
          ≡ ok (some built_signature, some local_party.credentials.certificate)
      unfolding verified_signature
      verified_signature-built =
          rw
            (
              verified_signature,
              signing,
              stated,
              verified_signer-built built_envelope.header.security,
            )
            refl

      pub get_verified_signature-envelope_of :
          get_verified_signature env ctx built_envelope.header.security built_envelope elements
          ≡ ok (some built_signature, some local_party.credentials.certificate)
      unfolding get_verified_signature envelope_of
      get_verified_signature-envelope_of = verified_signature-built
