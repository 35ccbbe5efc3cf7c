-- ===== src/Message/Signature/Soundness.antt =====
-- What a verified signature establishes, and what the policy makes of a message without one.
use mathlib.Core.Path.{subst}
use as_lib.Base.{◌∙◌, ap}
use as_lib.Base.{
  ◌≡◌, ◌≢◌, refl, true, false, Option, none, some, ◌↔◌, All, contains, string_eq, option_eq,
  if◌then◌else◌, arith,
}
use as_lib.Base.Dict.{Dict}
use as_lib.Errors
use as_lib.Errors.{error_of}
use as_lib.Platform.{Certificate}
use as_lib.Etree.{Element}
use as_lib.Outcome.{Result, ok, err, require, bind-eq-ok, receiptable}
use as_lib.Models.Signature.{Signature}
use as_lib.Models.Security.{Security}
use as_lib.Models.Soap.{Envelope}
use as_lib.Models.UserMessage.{UserMessage}
use as_lib.Models.Tokens.{BinarySecurityToken}
use as_lib.Dsig.Verify.{verify}
use as_lib.Documents.{user_message, x509_certificate}
use as_lib.Parties.{As4ParseContext}
use as_lib.Environment.{Environment}
use as_lib.Message.Coverage.{signature_coverage, verify_signature_coverage}
use as_lib.Message.Coverage.Meaning.{verify_signature_coverage-contains}
use as_lib.Message.Digests.{verify_reference_digests}
use as_lib.Message.Signature.{
  refuse_untrusted, resolve_signer, refuse_token_type, refuse_unverified, declared_hrefs,
  signing_token, verified_signer, verified_signature, get_verified_signature,
}
use as_lib.Outcome.{require-eq-some}
use as_lib.Message.Signature.Refusals.{
  digests_of, refuse_unverified-eq-ok, pair-eq-ok, refuse_untrusted-eq-ok, refuse_token_type-eq-ok,
  checks-eq-ok,
}

module _ (env : Environment) (ctx : As4ParseContext) where
  -- The signature of the message was made with the key of the signer.
  pub record SignedBy (security : Security) (envelope : Envelope) (elements : Dict Element)
      (s : Signature) (signer : Certificate) : Type 0 where
    pub um : UserMessage
    pub token : BinarySecurityToken
    pub embedded : Certificate
    pub is_signature : security.signature ≡ some s
    pub user : user_message envelope.header.messaging ≡ ok (some um)
    pub token_named : signing_token security s ≡ ok token
    pub token_read : x509_certificate env.crypto token ≡ ok embedded
    pub resolved :
        ctx.security_policy.signer_resolver um.party_info.party_from (some embedded) ≡ ok signer
    pub verified : verify env.crypto env.xml.c14n s signer ≡ ok tt
    pub covered :
        All
          (λ k. contains (signature_coverage s elements (declared_hrefs um)) k ≡ true)
          ctx.security_policy.required_coverage
    pub digests :
        ctx.security_policy.verify_digests ≡ true → verify_reference_digests env s elements ≡ ok tt

  -- What `verified_signer` has checked when it gives a certificate.
  record SignerChecks (security : Security) (s : Signature) (um : UserMessage)
      (elements : Dict Element) (token : BinarySecurityToken) (signer : Certificate) : Type 0 where
    embedded : Certificate
    read : x509_certificate env.crypto token ≡ ok embedded
    found : ctx.security_policy.signer_resolver um.party_info.party_from (some embedded) ≡ ok signer
    checked : refuse_unverified (verify env.crypto env.xml.c14n s signer) ≡ ok tt
    coverage :
        verify_signature_coverage s elements
          (declared_hrefs um)
          ctx.security_policy.required_coverage
        ≡ ok tt
    references :
        (if ctx.security_policy.verify_digests
          then verify_reference_digests env s elements
          else ok tt)
        ≡ ok tt

  verified_signer-eq-ok :
      (security : Security) (s : Signature) (um : UserMessage) (elements : Dict Element)
      (token : BinarySecurityToken) (signer : Certificate)
      → verified_signer env ctx security s um elements token ≡ ok signer
      → SignerChecks security s um elements token signer
  unfolding verified_signer resolve_signer
  verified_signer-eq-ok security s um elements token signer h =
      let (embedded, is_read, h1) =
        bind-eq-ok (refuse_token_type (x509_certificate env.crypto token)) _ h in
      let (d, is_found, h2) =
        bind-eq-ok
          (refuse_untrusted
            (ctx.security_policy.signer_resolver um.party_info.party_from (some embedded)))
          _ h1 in
      let (v, w, x, same) = checks-eq-ok _ _ _ d signer h2 in
      record {
        embedded = embedded;
        read = refuse_token_type-eq-ok _ _ is_read;
        found = refuse_untrusted-eq-ok _ _ (is_found ∙ ap ok same);
        checked =
            subst (λ c. refuse_unverified (verify env.crypto env.xml.c14n s c) ≡ ok tt) same v;
        coverage = w;
        references = x;
      }

  signed_by :
      (security : Security) (envelope : Envelope) (elements : Dict Element) (s : Signature)
      (signer : Certificate) (um : UserMessage) (token : BinarySecurityToken)
      → security.signature ≡ some s
      → signing_token security s ≡ ok token
      → user_message envelope.header.messaging ≡ ok (some um)
      → SignerChecks security s um elements token signer
      → SignedBy security envelope elements s signer
  signed_by security envelope elements s signer um token is named user c = record {
    um = um;
    token = token;
    embedded = c.embedded;
    is_signature = is;
    user = user;
    token_named = named;
    token_read = c.read;
    resolved = c.found;
    verified = refuse_unverified-eq-ok _ c.checked;
    covered =
        (verify_signature_coverage-contains s elements (declared_hrefs um)
            ctx.security_policy.required_coverage).0
          c.coverage;
    digests = digests_of _ _ c.references;
  }

  verified_signature-eq-ok :
      (security : Security) (envelope : Envelope) (elements : Dict Element) (s t : Signature)
      (signer : Certificate)
      → security.signature ≡ some s
      → verified_signature env ctx security envelope elements s ≡ ok (some t, some signer)
      → SignedBy security envelope elements t signer
  unfolding verified_signature
  verified_signature-eq-ok security envelope elements s t signer is h =
      let (token, named, h1) = bind-eq-ok (signing_token security s) _ h in
      let (found, user, h2) = bind-eq-ok (user_message envelope.header.messaging) _ h1 in
      let (um, is_um, h3) = bind-eq-ok (require found _) _ h2 in
      let (c, by, h4) = bind-eq-ok (verified_signer env ctx security s um elements token) _ h3 in
      let (same, by_signer) = pair-eq-ok s t c signer h4 in
      subst (λ u. SignedBy security envelope elements u signer) same
        (signed_by security envelope elements s signer um token is named
          (user ∙ ap ok (require-eq-some found _ is_um))
          (verified_signer-eq-ok security s um elements token signer (by ∙ ap ok by_signer)))

  of_signature :
      (security : Security) (envelope : Envelope) (elements : Dict Element) (s : Signature)
      (signer : Certificate) (o : Option Signature)
      → security.signature ≡ o
      → ◌≡◌ {A = Result (Option Signature × Option Certificate)}
          (elim o [
            | none ↦
                if ctx.security_policy.sign_required
                then err (receiptable (error_of Errors.signature_required ""))
                else ok (none, none)
            | some t ↦ verified_signature env ctx security envelope elements t
          ])
          (ok (some s, some signer))
      → SignedBy security envelope elements s signer
  of_signature security envelope elements s signer none is h = ground arith
  of_signature security envelope elements s signer (some t) is h =
      verified_signature-eq-ok security envelope elements t s signer is h

  -- When the signature of a message is accepted as that of a signer, then the header names one of
  -- its tokens, the policy's resolver gave the signer for the sending party and the certificate
  -- of that token, the signature verifies under the signer's key, it covers every part of the
  -- message that the policy requires, and, where the policy asks for it, the digests of the
  -- references match.
  pub get_verified_signature-SignedBy :
      (security : Security) (envelope : Envelope) (elements : Dict Element) (s : Signature)
      (signer : Certificate)
      → get_verified_signature env ctx security envelope elements ≡ ok (some s, some signer)
      → SignedBy security envelope elements s signer
  unfolding get_verified_signature
  get_verified_signature-SignedBy security envelope elements s signer h =
      of_signature security envelope elements s signer security.signature refl h

  verified_signature_signed :
      (security : Security) (envelope : Envelope) (elements : Dict Element) (s : Signature)
      → verified_signature env ctx security envelope elements s ≢ ok (none, none)
  unfolding verified_signature
  verified_signature_signed security envelope elements s h =
      let (token, named, h1) = bind-eq-ok (signing_token security s) _ h in
      let (found, user, h2) = bind-eq-ok (user_message envelope.header.messaging) _ h1 in
      let (um, is_um, h3) = bind-eq-ok (require found _) _ h2 in
      let (c, by, h4) = bind-eq-ok (verified_signer env ctx security s um elements token) _ h3 in
      ground arith

  unsigned_of :
      (security : Security) (envelope : Envelope) (elements : Dict Element) (o : Option Signature)
      → ◌≡◌ {A = Result (Option Signature × Option Certificate)}
          (elim o [
            | none ↦
                if ctx.security_policy.sign_required
                then err (receiptable (error_of Errors.signature_required ""))
                else ok (none, none)
            | some t ↦ verified_signature env ctx security envelope elements t
          ])
          (ok (none, none))
        ↔ (o ≡ none) × (ctx.security_policy.sign_required ≡ false)
  unsigned_of security envelope elements none = ground arith
  unsigned_of security envelope elements (some t) =
      ground (arith, verified_signature_signed security envelope elements t)

  -- A message is accepted without a signer exactly when it carries no signature and the policy
  -- does not require one.
  pub get_verified_signature_unsigned :
      (security : Security) (envelope : Envelope) (elements : Dict Element)
      → get_verified_signature env ctx security envelope elements ≡ ok (none, none)
        ↔ (security.signature ≡ none) × (ctx.security_policy.sign_required ≡ false)
  unfolding get_verified_signature
  get_verified_signature_unsigned security envelope elements =
      unsigned_of security envelope elements security.signature
