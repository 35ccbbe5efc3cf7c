-- ===== src/Message/Signature.antt =====
-- Who signed a message, and what the signature shows: `resolve_signer` and
-- `get_verified_signature` of as4/core/message.py.
pub mod Refusals
pub mod Soundness
use as_lib.Base.{
  ℕ, ◌≤◌, ◌≡◌, ◌≢◌, refl, String, ◌<>◌, Bool, true, false, not, ◌&&◌, ◌||◌, Option, none, some,
  List, [], ◌∷◌, ◌++◌, ◌⊎◌, inl, inr, find, keep, take, drop, All, In, Any, length, contains,
  string_eq, option_eq, ◌==◌, if◌then◌else◌, arith, Bool-cases, Option-cases,
}
use as_lib.Base.Text.{starts_with, remove_prefix, nonempty}
use as_lib.Base.Sorting.{sorted}
use as_lib.Base.Dict
use as_lib.Base.Dict.{Dict}
use as_lib.Errors
use as_lib.Errors.{error_of}
use as_lib.Platform.{Bytes, Certificate, Crypto}
use as_lib.Etree.{Element, tag, index_elements_by_id}
use as_lib.Outcome.{
  Raised, Result, ok, err, require, ensure, ◌>>=◌, ◌>>◌, receiptable, unsupported_digest_algorithm,
  unsupported_transform, unsupported_signature_algorithm, unsupported_security_token_type,
  invalid_signature, untrusted_signer,
}
use as_lib.Models.Reference.{Reference}
use as_lib.Models.Signature.{Signature}
use as_lib.Models.Security.{Security}
use as_lib.Models.Soap.{Envelope}
use as_lib.Models.UserMessage.{PartyFrom, PartInfo, UserMessage}
use as_lib.Models.Tokens.{BinarySecurityToken, SecurityTokenReference}
use as_lib.Models.Xenc.{DataReference, EncryptedType}
use as_lib.Dsig.{or_empty, digest_matches, digest_matches_bytes}
use as_lib.Dsig.Verify.{verify}
use as_lib.Documents.{user_message, x509_certificate, get_encrypted_data, decompress}
use as_lib.Parties.{SecurityPolicy, As4ParseContext, As4PrivateKey}
use as_lib.Environment.{Environment, Xml, Schemas}
use as_lib.Message.{present, or_blank, As4Message, blank}
use as_lib.Message.Coverage.{verify_signature_coverage}
use as_lib.Message.Digests.{verify_reference_digests}

-- `except UntrustedSignerError`
unfoldable pub refuse_untrusted : Result Certificate → Result Certificate
refuse_untrusted (ok c) = ok c
refuse_untrusted (err (untrusted_signer s)) =
    err (receiptable (error_of Errors.untrusted_signer ""))
refuse_untrusted (err e) = err e

unfoldable pub resolve_signer : SecurityPolicy → PartyFrom → Option Certificate → Result Certificate
unfolding refuse_untrusted
resolve_signer policy party_from embedded =
    refuse_untrusted (policy.signer_resolver party_from embedded)

-- `except UnsupportedSecurityTokenType`
unfoldable pub refuse_token_type : Result Certificate → Result Certificate
refuse_token_type (ok c) = ok c
refuse_token_type (err (unsupported_security_token_type t)) =
    err (receiptable (Errors.unsupported_security_token_type_error t))
refuse_token_type (err e) = err e

-- The handlers round `signature.verify`.
unfoldable pub refuse_unverified : Result (Unit {0}) → Result (Unit {0})
refuse_unverified (ok u) = ok u
refuse_unverified (err (unsupported_signature_algorithm a)) =
    err (receiptable (Errors.unsupported_signature_algorithm_error a))
refuse_unverified (err (unsupported_transform a)) =
    err (receiptable (Errors.unsupported_transform_error a))
refuse_unverified (err invalid_signature) =
    err (receiptable (error_of Errors.signature_verification_failed ""))
refuse_unverified (err e) = err e

-- `refs[0].reference.uri if refs else None`
unfoldable pub token_uri : List SecurityTokenReference → Option String
token_uri [] = none
token_uri (r ∷ rest) = r.reference.uri

-- The token whose id the reference names, if any.
unfoldable pub named_token : List BinarySecurityToken → String → Option BinarySecurityToken
named_token tokens uri = find (λ (t : BinarySecurityToken). uri == ("#" <> t.bst_id)) tokens

-- `{part.href for part in parts if part.href}`
unfoldable pub hrefs_of : List PartInfo → List String
unfolding nonempty
hrefs_of [] = []
hrefs_of (p ∷ rest) =
    let others = hrefs_of rest in
    elim p.href [ none ↦ others | some href ↦ if nonempty href then href ∷ others else others ]

unfoldable pub declared_hrefs : UserMessage → List String
unfolding hrefs_of
declared_hrefs um = elim um.payload_info [ none ↦ [] | some i ↦ hrefs_of i.part_info ]

abbrev no_token : Raised
no_token = receiptable (error_of Errors.signature_security_token_reference_not_found "")

-- The token of the signature, once its URI is known to be there.
unfoldable pub signing_token : Security → Signature → Result BinarySecurityToken
unfolding token_uri named_token nonempty
signing_token security s = do
  let uri = token_uri s.key_info.security_token_reference
  ensure (present uri) no_token
  require (named_token security.binary_security_tokens (or_blank uri)) no_token

module _ (env : Environment) where
  unfoldable pub verified_signer :
      As4ParseContext
      → Security
      → Signature
      → UserMessage
      → Dict Element
      → BinarySecurityToken
      → Result Certificate
  unfolding refuse_token_type refuse_unverified resolve_signer declared_hrefs x509_certificate
      verify verify_signature_coverage verify_reference_digests
  verified_signer ctx security s um elements token =
      let policy = ctx.security_policy in
      do
        embedded ← refuse_token_type (x509_certificate env.crypto token)
        signer ← resolve_signer policy um.party_info.party_from (some embedded)
        refuse_unverified (verify env.crypto env.xml.c14n s signer)
        verify_signature_coverage s elements (declared_hrefs um) policy.required_coverage
        if policy.verify_digests then verify_reference_digests env s elements else ok tt
        ok signer

  unfoldable pub verified_signature :
      As4ParseContext
      → Security
      → Envelope
      → Dict Element
      → Signature
      → Result (Option Signature × Option Certificate)
  unfolding signing_token verified_signer user_message
  verified_signature ctx security envelope elements s = do
    token ← signing_token security s
    found ← user_message envelope.header.messaging
    um ← require found (receiptable (error_of Errors.user_message_not_found ""))
    signer ← verified_signer ctx security s um elements token
    ok (some s, some signer)

  unfoldable pub get_verified_signature :
      As4ParseContext
      → Security
      → Envelope
      → Dict Element
      → Result (Option Signature × Option Certificate)
  unfolding verified_signature
  get_verified_signature ctx security envelope elements = elim security.signature [
    | none ↦
        if ctx.security_policy.sign_required
        then err (receiptable (error_of Errors.signature_required ""))
        else ok (none, none)
    | some s ↦ verified_signature ctx security envelope elements s
  ]
