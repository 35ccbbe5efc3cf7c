-- ===== src/Message/Process.antt =====
-- `AS4Message.process` of as4/core/message.py. The dict `fields` is the message to be, whose unset
-- keys have the model's defaults; `decrypted_data` in it is the dict that the last loop writes to.
pub mod Steps
pub mod Kept
use as_lib.Base.{
  ℕ, ◌≤◌, ◌≡◌, ◌≢◌, refl, String, ◌<>◌, Bool, true, false, not, ◌&&◌, ◌||◌, Option, none, some,
  List, [], ◌∷◌, ◌++◌, ◌⊎◌, inl, inr, find, keep, take, drop, All, In, Any, length, contains,
  string_eq, option_eq, ◌==◌, if◌then◌else◌, arith, Bool-cases, Option-cases,
}
use as_lib.Base.Text.{starts_with, remove_prefix, nonempty}
use as_lib.Base.Sorting.{sorted}
use as_lib.Base.Dict
use as_lib.Base.Dict.{Dict}
use as_lib.Errors
use as_lib.Errors.{error_of}
use as_lib.Platform.{Bytes, Certificate, Crypto}
use as_lib.Etree.{Element, tag, index_elements_by_id}
use as_lib.Outcome.{
  Raised, Result, ok, err, require, ensure, receiptable, unsupported_digest_algorithm,
  unsupported_transform, unsupported_signature_algorithm, unsupported_security_token_type,
  invalid_signature, untrusted_signer,
}
use as_lib.Models.Reference.{Reference}
use as_lib.Models.Signature.{Signature}
use as_lib.Models.Security.{Security}
use as_lib.Models.Soap.{Envelope}
use as_lib.Models.UserMessage.{PartyFrom, PartInfo, UserMessage}
use as_lib.Models.Tokens.{BinarySecurityToken, SecurityTokenReference}
use as_lib.Models.Xenc.{DataReference, EncryptedType}
use as_lib.Dsig.{or_empty, digest_matches, digest_matches_bytes}
use as_lib.Dsig.Verify.{verify}
use as_lib.Documents.{user_message, x509_certificate, get_encrypted_data, decompress}
use as_lib.Parties.{SecurityPolicy, As4ParseContext, As4PrivateKey}
use as_lib.Environment.{Environment, Xml, Schemas}
use as_lib.Message.{present, or_blank, As4Message, blank}
use as_lib.Outcome.Exec.{Exec, lift, modify, continue, ◌>>=◌, ◌>>◌}
use as_lib.Models.Mapping.{model_validate_etree}
use as_lib.Message.Digests.{verify_attachment_digests}
use as_lib.Message.Signature.{get_verified_signature}
use as_lib.Message.Decryption.{get_decrypted_data}

-- `part_info.href` of the parts, and what the loop does for one part with a non-empty href.
-- `raise` leaves what the earlier rounds wrote.
unfoldable pub process_part :
    Crypto → ℕ → PartInfo → String → Dict Bytes → Exec (Dict Bytes) (Unit {0})
unfolding Dict.has_key Dict.get Dict.put remove_prefix decompress
process_part c maximum_size part href mime_attachments decrypted =
    let identifier = remove_prefix href "cid:" in
    if Dict.has_key mime_attachments identifier
    then (elim (Dict.get decrypted identifier) [
      | none ↦ (ok tt, decrypted)
      | some content ↦ (elim (decompress c part.part_properties content maximum_size) [
        | ok out ↦ (ok tt, Dict.put decrypted identifier out)
        | err e ↦ (err e, decrypted)
      ])
    ])
    else (err (receiptable (Errors.part_info_without_mime_part_error href)), decrypted)

-- One round of the loop: a part with no href is skipped.
unfoldable pub process_round : Crypto → ℕ → PartInfo → Dict Bytes → Exec (Dict Bytes) (Unit {0})
unfolding process_part nonempty
process_round c maximum_size part mime_attachments decrypted =
    if present part.href
    then process_part c maximum_size part (or_blank part.href) mime_attachments decrypted
    else (ok tt, decrypted)

unfoldable pub process_parts :
    Crypto → ℕ → List PartInfo → Dict Bytes → Exec (Dict Bytes) (Unit {0})
unfolding process_round
process_parts c maximum_size [] mime_attachments = lift (ok tt)
process_parts c maximum_size (part ∷ rest) mime_attachments = do
  process_round c maximum_size part mime_attachments
  process_parts c maximum_size rest mime_attachments

-- The parts of `payload_info`, which must be there.
unfoldable pub payload_parts : Option UserMessage → Result (List PartInfo)
payload_parts none = err (receiptable (error_of Errors.user_message_not_found ""))
payload_parts (some um) = elim um.payload_info [
  | none ↦ err (receiptable (error_of Errors.payload_info_not_found ""))
  | some i ↦ ok i.part_info
]

-- `if signature is not None and policy.verify_digests`
unfoldable pub check_attachments :
    Environment → SecurityPolicy → Option Signature → Dict Bytes → Result (Unit {0})
unfolding verify_attachment_digests
check_attachments env policy none decrypted = ok tt
check_attachments env policy (some s) decrypted =
    if policy.verify_digests then verify_attachment_digests env s decrypted else ok tt

-- The loop's writes are writes to `fields["decrypted_data"]`.
unfoldable pub on_decrypted : Exec (Dict Bytes) (Unit {0}) → Exec As4Message (Unit {0})
on_decrypted m f = let (r, d) = m f.decrypted_data in (r, record f { decrypted_data = d })

module _ (env : Environment) (ctx : As4ParseContext) where
  -- The steps that read the SOAP header, once the envelope is there.
  unfoldable pub process_envelope : Element → Dict Bytes → Envelope → Exec As4Message (Unit {0})
  unfolding index_elements_by_id get_verified_signature get_decrypted_data check_attachments
      user_message payload_parts process_parts on_decrypted
  process_envelope e mime_attachments envelope = do
    elements ← lift (index_elements_by_id e)
    let security = envelope.header.security
    verified ← lift (get_verified_signature env ctx security envelope elements)
    modify (λ f. record f { signer_certificate = verified.1 })
    decrypted ← lift (get_decrypted_data env.crypto ctx security mime_attachments)
    modify (λ f. record f { decrypted_data = decrypted })
    lift (check_attachments env ctx.security_policy verified.0 decrypted)
    found ← lift (user_message envelope.header.messaging)
    parts ← lift (payload_parts found)
    on_decrypted (
        process_parts env.crypto ctx.security_policy.maximum_decompressed_size parts
          mime_attachments)

  unfoldable pub process : Element → Dict Bytes → Exec As4Message (Unit {0})
  unfolding model_validate_etree process_envelope
  process e mime_attachments = do
    modify (λ f. record f { mime_attachments = mime_attachments })
    envelope ← lift (model_validate_etree env.schemas.envelope e)
    modify (λ f. record f { soap_envelope = some envelope })
    process_envelope e mime_attachments envelope
