-- ===== src/Peppol/Build/ReadBack.antt =====
-- `process_envelope` of as4/core/message.py on the envelope of a built message of
-- as4/profiles/peppol/message.py, as it is read from the document that the sender wrote.
use as_lib.Base.{
  ◌≤◌, ◌≡◌, refl, ap, ◌∙◌, String, ◌<>◌, some, [], ◌∷◌, All, length, string_eq, option_eq,
  if◌then◌else◌,
}
use as_lib.Base.Dict.{Dict}
use as_lib.Platform.{Bytes, DateTime}
use as_lib.Etree.{Element, index_elements_by_id}
use as_lib.Outcome.{Result, ok}
use as_lib.Environment.{Environment}
use as_lib.Models.Soap.{Envelope}
use as_lib.Models.Signature.{Signature}
use as_lib.Models.UserMessage.{UserMessage}
use as_lib.Parties.{As4ExternalParty, As4InternalParty, As4ParseContext}
use as_lib.References.{As4References}
use as_lib.Documents.{user_message}
use as_lib.Message.Coverage.{verify_signature_coverage}
use as_lib.Message.Digests.{verify_attachment_digests, verify_reference_digests}
use as_lib.Message.{As4Message}
use as_lib.Message.Process.{check_attachments, on_decrypted, payload_parts, process_envelope}
use as_lib.Message.Signature.{
  declared_hrefs, get_verified_signature, refuse_unverified, resolve_signer, signing_token,
  token_uri, verified_signature, verified_signer,
}
use as_lib.Dsig.Verify.{verify}
use as_lib.Serialise.{dump_body}
use as_lib.Serialise.UserMessages.{dump_messaging}
use as_lib.Serialise.Reading.{read_envelope, read_signature, read_user_message}
use as_lib.Peppol.Build.{BuilderArgs, Supplies, encrypt_payload, get_messaging, get_user_message}
use as_lib.Peppol.Build.Envelope.{body_of, build_message, envelope_of, messaging_of}
use as_lib.Peppol.Build.Opens.{Opening, get_decrypted_data-read_envelope, nonempty-id}
use as_lib.Peppol.Build.Unzips.{Unzips, process_parts-part_of}
use as_lib.Peppol.Build.Read.{
  skip_attachment-read, skip_element-read, verify-read, verify_attachment_digest-read,
  verify_each-read, verify_each_attachment-read, verify_reference_digest-read,
  verify_signature_coverage-read,
}
use as_lib.Peppol.Build.Security.{get_local_binary_security_token}
use as_lib.Peppol.Build.Signed.{body_tag, references_of}
use as_lib.Peppol.Build.Signing.{get_signature}
use as_lib.Peppol.Build.Delivered.{Built-ReadBack, Delivered, checked}
use as_lib.Peppol.Build.Parts.{build_message-Built, entry_of, filled}
use as_lib.Peppol.{PeppolAs4Message}
use as_lib.Peppol.Build.Accepted.{
  Trusted, built_envelope, built_signature, built_signed_info, certified, covered, digests_verified,
  named, resolved, verified,
}

module _ (env : Environment) (s : Supplies) (local_party : As4InternalParty)
    (remote_party : As4ExternalParty) (a : BuilderArgs) (references : As4References)
    (entry : String × String) (one : references.attachment_id_encrypted_data_id_map ≡ entry ∷ [])
    (b : Bytes) (ctx : As4ParseContext) (elements : Dict Element)
    (t : Trusted env s local_party remote_party a references entry one ctx elements)
    (read_time : DateTime → DateTime) where
  abbrev signature : Signature
  signature = built_signature env s local_party remote_party a references entry one b ctx elements t

  abbrev um : UserMessage
  um = read_user_message read_time (get_user_message s local_party remote_party a references)

  verified-read :
      refuse_unverified (
        verify env.crypto env.xml.c14n
          (read_signature signature)
          local_party.credentials.certificate)
      ≡ ok tt
  unfolding get_signature
  verified-read =
      ap refuse_unverified
        (verify-read env.crypto env.xml.c14n signature _ local_party.credentials.certificate refl)
      ∙ verified env s local_party remote_party a references entry one b ctx elements t

  resolved-read :
      resolve_signer ctx.security_policy um.party_info.party_from
        (some local_party.credentials.certificate)
      ≡ ok local_party.credentials.certificate
  resolved-read = resolved env s local_party remote_party a references entry one b ctx elements t

  covered-read :
      verify_signature_coverage
        (read_signature signature)
        elements
        (declared_hrefs um)
        ctx.security_policy.required_coverage
      ≡ ok tt
  unfolding declared_hrefs
  covered-read =
      verify_signature_coverage-read signature elements (declared_hrefs um)
        ctx.security_policy.required_coverage
      ∙ covered env s local_party remote_party a references entry one b ctx elements t

  reference_digests-read :
      verify_reference_digests env (read_signature signature) elements
      ≡ verify_reference_digests env signature elements
  unfolding verify_reference_digests get_signature references_of
  reference_digests-read =
      verify_each-read env elements
        (references_of env s references (messaging_of s local_party remote_party a references)
          (body_of references) entry.0 b)
        (
          verify_reference_digest-read env elements ("#" <> references.messaging_id) (
              env.xml.c14n
                (dump_messaging s.moment.isoformat
                  (messaging_of s local_party remote_party a references))
                []),
          (
            verify_reference_digest-read env elements ("#" <> references.body_id)
                (env.xml.c14n (dump_body body_tag (body_of references)) []),
            (skip_attachment-read env elements ("cid:" <> entry.0) b, tt),
          ),
        )

  attachment_digests-read :
      verify_attachment_digests env (read_signature signature) ((entry.0, b) ∷ [])
      ≡ verify_attachment_digests env signature ((entry.0, b) ∷ [])
  unfolding verify_attachment_digests get_signature references_of
  attachment_digests-read =
      verify_each_attachment-read env ((entry.0, b) ∷ [])
        (references_of env s references (messaging_of s local_party remote_party a references)
          (body_of references) entry.0 b)
        (
          skip_element-read env ((entry.0, b) ∷ []) ("#" <> references.messaging_id) (
              env.xml.c14n
                (dump_messaging s.moment.isoformat
                  (messaging_of s local_party remote_party a references))
                []),
          (
            skip_element-read env ((entry.0, b) ∷ []) ("#" <> references.body_id)
                (env.xml.c14n (dump_body body_tag (body_of references)) []),
            (verify_attachment_digest-read env ((entry.0, b) ∷ []) ("cid:" <> entry.0) b, tt),
          ),
        )

  verified_signer-read :
      verified_signer env ctx
        (read_envelope read_time (
          built_envelope env s local_party remote_party a references entry one b ctx elements t (
            s.rsa_oaep_encrypt remote_party.credentials.certificate
              s.generate_key))).header.security
        (read_signature signature)
        um
        elements
        (get_local_binary_security_token env local_party references)
      ≡ ok local_party.credentials.certificate
  unfolding verified_signer
  verified_signer-read =
      rw
        (
          verified_signer,
          certified env s local_party remote_party a references entry one b ctx elements t,
          resolved-read,
          verified-read,
          covered-read,
          reference_digests-read,
          digests_verified env s local_party remote_party a references entry one b ctx elements t,
        )
        refl

  module _ (sealed : Bytes) where
    abbrev read : Envelope
    read = read_envelope read_time (
        built_envelope env s local_party remote_party a references entry one b ctx elements t
          sealed)

    signing-read :
        signing_token read.header.security (read_signature signature)
        ≡ ok (get_local_binary_security_token env local_party references)
    unfolding signing_token token_uri envelope_of get_signature
    signing-read =
        rw
          (
            signing_token,
            nonempty-id references.signature_bst_id,
            named env s local_party remote_party a references entry one b ctx elements t sealed,
          )
          refl

    pub stated-read : user_message read.header.messaging ≡ ok (some um)
    unfolding user_message envelope_of messaging_of get_messaging
    stated-read = refl

    verified_signature-read :
        verified_signature env ctx read.header.security read elements (read_signature signature)
        ≡ ok (some (read_signature signature), some local_party.credentials.certificate)
    unfolding verified_signature verified_signer
    verified_signature-read =
        rw (verified_signature, signing-read, stated-read, verified_signer-read) refl

    get_verified_signature-read :
        get_verified_signature env ctx read.header.security read elements
        ≡ ok (some (read_signature signature), some local_party.credentials.certificate)
    unfolding get_verified_signature envelope_of
    get_verified_signature-read = verified_signature-read

  checked-read :
      Opening env.crypto s remote_party ctx.local_party.credentials.private_key
      → Unzips env.crypto s ctx.security_policy.maximum_decompressed_size
      → check_attachments env ctx.security_policy
          (some (read_signature signature))
          ((entry.0, b) ∷ [])
        ≡ ok tt
  unfolding check_attachments
  checked-read o u =
      ap (λ (x : Result (Unit {0})). if ctx.security_policy.verify_digests then x else ok tt)
        attachment_digests-read
      ∙ checked env s local_party remote_party a references entry one ctx elements t o u b

process_envelope-read :
    (env : Environment) (s : Supplies) (local_party : As4InternalParty)
    (remote_party : As4ExternalParty) (a : BuilderArgs) (references : As4References)
    (entry : String × String) (one : references.attachment_id_encrypted_data_id_map ≡ entry ∷ [])
    (ctx : As4ParseContext) (elements : Dict Element)
    (t : Trusted env s local_party remote_party a references entry one ctx elements)
    (o : Opening env.crypto s remote_party ctx.local_party.credentials.private_key)
    (u : Unzips env.crypto s ctx.security_policy.maximum_decompressed_size)
    (read_time : DateTime → DateTime) (e : Element) (b : Bytes) (f : As4Message)
    → index_elements_by_id e ≡ ok elements
    → length b ≤ ctx.security_policy.maximum_decompressed_size
    → process_envelope env ctx e
        ((entry.0, (encrypt_payload s (s.gzip_compress b)).1) ∷ [])
        (read_envelope read_time (
          built_envelope env s local_party remote_party a references entry one
            (s.gzip_compress b)
            ctx
            elements
            t
            (s.rsa_oaep_encrypt remote_party.credentials.certificate s.generate_key)))
        f
      ≡ (
        ok tt,
        record f {
          signer_certificate = some local_party.credentials.certificate;
          decrypted_data = (entry.0, b) ∷ [];
        },
      )
unfolding process_envelope on_decrypted payload_parts get_user_message
process_envelope-read env s local_party remote_party a references entry one ctx elements t o u
      read_time e b f i h =
    let sealed = s.rsa_oaep_encrypt remote_party.credentials.certificate s.generate_key in
    let c = s.gzip_compress b in
    rw
      (
        process_envelope,
        i,
        get_verified_signature-read env s local_party remote_party a references entry one c ctx
            elements t read_time sealed,
        get_decrypted_data-read_envelope env s local_party remote_party ctx o a references entry
            (built_signed_info env s local_party remote_party a references entry one c ctx elements
              t)
            c read_time one,
        checked-read env s local_party remote_party a references entry one c ctx elements t
            read_time o u,
        stated-read env s local_party remote_party a references entry one c ctx elements t read_time
            sealed,
        payload_parts,
        get_user_message,
        on_decrypted,
        process_parts-part_of env.crypto s ctx.security_policy.maximum_decompressed_size u
            references.attachment_id_encrypted_data_id_map entry b (encrypt_payload s c).1 one h,
      )
      refl

-- What the receiver reads of the document is accepted and read back as what was built is.
pub build_message-read :
    (env : Environment) (s : Supplies) (local_party : As4InternalParty)
    (remote_party : As4ExternalParty) (payload : Bytes) (a : BuilderArgs)
    (references after : As4References) (m : PeppolAs4Message) (ctx : As4ParseContext) (e : Element)
    (read_time : DateTime → DateTime)
    (d : Delivered env s local_party remote_party a references ctx e)
    → build_message env s local_party remote_party payload a references ≡ ok (m, after)
    → (envelope : Envelope) (f : As4Message) → m.soap_envelope ≡ some envelope
    → All (λ (_, b). length b ≤ ctx.security_policy.maximum_decompressed_size) m.decrypted_data
    → process_envelope env ctx e m.mime_attachments (read_envelope read_time envelope) f ≡ (
      ok tt,
      record f {
        signer_certificate = some local_party.credentials.certificate;
        decrypted_data = m.decrypted_data;
      },
    )
build_message-read env s local_party remote_party payload a references after m ctx e read_time d h =
    Built-ReadBack env s local_party remote_party a references ctx e d (read_envelope read_time)
      (λ b f.
        process_envelope-read env s local_party remote_party a (filled s references)
          (entry_of s references) d.one ctx d.elements d.trusted d.opening d.unzips read_time e b f
          d.indexed)
      payload m (build_message-Built env s local_party remote_party payload a references m after h)
