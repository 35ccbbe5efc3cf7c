-- ===== src/Peppol/Build/Delivered.antt =====
-- `process_envelope` of as4/core/message.py on what `build_message` of
-- as4/profiles/peppol/message.py returns.
use mathlib.Core.Path.{subst}
use as_lib.Base.{
  ◌≤◌, ◌≡◌, refl, ap, sym, ◌∙◌, String, some, [], ◌∷◌, length, Bool-cases, inl, inr, All,
}
use as_lib.Base.Dict.{Dict}
use as_lib.Platform.{Bytes}
use as_lib.Etree.{Element, index_elements_by_id}
use as_lib.Outcome.{ok, ok-injective, some-injective}
use as_lib.Environment.{Environment}
use as_lib.Models.Soap.{Envelope}
use as_lib.Parties.{As4ExternalParty, As4InternalParty, As4ParseContext}
use as_lib.References.{As4References}
use as_lib.Message.{As4Message}
use as_lib.Message.Process.{check_attachments, on_decrypted, payload_parts, process_envelope}
use as_lib.Peppol.{PeppolAs4Message}
use as_lib.Peppol.Build.{BuilderArgs, Supplies, encrypt_payload, get_user_message}
use as_lib.Peppol.Build.Envelope.{
  body_of, build_message, envelope_of, message_of, messaging_of, written_of,
}
use as_lib.Peppol.Build.Parts.{Built, build_message-Built, entry_of, filled}
use as_lib.Peppol.Build.Opens.{OneAttachment, Opening, get_decrypted_data-envelope_of}
use as_lib.Peppol.Build.Unzips.{Unzips, process_parts-part_of}
use as_lib.Peppol.Build.Signed.{get_signed_info-references_of}
use as_lib.Peppol.Build.Covered.{verify_attachment_digests-references_of}
use as_lib.Peppol.Build.Accepted.{
  Trusted, built_envelope, built_signature, get_verified_signature-envelope_of, built_signed_info,
  signed_references, stated,
}

module _ (env : Environment) (s : Supplies) (local_party : As4InternalParty)
    (remote_party : As4ExternalParty) (a : BuilderArgs) (references : As4References)
    (entry : String × String) (one : references.attachment_id_encrypted_data_id_map ≡ entry ∷ [])
    (ctx : As4ParseContext) (elements : Dict Element)
    (t : Trusted env s local_party remote_party a references entry one ctx elements)
    (o : Opening env.crypto s remote_party ctx.local_party.credentials.private_key)
    (u : Unzips env.crypto s ctx.security_policy.maximum_decompressed_size) where
  pub checked :
      (b : Bytes)
      → check_attachments env ctx.security_policy
          (some (
            built_signature env s local_party remote_party a references entry one b ctx elements t))
          ((entry.0, b) ∷ [])
        ≡ ok tt
  unfolding check_attachments
  checked b = elim (Bool-cases ctx.security_policy.verify_digests) [
    | inl y ↦
        rw (check_attachments, y)
          (verify_attachment_digests-references_of env s references
            (messaging_of s local_party remote_party a references) (body_of references) entry.0 b
            elements t.first t.second
            (built_signature env s local_party remote_party a references entry one b ctx elements t)
            (signed_references env s local_party remote_party a references entry one b ctx elements
              t)
            t.verifiable.unspaced)
    | inr n ↦ rw (check_attachments, n) refl
  ]

  process_envelope-built :
      (e : Element) (b : Bytes) (f : As4Message)
      → index_elements_by_id e ≡ ok elements
      → length b ≤ ctx.security_policy.maximum_decompressed_size
      → process_envelope env ctx e
          ((entry.0, (encrypt_payload s (s.gzip_compress b)).1) ∷ [])
          (built_envelope env s local_party remote_party a references entry one
            (s.gzip_compress b)
            ctx
            elements
            t
            (s.rsa_oaep_encrypt remote_party.credentials.certificate s.generate_key))
          f
        ≡ (
          ok tt,
          record f {
            signer_certificate = some local_party.credentials.certificate;
            decrypted_data = (entry.0, b) ∷ [];
          },
        )
  unfolding process_envelope on_decrypted payload_parts get_user_message
  process_envelope-built e b f i h =
      let sealed = s.rsa_oaep_encrypt remote_party.credentials.certificate s.generate_key in
      let c = s.gzip_compress b in
      rw
        (
          process_envelope,
          i,
          get_verified_signature-envelope_of env s local_party remote_party a references entry one c
              ctx elements t sealed,
          get_decrypted_data-envelope_of env s local_party remote_party ctx o a references entry
              (built_signed_info env s local_party remote_party a references entry one c ctx
                elements t)
              c one,
          checked c,
          stated env s local_party remote_party a references entry one c ctx elements t sealed,
          payload_parts,
          get_user_message,
          on_decrypted,
          process_parts-part_of env.crypto s ctx.security_policy.maximum_decompressed_size u
              references.attachment_id_encrypted_data_id_map entry b (encrypt_payload s c).1 one h,
        )
        refl

module _ (env : Environment) (s : Supplies) (local_party : As4InternalParty)
    (remote_party : As4ExternalParty) (a : BuilderArgs) (references : As4References) where
  -- What stands between the sender and the receiver.
  pub record Delivered (ctx : As4ParseContext) (e : Element) : Type 0 where
    pub one : OneAttachment s references
    pub elements : Dict Element
    pub indexed : index_elements_by_id e ≡ ok elements
    pub trusted :
        Trusted env s local_party remote_party a
          (filled s references)
          (entry_of s references)
          one
          ctx
          elements
    pub opening : Opening env.crypto s remote_party ctx.local_party.credentials.private_key
    pub unzips : Unzips env.crypto s ctx.security_policy.maximum_decompressed_size

  module _ (ctx : As4ParseContext) (e : Element) (d : Delivered ctx e)
      (view : Envelope → Envelope) where
    -- The receiver, for whom an envelope has this view, reads off the message what the sender has put
    -- into it, and learns who sent it.
    abbrev ReadBack : PeppolAs4Message → Type 0
    ReadBack m =
        (envelope : Envelope) (f : As4Message)
        → m.soap_envelope ≡ some envelope
        → All (λ (_, b). length b ≤ ctx.security_policy.maximum_decompressed_size) m.decrypted_data
        → process_envelope env ctx e m.mime_attachments (view envelope) f ≡ (
          ok tt,
          record f {
            signer_certificate = some local_party.credentials.certificate;
            decrypted_data = m.decrypted_data;
          },
        )

    -- It does so off an envelope that was built for this data.
    abbrev pub Reads : Type 0
    Reads =
        (b : Bytes) (f : As4Message)
        → length b ≤ ctx.security_policy.maximum_decompressed_size
        → process_envelope env ctx e
            (((entry_of s references).0, (encrypt_payload s (s.gzip_compress b)).1) ∷ [])
            (view (
              built_envelope env s local_party remote_party a (filled s references)
                (entry_of s references) d.one (s.gzip_compress b) ctx d.elements d.trusted
                (s.rsa_oaep_encrypt remote_party.credentials.certificate s.generate_key)))
            f
          ≡ (
            ok tt,
            record f {
              signer_certificate = some local_party.credentials.certificate;
              decrypted_data = ((entry_of s references).0, b) ∷ [];
            },
          )

    message_of-ReadBack :
        Reads
        → (b : Bytes)
        → ReadBack (
            message_of a references
              (entry_of s references).0
              (encrypt_payload s (s.gzip_compress b)).1
              b
              (built_envelope env s local_party remote_party a
                (filled s references)
                (entry_of s references)
                d.one
                (s.gzip_compress b)
                ctx
                d.elements
                d.trusted
                (s.rsa_oaep_encrypt remote_party.credentials.certificate s.generate_key)))
    unfolding message_of
    message_of-ReadBack reads b envelope f is_envelope fits =
        subst
          (λ x.
            process_envelope env ctx e
              (((entry_of s references).0, (encrypt_payload s (s.gzip_compress b)).1) ∷ []) (view x)
              f
            ≡ (
              ok tt,
              record f {
                signer_certificate = some local_party.credentials.certificate;
                decrypted_data = ((entry_of s references).0, b) ∷ [];
              },
            ))
          (some-injective is_envelope) (reads b f fits.0)

    pub Built-ReadBack :
        Reads
        → (payload : Bytes) (m : PeppolAs4Message)
        → Built env s local_party remote_party payload a references m
        → ReadBack m
    Built-ReadBack reads payload m b =
        let written : Bytes = written_of s b.sbd b.document in
        let same : b.signed_info
            ≡ built_signed_info env s local_party remote_party a (filled s references)
                (entry_of s references) d.one (s.gzip_compress written) ctx d.elements d.trusted =
          ok-injective
            (sym b.signs ∙ get_signed_info-references_of env s (filled s references) _ _ _ _) in
        subst ReadBack
          (sym (
            b.made
            ∙ ap
                (λ i.
                  message_of a references (entry_of s references).0
                    (encrypt_payload s (s.gzip_compress written)).1 written
                    (envelope_of env s local_party remote_party a (filled s references)
                      (s.rsa_oaep_encrypt remote_party.credentials.certificate s.generate_key) i))
                same))
          (message_of-ReadBack reads written)

-- What `build_message` returns is accepted and read back by `process_envelope` of the receiver,
-- given the envelope that was built: it does not raise, the signer is the sender's certificate,
-- and the decrypted data is the data that the sender put into the message. The conditions: the
-- references name one attachment; the element that the receiver has read indexes by id elements
-- with the canonical form and the tags of those that the sender digested; the ids of the two
-- tokens differ; the resolver gives the sender's certificate for the sender; the policy requires
-- no more than what the sender signs; the data is within the size that the policy allows; and the
-- third parties keep to their documentation, that is, the signature verifies under the sender's
-- certificate, the receiver's key opens what is sealed for the receiver's certificate, AES-GCM
-- decrypts under the same key and a nonce of twelve bytes, and base64 and gzip read back what
-- they wrote.
pub build_message-ReadBack :
    (env : Environment) (s : Supplies) (local_party : As4InternalParty)
    (remote_party : As4ExternalParty) (payload : Bytes) (a : BuilderArgs)
    (references after : As4References) (m : PeppolAs4Message) (ctx : As4ParseContext) (e : Element)
    (d : Delivered env s local_party remote_party a references ctx e)
    → build_message env s local_party remote_party payload a references ≡ ok (m, after)
    → (envelope : Envelope) (f : As4Message) → m.soap_envelope ≡ some envelope
    → All (λ (_, b). length b ≤ ctx.security_policy.maximum_decompressed_size) m.decrypted_data
    → process_envelope env ctx e m.mime_attachments envelope f ≡ (
      ok tt,
      record f {
        signer_certificate = some local_party.credentials.certificate;
        decrypted_data = m.decrypted_data;
      },
    )
build_message-ReadBack env s local_party remote_party payload a references after m ctx e d h =
    Built-ReadBack env s local_party remote_party a references ctx e d (λ v. v)
      (λ b f.
        process_envelope-built env s local_party remote_party a (filled s references)
          (entry_of s references) d.one ctx d.elements d.trusted d.opening d.unzips e b f d.indexed)
      payload m (build_message-Built env s local_party remote_party payload a references m after h)
