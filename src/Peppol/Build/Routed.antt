-- ===== src/Peppol/Build/Routed.antt =====
-- `process_sbdh` of as4/profiles/peppol/message.py on what `build_message` of the same file returns.
use mathlib.Core.Path.{subst}
use as_lib.Base.{
  ◌≡◌, refl, ap, sym, ◌∙◌, String, none, some, List, [], ◌∷◌, Bool-cases, inl, inr, All, ==_refl,
  string_eq, option_eq,
}
use as_lib.Base.Dict
use as_lib.Platform.{Bytes, DateTime}
use as_lib.Serialise.Reading.{
  read_business_document, read_carried, read_envelope, read_user_message,
}
use as_lib.Etree.{Element}
use as_lib.Outcome.{ok}
use as_lib.Environment.{Environment}
use as_lib.Models.Mapping.{model_validate_etree}
use as_lib.Models.Sbdh.{StandardBusinessDocument}
use as_lib.Models.Soap.{Envelope}
use as_lib.Models.Signature.{SignedInfo}
use as_lib.Documents.{user_message}
use as_lib.Parties.{As4ExternalParty, As4InternalParty, As4ParseContext}
use as_lib.References.{As4References}
use as_lib.Message.{As4Message}
use as_lib.Peppol.{
  PeppolAs4Message, accept_recipient, peppol_party_identifier_type, user_message_of,
  verify_party_identifiers,
}
use as_lib.Peppol.Process.{
  check_participants, first_payload, message_properties, process_sbdh, read_document, sbdh_path,
}
use as_lib.Peppol.DocumentIdentifier.{identifier_value}
use as_lib.Peppol.Build.{
  BuilderArgs, Supplies, get_messaging, get_standard_business_document, get_user_message,
}
use as_lib.Peppol.Build.Envelope.{build_message, envelope_of, message_of, messaging_of}
use as_lib.Peppol.Build.Parts.{build_message-Built, filled}
use as_lib.Peppol.Build.Stated.{
  check_scopes-business_scopes, header_fields, participants_declared, parties_identified,
}

-- Both parties are Peppol's, and the receiver services the recipient.
pub record Serviced (local_party : As4InternalParty) (remote_party : As4ExternalParty)
    (a : BuilderArgs) (ctx : As4ParseContext) : Type 0 where
  pub sender_type : local_party.identity.party_type ≡ some peppol_party_identifier_type
  pub receiver_type : remote_party.identity.party_type ≡ some peppol_party_identifier_type
  pub accepts : accept_recipient ctx.accept_participant a.recipient ≡ ok tt

-- The bytes are read as the document that the sender wrote, with its time as it was written, and
-- the schema accepts its header.
pub record Reads (env : Environment) (read_time : DateTime → DateTime) (b : Bytes)
    (sbd : StandardBusinessDocument) : Type 0 where
  pub element : Element
  pub parsed : env.xml.parse_xml b ≡ some element
  pub header : Element
  pub found : env.xml.find element sbdh_path ≡ some header
  pub valid : env.xml.sbdh_validation_error header ≡ none
  pub validated :
      model_validate_etree env.schemas.standard_business_document element
      ≡ ok (read_business_document read_time sbd)

first_payload-one :
    (m : As4Message) (id : String) (sealed b : Bytes)
    → m.mime_attachments ≡ (id, sealed) ∷ []
    → m.decrypted_data ≡ (id, b) ∷ []
    → first_payload m ≡ some b
unfolding first_payload Dict.get
first_payload-one m id sealed b e1 e2 = rw (first_payload, e1, e2, ==_refl id) refl

read_document-Reads :
    (env : Environment) (show_set : List String → String) (ctx : As4ParseContext) (m : As4Message)
    (read_time : DateTime → DateTime) (b : Bytes) (sbd : StandardBusinessDocument)
    → first_payload m ≡ some b
    → Reads env read_time b sbd
    → read_document env show_set ctx m ≡ ok (read_business_document read_time sbd)
unfolding read_document
read_document-Reads env show_set ctx m read_time b sbd e r =
    rw (read_document, e, r.parsed, r.found, r.valid) r.validated

module _ (env : Environment) (s : Supplies) (local_party : As4InternalParty)
    (remote_party : As4ExternalParty) (a : BuilderArgs) (references : As4References)
    (show_set : List String → String) (ctx : As4ParseContext)
    (read_time : DateTime → DateTime) where
  participants_checked :
      (f : PeppolAs4Message) (envelope : Envelope) (sbd : StandardBusinessDocument)
      → f.soap_envelope ≡ some envelope
      → user_message envelope.header.messaging
        ≡ ok (
            some (
              read_user_message read_time
                (get_user_message s local_party remote_party a references)))
      → get_standard_business_document s a ≡ ok sbd
      → check_participants env show_set ctx
          (read_business_document read_time sbd).standard_business_document_header
          f.as4
        ≡ ok tt
  unfolding check_participants message_properties user_message_of
  participants_checked f envelope sbd e u h =
      let (sender, receiver, scopes) = header_fields s a sbd h in
      elim (Bool-cases ctx.security_policy.verify_participants) [
        | inl y ↦
            rw (check_participants, y, message_properties, e, user_message_of, u)
              (participants_declared s local_party remote_party a references _ _ sender receiver)
        | inr n ↦ rw (check_participants, n) refl
      ]

  routed :
      (f : PeppolAs4Message) (envelope : Envelope) (sbd : StandardBusinessDocument) (b : Bytes)
      → Serviced local_party remote_party a ctx
      → f.soap_envelope ≡ some envelope
      → user_message envelope.header.messaging
        ≡ ok (
            some (
              read_user_message read_time
                (get_user_message s local_party remote_party a references)))
      → get_standard_business_document s a ≡ ok sbd
      → first_payload f.as4 ≡ some b
      → Reads env read_time b sbd
      → process_sbdh env show_set ctx f ≡ (
        ok tt,
        record f {
          sender = some a.sender;
          recipient = some a.recipient;
          document_type_identifier_value = some (identifier_value a.document_type_identifier);
          document_type_identifier_scheme = some a.document_type_identifier.scheme;
          process_identifier = some a.process_identifier;
        },
      )
  unfolding process_sbdh
  routed f envelope sbd b v e u h p r =
      let (sender, receiver, scopes) = header_fields s a sbd h in
      let g : PeppolAs4Message = record f {
        sender = some a.sender;
        recipient = some a.recipient;
      } in
      let (found, checked, written) = check_scopes-business_scopes env show_set ctx a g in
      let identified : verify_party_identifiers f.soap_envelope ≡ ok tt =
        ap verify_party_identifiers e
        ∙ parties_identified s local_party remote_party a references read_time envelope u
            v.sender_type v.receiver_type in
      rw
        (
          process_sbdh,
          identified,
          read_document-Reads env show_set ctx f.as4 read_time b sbd p r,
          participants_checked f envelope sbd e u h,
          receiver,
          v.accepts,
          sender,
          scopes,
          checked,
        )
        (ap (λ x. (ok tt, x)) written)

-- The message that the receiver holds, with the envelope as it was read: its fields beside those of `AS4Message` are to be found.
pub record Holds (read_time : DateTime → DateTime) (f m : PeppolAs4Message) : Type 0 where
  pub envelope : f.soap_envelope ≡ read_carried read_time m.soap_envelope
  pub attachments : f.mime_attachments ≡ m.mime_attachments
  pub decrypted : f.decrypted_data ≡ m.decrypted_data

module _ (env : Environment) (s : Supplies) (local_party : As4InternalParty)
    (remote_party : As4ExternalParty) (a : BuilderArgs) (references : As4References)
    (show_set : List String → String) (ctx : As4ParseContext) (read_time : DateTime → DateTime)
    (sbd : StandardBusinessDocument) (stated : get_standard_business_document s a ≡ ok sbd)
    (v : Serviced local_party remote_party a ctx) where
  abbrev Found : PeppolAs4Message → Type 0
  Found m =
      (f : PeppolAs4Message)
      → Holds read_time f m
      → All (λ (_, b). Reads env read_time b sbd) m.decrypted_data
      → process_sbdh env show_set ctx f ≡ (ok tt, record m { as4 = f.as4 })

  message_of-Found :
      (id : String) (sealed key b : Bytes) (i : SignedInfo)
      → Found (
          message_of a references id sealed b
            (envelope_of env s local_party remote_party a (filled s references) key i))
  unfolding message_of envelope_of user_message messaging_of get_messaging
  message_of-Found id sealed key b i f h reads =
      routed env s local_party remote_party a (filled s references) show_set ctx read_time f
        (read_envelope read_time
          (envelope_of env s local_party remote_party a (filled s references) key i))
        sbd b v h.envelope refl stated
        (first_payload-one f.as4 id sealed b h.attachments h.decrypted) reads.0

-- `process_sbdh` ends without raising and fills the fields of the received message as those of the
-- built one, when the receiver holds the built envelope, attachments and data, as they are read, and
-- reads the data as the document written.
pub build_message-process_sbdh :
    (env : Environment) (s : Supplies) (local_party : As4InternalParty)
    (remote_party : As4ExternalParty) (payload : Bytes) (a : BuilderArgs)
    (references after : As4References) (m f : PeppolAs4Message) (show_set : List String → String)
    (ctx : As4ParseContext) (read_time : DateTime → DateTime) (sbd : StandardBusinessDocument)
    → build_message env s local_party remote_party payload a references ≡ ok (m, after)
    → get_standard_business_document s a ≡ ok sbd
    → Serviced local_party remote_party a ctx
    → All (λ (_, b). Reads env read_time b sbd) m.decrypted_data
    → Holds read_time f m
    → process_sbdh env show_set ctx f ≡ (ok tt, record m { as4 = f.as4 })
build_message-process_sbdh env s local_party remote_party payload a references after m f show_set
      ctx read_time sbd h stated v reads holds =
    let b = build_message-Built env s local_party remote_party payload a references m after h in
    subst (Found env s local_party remote_party a references show_set ctx read_time sbd stated v)
      (sym b.made)
      (message_of-Found env s local_party remote_party a references show_set ctx read_time sbd
        stated v _ _ _ _ _)
      f holds reads
