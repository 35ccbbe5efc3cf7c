-- ===== src/Peppol/Profile/Carried.antt =====
-- What a caller of `build_peppol_message` of as4/profiles/peppol/profile.py names is what the receiver
-- finds in the message.
use as_lib.Base.{
  ◌≡◌, refl, ap, sym, ◌∙◌, String, Option, some, List, All, ◌==◌, ==→eq, string_eq, Bool-cases, inl,
  inr,
}
use as_lib.Base.Dict.{Dict}
use as_lib.Base.Regex.{first_line}
use as_lib.Platform.{Bytes, Certificate, DateTime}
use as_lib.Outcome.{Result, ok, bind-eq-ok, ok-injective}
use as_lib.Environment.{Environment}
use as_lib.Models.Sbdh.{StandardBusinessDocument}
use as_lib.Parties.{As4ParseContext, As4PrivateKey}
use as_lib.References.{As4References}
use as_lib.Receipt.Signals.{given_or_new}
use as_lib.Peppol.{PeppolAs4Message, accept_recipient}
use as_lib.Peppol.Process.{process_sbdh}
use as_lib.Peppol.DocumentIdentifier.{BusdoxDocidQnsDocumentIdentifier, identifier_value}
use as_lib.Peppol.DocumentIdentifier.Splitting.{from_identifier_value-Recognised}
use as_lib.Peppol.Build.{Supplies, get_standard_business_document}
use as_lib.Peppol.Build.Envelope.{message_of}
use as_lib.Peppol.Build.Parts.{build_message-Built}
use as_lib.Peppol.Build.Routed.{Holds, Reads, build_message-process_sbdh}
use as_lib.Peppol.Profile.{
  Business, build_message, build_peppol_message, builder_args, create_peppol_external_party,
  create_peppol_internal_party, document_type_identifier_of,
}

-- The identifier that the caller's text stands for, which is one of the scheme that it names.
document_type_identifier_of-ok :
    (b : Business) (i : BusdoxDocidQnsDocumentIdentifier)
    → document_type_identifier_of b ≡ ok i
    → (b.document_type_identifier_scheme ≡ i.scheme)
      × (first_line b.document_type_identifier_value ≡ identifier_value i)
unfolding document_type_identifier_of
document_type_identifier_of-ok b i h =
    elim (Bool-cases (b.document_type_identifier_scheme == "busdox-docid-qns")) [
      | inl y ↦
          let r =
            from_identifier_value-Recognised b.document_type_identifier_value i
              (rw (document_type_identifier_of, y) at h) in
          (==→eq b.document_type_identifier_scheme "busdox-docid-qns" y ∙ sym r.scheme, r.written)
      | inr n ↦ (let no = rw (document_type_identifier_of, n) at h in cc)
    ]

-- The fields that `process_sbdh` writes.
abbrev carried :
    PeppolAs4Message
    → Business
    → Option String
    → Option String
    → Result (Unit {0}) × PeppolAs4Message
carried f b scheme value = (
  ok tt,
  record f {
    sender = some b.sender;
    recipient = some b.recipient;
    document_type_identifier_value = value;
    document_type_identifier_scheme = scheme;
    process_identifier = some b.process_identifier;
  },
)

-- What the caller of `build_peppol_message` names between two Peppol parties is what
-- `process_sbdh` finds: it ends without raising and writes the named sender, recipient, scheme
-- and value of the document type, and process identifier into the message. The conditions: the
-- value of the document type is one line; the receiver's acceptor takes the recipient; the
-- message that the receiver holds has the attachments and the decrypted data of the one that was
-- built, and its envelope as it is read; and lxml and pydantic read these data as the document
-- that was written, its time as it was written, and the schema accepts its header.
pub build_peppol_message-process_sbdh :
    (env : Environment) (s : Supplies) (namespaces : Dict String) (instance_identifier : String)
    (payload : Bytes) (sender_id receiver_id : String) (certificate other : Certificate)
    (key : As4PrivateKey) (b : Business) (references : Option As4References)
    (m f : PeppolAs4Message) (after : As4References) (show_set : List String → String)
    (ctx : As4ParseContext) (read_time : DateTime → DateTime) (i : BusdoxDocidQnsDocumentIdentifier)
    (sbd : StandardBusinessDocument)
    → build_peppol_message env s namespaces instance_identifier payload
        (create_peppol_internal_party sender_id certificate key)
        (create_peppol_external_party receiver_id other)
        b
        references
      ≡ ok (m, after)
    → first_line b.document_type_identifier_value ≡ b.document_type_identifier_value
    → document_type_identifier_of b ≡ ok i
    → get_standard_business_document s (builder_args namespaces instance_identifier b i) ≡ ok sbd
    → accept_recipient ctx.accept_participant b.recipient ≡ ok tt
    → All (λ (_, d). Reads env read_time d sbd) m.decrypted_data
    → Holds read_time f m
    → process_sbdh env show_set ctx f ≡ (
      ok tt,
      record f {
        sender = some b.sender;
        recipient = some b.recipient;
        document_type_identifier_value = some b.document_type_identifier_value;
        document_type_identifier_scheme = some b.document_type_identifier_scheme;
        process_identifier = some b.process_identifier;
      },
    )
unfolding build_peppol_message build_message builder_args message_of create_peppol_internal_party
    create_peppol_external_party
build_peppol_message-process_sbdh env s namespaces instance_identifier payload sender_id receiver_id
      certificate other key b references m f after show_set ctx read_time i sbd h line named stated
      accepts reads holds =
    let local_party = create_peppol_internal_party sender_id certificate key in
    let remote_party = create_peppol_external_party receiver_id other in
    let a = builder_args namespaces instance_identifier b i in
    let r = given_or_new s.moment references in
    let (j, e, h1) = bind-eq-ok (document_type_identifier_of b) _ h in
    let (scheme, value) = document_type_identifier_of-ok b i named in
    let same : j ≡ i = ok-injective (sym e ∙ named) in
    let made : build_message env s payload local_party remote_party a references ≡ ok (m, after) =
      ap
        (λ k.
          build_message env s payload local_party remote_party
            (builder_args namespaces instance_identifier b k) references)
        (sym same)
      ∙ h1 in
    let parts = build_message-Built env s local_party remote_party payload a r m after made in
    build_message-process_sbdh env s local_party remote_party payload a r after m f show_set ctx
      read_time sbd made stated
      (record { sender_type = refl; receiver_type = refl; accepts = accepts }) reads holds
    ∙ ap (λ (n : PeppolAs4Message). (ok tt, record n { as4 = f.as4 })) parts.made
    ∙ ap (carried f b (some i.scheme)) (ap some (sym value ∙ line))
    ∙ ap (λ x. carried f b x (some b.document_type_identifier_value)) (ap some (sym scheme))
