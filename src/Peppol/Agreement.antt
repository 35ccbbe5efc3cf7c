-- ===== src/Peppol/Agreement.antt =====
-- What `PeppolAS4Message.process_sbdh` has checked when it ends.
use as_lib.Base.{
  ◌≡◌, ◌≢◌, refl, ap, sym, ◌∙◌, arith, String, true, ◌&&◌, Option, none, some, List, ◌==◌, ==→eq,
  string_eq, option_eq,
}
use as_lib.Outcome.{
  Result, ok, err, require, bind-eq-ok, ensure-eq-ok, some-injective, require-eq-some,
}
use as_lib.Outcome.Exec.{continue-eq-ok}
use as_lib.Message.{As4Message}
use as_lib.Environment.{Environment}
use as_lib.Parties.{As4ParseContext, ParticipantAcceptor}
use as_lib.Models.UserMessage.{Property, UserMessage, MessageProperties}
use as_lib.Models.Soap.{Envelope}
use as_lib.Models.Sbdh.{Identifier, StandardBusinessDocument, StandardBusinessDocumentHeader}
use as_lib.Peppol.{
  PeppolAs4Message, peppol_party_identifier_type, check_party, user_message_of,
  verify_party_identifiers, verify_participant, declared_sender, declared_recipient,
  verify_participants_agree, refuse_not_serviced, accept_recipient, scope_fields,
}
use as_lib.Peppol.Process.{
  message_properties, check_participants, check_scopes, read_document, process_sbdh,
}

-- Both parties are identified under the Peppol scheme.
pub record PeppolParties (envelope : Option Envelope) : Type 0 where
  pub um : UserMessage
  pub user : user_message_of envelope ≡ ok (some um)
  pub from_peppol :
      (um.party_info.party_from.party_id.type_value == some peppol_party_identifier_type) ≡ true
  pub to_peppol :
      (um.party_info.party_to.party_id.type_value == some peppol_party_identifier_type) ≡ true

verify_party_identifiers-PeppolParties :
    (envelope : Option Envelope)
    → verify_party_identifiers envelope ≡ ok tt
    → PeppolParties envelope
unfolding verify_party_identifiers check_party
verify_party_identifiers-PeppolParties envelope h =
    let (found, e, h1) = bind-eq-ok (user_message_of envelope) _ h in
    let (um, is_um, h2) = bind-eq-ok (require found _) _ h1 in
    let (u, f, h3) = bind-eq-ok (check_party "From" um.party_info.party_from.party_id) _ h2 in
    record {
      um = um;
      user = e ∙ ap ok (require-eq-some _ _ is_um);
      from_peppol = ensure-eq-ok _ _ _ f;
      to_peppol = ensure-eq-ok _ _ _ h3;
    }

-- A property of the message declares the participant that the header names.
abbrev pub Declares : Option Property → Identifier → Type 0
Declares declared i =
    (p : Property) × (declared ≡ some p)
    × (p.value ≡ i.value)
    × ((p.property_type == i.authority) ≡ true)

verify_participant-Declares :
    (name : String) (declared : Option Property) (i : Identifier)
    → verify_participant name declared i ≡ ok tt
    → Declares declared i
unfolding verify_participant
verify_participant-Declares name none i h = ground arith
verify_participant-Declares name (some p) i h =
    let b = ensure-eq-ok (p.value == i.value && p.property_type == i.authority) _ tt h in
    (p, refl, ==→eq p.value i.value (ground arith), ground arith)

participants_agree :
    (ps : Option MessageProperties) (sender recipient : Identifier)
    → verify_participants_agree ps sender recipient ≡ ok tt
    → Declares (declared_sender ps) sender × Declares (declared_recipient ps) recipient
unfolding verify_participants_agree
participants_agree ps sender recipient h =
    let (u, s, h1) =
      bind-eq-ok (verify_participant "originalSender" (declared_sender ps) sender) _ h in
    (
      verify_participant-Declares "originalSender" _ _ s,
      verify_participant-Declares "finalRecipient" _ _ h1,
    )

some_no-none : {A : Type 0} {a : A} → some a ≢ none
some_no-none h = ground arith

refuse_not_serviced-eq-ok : (m : Result (Unit {0})) → refuse_not_serviced m ≡ ok tt → m ≡ ok tt
unfolding refuse_not_serviced
refuse_not_serviced-eq-ok (ok u) h = refl
refuse_not_serviced-eq-ok (err e) h = ground arith

module _ (env : Environment) (show_set : List String → String) (ctx : As4ParseContext) where
  -- What the business document says, and what the message around it and the service agree to.
  pub record Agreed (f g : PeppolAs4Message) : Type 0 where
    pub parties : PeppolParties f.soap_envelope
    pub document : StandardBusinessDocument
    pub read : read_document env show_set ctx f.as4 ≡ ok document
    pub sender : g.sender ≡ some document.standard_business_document_header.sender.identifier.value
    pub recipient :
        g.recipient ≡ some document.standard_business_document_header.receiver.identifier.value
    pub participants :
        ctx.security_policy.verify_participants ≡ true
        → (ps : Option MessageProperties) × (message_properties env show_set ctx f.as4 ≡ ok ps)
          × Declares
              (declared_sender ps)
              document.standard_business_document_header.sender.identifier
          × Declares
              (declared_recipient ps)
              document.standard_business_document_header.receiver.identifier
    pub serviced :
        (accept : ParticipantAcceptor)
        → ctx.accept_participant ≡ some accept
        → accept document.standard_business_document_header.receiver.identifier.value ≡ ok tt
    pub document_type : g.document_type_identifier_value ≢ none
    pub process : g.process_identifier ≢ none

  check_participants-Declares :
      (h : StandardBusinessDocumentHeader) (m : As4Message)
      → check_participants env show_set ctx h m ≡ ok tt
      → ctx.security_policy.verify_participants ≡ true
      → (ps : Option MessageProperties) × (message_properties env show_set ctx m ≡ ok ps)
        × Declares (declared_sender ps) h.sender.identifier
        × Declares (declared_recipient ps) h.receiver.identifier
  unfolding check_participants
  check_participants-Declares h m c y =
      let (ps, e, v) = bind-eq-ok (message_properties env show_set ctx m) _ (rw y at c) in
      let (s, r) = participants_agree ps _ _ v in (ps, e, s, r)

  accepted_by :
      (o : Option ParticipantAcceptor) (accept : ParticipantAcceptor) (recipient : String)
      → accept_recipient o recipient ≡ ok tt
      → o ≡ some accept
      → accept recipient ≡ ok tt
  unfolding accept_recipient
  accepted_by none accept recipient h e = ground arith
  accepted_by (some f) accept recipient h e =
      ap (λ g. g recipient) (sym (some-injective e)) ∙ refuse_not_serviced-eq-ok _ h

  -- When `process_sbdh` ends without raising, then both parties are named under the Peppol
  -- scheme; the payload is a business document whose sender and receiver become those of the
  -- message; where the policy asks for it, they are the originalSender and the finalRecipient
  -- that the message declares, under the same schemes; the acceptor, if there is one, takes the
  -- receiver; and the message has a document type and a process.
  pub process_sbdh-Agreed :
      (f g : PeppolAs4Message) → process_sbdh env show_set ctx f ≡ (ok tt, g) → Agreed f g
  unfolding process_sbdh scope_fields
  process_sbdh-Agreed f g h =
      let (u, p, h1) = continue-eq-ok (verify_party_identifiers f.soap_envelope) _ f h in
      let (document, d, h2) = continue-eq-ok (read_document env show_set ctx f.as4) _ f h1 in
      let header = document.standard_business_document_header in
      let (u2, c, h3) = continue-eq-ok (check_participants env show_set ctx header f.as4) _ _ h2 in
      let (u3, a, h4) =
        continue-eq-ok (accept_recipient ctx.accept_participant header.receiver.identifier.value) _
          _ h3 in
      let (scopes, s, h5) =
        continue-eq-ok (check_scopes env show_set ctx header.business_scope.scopes) _ _ h4 in
      record {
        parties = verify_party_identifiers-PeppolParties f.soap_envelope p;
        document = document;
        read = d;
        sender = ap (λ r. r.1.sender) (sym h5);
        recipient = ap (λ r. r.1.recipient) (sym h5);
        participants = check_participants-Declares header f.as4 c;
        serviced = λ accept e. accepted_by _ accept _ a e;
        document_type = λ n. some_no-none (ap (λ r. r.1.document_type_identifier_value) h5 ∙ n);
        process = λ n. some_no-none (ap (λ r. r.1.process_identifier) h5 ∙ n);
      }
