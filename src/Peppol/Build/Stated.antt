-- ===== src/Peppol/Build/Stated.antt =====
-- What a built message states, against the checks of `process_sbdh` of
-- as4/profiles/peppol/message.py: the parties, the participants and the scopes.
use as_lib.Base.{◌≡◌, refl, ap, sym, String, some, List, ==_refl, string_eq, option_eq}
use as_lib.Platform.{DateTime}
use as_lib.Serialise.Reading.{read_user_message}
use as_lib.Outcome.{ok, bind-eq-ok, ok-injective}
use as_lib.Environment.{Environment}
use as_lib.Models.Sbdh.{Identifier, Scope, StandardBusinessDocument}
use as_lib.Models.Soap.{Envelope}
use as_lib.Models.UserMessage.{Property, UserMessage}
use as_lib.Documents.{final_recipient, get_property, original_sender, user_message}
use as_lib.Parties.{As4ExternalParty, As4InternalParty, As4ParseContext, to_party_from, to_party_to}
use as_lib.References.{As4References}
use as_lib.Peppol.{
  PeppolAs4Message, check_party, declared_recipient, declared_sender, has_scope, missing_scopes,
  none_missing, peppol_party_identifier_type, scope_fields, scope_of, user_message_of,
  verify_participant, verify_participants_agree, verify_party_identifiers,
}
use as_lib.Peppol.Process.{check_scopes}
use as_lib.Peppol.DocumentIdentifier.{identifier_value, root_element_name}
use as_lib.Peppol.Build.{
  BuilderArgs, Supplies, actor_id, business_scopes, get_standard_business_document,
  get_user_message, actor_property,
}

-- The scopes that the sender writes are the ones that the receiver looks for.
pub check_scopes-business_scopes :
    (env : Environment) (show_set : List String → String) (ctx : As4ParseContext) (a : BuilderArgs)
    (f : PeppolAs4Message)
    → (found : Scope × Scope) × (check_scopes env show_set ctx (business_scopes a) ≡ ok found)
      × (scope_fields found.0 found.1 f ≡ record f {
        document_type_identifier_value = some (identifier_value a.document_type_identifier);
        document_type_identifier_scheme = some a.document_type_identifier.scheme;
        process_identifier = some a.process_identifier;
      })
unfolding check_scopes missing_scopes has_scope none_missing scope_of scope_fields business_scopes
    string_eq
check_scopes-business_scopes env show_set ctx a f = (_, refl, refl)

-- The header of the document that the sender writes.
pub header_fields :
    (s : Supplies) (a : BuilderArgs) (sbd : StandardBusinessDocument)
    → get_standard_business_document s a ≡ ok sbd
    → let header = sbd.standard_business_document_header in
      (header.sender.identifier ≡ record { authority = some actor_id; value = a.sender })
      × (header.receiver.identifier ≡ record { authority = some actor_id; value = a.recipient })
      × (header.business_scope.scopes ≡ business_scopes a)
unfolding get_standard_business_document
header_fields s a sbd h =
    let (name, e, h1) = bind-eq-ok (root_element_name a.document_type_identifier) _ h in
    let same = ok-injective h1 in
    (
      sym (ap (λ d. d.standard_business_document_header.sender.identifier) same),
      sym (ap (λ d. d.standard_business_document_header.receiver.identifier) same),
      sym (ap (λ d. d.standard_business_document_header.business_scope.scopes) same),
    )

verify_participant-same :
    (name : String) (p : Property) (i : Identifier)
    → p.value ≡ i.value
    → p.property_type ≡ i.authority
    → verify_participant name (some p) i ≡ ok tt
unfolding verify_participant
verify_participant-same name p i v t = rw (v, t, ==_refl i.value, ==_refl i.authority) refl

module _ (s : Supplies) (local_party : As4InternalParty) (remote_party : As4ExternalParty)
    (a : BuilderArgs) (references : As4References) where
  abbrev um : UserMessage
  um = get_user_message s local_party remote_party a references

  sender_property :
      declared_sender um.message_properties ≡ some (actor_property "originalSender" a.sender)
  unfolding declared_sender get_user_message original_sender get_property string_eq
  sender_property = refl

  recipient_property :
      declared_recipient um.message_properties ≡ some (actor_property "finalRecipient" a.recipient)
  unfolding declared_recipient get_user_message final_recipient get_property string_eq
  recipient_property = refl

  pub participants_declared :
      (sender recipient : Identifier)
      → sender ≡ record { authority = some actor_id; value = a.sender }
      → recipient ≡ record { authority = some actor_id; value = a.recipient }
      → verify_participants_agree um.message_properties sender recipient ≡ ok tt
  unfolding verify_participants_agree
  participants_declared sender recipient e1 e2 =
      rw
        (
          e1,
          e2,
          verify_participants_agree,
          sender_property,
          recipient_property,
          verify_participant-same "originalSender" (actor_property "originalSender" a.sender)
              (record { authority = some actor_id; value = a.sender }) refl refl,
          verify_participant-same "finalRecipient" (actor_property "finalRecipient" a.recipient)
              (record { authority = some actor_id; value = a.recipient }) refl refl,
        )
        refl

  pub parties_identified :
      (read_time : DateTime → DateTime) (envelope : Envelope)
      → user_message envelope.header.messaging ≡ ok (some (read_user_message read_time um))
      → local_party.identity.party_type ≡ some peppol_party_identifier_type
      → remote_party.identity.party_type ≡ some peppol_party_identifier_type
      → verify_party_identifiers (some envelope) ≡ ok tt
  unfolding verify_party_identifiers user_message_of check_party get_user_message to_party_from
      to_party_to
  parties_identified read_time envelope e l r =
      rw
        (
          verify_party_identifiers,
          user_message_of,
          e,
          check_party,
          l,
          r,
          ==_refl (some peppol_party_identifier_type),
        )
        refl
