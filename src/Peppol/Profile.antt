-- ===== src/Peppol/Profile.antt =====
-- `PeppolAS4Profile` and the functions of as4/profiles/peppol/profile.py that callers use.
pub mod Carried
pub mod Exchanged
pub mod Completed
use as_lib.Base.{ℕ, String, ◌<>◌, Option, none, some, List, [], ◌∷◌, string_eq, ◌==◌, if◌then◌else◌}
use as_lib.Base.Dict.{Dict}
use as_lib.Platform.{Bytes, Certificate, DateTime, X509}
use as_lib.Outcome.{Result, ok, err, ◌>>=◌, value_error}
use as_lib.Environment.{Environment}
use as_lib.Parties.{
  As4ExternalParty, As4InternalParty, As4PrivateKey, ParticipantAcceptor, SecurityPolicy,
  default_security_policy,
}
use as_lib.References.{As4References}
use as_lib.Receipt.{As4Receipt}
use as_lib.Receipt.Signals.{Moment, given_or_new}
use as_lib.Receipt.Verification
use as_lib.Trust.{peppol_security_policy}
use as_lib.Exchange.{new_exchange}
use as_lib.Exchange.Receiving.{As4ReceivingExchange, receive}
use as_lib.Mime.{Part, unpack_message}
use as_lib.Peppol.{PeppolAs4Message, peppol_party_identifier_type}
use as_lib.Peppol.Process.{peppol_message_class}
use as_lib.Peppol.DocumentIdentifier.{BusdoxDocidQnsDocumentIdentifier, from_identifier_value}
use as_lib.Peppol.Build.{BuilderArgs, Supplies}
use as_lib.Peppol.Build.Envelope as Message

unfoldable pub get_profile_name : String
get_profile_name = "peppol"

unfoldable pub create_peppol_internal_party :
    String → Certificate → As4PrivateKey → As4InternalParty
create_peppol_internal_party party_id certificate private_key = record {
  identity = record { party_id = party_id; party_type = some peppol_party_identifier_type };
  credentials = record {
    base_credentials = record { certificate = certificate };
    private_key = private_key;
  };
}

unfoldable pub create_peppol_external_party : String → Certificate → As4ExternalParty
create_peppol_external_party party_id certificate = record {
  identity = record { party_id = party_id; party_type = some peppol_party_identifier_type };
  credentials = record { certificate = certificate };
}

-- The certificates of as4/profiles/peppol/pki.py.
pub record Pki : Type 0 where
  pub root_ca_g3 : Certificate
  pub ap_ca_g3 : Certificate
  pub root_test_ca_g3 : Certificate
  pub ap_test_ca_g3 : Certificate

unfoldable pub peppol_prod_security_policy : X509 → DateTime → Pki → Result SecurityPolicy
unfolding peppol_security_policy
peppol_prod_security_policy x now pki =
    peppol_security_policy x now (pki.root_ca_g3 ∷ []) (pki.ap_ca_g3 ∷ []) none

unfoldable pub peppol_test_security_policy : X509 → DateTime → Pki → Result SecurityPolicy
unfolding peppol_security_policy
peppol_test_security_policy x now pki =
    peppol_security_policy x now (pki.root_test_ca_g3 ∷ []) (pki.ap_test_ca_g3 ∷ []) none

unfoldable pub parse_receipt : Environment → Bytes → Certificate → Result As4Receipt
unfolding Verification.parse
parse_receipt env payload expected_signer = Verification.parse env payload expected_signer

-- `correlate_signal` of as4/core/profiles.py
unfoldable pub correlate_signal : Environment → Bytes → Option String
unfolding Verification.peek_original_message_id
correlate_signal env payload = Verification.peek_original_message_id env payload

unfoldable pub parse_peppol_receipt : Environment → Bytes → Certificate → Result As4Receipt
unfolding parse_receipt
parse_peppol_receipt env response_payload expected_signer =
    parse_receipt env response_payload expected_signer

-- The arguments of `build_peppol_message` that name the business document.
pub record Business : Type 0 where
  pub sender : String
  pub recipient : String
  pub document_type_identifier_scheme : String
  pub document_type_identifier_value : String
  pub process_identifier : String
  pub sender_country_id : String
  pub document_identification_instance_identifier : Option String

unfoldable pub document_type_identifier_of : Business → Result BusdoxDocidQnsDocumentIdentifier
unfolding from_identifier_value
document_type_identifier_of b =
    if b.document_type_identifier_scheme == "busdox-docid-qns"
    then from_identifier_value b.document_type_identifier_value
    else err (
        value_error (
          "NotImplementedError: Unsupported_document_type_identifier_scheme "
          <> b.document_type_identifier_scheme))

-- `namespaces` is `NAMESPACES`, and `instance` the next `uuid4()`.
unfoldable pub builder_args :
    Dict String → String → Business → BusdoxDocidQnsDocumentIdentifier → BuilderArgs
builder_args namespaces instance_identifier b identifier = record {
  namespace_map = namespaces;
  sender = b.sender;
  recipient = b.recipient;
  document_type_identifier = identifier;
  document_identification_instance_identifier = elim b.document_identification_instance_identifier [
    | none ↦ instance_identifier
    | some given ↦ given
  ];
  process_identifier = b.process_identifier;
  c1_country_id = b.sender_country_id;
}

module _ (env : Environment) (s : Supplies) where
  -- `PeppolAS4Profile.build_message`
  unfoldable pub build_message :
      Bytes
      → As4InternalParty
      → As4ExternalParty
      → BuilderArgs
      → Option As4References
      → Result (PeppolAs4Message × As4References)
  unfolding given_or_new Message.build_message
  build_message payload local_party remote_party args references =
      Message.build_message env s local_party remote_party payload args
        (given_or_new s.moment references)

  unfoldable pub build_peppol_message :
      Dict String
      → String
      → Bytes
      → As4InternalParty
      → As4ExternalParty
      → Business
      → Option As4References
      → Result (PeppolAs4Message × As4References)
  unfolding document_type_identifier_of builder_args build_message
  build_peppol_message namespaces instance_identifier payload local_party remote_party b
        references =
      do
        identifier ← document_type_identifier_of b
        build_message payload local_party remote_party
            (builder_args namespaces instance_identifier b identifier) references

module _ (env : Environment) (t : Moment) (show_set : List String → String)
    (parsebytes : Bytes → Part) where
  -- `exchange.receive` on a new exchange: the exchange, or what it raises.
  unfoldable pub parse_peppol_message :
      Dict String
      → Bytes
      → As4InternalParty
      → Option ParticipantAcceptor
      → Option SecurityPolicy
      → Result As4ReceivingExchange
  unfolding receive new_exchange peppol_message_class unpack_message given_or_new
  parse_peppol_message request_headers request_body local_party accept_participant security_policy =
      let opened : As4ReceivingExchange = record {
        exchange = new_exchange local_party (given_or_new t none) t.now none;
        remote_party = none;
      } in
      let (r, x) =
        receive env t (peppol_message_class env show_set) (unpack_message parsebytes)
          request_headers request_body accept_participant
          (some (elim security_policy [ none ↦ default_security_policy | some p ↦ p ])) opened in
      elim r [ err e ↦ err e | ok _ ↦ ok x ]
