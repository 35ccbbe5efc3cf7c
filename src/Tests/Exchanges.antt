-- ===== src/Tests/Exchanges.antt =====
-- Exchanges, receipts and trust.
use as_lib.Base.{◌≡◌, ◌↔◌, ◌≢◌, refl, ◌≤◌, Option, none, some, List, [], ◌∷◌, string_eq, option_eq}
use as_lib.Errors.{error_of, signature_required, family_of}
use as_lib.Errors.Attributes.{error_code, severity}
use as_lib.Platform.{Bytes, DateTime, Certificate, bytes_eq}
use as_lib.Outcome.{Result, ok, err}
use as_lib.Models.SignalMessage.{Error}
use as_lib.Parties.{SecurityPolicy, default_security_policy}
use as_lib.Dsig.{ComparableReferenceFields, from_reference}
use as_lib.Message.{As4Message, blank, signed_references}
use as_lib.Receipt.{
  As4Receipt, acknowledged_by, receipt, error, required_or_sent, verify_non_repudiation,
}
use as_lib.Receipt.Build.{for_message}
use as_lib.Receipt.Signals.{Moment}
use as_lib.Receipt.NonRepudiation.{Among, verify_non_repudiation_iff}
use as_lib.Receipt.Answers.{for_message-verify_non_repudiation, for_message-error}
use as_lib.Exchange.{new_exchange, acknowledged}
use as_lib.Exchange.Sending.{
  As4SendingExchange, default_message_ids_from_identifiers, record_built, mark_sent, receive_signal,
}
use as_lib.Exchange.Outcomes.{SignalStep, receive_signal-SignalStep}
use as_lib.Exchange.States.{build, send, receive, start, after, Proven, Reachable-Proven}
use as_lib.Exchange.Receiving.{As4ReceivingExchange, receive_message}
use as_lib.Exchange.Receiving.Answered.{
  Answered, receive_message-Answered, receive_message-verify_non_repudiation,
}
use as_lib.Trust.{path_to_anchor, peppol_security_policy}
use as_lib.Trust.Chains.{ChainAbove, path_to_anchor-ChainAbove}
use as_lib.Trust.Pins.{PeppolSigner, peppol_security_policy-PeppolSigner}
use as_lib.Tests.Fixtures.{alice, anchor, x509, envelope, user}
use as_lib.Tests.Settings.{
  signal, signal_envelope, environment, local_party, remote_party, identifiers, receipt_m1,
}

abbrev moment : Moment
moment = record { now = 0; isoformat = λ _. ""; uuid = λ _. "u" }

abbrev message : As4Message
message = record blank { soap_envelope = some envelope; message_id = "m1"; messaging_id = "msg" }

abbrev rejected_message : As4Message
rejected_message = record message { parse_error = some (error_of signature_required "") }

abbrev sent_references : List ComparableReferenceFields
sent_references = signed_references message

verify_non_repudiation_iff_example :
    (verify_non_repudiation receipt_m1 sent_references none ≡ ok tt)
    ↔ (signal.receipt ≢ none)
      × (◌≢◌ {A = Option (List ComparableReferenceFields)} none (some []))
      × Among sent_references (acknowledged_by signal.receipt)
      × Among (acknowledged_by signal.receipt) (required_or_sent none sent_references)
unfolding receipt
verify_non_repudiation_iff_example =
    verify_non_repudiation_iff receipt_m1 signal.receipt sent_references none refl

abbrev answer_of : As4Message → As4Receipt
answer_of m = elim (for_message (environment envelope) moment local_party m (some identifiers)) [
  | ok r ↦ r
  | err _ ↦ receipt_m1
]

for_message-verify_non_repudiation_example :
    verify_non_repudiation (answer_of message) (signed_references message) none ≡ ok tt
unfolding for_message string_eq
for_message-verify_non_repudiation_example =
    for_message-verify_non_repudiation (environment envelope) moment local_party message
      (some identifiers) (answer_of message) refl refl

for_message-error_example :
    (x : Error) × (error (answer_of rejected_message) ≡ ok (some x))
    × (x.error_code ≡ error_code signature_required)
    × (x.severity ≡ severity (family_of signature_required))
unfolding for_message error_of string_eq
for_message-error_example =
    for_message-error (environment envelope) moment local_party rejected_message
      (error_of signature_required "") (some identifiers) (answer_of rejected_message) refl refl

abbrev fresh : As4SendingExchange
fresh =
    default_message_ids_from_identifiers (record {
      exchange = new_exchange local_party identifiers 0 none;
      remote_party = remote_party;
    })

abbrev waiting : As4SendingExchange
waiting = mark_sent (record_built message fresh)

receive_signal-SignalStep_example :
    SignalStep
      (environment signal_envelope)
      []
      waiting
      (receive_signal (environment signal_envelope) [] waiting)
receive_signal-SignalStep_example =
    receive_signal-SignalStep (environment signal_envelope) [] waiting

abbrev finished : As4SendingExchange
finished = (receive_signal (environment signal_envelope) [] waiting).1

finished_state : finished.state ≡ acknowledged
unfolding receive_signal string_eq as_lib.Platform.certificate_eq mark_sent record_built
    default_message_ids_from_identifiers native.Mathlib.Decide.ℕ_discrete option_eq new_exchange
    as_lib.Dsig.comparable_eq
finished_state = refl

Reachable-Proven_example : Proven (environment signal_envelope) finished
Reachable-Proven_example = Reachable-Proven (environment signal_envelope) finished (
    after waiting finished
      (after (record_built message fresh) waiting
        (after fresh (record_built message fresh)
          (start local_party remote_party identifiers 0 none) (build message))
        send)
      (receive []))

abbrev receiving : As4ReceivingExchange
receiving = record { exchange = new_exchange local_party identifiers 0 none; remote_party = none }

abbrev answered_exchange : As4ReceivingExchange
answered_exchange = (receive_message (environment envelope) moment message receiving).1

receive_message-Answered_example :
    Answered
      (environment envelope)
      moment
      message
      receiving
      (receive_message (environment envelope) moment message receiving)
receive_message-Answered_example =
    receive_message-Answered (environment envelope) moment message receiving

receive_message-verify_non_repudiation_example :
    (r : As4Receipt) × (answered_exchange.receipt ≡ some r)
    × (verify_non_repudiation r answered_exchange.signed_references none ≡ ok tt)
unfolding receive_message string_eq
receive_message-verify_non_repudiation_example =
    receive_message-verify_non_repudiation (environment envelope) moment message receiving
      answered_exchange refl refl

path_to_anchor-ChainAbove_example :
    (above : List Certificate) × (◌≡◌ {A = List Certificate} (alice ∷ anchor ∷ []) (alice ∷ above))
    × ChainAbove x509 (anchor ∷ []) [] alice above
    × (2 ≤ 3)
unfolding path_to_anchor
path_to_anchor-ChainAbove_example =
    path_to_anchor-ChainAbove x509 alice (anchor ∷ []) [] 3 (alice ∷ anchor ∷ []) refl

abbrev policy : Result SecurityPolicy
policy = peppol_security_policy x509 50 (anchor ∷ []) [] none

abbrev peppol_policy : SecurityPolicy
peppol_policy = elim policy [ ok p ↦ p | err _ ↦ default_security_policy ]

peppol_security_policy-PeppolSigner_example :
    PeppolSigner x509 50 (anchor ∷ []) [] none user.party_info.party_from alice alice
unfolding peppol_security_policy string_eq
peppol_security_policy-PeppolSigner_example =
    peppol_security_policy-PeppolSigner x509 50 (anchor ∷ []) [] none peppol_policy
      user.party_info.party_from alice alice refl refl
