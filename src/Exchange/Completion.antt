-- ===== src/Exchange/Completion.antt =====
-- A message that is sent, accepted and answered: both sides of as4/core/exchange.py together.
use as_lib.Base.{◌≡◌, refl, ap, sym, ◌∙◌, true, Option, none}
use as_lib.Platform.{Bytes, DateTime}
use as_lib.Serialise.Reading.{read_carried}
use as_lib.Serialise.Reading.Kept.{error-read, verify_non_repudiation-read}
use as_lib.Outcome.{ok}
use as_lib.Environment.{Environment}
use as_lib.Parties.{As4InternalParty}
use as_lib.References.{As4References}
use as_lib.Message.{As4Message, signed_references}
use as_lib.Receipt.{As4Receipt, verify_non_repudiation}
use as_lib.Receipt.Verification
use as_lib.Receipt.Signals.{Moment}
use as_lib.Receipt.Build.{for_message}
use as_lib.Receipt.Answers.{
  signal_of-for_message, for_message-verify_non_repudiation, for_message_accepted,
}
use as_lib.Exchange.{acknowledged}
use as_lib.Exchange.Sending.{
  As4SendingExchange, expected_signer, record_built, mark_sent, names_message, take_receipt, judge,
  proof_state, raise_unproven, receive_signal,
}
use as_lib.Exchange.Outcomes.{recorded}

-- When a message without an error, whose signed references are those of the message that the
-- sender built, is answered, and the signal that the sender parses has the envelope of that
-- answer, as it is read, and names the message, then the sender's exchange, built, marked as sent and without a
-- list of required references, becomes ACKNOWLEDGED by `receive_signal`, which does not raise.
pub receive_signal-for_message :
    (env far : Environment) (t : Moment) (read_time : DateTime → DateTime)
    (far_party : As4InternalParty) (s : As4SendingExchange) (m n : As4Message)
    (references : Option As4References) (answer r : As4Receipt) (signal : Bytes)
    → s.required_references ≡ none
    → n.parse_error ≡ none
    → signed_references n ≡ signed_references m
    → for_message far t far_party n references ≡ ok answer
    → r.soap_envelope ≡ read_carried read_time answer.soap_envelope
    → Verification.parse env signal (expected_signer s) ≡ ok r
    → names_message r m.message_id ≡ true
    → receive_signal env signal (mark_sent (record_built m s))
      ≡ (ok tt, recorded (mark_sent (record_built m s)) r acknowledged)
unfolding receive_signal take_receipt judge proof_state raise_unproven mark_sent record_built
receive_signal-for_message env far t read_time far_party s m n references answer r signal free
      accepted same built arrived read named =
    let signal = signal_of-for_message far t far_party n references answer accepted built in
    let e =
      error-read read_time r answer _ arrived signal
      ∙ for_message_accepted far t far_party n references answer accepted built in
    let v =
      ap (λ q. verify_non_repudiation r (signed_references m) q) free
      ∙ verify_non_repudiation-read read_time r answer _ (signed_references m) arrived signal
      ∙ ap (λ sent. verify_non_repudiation answer sent none) (sym same)
      ∙ for_message-verify_non_repudiation far t far_party n references answer accepted built in
    rw (read, named, e, v) refl
