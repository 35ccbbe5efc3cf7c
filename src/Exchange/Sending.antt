-- ===== src/Exchange/Sending.antt =====
-- `AS4SendingExchange` of as4/core/exchange.py.
use as_lib.Base.{
  String, Bool, true, false, Option, none, some, string_eq, option_eq, ◌==◌, if◌then◌else◌,
}
use as_lib.Base.Text.{nonempty}
use as_lib.Platform.{Bytes, Certificate}
use as_lib.Outcome.{
  Raised, Result, ok, err, require, ensure, receiptable, unsupported_digest_algorithm,
  unsupported_transform, unsupported_signature_algorithm, unsupported_security_token_type,
  invalid_signature, receipt_verification, xml_syntax, validation, value_error, bind, ReceiptFault,
  untrusted_signer,
}
use as_lib.Environment.{Environment}
use as_lib.Message.{As4Message, signed_references}
use as_lib.Outcome
use as_lib.Outcome.Exec.{Exec, lift, modify, ◌>>=◌, ◌>>◌}
use as_lib.Parties.{As4ExternalParty}
use as_lib.Receipt.{As4Receipt, error, verify_non_repudiation}
use as_lib.Receipt.Verification
use as_lib.Exchange.{
  exchange_conversation_id, ExchangeState, built, sent, acknowledged, rejected, failed, As4Exchange,
}

pub record As4SendingExchange : Type 0 where
  pub exchange : As4Exchange
  pub open exchange use *
  pub remote_party : As4ExternalParty

-- `default_message_ids_from_identifiers`, which runs when an exchange is constructed.
unfoldable pub default_message_ids_from_identifiers : As4SendingExchange → As4SendingExchange
unfolding nonempty
default_message_ids_from_identifiers s = record s {
  exchange = record s.exchange {
    message_id = if nonempty s.message_id then s.message_id else s.identifiers.message_id;
    messaging_id = if nonempty s.messaging_id then s.messaging_id else s.identifiers.messaging_id;
  };
}

unfoldable pub sending_conversation_id : As4SendingExchange → Result (Option String)
unfolding exchange_conversation_id
sending_conversation_id s = elim s.message [
  | some m ↦ exchange_conversation_id s.exchange
  | none ↦ ok (some s.identifiers.conversation_id)
]

unfoldable pub sending_successful : As4SendingExchange → Bool
sending_successful s = elim s.state [ acknowledged ↦ true | _ ↦ false ]

abbrev pub expected_signer : As4SendingExchange → Certificate
expected_signer s = s.remote_party.credentials.certificate

-- `mark_sent`
unfoldable pub mark_sent : As4SendingExchange → As4SendingExchange
mark_sent s = record s { exchange = record s.exchange { state = sent } }

-- The last part of `build`: what the message that the profile has built leaves in the exchange.
unfoldable pub record_built : As4Message → As4SendingExchange → As4SendingExchange
unfolding signed_references
record_built m s = record s {
  exchange = record s.exchange {
    message = some m;
    message_id = m.message_id;
    messaging_id = m.messaging_id;
    signed_references = signed_references m;
    state = built;
  };
}

-- The `try` of `receive_signal`: the state, and the fault that is raised once it is recorded.
unfoldable pub proof_state : Result (Unit {0}) → Result (ExchangeState × Option ReceiptFault)
proof_state (ok _) = ok (acknowledged, none)
proof_state (err (receipt_verification fault)) = ok (failed, some fault)
proof_state (err e) = err e

-- What a signal that has been verified and correlated says.
unfoldable pub judge :
    As4SendingExchange → As4Receipt → Result (ExchangeState × Option ReceiptFault)
unfolding error verify_non_repudiation proof_state
judge s r = bind (error r) λ found. elim found [
  | some _ ↦ ok (rejected, none)
  | none ↦ proof_state (verify_non_repudiation r s.signed_references s.required_references)
]

unfoldable pub raise_unproven : Option ReceiptFault → Result (Unit {0})
raise_unproven none = ok tt
raise_unproven (some fault) = err (receipt_verification fault)

-- `receipt.original_message_id != self.message_id`
unfoldable pub names_message : As4Receipt → String → Bool
names_message r message_id = r.original_message_id == some message_id

-- The rest of `receive_signal`, from the parsed receipt.
unfoldable pub take_receipt : As4Receipt → Exec As4SendingExchange (Unit {0})
unfolding names_message judge raise_unproven
take_receipt r s =
    let steps : Exec As4SendingExchange (Unit {0}) = do
      lift (
          ensure (names_message r s.message_id)
            (receipt_verification (Outcome.refers_to_other r.original_message_id s.message_id)))
      verdict ← lift (judge s r)
      modify
          (λ t. record t { exchange = record t.exchange { receipt = some r; state = verdict.0 } })
      lift (raise_unproven verdict.1)
    in steps s

unfoldable pub receive_signal : Environment → Bytes → Exec As4SendingExchange (Unit {0})
unfolding take_receipt Verification.parse
receive_signal env signal_data s =
    let steps : Exec As4SendingExchange (Unit {0}) = do
      r ← lift (Verification.parse env signal_data (expected_signer s))
      take_receipt r
    in steps s
