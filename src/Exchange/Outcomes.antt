-- ===== src/Exchange/Outcomes.antt =====
-- What `AS4SendingExchange.receive_signal` does on every branch.
use as_lib.Base.{inl, inr, ◌≡◌, refl, true, false, Option, none, some, Bool-cases}
use as_lib.Outcome
use as_lib.Outcome.{Raised, Result, ok, err, ensure, bind, ReceiptFault, receipt_verification}
use as_lib.Platform.{Bytes}
use as_lib.Environment.{Environment}
use as_lib.Models.SignalMessage.{Error}
use as_lib.Receipt.{As4Receipt, error, verify_non_repudiation}
use as_lib.Receipt.NonRepudiation.{Faulty, verify_non_repudiation-Faulty}
use as_lib.Receipt.Verification
use as_lib.Exchange.{ExchangeState, acknowledged, rejected, failed}
use as_lib.Exchange.Sending.{
  As4SendingExchange, expected_signer, judge, proof_state, raise_unproven, names_message,
  take_receipt, receive_signal,
}

-- The exchange with the receipt and the state recorded.
abbrev pub recorded : As4SendingExchange → As4Receipt → ExchangeState → As4SendingExchange
recorded s r state = record s { exchange = record s.exchange { receipt = some r; state = state } }

-- A signal that is signed by the party the message went to, and names that message.
pub record Correlated (env : Environment) (signal : Bytes) (s : As4SendingExchange) (r : As4Receipt)
    : Type 0 where
  pub authentic : Verification.parse env signal (expected_signer s) ≡ ok r
  pub names : names_message r s.message_id ≡ true

-- The outcomes of `receive_signal`, with what is raised and the exchange afterwards.
pub data SignalStep (env : Environment) (signal : Bytes) (s : As4SendingExchange)
    : Result (Unit {0}) × As4SendingExchange → Type 0 where
  unauthentic :
      (e : Raised)
      → Verification.parse env signal (expected_signer s) ≡ err e
      → SignalStep env signal s (err e, s)
  misdirected :
      (r : As4Receipt)
      → Verification.parse env signal (expected_signer s) ≡ ok r
      → names_message r s.message_id ≡ false
      → SignalStep env signal s (
        err (receipt_verification (Outcome.refers_to_other r.original_message_id s.message_id)),
        s,
      )
  ambiguous :
      (r : As4Receipt) (e : Raised)
      → Correlated env signal s r
      → error r ≡ err e
      → SignalStep env signal s (err e, s)
  reported :
      (r : As4Receipt) (e : Error)
      → Correlated env signal s r
      → error r ≡ ok (some e)
      → SignalStep env signal s (ok tt, recorded s r rejected)
  proven :
      (r : As4Receipt)
      → Correlated env signal s r
      → error r ≡ ok none
      → verify_non_repudiation r s.signed_references s.required_references ≡ ok tt
      → SignalStep env signal s (ok tt, recorded s r acknowledged)
  unproven :
      (r : As4Receipt) (fault : ReceiptFault)
      → Correlated env signal s r
      → error r ≡ ok none
      → verify_non_repudiation r s.signed_references s.required_references
        ≡ err (receipt_verification fault)
      → SignalStep env signal s (err (receipt_verification fault), recorded s r failed)

module _ (env : Environment) (signal : Bytes) (s : As4SendingExchange) (r : As4Receipt)
    (c : Correlated env signal s r) where
  of_verification :
      error r ≡ ok none
      → Faulty (verify_non_repudiation r s.signed_references s.required_references)
      → SignalStep env signal s (take_receipt r s)
  unfolding take_receipt judge raise_unproven proof_state
  of_verification n (inl v) = rw c.names (rw n (rw v (proven r c n v)))
  of_verification n (inr (fault, v)) = rw c.names (rw n (rw v (unproven r fault c n v)))

  of_error : (m : Result (Option Error)) → error r ≡ m → SignalStep env signal s (take_receipt r s)
  unfolding take_receipt judge raise_unproven
  of_error (err e) n = rw c.names (rw n (ambiguous r e c n))
  of_error (ok (some e)) n = rw c.names (rw n (reported r e c n))
  of_error (ok none) n =
      of_verification n
        (verify_non_repudiation-Faulty r s.signed_references s.required_references none n)

module _ (env : Environment) (signal : Bytes) (s : As4SendingExchange) where
  of_receipt :
      (r : As4Receipt)
      → Verification.parse env signal (expected_signer s) ≡ ok r
      → SignalStep env signal s (take_receipt r s)
  unfolding take_receipt
  of_receipt r p = elim (Bool-cases (names_message r s.message_id)) [
    | inl y ↦ of_error env signal s r (record { authentic = p; names = y }) _ refl
    | inr n ↦ rw n (misdirected r p n)
  ]

  of_parse :
      (m : Result As4Receipt)
      → Verification.parse env signal (expected_signer s) ≡ m
      → SignalStep env signal s (receive_signal env signal s)
  unfolding receive_signal
  of_parse (err e) p = rw p (unauthentic e p)
  of_parse (ok r) p = rw p (of_receipt r p)

  -- What `receive_signal` raises and what it leaves in the exchange, on every branch: where the
  -- signal is not authentic, names another message or bundles messages, so that its error cannot
  -- be read, the exchange is as before; an error signal is recorded with REJECTED; a receipt that
  -- proves delivery with ACKNOWLEDGED; one that does not with FAILED, and its fault is raised
  -- after that.
  pub receive_signal-SignalStep : SignalStep env signal s (receive_signal env signal s)
  receive_signal-SignalStep = of_parse _ refl
