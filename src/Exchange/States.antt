-- ===== src/Exchange/States.antt =====
-- The life of a sending exchange: what the steps that the library takes can lead to.
use as_lib.Base.{◌≡◌, ◌≢◌, refl, arith, Option, List, none, some}
use as_lib.Platform.{Bytes, DateTime}
use as_lib.Outcome.{Result, ok}
use as_lib.Environment.{Environment}
use as_lib.Parties.{As4InternalParty, As4ExternalParty}
use as_lib.References.{As4References}
use as_lib.Message.{As4Message}
use as_lib.Dsig.{ComparableReferenceFields}
use as_lib.Receipt.{As4Receipt, error, verify_non_repudiation}
use as_lib.Exchange.{acknowledged, new_exchange}
use as_lib.Exchange.Sending.{
  As4SendingExchange, mark_sent, record_built, default_message_ids_from_identifiers, receive_signal,
}
use as_lib.Exchange.Outcomes.{
  SignalStep, unauthentic, misdirected, ambiguous, reported, proven, unproven, Correlated,
  receive_signal-SignalStep,
}

module _ (env : Environment) where
  -- The steps that the methods of an exchange take, whether they return or raise.
  pub data Step (s : As4SendingExchange) : As4SendingExchange → Type 0 where
    build : (m : As4Message) → Step s (record_built m s)
    send : Step s (mark_sent s)
    receive : (signal : Bytes) → Step s (receive_signal env signal s).1

  -- The exchanges that a program can hold.
  pub data Reachable : As4SendingExchange → Type 0 where
    start :
        (local_party : As4InternalParty) (remote_party : As4ExternalParty)
        (identifiers : As4References) (now : DateTime)
        (required_references : Option (List ComparableReferenceFields))
        → Reachable (
            default_message_ids_from_identifiers (record {
              exchange = new_exchange local_party identifiers now required_references;
              remote_party = remote_party;
            }))
    after : (s t : As4SendingExchange) → Reachable s → Step s t → Reachable t

  -- An acknowledged exchange holds its proof.
  pub data Proven (s : As4SendingExchange) : Type 0 where
    unclaimed : s.state ≢ acknowledged → Proven s
    holds :
        (r : As4Receipt) (signal : Bytes)
        → s.receipt ≡ some r
        → Correlated env signal s r
        → error r ≡ ok none
        → verify_non_repudiation r s.signed_references s.required_references ≡ ok tt
        → Proven s

  signal-Proven :
      (signal : Bytes) (s : As4SendingExchange) (out : Result (Unit {0}) × As4SendingExchange)
      → SignalStep env signal s out
      → Proven s
      → Proven out.1
  signal-Proven signal s _ (unauthentic e p) v = v
  signal-Proven signal s _ (misdirected r p n) v = v
  signal-Proven signal s _ (ambiguous r e c d) v = v
  signal-Proven signal s _ (reported r e c d) v = unclaimed (λ x. ground arith)
  signal-Proven signal s _ (proven r c n p) v =
      holds r signal refl (record { authentic = c.authentic; names = c.names }) n p
  signal-Proven signal s _ (unproven r f c n p) v = unclaimed (λ x. ground arith)

  step-Proven : (s t : As4SendingExchange) → Step s t → Proven s → Proven t
  unfolding record_built mark_sent
  step-Proven s _ (build m) v = unclaimed (λ x. ground arith)
  step-Proven s _ send v = unclaimed (λ x. ground arith)
  step-Proven s _ (receive signal) v =
      signal-Proven signal s _ (receive_signal-SignalStep env signal s) v

  -- A sending exchange that can be reached from a new one by building, marking as sent and
  -- receiving signals, and that is in the state ACKNOWLEDGED, holds the receipt that proves it: a
  -- signal signed by the remote party that names the message, reports no error, and passes the
  -- comparison with the references that the exchange signed and requires.
  pub Reachable-Proven : (s : As4SendingExchange) → Reachable s → Proven s
  unfolding new_exchange default_message_ids_from_identifiers
  Reachable-Proven _ (start l r i n q) = unclaimed (λ x. ground arith)
  Reachable-Proven _ (after s t p q) = step-Proven s t q (Reachable-Proven s p)
