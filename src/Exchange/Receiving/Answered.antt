-- ===== src/Exchange/Receiving/Answered.antt =====
-- What `AS4ReceivingExchange.receive_message` leaves in the exchange.
use mathlib.Core.Path.{subst}
use as_lib.Base.{
  ◌≡◌, refl, ap, sym, ◌∙◌, arith, true, false, Bool-cases, inl, inr, ◌⊎◌, Option, none, some,
}
use mathlib.Core.Bool.{false≢true}
use as_lib.Errors
use as_lib.Outcome.{Raised, Result, ok, err, receiptable, remote_party_not_verified}
use as_lib.Errors.{ReceiptableError}
use as_lib.Environment.{Environment}
use as_lib.Parties.{As4ExternalParty}
use as_lib.Message.{As4Message, get_remote_party, signed_references}
use as_lib.Receipt.{As4Receipt, verify_non_repudiation}
use as_lib.Receipt.Build.{for_message}
use as_lib.Receipt.Signals.{Moment}
use as_lib.Receipt.Answers.{for_message-verify_non_repudiation}
use as_lib.Exchange.{ExchangeState, received, rejected}
use as_lib.Exchange.Receiving.{
  As4ReceivingExchange, suppressed, state_of, state_after, is_user_message_not_found,
  receive_message,
}

-- What the block passes over: the signature of the message was not verified, or there is no user
-- message.
abbrev pub Unestablished : Raised → Type 0
Unestablished (remote_party_not_verified s) = Unit {0}
Unestablished (receiptable e) = e.class ≡ Errors.user_message_not_found
Unestablished _ = ⊥

is_class :
    (c : Errors.ErrorClass) → is_user_message_not_found c ≡ true → c ≡ Errors.user_message_not_found
unfolding is_user_message_not_found
is_class Errors.user_message_not_found h = refl
is_class _ h = ground arith

-- The remote party that is recorded.
pub data Established (m : As4Message) (before : Option As4ExternalParty)
    : Option As4ExternalParty → Type 0 where
  known : (p : As4ExternalParty) → get_remote_party m ≡ ok p → Established m before (some p)
  unknown :
      (e : Raised) → get_remote_party m ≡ err e → Unestablished e → Established m before before

-- And the state: RECEIVED without an error, REJECTED with one.
pub data Accepted (m : As4Message) : ExchangeState → Type 0 where
  without_error : m.parse_error ≡ none → Accepted m received
  with_error : (e : ReceiptableError) → m.parse_error ≡ some e → Accepted m rejected

different :
    (c : Errors.ErrorClass)
    → c ≡ Errors.user_message_not_found
    → is_user_message_not_found c ≡ false
    → ⊥
unfolding is_user_message_not_found
different c same n = false≢true (sym n ∙ ap is_user_message_not_found same)

suppressed_cases :
    (m : As4Message) (before : Option As4ExternalParty) (r : Result As4ExternalParty)
    → get_remote_party m ≡ r
    → ((p : Option As4ExternalParty) × (suppressed before r ≡ ok p) × Established m before p)
      ⊎ ((e : Raised) × (r ≡ err e) × (Unestablished e → ⊥) × (suppressed before r ≡ err e))
unfolding suppressed
suppressed_cases m before (ok p) h = inl (some p, refl, known p h)
suppressed_cases m before (err (remote_party_not_verified s)) h = inl (before, refl, unknown _ h tt)
suppressed_cases m before (err (receiptable e)) h =
    elim (Bool-cases (is_user_message_not_found e.class)) [
      | inl y ↦ inl (before, rw y refl, unknown _ h (is_class e.class y))
      | inr n ↦ inr (receiptable e, refl, (λ c. different e.class c n), rw n refl)
    ]
suppressed_cases m before (err e) h = inr (e, refl, (λ u. u), refl)

state_of-Accepted :
    (m : As4Message) (o : Option ReceiptableError) → m.parse_error ≡ o → Accepted m (state_of o)
unfolding state_of
state_of-Accepted m none e = without_error e
state_of-Accepted m (some x) e = with_error x e

state_after-Accepted : (m : As4Message) → Accepted m (state_after m)
unfolding state_after
state_after-Accepted m = state_of-Accepted m m.parse_error refl

module _ (env : Environment) (t : Moment) (m : As4Message) (x : As4ReceivingExchange) where
  -- The ways in which the method ends.
  pub data Answered : Result (Unit {0}) × As4ReceivingExchange → Type 0 where
    unread : (e : Raised) → get_remote_party m ≡ err e → (Unestablished e → ⊥) → Answered (err e, x)
    unanswerable :
        (e : Raised)
        → for_message env t x.local_party m (some x.identifiers) ≡ err e
        → Answered (err e, x)
    answered :
        (remote : Option As4ExternalParty) (state : ExchangeState) (r : As4Receipt)
        → Established m x.remote_party remote
        → Accepted m state
        → for_message env t x.local_party m (some x.identifiers) ≡ ok r
        → Answered (
          ok tt,
          record x {
            exchange = record x.exchange {
              message = some m;
              message_id = m.message_id;
              messaging_id = m.messaging_id;
              signed_references = signed_references m;
              receipt = some r;
              state = state;
            };
            remote_party = remote;
          },
        )

  with_party :
      (p : Option As4ExternalParty) (a : Result As4Receipt)
      → suppressed x.remote_party (get_remote_party m) ≡ ok p
      → Established m x.remote_party p
      → for_message env t x.local_party m (some x.identifiers) ≡ a
      → Answered (receive_message env t m x)
  unfolding receive_message
  with_party p (err e) h k q = rw (h, q) (unanswerable e q)
  with_party p (ok r) h k q = rw (h, q) (answered p (state_after m) r k (state_after-Accepted m) q)

  -- `receive_message` raises only where the remote party could not be read, for a reason other
  -- than that it is not verified or that there is no user message, or where the answer could not
  -- be built, and then the exchange is as it was. Otherwise it records, all at once, the message,
  -- its id and signed references, the answer built for it, the remote party, which is kept as
  -- before exactly where it is not verified or there is no user message, and the state: RECEIVED
  -- for a message without an error, REJECTED for one with an error.
  pub receive_message-Answered : Answered (receive_message env t m x)
  unfolding receive_message
  receive_message-Answered = elim (suppressed_cases m x.remote_party (get_remote_party m) refl) [
    | inl (p, h, k) ↦ with_party p _ h k refl
    | inr (e, g, n, h) ↦ rw h (unread e g n)
  ]

  received_state : (s : ExchangeState) → Accepted m s → s ≡ received → m.parse_error ≡ none
  received_state _ (without_error e) h = e
  received_state _ (with_error x e) h = ground arith

  proof_of_answer :
      (out : Result (Unit {0}) × As4ReceivingExchange)
      → Answered out
      → out.0 ≡ ok tt
      → out.1.state ≡ received
      → (r : As4Receipt) × (out.1.receipt ≡ some r)
        × (verify_non_repudiation r out.1.signed_references none ≡ ok tt)
  proof_of_answer _ (unread e g n) h s = ground arith
  proof_of_answer _ (unanswerable e g) h s = ground arith
  proof_of_answer _ (answered p state r k a built) h s = (
    r,
    refl,
    for_message-verify_non_repudiation env t x.local_party m (some x.identifiers) r
        (received_state state a s) built,
  )

  -- When `receive_message` returns and the state is RECEIVED, the receipt in the exchange, which
  -- is sent back, is one that `verify_non_repudiation` accepts for the references that the
  -- exchange records as signed.
  pub receive_message-verify_non_repudiation :
      (y : As4ReceivingExchange)
      → receive_message env t m x ≡ (ok tt, y)
      → y.state ≡ received
      → (r : As4Receipt) × (y.receipt ≡ some r)
        × (verify_non_repudiation r y.signed_references none ≡ ok tt)
  receive_message-verify_non_repudiation y h s =
      subst
        (λ o.
          (r : As4Receipt) × (o.receipt ≡ some r)
          × (verify_non_repudiation r o.signed_references none ≡ ok tt))
        (ap (λ o. o.1) h)
        (proof_of_answer _ receive_message-Answered (ap (λ o. o.0) h) (ap (λ o. o.1.state) h ∙ s))
