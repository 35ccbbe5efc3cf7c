-- ===== src/Receipt/Answers.antt =====
-- The answers that `AS4Receipt.for_message` builds, as the sender of the message reads them.
use mathlib.Core.Path.{subst}
use as_lib.Base.{
  ◌≡◌, refl, ap, sym, ◌∙◌, arith, Option, none, some, List, [], ◌∷◌, map, head?, ==_refl, option_eq,
  string_eq,
}
use as_lib.Errors.{ReceiptableError}
use as_lib.Errors
use as_lib.Errors.Attributes
use as_lib.Outcome.{ok, bind, require, bind-eq-ok, ok-injective}
use as_lib.Environment.{Environment}
use as_lib.Models.Reference.{Reference}
use as_lib.Models.SignalMessage.{Error, SignalMessage}
use as_lib.Models.Soap.{Envelope}
use as_lib.Documents.{signal_message}
use as_lib.Dsig.{ComparableReferenceFields, comparable_eq, from_reference}
use as_lib.Parties.{As4InternalParty}
use as_lib.References.{As4References}
use as_lib.Message.{As4Message, signature_references, signed_references}
use as_lib.Receipt.{
  As4Receipt, receipt, error, errors, signal_of, receipt_in, errors_in, acknowledged_by,
  fields_of_parts, verify_non_repudiation,
}
use as_lib.Receipt.Build.{
  error_args, answer_to, create_error_signal, for_message, get_soap_envelope, get_signed_info,
  signal_receipt, create_non_repudiation_receipt, create_error_signal_from_exception,
}
use as_lib.Receipt.Signals.{
  Moment, parts_for, given_or_new, get_success_signal_message, get_error_signal_message,
  get_messaging,
}
use as_lib.Receipt.NonRepudiation.{Among, verify_non_repudiation_iff}

Among-cons :
    (r : ComparableReferenceFields) (wanted rs : List ComparableReferenceFields)
    → Among wanted rs
    → Among (r ∷ wanted) rs
Among-cons r wanted [] a = tt
Among-cons r wanted (s ∷ rs) (c, a) = (ground arith, Among-cons r wanted rs a)

Among-self : (rs : List ComparableReferenceFields) → Among rs rs
Among-self [] = tt
Among-self (r ∷ rs) = (ground (arith, ==_refl r), Among-cons r rs rs (Among-self rs))

fields_of_parts-parts_for :
    (rs : List Reference) → fields_of_parts (parts_for rs) ≡ map from_reference rs
unfolding fields_of_parts parts_for
fields_of_parts-parts_for [] = refl
fields_of_parts-parts_for (r ∷ rs) = ap (λ fs. from_reference r ∷ fs) (fields_of_parts-parts_for rs)

module _ (env : Environment) (t : Moment) (local_party : As4InternalParty) where
  envelope-messaging :
      (references : As4References) (signal : SignalMessage) (envelope : Envelope)
      → get_soap_envelope env t local_party references signal ≡ ok envelope
      → envelope.header.messaging ≡ get_messaging references signal
  unfolding get_soap_envelope
  envelope-messaging references signal envelope h =
      let (i, e, h1) =
        bind-eq-ok
          (get_signed_info env t local_party references (get_messaging references signal)
            (record { body_id = some references.body_id }))
          _ h in
      ap (λ v. v.header.messaging) (sym (ok-injective h1))

  -- The signal that was put into an answer is the one that is read from it.
  signal_of-signal_receipt :
      (references : As4References) (signal : SignalMessage) (answer : As4Receipt)
      → signal_receipt env t local_party references signal ≡ ok answer
      → signal_of answer ≡ ok (some signal)
  unfolding signal_receipt signal_of signal_message get_messaging
  signal_of-signal_receipt references signal answer h =
      let (envelope, e, h1) =
        bind-eq-ok (get_soap_envelope env t local_party references signal) _ h in
      subst (λ a. signal_of a ≡ ok (some signal)) (ok-injective h1)
        (ap (λ m. signal_message m) (envelope-messaging references signal envelope e) ∙ refl)

  accepted_signal :
      (m : As4Message) (references : Option As4References) (answer : As4Receipt)
      → answer_to env t local_party m references none ≡ ok answer
      → signal_of answer
        ≡ ok (
            some (
              get_success_signal_message t m.message_id
                (signature_references m)
                (given_or_new t references)))
  unfolding answer_to create_non_repudiation_receipt
  accepted_signal m references answer h =
      signal_of-signal_receipt (given_or_new t references) _ answer h

  -- The signal in the receipt for an accepted message.
  pub signal_of-for_message :
      (m : As4Message) (references : Option As4References) (answer : As4Receipt)
      → m.parse_error ≡ none
      → for_message env t local_party m references ≡ ok answer
      → signal_of answer
        ≡ ok (
            some (
              get_success_signal_message t m.message_id
                (signature_references m)
                (given_or_new t references)))
  unfolding for_message
  signal_of-for_message m references answer accepted h =
      accepted_signal m references answer
        (ap (answer_to env t local_party m references) (sym accepted) ∙ h)

  accepted_answer :
      (m : As4Message) (references : Option As4References) (answer : As4Receipt)
      → answer_to env t local_party m references none ≡ ok answer
      → verify_non_repudiation answer (signed_references m) none ≡ ok tt
  unfolding receipt receipt_in signed_references get_success_signal_message acknowledged_by
  accepted_answer m references answer h =
      let rs = signature_references m in
      let signal = get_success_signal_message t m.message_id rs (given_or_new t references) in
      let read = accepted_signal m references answer h in
      (verify_non_repudiation_iff answer signal.receipt (signed_references m) none
          (ap (λ s. bind s (λ f. ok (receipt_in f))) read)).1
        (
          (λ e. ground arith),
          (λ e. ground arith),
          rw (fields_of_parts-parts_for rs) (Among-self _),
          rw (fields_of_parts-parts_for rs) (Among-self _),
        )

  -- The receipt that is built for an accepted message is proof for its sender:
  -- `verify_non_repudiation` accepts it for the references that the message signs.
  pub for_message-verify_non_repudiation :
      (m : As4Message) (references : Option As4References) (answer : As4Receipt)
      → m.parse_error ≡ none
      → for_message env t local_party m references ≡ ok answer
      → verify_non_repudiation answer (signed_references m) none ≡ ok tt
  unfolding for_message
  for_message-verify_non_repudiation m references answer accepted h =
      accepted_answer m references answer
        (ap (answer_to env t local_party m references) (sym accepted) ∙ h)

  rejected_answer :
      (m : As4Message) (e : ReceiptableError) (references : Option As4References)
      (answer : As4Receipt)
      → answer_to env t local_party m references (some e) ≡ ok answer
      → (x : Error) × (error answer ≡ ok (some x))
        × (x.error_code ≡ Attributes.error_code e.class)
        × (x.severity ≡ Attributes.severity (Errors.family_of e.class))
  unfolding answer_to create_error_signal_from_exception create_error_signal error errors errors_in
      error_args get_error_signal_message
  rejected_answer m e references answer h =
      let (a, args, h1) = bind-eq-ok (error_args env t local_party e) _ h in
      let (text, is_text, h2) = bind-eq-ok (require (Attributes.description e.class) _) _ args in
      let r = given_or_new t references in
      let signal = get_error_signal_message t a m.message_id r in
      let read = signal_of-signal_receipt r signal answer h1 in
      let same = sym (ok-injective h2) in
      (
        _,
        ap (λ s. bind (bind s (λ f. ok (errors_in f))) (λ es. ok (head? es))) read,
        ap (λ b. b.error_code) same,
        ap (λ b. b.error_severity) same,
      )

  -- The signal that is built for a rejected message reports its error: the first error that is
  -- read from it has the code and the severity of the exception's class.
  pub for_message-error :
      (m : As4Message) (e : ReceiptableError) (references : Option As4References)
      (answer : As4Receipt)
      → m.parse_error ≡ some e
      → for_message env t local_party m references ≡ ok answer
      → (x : Error) × (error answer ≡ ok (some x))
        × (x.error_code ≡ Attributes.error_code e.class)
        × (x.severity ≡ Attributes.severity (Errors.family_of e.class))
  unfolding for_message
  for_message-error m e references answer rejected h =
      rejected_answer m e references answer
        (ap (answer_to env t local_party m references) (sym rejected) ∙ h)

  accepted_error :
      (m : As4Message) (references : Option As4References) (answer : As4Receipt)
      → answer_to env t local_party m references none ≡ ok answer
      → error answer ≡ ok none
  unfolding error errors errors_in get_success_signal_message
  accepted_error m references answer h =
      let read = accepted_signal m references answer h in
      ap (λ s. bind (bind s (λ f. ok (errors_in f))) (λ es. ok (head? es))) read

  pub for_message_accepted :
      (m : As4Message) (references : Option As4References) (answer : As4Receipt)
      → m.parse_error ≡ none
      → for_message env t local_party m references ≡ ok answer
      → error answer ≡ ok none
  unfolding for_message
  for_message_accepted m references answer accepted h =
      accepted_error m references answer
        (ap (answer_to env t local_party m references) (sym accepted) ∙ h)
