-- ===== src/Exchange/Correlation.antt =====
-- Which message a signal that `AS4Receipt.parse` of as4/core/receipt.py has read refers to, where it
-- answers an accepted message.
use as_lib.Base.{
  ◌≡◌, ap, sym, ◌∙◌, true, not, ◌&&◌, Option, none, some, ◌==◌, ==_refl, string_eq, option_eq,
}
use as_lib.Platform.{Bytes, Certificate, DateTime}
use as_lib.Serialise.Reading.{read_carried}
use as_lib.Serialise.Reading.Kept.{signal_of-read}
use as_lib.Outcome.{ok, bind-eq-ok, ok-injective, require, ensure}
use as_lib.Environment.{Environment}
use as_lib.Models.Mapping.{model_validate_etree}
use as_lib.Models.SignalMessage.{SignalMessage}
use as_lib.Documents.{signal_message}
use as_lib.Parties.{As4InternalParty}
use as_lib.References.{As4References}
use as_lib.Message.{As4Message, present}
use as_lib.Receipt.{As4Receipt, signal_of}
use as_lib.Receipt.Verification
use as_lib.Receipt.Verification.{no_error, original_id, read_signal, readable, verify_signature}
use as_lib.Receipt.Soundness.{readable-eq-ok}
use as_lib.Receipt.Signals.{Moment, get_success_signal_message}
use as_lib.Receipt.Build.{for_message}
use as_lib.Receipt.Answers.{signal_of-for_message}
use as_lib.Exchange.Sending.{names_message}

-- The id that the parsed receipt names is the one in the signal that its envelope has.
parse-original_id :
    (env : Environment) (signal : Bytes) (signer : Certificate) (r : As4Receipt)
    → Verification.parse env signal signer ≡ ok r
    → (m : Option SignalMessage) × (signal_of r ≡ ok m) × (r.original_message_id ≡ original_id m)
unfolding Verification.parse read_signal signal_of
parse-original_id env signal signer r h =
    let ((e, envelope, m), read, h1) = bind-eq-ok (readable (read_signal env signal)) _ h in
    let (e', x, g1) =
      bind-eq-ok (require (env.xml.parse_xml signal) _) _ (readable-eq-ok _ _ read) in
    let (v', v, g2) = bind-eq-ok (model_validate_etree env.schemas.envelope e') _ g1 in
    let (m', s, g3) = bind-eq-ok (signal_message v'.header.messaging) _ g2 in
    let same : (e', v', m') ≡ (e, envelope, m) = ok-injective g3 in
    let q : As4Receipt = record {
      soap_envelope = some envelope;
      original_message_id = original_id m;
      references = none;
      profile_name = none;
    } in
    let (accepted, a, h2) = bind-eq-ok (no_error q) _ h1 in
    let (u, c, h3) = bind-eq-ok (ensure (not (accepted && not (present (original_id m)))) _) _ h2 in
    let (w, signed, h4) = bind-eq-ok (verify_signature env q e signer) _ h3 in
    let made : q ≡ r = ok-injective h4 in
    (
      m,
      ap signal_of (sym made)
          ∙ ap (λ p. signal_message p.1.header.messaging) (sym same)
          ∙ s
          ∙ ap (λ p. ok p.2) same,
      ap (λ o. o.original_message_id) (sym made),
    )

-- A signal with the envelope of the receipt for an accepted message, as it is read, names that message.
pub names_message-for_message :
    (env far : Environment) (t : Moment) (read_time : DateTime → DateTime)
    (far_party : As4InternalParty) (n : As4Message) (references : Option As4References)
    (answer r : As4Receipt) (signal : Bytes) (signer : Certificate)
    → n.parse_error ≡ none
    → for_message far t far_party n references ≡ ok answer
    → r.soap_envelope ≡ read_carried read_time answer.soap_envelope
    → Verification.parse env signal signer ≡ ok r
    → names_message r n.message_id ≡ true
unfolding names_message signal_of original_id get_success_signal_message
names_message-for_message env far t read_time far_party n references answer r signal signer accepted
      built arrived read =
    let (m, is, named) = parse-original_id env signal signer r read in
    let same = ok-injective (
      sym is
      ∙ signal_of-read read_time r answer _ arrived
          (signal_of-for_message far t far_party n references answer accepted built)) in
    ap (λ o. o == some n.message_id) (named ∙ ap original_id same) ∙ ==_refl (some n.message_id)
