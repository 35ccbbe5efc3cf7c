-- ===== src/Tests/Conversations.antt =====
-- A message that is sent, received and acknowledged.
use as_lib.Base.{
  ==_refl, ◌==◌, ◌≡◌, refl, ap, ◌∙◌, String, Option, none, some, [], ◌∷◌, string_eq, option_eq,
}
use as_lib.Base.Dict.{Dict}
use as_lib.Platform.{Bytes, bytes_eq}
use as_lib.Outcome.{ok, err}
use as_lib.Environment.{Environment}
use as_lib.Models.Soap.{Envelope}
use as_lib.Models.Mapping.{model_validate_etree}
use as_lib.Parties.{As4PartyIdentity}
use as_lib.Message.{signature_references, As4Message, get_addressed_to, party_to_path, pre_validate}
use as_lib.Receipt.{As4Receipt}
use as_lib.Receipt.Build.{for_message}
use as_lib.Receipt.Verification
use as_lib.Exchange.{acknowledged, new_exchange}
use as_lib.Exchange.Building.{build}
use as_lib.Exchange.Outcomes.{recorded}
use as_lib.Exchange.Receiving.{As4ReceivingExchange, receive}
use as_lib.Exchange.Sending.{As4SendingExchange, expected_signer, mark_sent, receive_signal}
use as_lib.Mime.{unpack_message}
use as_lib.Peppol.{PeppolAs4Message}
use as_lib.Peppol.Process.{peppol_message_class}
use as_lib.Peppol.Build.{get_standard_business_document}
use as_lib.Peppol.Build.Parts.{entry_of, filled}
use as_lib.Peppol.Build.Arrived.{Arrives, arrived}
use as_lib.Peppol.Profile.{build_message}
use as_lib.Peppol.Profile.Exchanged.{in_exchange, sender_of, taken_in}
use as_lib.Peppol.Profile.Completed.{Conveyed, ParsesAll, build-receive-receive_signal, soap_xml_of}
use as_lib.Models.SignalMessage.{SignalMessage}
use as_lib.Receipt.Verification.{original_id}
use as_lib.Receipt.Signals.{get_success_signal_message}
use as_lib.Receipt.Build.{signal_receipt}
use as_lib.Receipt.Build.Accepted.{Names, Returns, parse-signal_receipt}
use as_lib.Peppol.Build.Signed.{Verifiable}
use as_lib.Serialise.Reading.{read_carried, read_envelope}
use as_lib.Tests.Codec.{decode-encode, strip-encode}
use as_lib.Tests.Fixtures.{alice, body_element, document, envelope, messaging_element}
use as_lib.Tests.Settings.{identifiers}
use as_lib.Tests.Requests.{parser, parses, writer}
use as_lib.Tests.Building.{
  elements, args, built, delivered, host, message, reader, reads, received, receiver, sbd, sender,
  small, supplies, to_milliseconds, world_of,
}

abbrev here : Environment
here = world_of (read_envelope to_milliseconds received)

abbrev sending : As4SendingExchange
sending = record { exchange = new_exchange sender identifiers 0 none; remote_party = receiver }

abbrev receiving : As4ReceivingExchange
receiving = record { exchange = new_exchange host identifiers 0 none; remote_party = none }

abbrev cid : String
cid = (entry_of supplies identifiers).0

abbrev bob : As4PartyIdentity
bob = record { party_id = "bob"; party_type = some "urn:fdc:peppol.eu:2017:identifiers:ap" }

numbered : pre_validate here.xml document ≡ ok ("m1", "msg")
unfolding pre_validate string_eq
numbered = refl

addressed : get_addressed_to here.schemas (here.xml.find document party_to_path) ≡ ok bob
unfolding get_addressed_to
addressed = refl

validated :
    model_validate_etree here.schemas.envelope document
    ≡ ok (read_envelope to_milliseconds received)
unfolding model_validate_etree
validated = refl

abbrev arrives : Arrives here to_milliseconds (soap_xml_of writer received) document received
arrives = record {
  message_id = "m1";
  messaging_id = "msg";
  party = bob;
  parsed = refl;
  ids = numbered;
  addressed = addressed;
  validated = validated;
}

attached : ParsesAll writer (parser cid) cid (soap_xml_of writer received) message.mime_attachments
unfolding as_lib.Peppol.Build.Envelope.message_of
attached = (parses cid _ _, tt)

conveyed :
    Conveyed here supplies writer
      (parser cid)
      sending
      args
      receiving
      none
      reader.security_policy
      document
      to_milliseconds
      received
      sbd
      message
unfolding new_exchange as_lib.Peppol.Profile.create_peppol_internal_party
    as_lib.Peppol.Profile.create_peppol_external_party as_lib.Peppol.accept_recipient
    as_lib.Peppol.Build.Envelope.message_of as_lib.References.encrypted_data_attachment_mapping
    as_lib.Base.Text.strip_of as_lib.Base.Text.strip as_lib.Base.Text.nonempty
conveyed = record {
  delivered = delivered (read_envelope to_milliseconds received);
  serviced = record { sender_type = refl; receiver_type = refl; accepts = refl };
  arrives = arrives;
  same_id = refl;
  fits = small;
  reads = reads (read_envelope to_milliseconds received);
  parses = attached;
  bare = refl;
  named = refl;
}

abbrev accepted : As4Message
accepted =
    (arrived here to_milliseconds (soap_xml_of writer received) document received arrives alice
      message).as4

abbrev answer : As4Receipt
answer = elim (for_message here supplies.moment host accepted (some identifiers)) [
  | ok r ↦ r
  | err _ ↦ record {
    soap_envelope = none;
    original_message_id = none;
    references = none;
    profile_name = none;
  }
]

abbrev answer_envelope : Envelope
answer_envelope = elim answer.soap_envelope [ some e ↦ e | none ↦ envelope ]

answered : for_message here supplies.moment host accepted (some identifiers) ≡ ok answer
unfolding for_message string_eq
answered = refl

abbrev signal : As4Receipt
signal = record answer {
  soap_envelope = read_carried to_milliseconds answer.soap_envelope;
  original_message_id = some "m1";
  references = none;
}

verified :
    Verification.parse
      (world_of (read_envelope to_milliseconds answer_envelope))
      []
      (expected_signer sending)
    ≡ ok signal
unfolding Verification.parse for_message string_eq as_lib.Tests.Codec.decode
    as_lib.Platform.certificate_eq as_lib.Tests.Codec.encode
    as_lib.Peppol.Profile.create_peppol_internal_party
    as_lib.Peppol.Profile.create_peppol_external_party native.Mathlib.Decide.ℕ_discrete option_eq
    as_lib.Platform.bytes_eq as_lib.Base.Text.utf8
verified = refl

stated : get_standard_business_document supplies args ≡ ok sbd
unfolding get_standard_business_document as_lib.Peppol.Profile.builder_args
stated = refl

abbrev waiting : As4SendingExchange
waiting =
    in_exchange here supplies writer sending [] args message (filled supplies identifiers) received

build-receive-receive_signal_example :
    (request : Dict String × Bytes) × (build writer
        (λ (n : PeppolAs4Message). n.as4)
        (build_message here supplies)
        []
        args
        sending
      ≡ (ok request, waiting))
    × (receive here supplies.moment
          (peppol_message_class here (λ _. ""))
          (unpack_message (parser cid))
          request.0
          request.1
          none
          (some reader.security_policy)
          receiving
        ≡ (ok tt, taken_in receiving accepted answer (sender_of sender)))
    × (receive_signal
          (world_of (read_envelope to_milliseconds answer_envelope))
          []
          (mark_sent waiting)
        ≡ (ok tt, recorded (mark_sent waiting) signal acknowledged))
unfolding new_exchange as_lib.Peppol.Profile.create_peppol_internal_party
    as_lib.Peppol.Build.Envelope.message_of conveyed
build-receive-receive_signal_example =
    build-receive-receive_signal here (world_of (read_envelope to_milliseconds answer_envelope))
      supplies writer (parser cid) (λ _. "") supplies.moment sending [] args message
      (filled supplies identifiers) received receiving none reader.security_policy document
      to_milliseconds sbd conveyed (built (read_envelope to_milliseconds received)) refl answer
      signal [] stated answered refl refl verified

-- The signal, as the host builds it.
abbrev receipt_signal : SignalMessage
receipt_signal =
    get_success_signal_message supplies.moment "m1" (signature_references accepted) identifiers

abbrev there : Environment
there = world_of (read_envelope to_milliseconds answer_envelope)

Verifiable-host : Verifiable there host
unfolding as_lib.Peppol.Profile.create_peppol_internal_party
Verifiable-host = record {
  rsa_key = refl;
  rsa_pkcs1 = λ b. ==_refl b;
  base64 = decode-encode;
  unspaced = strip-encode;
  loads = refl;
}

returns : Returns there supplies.moment host identifiers receipt_signal to_milliseconds [] answer
unfolding for_message string_eq model_validate_etree as_lib.Etree.index_elements_by_id
returns = record {
  element = document;
  envelope = answer_envelope;
  elements = elements;
  parsed = refl;
  sent = refl;
  validated = refl;
  indexed = refl;
  first = record { target = messaging_element; found = refl; tagged = refl; same = refl };
  second = record { target = body_element; found = refl; tagged = refl; same = refl };
  verifiable = Verifiable-host;
}

named : Names there supplies.moment host identifiers receipt_signal
unfolding original_id get_success_signal_message as_lib.Base.Text.nonempty
named none_reported = refl

receipted : signal_receipt there supplies.moment host identifiers receipt_signal ≡ ok answer
unfolding signal_receipt string_eq for_message
receipted = refl

parse-signal_receipt_example :
    Verification.parse there [] host.credentials.certificate
    ≡ ok (record answer {
      soap_envelope = read_carried to_milliseconds answer.soap_envelope;
      original_message_id = original_id (some receipt_signal);
      references = none;
    })
parse-signal_receipt_example =
    parse-signal_receipt there supplies.moment host identifiers receipt_signal to_milliseconds []
      answer returns named receipted
