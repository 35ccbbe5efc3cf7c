-- ===== src/Peppol/Profile/Completed.antt =====
-- A Peppol message from the sender's `build` to its `receive_signal`, both of as4/core/exchange.py,
-- by way of the receiver's `receive`.
use mathlib.Core.Path.{subst}
use as_lib.Base.{
  ◌≤◌, ◌≡◌, refl, ap, sym, ◌∙◌, String, ◌<>◌, true, Option, none, some, List, All, length,
}
use as_lib.Base.Dict.{Dict}
use as_lib.Base.Text.{nonempty, strip, strip_of}
use as_lib.Platform.{Bytes, DateTime}
use as_lib.Etree.{Element}
use as_lib.Outcome.{ok}
use as_lib.Environment.{Environment}
use as_lib.Models.Sbdh.{StandardBusinessDocument}
use as_lib.Models.Soap.{Envelope}
use as_lib.Parties.{ParticipantAcceptor, SecurityPolicy}
use as_lib.References.{As4References}
use as_lib.Message.{As4Message}
use as_lib.Serialise.Reading.{read_carried}
use as_lib.Serialise.Reading.Kept.{signed_references-read}
use as_lib.Receipt.{As4Receipt}
use as_lib.Receipt.Signals.{Moment}
use as_lib.Receipt.Build.{for_message}
use as_lib.Receipt.Verification
use as_lib.Exchange.{acknowledged}
use as_lib.Exchange.Building.{build}
use as_lib.Exchange.Completion.{receive_signal-for_message}
use as_lib.Exchange.Correlation.{names_message-for_message}
use as_lib.Exchange.Outcomes.{recorded}
use as_lib.Exchange.Receiving.{As4ReceivingExchange, receive}
use as_lib.Exchange.Sending.{
  As4SendingExchange, expected_signer, mark_sent, names_message, receive_signal,
}
use as_lib.Serialise.Envelopes.{dump_envelope}
use as_lib.Mime.{Part, payload_from_request, unpack_message}
use as_lib.Mime.Writing.{Writer, get_http_headers}
use as_lib.Mime.RoundTrip.{ParsesBack, unpack_message-get_request_data}
use as_lib.Peppol.{PeppolAs4Message}
use as_lib.Peppol.Process.{peppol_message_class}
use as_lib.Peppol.Build.{BuilderArgs, Supplies, get_standard_business_document}
use as_lib.Peppol.Build.Envelope as Message
use as_lib.Peppol.Build.Parts.{build_message-Built, entry_of}
use as_lib.Peppol.Build.Delivered.{Delivered}
use as_lib.Peppol.Build.Routed.{Reads, Serviced}
use as_lib.Peppol.Build.Arrived.{Arrives, arrived, parse-build_message}
use as_lib.Peppol.Profile.{build_message}
use as_lib.Peppol.Profile.Exchanged.{
  Built-FromSender, Built-attachment, build-request_of, context_of, get_remote_party-arrived,
  get_request_data-request_of, in_exchange, receive-accepted, receive_message-accepted, request_of,
  sender_of, taken_in,
}

-- The bytes of an envelope in a request.
abbrev pub soap_xml_of : Writer → Envelope → Bytes
soap_xml_of w envelope = w.tostring (dump_envelope w.b64encode w.isoformat envelope)

-- Of a request with one of these attachments, the email parser gives back the parts.
abbrev pub ParsesAll : Writer → (Bytes → Part) → String → Bytes → Dict Bytes → Type 0
ParsesAll w parsebytes cid soap_xml attachments =
    All (λ (_, content). ParsesBack w parsebytes cid soap_xml content) attachments

-- What the email parser, lxml, pydantic and the receiver's policy make of the request.
pub record Conveyed (env : Environment) (s : Supplies) (w : Writer) (parsebytes : Bytes → Part)
    (x : As4SendingExchange) (a : BuilderArgs) (y : As4ReceivingExchange)
    (accept_participant : Option ParticipantAcceptor) (policy : SecurityPolicy) (e : Element)
    (read_time : DateTime → DateTime) (envelope : Envelope) (sbd : StandardBusinessDocument)
    (m : PeppolAs4Message) : Type 0 where
  pub delivered :
      Delivered env s x.local_party x.remote_party a x.identifiers
        (context_of y accept_participant policy)
        e
  pub serviced : Serviced x.local_party x.remote_party a (context_of y accept_participant policy)
  pub arrives : Arrives env read_time (soap_xml_of w envelope) e envelope
  pub same_id : arrives.message_id ≡ m.message_id
  pub fits : All (λ (_, b). length b ≤ policy.maximum_decompressed_size) m.decrypted_data
  pub reads : All (λ (_, b). Reads env read_time b sbd) m.decrypted_data
  pub parses :
      ParsesAll w parsebytes
        (entry_of s x.identifiers).0
        (soap_xml_of w envelope)
        m.mime_attachments
  pub bare :
      strip_of (strip ("<" <> (entry_of s x.identifiers).0 <> ">")) "<>"
      ≡ (entry_of s x.identifiers).0
  pub named : nonempty (entry_of s x.identifiers).0 ≡ true

module _ (env : Environment) (s : Supplies) (w : Writer) (parsebytes : Bytes → Part)
    (show_set : List String → String) (t : Moment) (x : As4SendingExchange) (payload : Bytes)
    (a : BuilderArgs) (m : PeppolAs4Message) (after : As4References) (envelope : Envelope)
    (y : As4ReceivingExchange) (accept_participant : Option ParticipantAcceptor)
    (policy : SecurityPolicy) (e : Element) (read_time : DateTime → DateTime)
    (sbd : StandardBusinessDocument)
    (c : Conveyed env s w parsebytes x a y accept_participant policy e read_time envelope sbd m)
    (h : Message.build_message env s x.local_party x.remote_party payload a x.identifiers
      ≡ ok (m, after))
    (is : m.soap_envelope ≡ some envelope) where
  -- The message that the receiver parses.
  abbrev pub read_message : PeppolAs4Message
  read_message =
      arrived env read_time (soap_xml_of w envelope) e envelope c.arrives
        x.local_party.credentials.certificate m

  unpacked_request :
      unpack_message parsebytes (
        payload_from_request
          (get_http_headers w (request_of env s w x payload a m after envelope).1 none)
          (request_of env s w x payload a m after envelope).0)
      ≡ ok (soap_xml_of w envelope, m.mime_attachments)
  unpacked_request =
      let b =
        build_message-Built env s x.local_party x.remote_party payload a x.identifiers m after h in
      let (content, attached) =
        Built-attachment env s x.local_party x.remote_party a x.identifiers payload m b in
      let parses =
        subst (ParsesAll w parsebytes (entry_of s x.identifiers).0 (soap_xml_of w envelope))
          attached c.parses in
      unpack_message-get_request_data w parsebytes m.as4 envelope (entry_of s x.identifiers).0 _
        content _ parses.0 is attached c.bare c.named
        (get_request_data-request_of env s w x payload a m after envelope is)

  received_message :
      (answer : As4Receipt)
      → get_standard_business_document s a ≡ ok sbd
      → for_message env t y.local_party read_message.as4 (some y.identifiers) ≡ ok answer
      → receive env t
          (peppol_message_class env show_set)
          (unpack_message parsebytes)
          (get_http_headers w (request_of env s w x payload a m after envelope).1 none)
          (request_of env s w x payload a m after envelope).0
          accept_participant
          (some policy)
          y
        ≡ (ok tt, taken_in y read_message.as4 answer (sender_of x.local_party))
  received_message answer stated made =
      let b =
        build_message-Built env s x.local_party x.remote_party payload a x.identifiers m after h in
      receive-accepted env t show_set (unpack_message parsebytes) _ _ (soap_xml_of w envelope)
        m.mime_attachments accept_participant policy read_message answer (sender_of x.local_party) y
        unpacked_request
        (parse-build_message env s x.local_party x.remote_party payload a x.identifiers after m sbd
          show_set (context_of y accept_participant policy) read_time (soap_xml_of w envelope) e
          envelope c.arrives c.delivered c.serviced h stated is c.fits c.reads)
        (receive_message-accepted env t read_message.as4 answer (sender_of x.local_party) y refl
          (get_remote_party-arrived env s x.local_party x.remote_party a _ read_time
            (soap_xml_of w envelope) e envelope c.arrives m
            (Built-FromSender env s x.local_party x.remote_party a x.identifiers payload m b
              envelope is))
          made)

-- A Peppol message goes from the sender's exchange to the receiver's, and its receipt back,
-- without anything being raised: `build` writes a request and leaves the message in the sender's
-- exchange; `receive` of the receiver, on that request, records the message without an error, the
-- state RECEIVED, the answer, and the sender's identity and certificate as its remote party; and
-- `receive_signal` brings the sender's exchange, marked as sent, to ACKNOWLEDGED. The conditions:
-- `build_message` of the profile succeeds for the sender's identifiers; what stands between the
-- two sides is as `Conveyed` says (the email parser gives the encoded parts back; lxml and
-- pydantic read the serialised envelope, with its message id, and the document in it as
-- `Serialise.Reading` says, that is, with the elements that were read in the models that keep
-- them, no empty attributes, and the times as they were written; and the receiver's policy and
-- key accept and open it, as for a built message that is read back); the answer can be built; the
-- sender's exchange requires no references of its own; and `parse` accepts a signal with the
-- envelope of the answer, as it is read, as signed by the receiver.
pub build-receive-receive_signal :
    (env home : Environment) (s : Supplies) (w : Writer) (parsebytes : Bytes → Part)
    (show_set : List String → String) (t : Moment) (x : As4SendingExchange) (payload : Bytes)
    (a : BuilderArgs) (m : PeppolAs4Message) (after : As4References) (envelope : Envelope)
    (y : As4ReceivingExchange) (accept_participant : Option ParticipantAcceptor)
    (policy : SecurityPolicy) (e : Element) (read_time : DateTime → DateTime)
    (sbd : StandardBusinessDocument)
    (c : Conveyed env s w parsebytes x a y accept_participant policy e read_time envelope sbd m)
    (h : Message.build_message env s x.local_party x.remote_party payload a x.identifiers
      ≡ ok (m, after))
    (is : m.soap_envelope ≡ some envelope) (answer r : As4Receipt) (signal : Bytes)
    → get_standard_business_document s a ≡ ok sbd
    → for_message env t y.local_party
        (arrived env read_time
          (soap_xml_of w envelope)
          e
          envelope
          c.arrives
          x.local_party.credentials.certificate
          m).as4
        (some y.identifiers)
      ≡ ok answer
    → x.required_references ≡ none
    → r.soap_envelope ≡ read_carried read_time answer.soap_envelope
    → Verification.parse home signal (expected_signer x) ≡ ok r
    → (request : Dict String × Bytes) × (build w
          (λ (n : PeppolAs4Message). n.as4)
          (build_message env s)
          payload
          a
          x
        ≡ (ok request, in_exchange env s w x payload a m after envelope))
      × (receive env t
            (peppol_message_class env show_set)
            (unpack_message parsebytes)
            request.0
            request.1
            accept_participant
            (some policy)
            y
          ≡ (
            ok tt,
            taken_in y
                (arrived env read_time
                  (soap_xml_of w envelope)
                  e
                  envelope
                  c.arrives
                  x.local_party.credentials.certificate
                  m).as4
                answer
                (sender_of x.local_party),
          ))
      × (receive_signal home signal (mark_sent (in_exchange env s w x payload a m after envelope))
          ≡ (
            ok tt,
            recorded (mark_sent (in_exchange env s w x payload a m after envelope)) r acknowledged,
          ))
build-receive-receive_signal env home s w parsebytes show_set t x payload a m after envelope y
      accept_participant policy e read_time sbd c h is answer r signal stated made free same
      parsed =
    let n : As4Message =
      (arrived env read_time (soap_xml_of w envelope) e envelope c.arrives
        x.local_party.credentials.certificate m).as4 in
    let named =
      ap (λ i. names_message r i) (sym c.same_id)
      ∙ names_message-for_message home env t read_time y.local_party n (some y.identifiers) answer r
          signal (expected_signer x) refl made same parsed in
    (
      _,
      build-request_of env s w x payload a m after envelope h is,
      received_message env s w parsebytes show_set t x payload a m after envelope y
          accept_participant policy e read_time sbd c h is answer stated made,
      receive_signal-for_message home env t read_time y.local_party
          (record x { exchange = record x.exchange { identifiers = after } }) m.as4 n
          (some y.identifiers) answer r signal free refl
          (signed_references-read read_time n m.as4 (ap (λ o. read_carried read_time o) (sym is)))
          made same parsed named,
    )
