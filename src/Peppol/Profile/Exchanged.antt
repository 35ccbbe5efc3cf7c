-- ===== src/Peppol/Profile/Exchanged.antt =====
-- A Peppol message between the two exchanges of as4/core/exchange.py: `build`, `receive` and
-- `receive_signal`, with the profile of as4/profiles/peppol/profile.py.
use mathlib.Core.Path.{subst}
use as_lib.Base.{
  ◌≡◌, refl, ap, sym, ◌∙◌, String, Option, none, some, List, [], ◌∷◌, string_eq, option_eq,
}
use as_lib.Base.Dict.{Dict}
use as_lib.Platform.{Bytes, DateTime}
use as_lib.Serialise.Reading.Kept.{user_message-read}
use as_lib.Etree.{Element}
use as_lib.Outcome.{Result, ok, some-injective}
use as_lib.Environment.{Environment}
use as_lib.Models.Soap.{Envelope}
use as_lib.Documents.{user_message}
use as_lib.Parties.{
  As4ExternalParty, As4InternalParty, As4ParseContext, ParticipantAcceptor, SecurityPolicy,
  from_party_from, to_party_from,
}
use as_lib.References.{As4References}
use as_lib.Message.{As4Message, get_remote_party, signed_references}
use as_lib.Message.Parse.{parse}
use as_lib.Receipt.{As4Receipt}
use as_lib.Receipt.Signals.{Moment, given_or_new}
use as_lib.Receipt.Build.{for_message}
use as_lib.Exchange.{received}
use as_lib.Exchange.Building.{build}
use as_lib.Exchange.Receiving.{
  As4ReceivingExchange, parse_message, receive, receive_message, state_after, state_of, suppressed,
  unpacked,
}
use as_lib.Exchange.Sending.{As4SendingExchange, record_built}
use as_lib.Serialise.Envelopes.{dump_envelope}
use as_lib.Mime.{payload_from_request}
use as_lib.Mime.Writing.{
  Writer, build_request_data, get_http_headers, get_request_data, require_soap_envelope,
}
use as_lib.Peppol.{PeppolAs4Message}
use as_lib.Peppol.Process.{peppol_message_class}
use as_lib.Peppol.Build.{BuilderArgs, Supplies, get_standard_business_document, get_user_message}
use as_lib.Peppol.Build.Envelope.{envelope_of, message_of, messaging_of}
use as_lib.Peppol.Build.Envelope as Message
use as_lib.Peppol.Build.Parts.{Built, entry_of, filled}
use as_lib.Peppol.Build.Arrived.{Arrives, arrived}
use as_lib.Peppol.Profile.{build_message}

-- The sender of the message, as its user message names it.
module _ (env : Environment) (s : Supplies) (local_party : As4InternalParty)
    (remote_party : As4ExternalParty) (a : BuilderArgs) (references : As4References) where
  abbrev FromSender : PeppolAs4Message → Type 0
  FromSender m =
      (envelope : Envelope)
      → m.soap_envelope ≡ some envelope
      → user_message envelope.header.messaging
        ≡ ok (some (get_user_message s local_party remote_party a (filled s references)))

  pub Built-FromSender :
      (payload : Bytes) (m : PeppolAs4Message)
      → Built env s local_party remote_party payload a references m
      → FromSender m
  unfolding message_of envelope_of messaging_of user_message as_lib.Peppol.Build.get_messaging
  Built-FromSender payload m b = subst FromSender (sym b.made) (λ envelope e.
      ap (λ (v : Envelope). user_message v.header.messaging) (sym (some-injective e)) ∙ refl)

  pub Built-attachment :
      (payload : Bytes) (m : PeppolAs4Message)
      → Built env s local_party remote_party payload a references m
      → (content : Bytes) × (m.mime_attachments ≡ ((entry_of s references).0, content) ∷ [])
  unfolding message_of
  Built-attachment payload m b = (_, ap (λ (n : PeppolAs4Message). n.mime_attachments) b.made)

-- What `build` writes and leaves in the exchange.
module _ (env : Environment) (s : Supplies) (w : Writer) (x : As4SendingExchange) (payload : Bytes)
    (a : BuilderArgs) (m : PeppolAs4Message) (after : As4References) (envelope : Envelope) where
  abbrev pub in_exchange : As4SendingExchange
  in_exchange =
      record_built m.as4 (record x { exchange = record x.exchange { identifiers = after } })

  unfoldable pub request_of : Bytes × String
  request_of =
      build_request_data w (w.tostring (dump_envelope w.b64encode w.isoformat envelope))
        (some m.mime_attachments) none

  pub get_request_data-request_of :
      m.soap_envelope ≡ some envelope → get_request_data w m.as4 ≡ ok request_of
  unfolding get_request_data require_soap_envelope request_of
  get_request_data-request_of e = rw (get_request_data, require_soap_envelope, e) refl

  pub build-request_of :
      Message.build_message env s x.local_party x.remote_party payload a x.identifiers
        ≡ ok (m, after)
      → m.soap_envelope ≡ some envelope
      → build w (λ (n : PeppolAs4Message). n.as4) (build_message env s) payload a x
        ≡ (ok (get_http_headers w request_of.1 none, request_of.0), in_exchange)
  unfolding build build_message given_or_new
  build-request_of h e = rw (build, build_message, h, get_request_data-request_of e) refl

-- The context in which `receive` parses.
abbrev pub context_of :
    As4ReceivingExchange → Option ParticipantAcceptor → SecurityPolicy → As4ParseContext
context_of y accept_participant policy = record {
  local_party = y.local_party;
  accept_participant = accept_participant;
  security_policy = policy;
}

-- The receiver's exchange once it has received the message and answered it.
abbrev pub taken_in :
    As4ReceivingExchange → As4Message → As4Receipt → As4ExternalParty → As4ReceivingExchange
taken_in y n answer party = record y {
  exchange = record y.exchange {
    message = some n;
    message_id = n.message_id;
    messaging_id = n.messaging_id;
    signed_references = signed_references n;
    receipt = some answer;
    state = received;
  };
  remote_party = some party;
}

module _ (env : Environment) (t : Moment) where
  pub receive_message-accepted :
      (n : As4Message) (answer : As4Receipt) (party : As4ExternalParty) (y : As4ReceivingExchange)
      → n.parse_error ≡ none
      → get_remote_party n ≡ ok party
      → for_message env t y.local_party n (some y.identifiers) ≡ ok answer
      → receive_message env t n y ≡ (ok tt, taken_in y n answer party)
  unfolding receive_message suppressed state_after state_of
  receive_message-accepted n answer party y e p h =
      rw (receive_message, p, suppressed, h, state_after, e, state_of) refl

  pub receive-accepted :
      (show_set : List String → String) (unpack : Bytes → Result (Bytes × Dict Bytes))
      (headers : Dict String) (body soap : Bytes) (mime : Dict Bytes)
      (accept_participant : Option ParticipantAcceptor) (policy : SecurityPolicy)
      (n : PeppolAs4Message) (answer : As4Receipt) (party : As4ExternalParty)
      (y : As4ReceivingExchange)
      → unpack (payload_from_request headers body) ≡ ok (soap, mime)
      → parse env
          (peppol_message_class env show_set)
          (context_of y accept_participant policy)
          soap
          mime
        ≡ ok n
      → receive_message env t n.as4 y ≡ (ok tt, taken_in y n.as4 answer party)
      → receive env t
          (peppol_message_class env show_set)
          unpack
          headers
          body
          accept_participant
          (some policy)
          y
        ≡ (ok tt, taken_in y n.as4 answer party)
  unfolding receive parse_message peppol_message_class unpacked
  receive-accepted show_set unpack headers body soap mime accept_participant policy n answer party y
        u p r =
      rw (receive, parse_message, u, unpacked, p) r

-- The receiver knows the sender by the identity and the certificate that it sent under.
abbrev pub sender_of : As4InternalParty → As4ExternalParty
sender_of p = record {
  identity = p.identity;
  credentials = record { certificate = p.credentials.certificate };
}

pub get_remote_party-arrived :
    (env : Environment) (s : Supplies) (local_party : As4InternalParty)
    (remote_party : As4ExternalParty) (a : BuilderArgs) (references : As4References)
    (read_time : DateTime → DateTime) (soap_bytes : Bytes) (e : Element) (envelope : Envelope)
    (w : Arrives env read_time soap_bytes e envelope) (m : PeppolAs4Message)
    → user_message envelope.header.messaging
      ≡ ok (some (get_user_message s local_party remote_party a references))
    → get_remote_party
        (arrived env read_time soap_bytes e envelope w local_party.credentials.certificate m).as4
      ≡ ok (sender_of local_party)
unfolding get_remote_party get_user_message user_message from_party_from to_party_from
get_remote_party-arrived env s local_party remote_party a references read_time soap_bytes e envelope
      w m h =
    rw (get_remote_party, user_message-read read_time envelope _ h) refl
