-- ===== src/Peppol/Build/Arrived.antt =====
-- `parse` of as4/core/message.py, for the class of as4/profiles/peppol/message.py, on what
-- `build_message` of the latter returns.
use as_lib.Base.{
  ◌≤◌, ◌≡◌, refl, ap, sym, String, none, some, List, All, length, string_eq, option_eq,
}
use as_lib.Base.Dict.{Dict}
use as_lib.Platform.{Bytes, Certificate, DateTime}
use as_lib.Etree.{Element}
use as_lib.Outcome.{Result, ok, err}
use as_lib.Environment.{Environment}
use as_lib.Models.Mapping.{model_validate_etree}
use as_lib.Models.Sbdh.{StandardBusinessDocument}
use as_lib.Models.Soap.{Envelope}
use as_lib.Parties.{As4ExternalParty, As4InternalParty, As4ParseContext, As4PartyIdentity}
use as_lib.References.{As4References}
use as_lib.Message.{As4Message, blank, get_addressed_to, party_to_path, pre_validate}
use as_lib.Message.Process.{process, process_envelope}
use as_lib.Message.Parse.{handled, parse, parse_steps, read_header, write}
use as_lib.Peppol.{PeppolAs4Message, blank_peppol}
use as_lib.Peppol.Process.{
  guarded_sbdh, in_base, process_sbdh, peppol_message_class, process_peppol, refuse_invalid,
}
use as_lib.Peppol.Build.{BuilderArgs, Supplies, get_standard_business_document}
use as_lib.Peppol.Build.Envelope.{build_message}
use as_lib.Peppol.Build.Delivered.{Delivered}
use as_lib.Peppol.Build.ReadBack.{build_message-read}
use as_lib.Serialise.Reading.{read_carried, read_envelope}
use as_lib.Peppol.Build.Routed.{Reads, Serviced, build_message-process_sbdh}

-- The bytes are read as an element that has the ids and an addressee, and as the envelope, in the
-- way that `read_envelope` says.
pub record Arrives (env : Environment) (read_time : DateTime → DateTime) (soap_bytes : Bytes)
    (e : Element) (envelope : Envelope) : Type 0 where
  pub message_id : String
  pub messaging_id : String
  pub party : As4PartyIdentity
  pub parsed : env.xml.parse_xml soap_bytes ≡ some e
  pub ids : pre_validate env.xml e ≡ ok (message_id, messaging_id)
  pub addressed : get_addressed_to env.schemas (env.xml.find e party_to_path) ≡ ok party
  pub validated :
      model_validate_etree env.schemas.envelope e ≡ ok (read_envelope read_time envelope)

-- The message that the receiver has: what was built, with the envelope as it was read, the ids, the
-- addressee and the signer.
abbrev pub arrived :
    (env : Environment) (read_time : DateTime → DateTime) (soap_bytes : Bytes) (e : Element)
    (envelope : Envelope)
    → Arrives env read_time soap_bytes e envelope
    → Certificate
    → PeppolAs4Message
    → PeppolAs4Message
arrived env read_time soap_bytes e envelope w signer m = record m {
  as4 = record blank {
    soap_envelope = some (read_envelope read_time envelope);
    mime_attachments = m.mime_attachments;
    decrypted_data = m.decrypted_data;
    message_id = w.message_id;
    messaging_id = w.messaging_id;
    addressed_to = some w.party;
    signer_certificate = some signer;
  };
}

module _ (env : Environment) (ctx : As4ParseContext) (read_time : DateTime → DateTime)
    (soap_bytes : Bytes) (e : Element) (envelope : Envelope)
    (w : Arrives env read_time soap_bytes e envelope) (mime : Dict Bytes) where
  -- The message at the call of `process`.
  abbrev numbered : As4Message
  numbered = record blank {
    message_id = w.message_id;
    messaging_id = w.messaging_id;
    addressed_to = some w.party;
  }

  -- And at the call of `process_envelope`.
  abbrev taken : As4Message
  taken = record numbered {
    mime_attachments = mime;
    soap_envelope = some (read_envelope read_time envelope);
  }

  process-taken :
      process env ctx e mime numbered
      ≡ process_envelope env ctx e mime (read_envelope read_time envelope) taken
  unfolding process
  process-taken = rw (process, w.validated) refl

  process_peppol-taken :
      (show_set : List String → String) (read : As4Message) (n : PeppolAs4Message)
      → process_envelope env ctx e mime (read_envelope read_time envelope) taken ≡ (ok tt, read)
      → process_sbdh env show_set ctx (record blank_peppol { as4 = read }) ≡ (ok tt, n)
      → process_peppol env show_set ctx e mime (record blank_peppol { as4 = numbered }) ≡ (ok tt, n)
  unfolding process_peppol in_base guarded_sbdh refuse_invalid
  process_peppol-taken show_set read n h1 h2 =
      rw (process_peppol, in_base, process-taken, h1, guarded_sbdh, h2) refl

  parse_steps-taken :
      (show_set : List String → String) (n : PeppolAs4Message)
      → process_peppol env show_set ctx e mime (record blank_peppol { as4 = numbered }) ≡ (ok tt, n)
      → parse_steps env (peppol_message_class env show_set) ctx soap_bytes mime blank_peppol
        ≡ (ok tt, n)
  unfolding parse_steps read_header write peppol_message_class
  parse_steps-taken show_set n h =
      rw (parse_steps, w.parsed, read_header, w.ids, write, w.addressed) h

  parse-taken :
      (show_set : List String → String) (n : PeppolAs4Message)
      → parse_steps env (peppol_message_class env show_set) ctx soap_bytes mime blank_peppol
        ≡ (ok tt, n)
      → parse env (peppol_message_class env show_set) ctx soap_bytes mime
        ≡ ok (record n { as4 = record n.as4 { parse_error = none } })
  unfolding parse handled peppol_message_class
  parse-taken show_set n h =
      let cls = peppol_message_class env show_set in
      ap
        (λ (p : Result (Unit {0}) × PeppolAs4Message). elim (handled p.0) [
          | err x ↦ err x
          | ok error ↦ ok (record p.1 { as4 = record p.1.as4 { parse_error = error } })
        ])
        h

-- `parse` succeeds on a built message that arrives: the result has the fields of the built one, the
-- envelope, the ids and the addressee that were read, the sender's certificate as its signer, and no error.
pub parse-build_message :
    (env : Environment) (s : Supplies) (local_party : As4InternalParty)
    (remote_party : As4ExternalParty) (payload : Bytes) (a : BuilderArgs)
    (references after : As4References) (m : PeppolAs4Message) (sbd : StandardBusinessDocument)
    (show_set : List String → String) (ctx : As4ParseContext) (read_time : DateTime → DateTime)
    (soap_bytes : Bytes) (e : Element) (envelope : Envelope)
    (w : Arrives env read_time soap_bytes e envelope)
    → Delivered env s local_party remote_party a references ctx e
    → Serviced local_party remote_party a ctx
    → build_message env s local_party remote_party payload a references ≡ ok (m, after)
    → get_standard_business_document s a ≡ ok sbd
    → m.soap_envelope ≡ some envelope
    → All (λ (_, b). length b ≤ ctx.security_policy.maximum_decompressed_size) m.decrypted_data
    → All (λ (_, b). Reads env read_time b sbd) m.decrypted_data
    → parse env (peppol_message_class env show_set) ctx soap_bytes m.mime_attachments
      ≡ ok (arrived env read_time soap_bytes e envelope w local_party.credentials.certificate m)
parse-build_message env s local_party remote_party payload a references after m sbd show_set ctx
      read_time soap_bytes e envelope w d v h stated is fits reads =
    let f : As4Message = taken env ctx read_time soap_bytes e envelope w m.mime_attachments in
    let read : As4Message = record f {
      signer_certificate = some local_party.credentials.certificate;
      decrypted_data = m.decrypted_data;
    } in
    let g : PeppolAs4Message = record blank_peppol { as4 = read } in
    let based =
      build_message-read env s local_party remote_party payload a references after m ctx e read_time
        d h envelope f is fits in
    let routed =
      build_message-process_sbdh env s local_party remote_party payload a references after m g
        show_set ctx read_time sbd h stated v reads
        (record {
          envelope = sym (ap (read_carried read_time) is);
          attachments = refl;
          decrypted = refl;
        }) in
    let n : PeppolAs4Message = record m { as4 = read } in
    parse-taken env ctx read_time soap_bytes e envelope w m.mime_attachments show_set n (
      parse_steps-taken env ctx read_time soap_bytes e envelope w m.mime_attachments show_set n (
        process_peppol-taken env ctx read_time soap_bytes e envelope w m.mime_attachments show_set
          read n based routed))
