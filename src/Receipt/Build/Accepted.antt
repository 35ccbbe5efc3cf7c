-- ===== src/Receipt/Build/Accepted.antt =====
-- `AS4Receipt.parse` of as4/core/receipt.py on the signals that the same file builds.
use as_lib.Base.{
  ◌≡◌, refl, ap, sym, ◌∙◌, String, ◌<>◌, Bool, true, false, not, ◌&&◌, none, some, List, [], ◌∷◌,
  contains, head?, ==_refl, string_eq, option_eq,
}
use as_lib.Base.Dict.{Dict}
use as_lib.Base.Prefix.{remove_prefix-append}
use as_lib.Platform.{Bytes, DateTime, certificate_eq, sha256}
use as_lib.Etree.{Element, index_elements_by_id}
use as_lib.Outcome
use as_lib.Outcome.{
  Result, ensure, receipt_verification, ◌>>◌, ok, bind-eq-ok, ok-injective, some-injective,
}
use as_lib.Environment.{Environment}
use as_lib.Models.Mapping.{model_validate_etree}
use as_lib.Models.Reference.{Reference}
use as_lib.Models.Security.{Security}
use as_lib.Models.Signature.{Signature, SignedInfo}
use as_lib.Models.SignalMessage.{Error, SignalMessage}
use as_lib.Models.Soap.{Envelope}
use as_lib.Dsig.{exclusive_c14n}
use as_lib.Dsig.Verify.{signature_algorithm, verify}
use as_lib.Dsig.Matching.{verify_iff}
use as_lib.Documents.{signal_message, x509_certificate, x509v3}
use as_lib.Parties.{As4InternalParty}
use as_lib.References.{As4References}
use as_lib.Serialise.{dump_body}
use as_lib.Serialise.Signal.{dump_signal_messaging}
use as_lib.Serialise.Reading.{
  read_carried, read_envelope, read_reference, read_security, read_signal_message, read_signature,
}
use as_lib.Peppol.Build.Read.{digest_matches-read, verify-read}
use as_lib.Message.{present}
use as_lib.Message.Coverage.{coverage_by_tag, cover_all, kind_of, signature_coverage, subset}
use as_lib.Message.Signature.{named_token, token_uri}
use as_lib.Receipt.{As4Receipt, error, errors, errors_in, signal_of}
use as_lib.Receipt.Signals.{Moment, get_messaging}
use as_lib.Receipt.Verification.{
  embedded_certificate, no_error, original_id, parse, read_signal, readable, unverifiable_reference,
  unverifiable_signature, verify_covered, verify_receipt_reference, verify_receipt_references,
  verify_signature,
}
use as_lib.Receipt.Build.{
  get_body_digest_reference, get_local_binary_security_token, get_messaging_digest_reference,
  get_signature, get_signed_info, get_soap_envelope, signal_receipt,
}
use as_lib.Peppol.Build.Digests.{digest_matches-reference_for, for_bytes-sha256, reference_for}
use as_lib.Peppol.Build.Covered.{cover_all-element}
use as_lib.Peppol.Build.Signed.{Received, Verifiable, body_tag, messaging_tag}

module _ (env : Environment) (t : Moment) (local_party : As4InternalParty)
    (references : As4References) (signal : SignalMessage) where
  abbrev dumped_messaging : Element
  dumped_messaging =
      dump_signal_messaging t.isoformat (signal ∷ []) (some references.messaging_id) true

  abbrev dumped_body : Element
  dumped_body = dump_body body_tag (record { body_id = some references.body_id })

  abbrev to_messaging : Reference
  to_messaging =
      reference_for env.crypto ("#" <> references.messaging_id) (env.xml.c14n dumped_messaging [])
        exclusive_c14n

  abbrev to_body : Reference
  to_body =
      reference_for env.crypto ("#" <> references.body_id) (env.xml.c14n dumped_body [])
        exclusive_c14n

  abbrev signed_info : SignedInfo
  signed_info = record {
    etree_element = none;
    canonicalization_method = record { etree_element = none; algorithm = some exclusive_c14n };
    signature_method = record { algorithm = "http://www.w3.org/2001/04/xmldsig-more#rsa-sha256" };
    references = to_messaging ∷ to_body ∷ [];
    id = none;
  }

  first_reference :
      get_messaging_digest_reference env t local_party references (get_messaging references signal)
      ≡ ok to_messaging
  unfolding get_messaging_digest_reference as_lib.Dsig.for_element get_messaging
  first_reference = for_bytes-sha256 env.crypto env.xml.c14n _ _ _

  second_reference :
      get_body_digest_reference env t local_party references
        (record { body_id = some references.body_id })
      ≡ ok to_body
  unfolding get_body_digest_reference as_lib.Dsig.for_element
  second_reference = for_bytes-sha256 env.crypto env.xml.c14n _ _ _

  abbrev built_security : Security
  built_security = record {
    binary_security_tokens = get_local_binary_security_token env t local_party references ∷ [];
    encrypted_key = none;
    encrypted_data = none;
    signature = some (get_signature env t local_party references signed_info);
    must_understand = true;
  }

  abbrev built_envelope : Envelope
  built_envelope = record {
    header = record { security = built_security; messaging = get_messaging references signal };
    body = record { body_id = some references.body_id };
  }

  get_soap_envelope-built :
      get_soap_envelope env t local_party references signal ≡ ok built_envelope
  unfolding get_soap_envelope get_signed_info
  get_soap_envelope-built =
      rw (get_soap_envelope, get_signed_info, first_reference, second_reference) refl

  -- What the sender of the message reads of the signal.
  pub record Returns (read_time : DateTime → DateTime) (signal_data : Bytes) (answer : As4Receipt)
      : Type 0 where
    pub element : Element
    pub envelope : Envelope
    pub elements : Dict Element
    pub parsed : env.xml.parse_xml signal_data ≡ some element
    pub sent : answer.soap_envelope ≡ some envelope
    pub validated :
        model_validate_etree env.schemas.envelope element ≡ ok (read_envelope read_time envelope)
    pub indexed : index_elements_by_id element ≡ ok elements
    pub first : Received env elements references.messaging_id messaging_tag dumped_messaging
    pub second : Received env elements references.body_id body_tag dumped_body
    pub verifiable : Verifiable env local_party

  -- The signature as it is read.
  abbrev read_back : Signature
  read_back = read_signature (get_signature env t local_party references signed_info)

  module _ (v : Verifiable env local_party) where
    built_verified :
        verify env.crypto env.xml.c14n
          (get_signature env t local_party references signed_info)
          local_party.credentials.certificate
        ≡ ok tt
    unfolding get_signature signature_algorithm string_eq
    built_verified =
        (verify_iff env.crypto env.xml.c14n (get_signature env t local_party references signed_info)
            local_party.credentials.certificate).1
          (record {
            algorithm = sha256;
            bytes = _;
            canonicalized = ==_refl (some exclusive_c14n);
            supported = refl;
            rsa_key = v.rsa_key;
            has_bytes = v.base64 _;
            signed = v.rsa_pkcs1 _;
          })

    verified : verify env.crypto env.xml.c14n read_back local_party.credentials.certificate ≡ ok tt
    unfolding get_signature
    verified =
        verify-read env.crypto env.xml.c14n (get_signature env t local_party references signed_info)
          (to_messaging ∷ to_body ∷ []) local_party.credentials.certificate refl
        ∙ built_verified

    named :
        token_uri read_back.key_info.security_token_reference
        ≡ some ("#" <> references.signature_bst_id)
    unfolding token_uri get_signature
    named = refl

    found :
        named_token
          (get_local_binary_security_token env t local_party references ∷ [])
          ("#" <> references.signature_bst_id)
        ≡ some (get_local_binary_security_token env t local_party references)
    unfolding named_token get_local_binary_security_token
    found = rw (named_token, ==_refl ("#" <> references.signature_bst_id)) refl

    certified :
        x509_certificate env.crypto (get_local_binary_security_token env t local_party references)
        ≡ ok local_party.credentials.certificate
    unfolding x509_certificate get_local_binary_security_token
    certified =
        rw
          (
            x509_certificate,
            ==_refl x509v3,
            v.base64 local_party.credentials.certificate.der,
            v.loads,
          )
          refl

    embedded :
        embedded_certificate env (read_security built_security) read_back
        ≡ ok local_party.credentials.certificate
    unfolding embedded_certificate
    embedded = rw (embedded_certificate, named, found) certified

    module _ (elements : Dict Element)
        (first : Received env elements references.messaging_id messaging_tag dumped_messaging)
        (second : Received env elements references.body_id body_tag dumped_body) where
      reference_verified :
          (id name : String) (e : Element)
          → Received env elements id name e
          → verify_receipt_reference env elements (
              read_reference
                (reference_for env.crypto ("#" <> id) (env.xml.c14n e []) exclusive_c14n))
            ≡ ok tt
      unfolding verify_receipt_reference unverifiable_reference
      reference_verified id name e r =
          rw
            (
              verify_receipt_reference,
              remove_prefix-append "#" id,
              r.found,
              digest_matches-read env.crypto env.xml.c14n ("#" <> id) (env.xml.c14n e []) r.target,
              digest_matches-reference_for env.crypto env.xml.c14n v.unspaced ("#" <> id) e r.target
                  r.same,
            )
            refl

      messaging_covered :
          signature_coverage read_back elements [] ≡ "payloads" ∷ "messaging" ∷ "body" ∷ []
      unfolding signature_coverage cover_all subset get_signature kind_of coverage_by_tag string_eq
      messaging_covered =
          rw
            (
              signature_coverage,
              cover_all-element elements references.messaging_id "messaging"
                  (read_reference to_messaging) (read_reference to_body ∷ []) _ refl
                  (rw (remove_prefix-append "#" references.messaging_id, first.found, first.tagged)
                    refl)
                  (cover_all-element elements references.body_id "body" (read_reference to_body) []
                    _ refl
                    (rw (remove_prefix-append "#" references.body_id, second.found, second.tagged)
                      refl)
                    refl),
            )
            refl

      references_verified :
          verify_receipt_references env
            (read_reference to_messaging ∷ read_reference to_body ∷ [])
            elements
          ≡ ok tt
      unfolding verify_receipt_references
      references_verified =
          rw
            (
              verify_receipt_references,
              reference_verified references.messaging_id messaging_tag dumped_messaging first,
              reference_verified references.body_id body_tag dumped_body second,
            )
            refl

      covered :
          (e : Element)
          → index_elements_by_id e ≡ ok elements
          → verify_covered env e read_back ≡ ok tt
      unfolding verify_covered get_signature string_eq
      covered e i =
          rw (verify_covered, i)
            (ap
                (λ c.
                  ensure (contains c "messaging")
                    (receipt_verification Outcome.messaging_not_covered)
                  >> verify_receipt_references env
                      (read_reference to_messaging ∷ read_reference to_body ∷ []) elements)
                messaging_covered
              ∙ references_verified)

      accepted :
          (e : Element) (r : As4Receipt) (read_time : DateTime → DateTime)
          → r.soap_envelope ≡ some (read_envelope read_time built_envelope)
          → index_elements_by_id e ≡ ok elements
          → verify_signature env r e local_party.credentials.certificate ≡ ok tt
      unfolding verify_signature unverifiable_signature
      accepted e r read_time is i =
          rw
            (
              verify_signature,
              is,
              embedded,
              ==_refl local_party.credentials.certificate,
              verified,
              covered e i,
            )
            refl

  -- The receipt as `parse` makes it.
  abbrev parsed_receipt : (DateTime → DateTime) → As4Receipt
  parsed_receipt read_time = record {
    soap_envelope = some (read_envelope read_time built_envelope);
    original_message_id = original_id (some signal);
    references = none;
    profile_name = none;
  }

  read_signal-built :
      (read_time : DateTime → DateTime) (signal_data : Bytes) (e : Element)
      → env.xml.parse_xml signal_data ≡ some e
      → model_validate_etree env.schemas.envelope e ≡ ok (read_envelope read_time built_envelope)
      → read_signal env signal_data
        ≡ ok
            (e, read_envelope read_time built_envelope, some (read_signal_message read_time signal))
  unfolding read_signal signal_message get_messaging
  read_signal-built read_time signal_data e x v = rw (read_signal, x, v) refl

  errors_read :
      (read_time : DateTime → DateTime)
      → error (parsed_receipt read_time) ≡ ok (head? signal.errors)
  unfolding error errors signal_of signal_message errors_in get_messaging
  errors_read read_time = refl

  -- A signal without errors names the message that it answers.
  abbrev pub Names : Type 0
  Names = signal.errors ≡ [] → present (original_id (some signal)) ≡ true

  passes :
      (es : List Error) (p : Bool)
      → (es ≡ [] → p ≡ true)
      → not ((elim (head? es) [ none ↦ true | some _ ↦ false ]) && not p) ≡ true
  passes [] p h = let e = h refl in rw e refl
  passes (x ∷ es) p h = refl

  no_error-read :
      (read_time : DateTime → DateTime)
      → no_error (parsed_receipt read_time)
        ≡ ok (elim (head? signal.errors) [ none ↦ true | some _ ↦ false ])
  unfolding no_error
  no_error-read read_time = rw (no_error, errors_read read_time) refl

  parse-built :
      (read_time : DateTime → DateTime) (signal_data : Bytes) (e : Element)
      (elements : Dict Element)
      → env.xml.parse_xml signal_data ≡ some e
      → model_validate_etree env.schemas.envelope e ≡ ok (read_envelope read_time built_envelope)
      → index_elements_by_id e ≡ ok elements
      → Verifiable env local_party
      → Received env elements references.messaging_id messaging_tag dumped_messaging
      → Received env elements references.body_id body_tag dumped_body
      → Names
      → parse env signal_data local_party.credentials.certificate ≡ ok (parsed_receipt read_time)
  unfolding parse readable
  parse-built read_time signal_data e elements x validated i v first second n =
      rw
        (
          parse,
          read_signal-built read_time signal_data e x validated,
          readable,
          no_error-read read_time,
          passes signal.errors (present (original_id (some signal))) n,
          accepted v elements first second e (parsed_receipt read_time) read_time refl i,
        )
        refl

-- `parse` of the sender accepts every signal that the receiver builds, receipt or error signal:
-- it returns the built one, with the envelope as it is read and the id that the signal refers to
-- as the id of the original message. The conditions: the signal names a message unless it reports
-- an error; lxml and pydantic read the bytes as the envelope that was built, with the elements
-- that were read in the models that keep them and the times as they were written, which holds
-- where no text in it is empty; its elements, by id, have the canonical form and the tags of
-- those that were digested; and the third parties keep to their documentation, that is, the
-- signature verifies under the certificate of the party that signs, which its token holds, and
-- base64 reads back what it wrote.
pub parse-signal_receipt :
    (env : Environment) (t : Moment) (local_party : As4InternalParty) (references : As4References)
    (signal : SignalMessage) (read_time : DateTime → DateTime) (signal_data : Bytes)
    (answer : As4Receipt)
    → Returns env t local_party references signal read_time signal_data answer
    → Names env t local_party references signal
    → signal_receipt env t local_party references signal ≡ ok answer
    → parse env signal_data local_party.credentials.certificate
      ≡ ok (record answer {
        soap_envelope = read_carried read_time answer.soap_envelope;
        original_message_id = original_id (some signal);
        references = none;
      })
unfolding signal_receipt
parse-signal_receipt env t local_party references signal read_time signal_data answer w n h =
    let (envelope, is, made) =
      bind-eq-ok (get_soap_envelope env t local_party references signal) _ h in
    let same : envelope ≡ built_envelope env t local_party references signal =
      ok-injective (sym is ∙ get_soap_envelope-built env t local_party references signal) in
    let whole = sym (ok-injective made) in
    let sent : w.envelope ≡ built_envelope env t local_party references signal =
      some-injective (sym w.sent ∙ ap (λ (r : As4Receipt). r.soap_envelope) whole) ∙ same in
    parse-built env t local_party references signal read_time signal_data w.element w.elements
      w.parsed (w.validated ∙ ap (λ v. ok (read_envelope read_time v)) sent) w.indexed w.verifiable
      w.first w.second n
    ∙ ap
        (λ (r : As4Receipt). ok (record r {
          soap_envelope = read_carried read_time r.soap_envelope;
          original_message_id = original_id (some signal);
          references = none;
        }))
        (sym (
          whole
          ∙ ap
              (λ v. record {
                soap_envelope = some v;
                original_message_id = none;
                references = some references;
                profile_name = none;
              })
              same))
