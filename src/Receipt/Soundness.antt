-- ===== src/Receipt/Soundness.antt =====
-- What a receipt that `AS4Receipt.parse` returns has shown.
use mathlib.Core.Path.{subst}
use as_lib.Base.{
  ◌≡◌, refl, ap, sym, ◌∙◌, arith, String, Bool, true, not, ◌&&◌, none, some, List, [], ◌∷◌, All,
  contains, ◌==◌, ==→eq, string_eq,
}
use as_lib.Base.Text.{remove_prefix}
use as_lib.Base.Dict
use as_lib.Base.Dict.{Dict}
use as_lib.Platform.{Bytes, Certificate, certificate_eq}
use as_lib.Etree.{Element, index_elements_by_id}
use as_lib.Outcome.{
  Result, ok, err, require, ensure, bind-eq-ok, ensure-eq-ok, ok-injective, some-injective,
  require-eq-some,
}
use as_lib.Environment.{Environment}
use as_lib.Models.Reference.{Reference}
use as_lib.Models.Signature.{Signature}
use as_lib.Models.Soap.{Envelope}
use as_lib.Models.Mapping.{model_validate_etree}
use as_lib.Dsig.{or_empty, digest_matches}
use as_lib.Dsig.Verify.{verify}
use as_lib.Documents.{signal_message}
use as_lib.Message.{present}
use as_lib.Message.Coverage.{signature_coverage}
use as_lib.Receipt.{As4Receipt}
use as_lib.Receipt.Verification.{
  readable, unverifiable_signature, unverifiable_reference, embedded_certificate,
  verify_receipt_reference, verify_receipt_references, verify_covered, verify_signature,
  original_id, no_error, read_signal, parse,
}

pub readable-eq-ok : {A : Type 0} → (m : Result A) (a : A) → readable m ≡ ok a → m ≡ ok a
unfolding readable
readable-eq-ok (ok x) a h = h
readable-eq-ok (err x) a h = ground arith

unverifiable_signature-eq-ok :
    (m : Result (Unit {0})) → unverifiable_signature m ≡ ok tt → m ≡ ok tt
unfolding unverifiable_signature
unverifiable_signature-eq-ok (ok x) h = refl
unverifiable_signature-eq-ok (err x) h = ground arith

unverifiable_reference-eq-ok :
    (uri : String) (m : Result Bool) (b : Bool) → unverifiable_reference uri m ≡ ok b → m ≡ ok b
unfolding unverifiable_reference
unverifiable_reference-eq-ok uri (ok x) b h = h
unverifiable_reference-eq-ok uri (err x) b h = ground arith

module _ (env : Environment) where
  -- The reference names an element of the document, whose digest is the one that it gives.
  pub record Matches (elements : Dict Element) (r : Reference) : Type 0 where
    pub target : Element
    pub found : Dict.get elements (remove_prefix (or_empty r.uri) "#") ≡ some target
    pub same_digest : digest_matches env.crypto env.xml.c14n r target ≡ ok true

  reference-Matches :
      (elements : Dict Element) (r : Reference)
      → verify_receipt_reference env elements r ≡ ok tt
      → Matches elements r
  unfolding verify_receipt_reference
  reference-Matches elements r h =
      let (target, e, h1) =
        bind-eq-ok (require (Dict.get elements (remove_prefix (or_empty r.uri) "#")) _) _ h in
      let (b, m, h2) =
        bind-eq-ok
          (unverifiable_reference (or_empty r.uri)
            (digest_matches env.crypto env.xml.c14n r target))
          _ h1 in
      record {
        target = target;
        found = require-eq-some _ _ e;
        same_digest =
            unverifiable_reference-eq-ok (or_empty r.uri) _ true
              (m ∙ ap ok (ensure-eq-ok b _ tt h2));
      }

  references-Matches :
      (rs : List Reference) (elements : Dict Element)
      → verify_receipt_references env rs elements ≡ ok tt
      → All (Matches elements) rs
  unfolding verify_receipt_references
  references-Matches [] elements h = tt
  references-Matches (r ∷ rs) elements h =
      let (u, e, h1) = bind-eq-ok (verify_receipt_reference env elements r) _ h in
      (reference-Matches elements r e, references-Matches rs elements h1)

  -- What the bytes of a signal show, for the certificate of the party that is expected to sign it.
  pub record Authentic (signal : Bytes) (expected_signer : Certificate) (r : As4Receipt)
      : Type 0 where
    pub e : Element
    pub envelope : Envelope
    pub s : Signature
    pub elements : Dict Element
    pub read : env.xml.parse_xml signal ≡ some e
    pub validated : model_validate_etree env.schemas.envelope e ≡ ok envelope
    pub in_receipt : r.soap_envelope ≡ some envelope
    pub signed : envelope.header.security.signature ≡ some s
    pub embedded : embedded_certificate env envelope.header.security s ≡ ok expected_signer
    pub verified : verify env.crypto env.xml.c14n s expected_signer ≡ ok tt
    pub indexed : index_elements_by_id e ≡ ok elements
    pub covers_messaging : contains (signature_coverage s elements []) "messaging" ≡ true
    pub digests : All (Matches elements) s.signed_info.references

  signature-Authentic :
      (signal : Bytes) (e : Element) (envelope : Envelope) (signer : Certificate) (r : As4Receipt)
      → env.xml.parse_xml signal ≡ some e
      → model_validate_etree env.schemas.envelope e ≡ ok envelope
      → r.soap_envelope ≡ some envelope
      → verify_signature env r e signer ≡ ok tt
      → Authentic signal signer r
  unfolding verify_signature verify_covered
  signature-Authentic signal e envelope signer r x v n h =
      let (w, is_w, h1) = bind-eq-ok (require r.soap_envelope _) _ h in
      let (s, is_s, h2) = bind-eq-ok (require w.header.security.signature _) _ h1 in
      let (c, is_c, h3) = bind-eq-ok (embedded_certificate env w.header.security s) _ h2 in
      let (u, same, h4) = bind-eq-ok (ensure (c == signer) _) _ h3 in
      let (u2, is_v, h5) =
        bind-eq-ok (unverifiable_signature (verify env.crypto env.xml.c14n s signer)) _ h4 in
      let (elements, is_x, h6) = bind-eq-ok (index_elements_by_id e) _ h5 in
      let (u3, covered, h7) =
        bind-eq-ok (ensure (contains (signature_coverage s elements []) "messaging") _) _ h6 in
      let to_envelope : w ≡ envelope = some-injective (sym (require-eq-some _ _ is_w) ∙ n) in
      record {
        e = e;
        envelope = envelope;
        s = s;
        elements = elements;
        read = x;
        validated = v;
        in_receipt = n;
        signed = ap (λ y. y.header.security.signature) (sym to_envelope) ∙ require-eq-some _ _ is_s;
        embedded =
            (ap (λ y. embedded_certificate env y.header.security s) (sym to_envelope) ∙ is_c)
            ∙ ap ok (==→eq c signer (ensure-eq-ok _ _ _ same));
        verified = unverifiable_signature-eq-ok _ is_v;
        indexed = is_x;
        covers_messaging = ensure-eq-ok _ _ _ covered;
        digests = references-Matches _ elements h7;
      }

  -- When `parse` returns a receipt, then the bytes are the envelope in it, signed by a token that
  -- is the expected certificate and verifying under its key; the signature covers `eb:Messaging`,
  -- and the digest of each of its references is that of the element named.
  pub parse-Authentic :
      (signal : Bytes) (expected_signer : Certificate) (r : As4Receipt)
      → parse env signal expected_signer ≡ ok r
      → Authentic signal expected_signer r
  unfolding parse read_signal
  parse-Authentic signal signer r h =
      let ((e, envelope, m), read, h1) = bind-eq-ok (readable (read_signal env signal)) _ h in
      let (e', x, g1) =
        bind-eq-ok (require (env.xml.parse_xml signal) _) _ (readable-eq-ok _ _ read) in
      let (v', v, g2) = bind-eq-ok (model_validate_etree env.schemas.envelope e') _ g1 in
      let (m', s, g3) = bind-eq-ok (signal_message v'.header.messaging) _ g2 in
      let same : (e', v', m') ≡ (e, envelope, m) = ok-injective g3 in
      let built : As4Receipt = record {
        soap_envelope = some envelope;
        original_message_id = original_id m;
        references = none;
        profile_name = none;
      } in
      let (accepted, a, h2) = bind-eq-ok (no_error built) _ h1 in
      let (u, c, h3) =
        bind-eq-ok (ensure (not (accepted && not (present (original_id m)))) _) _ h2 in
      let (w, signed, h4) = bind-eq-ok (verify_signature env built e signer) _ h3 in
      subst (Authentic signal signer) (ok-injective h4) (
        signature-Authentic signal e envelope signer built
          (require-eq-some _ _ x ∙ ap (λ p. some p.0) same)
          ((ap (λ p. model_validate_etree env.schemas.envelope p.0) (sym same) ∙ v)
            ∙ ap (λ p. ok p.1) same)
          refl signed)
