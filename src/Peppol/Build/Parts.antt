-- ===== src/Peppol/Build/Parts.antt =====
-- What a message that `build_message` of as4/profiles/peppol/message.py returns is made of.
use as_lib.Base.{◌∙◌, ◌≡◌, sym, ap, String, true, some, [], ◌∷◌}
use as_lib.Platform.{Bytes}
use as_lib.Etree.{Element}
use as_lib.Outcome.{ok, ensure, require, bind-eq-ok, ensure-eq-ok, require-eq-some, ok-injective}
use as_lib.Environment.{Environment}
use as_lib.Models.Sbdh.{StandardBusinessDocument}
use as_lib.Models.Signature.{SignedInfo}
use as_lib.Parties.{As4ExternalParty, As4InternalParty}
use as_lib.References.{As4References, encrypted_data_attachment_mapping}
use as_lib.Peppol.{PeppolAs4Message}
use as_lib.Peppol.Build.{BuilderArgs, Supplies, encrypt_payload, get_standard_business_document}
use as_lib.Peppol.Build.Signing.{get_signed_info}
use as_lib.Peppol.Build.Envelope.{
  body_of, build_message, envelope_of, get_soap_envelope, message_of, messaging_of, written_of,
}

-- The references once their map is filled, and the attachment's id and its data's.
abbrev pub filled : Supplies → As4References → As4References
filled s references = (encrypted_data_attachment_mapping s.moment.uuid references).1

abbrev pub entry_of : Supplies → As4References → String × String
entry_of s references = (encrypted_data_attachment_mapping s.moment.uuid references).0

module _ (env : Environment) (s : Supplies) (local_party : As4InternalParty)
    (remote_party : As4ExternalParty) where
  -- The parts of a built message: the business document, the payload as the parser read it, and
  -- what its signature signs.
  pub record Built (payload : Bytes) (a : BuilderArgs) (references : As4References)
      (m : PeppolAs4Message) : Type 0 where
    pub sbd : StandardBusinessDocument
    pub stated : get_standard_business_document s a ≡ ok sbd
    pub document : Element
    pub parsed : env.xml.parse_xml payload ≡ some document
    pub rsa_key : env.crypto.is_rsa remote_party.credentials.certificate ≡ true
    pub signed_info : SignedInfo
    pub signs :
        get_signed_info env s
          (filled s references)
          (messaging_of s local_party remote_party a (filled s references))
          (body_of (filled s references))
          (((entry_of s references).0, s.gzip_compress (written_of s sbd document)) ∷ [])
        ≡ ok signed_info
    pub made :
        m
        ≡ message_of a references
            (entry_of s references).0
            (encrypt_payload s (s.gzip_compress (written_of s sbd document))).1
            (written_of s sbd document)
            (envelope_of env s local_party remote_party a
              (filled s references)
              (s.rsa_oaep_encrypt remote_party.credentials.certificate s.generate_key)
              signed_info)

  pub build_message-Built :
      (payload : Bytes) (a : BuilderArgs) (references : As4References) (m : PeppolAs4Message)
      (after : As4References)
      → build_message env s local_party remote_party payload a references ≡ ok (m, after)
      → Built payload a references m
  unfolding build_message get_soap_envelope encrypt_payload
  build_message-Built payload a references m after h =
      let (sbd, e1, h1) = bind-eq-ok (get_standard_business_document s a) _ h in
      let (document, e2, h2) = bind-eq-ok (require (env.xml.parse_xml payload) _) _ h1 in
      let (u, e3, h3) =
        bind-eq-ok (ensure (env.crypto.is_rsa remote_party.credentials.certificate) _) _ h2 in
      let attached =
        ((entry_of s references).0, s.gzip_compress (written_of s sbd document)) ∷ [] in
      let key = s.rsa_oaep_encrypt remote_party.credentials.certificate s.generate_key in
      let (envelope, e4, h4) =
        bind-eq-ok
          (get_soap_envelope env s local_party remote_party a (filled s references) key attached) _
          h3 in
      let (i, e5, h5) =
        bind-eq-ok
          (get_signed_info env s (filled s references)
            (messaging_of s local_party remote_party a (filled s references))
            (body_of (filled s references)) attached)
          _ e4 in
      record {
        sbd = sbd;
        stated = e1;
        document = document;
        parsed = require-eq-some _ _ e2;
        rsa_key = ensure-eq-ok _ _ _ e3;
        signed_info = i;
        signs = e5;
        made =
            sym (ap (λ p. p.0) (ok-injective h4))
            ∙ ap (message_of a references _ _ _) (sym (ok-injective h5));
      }
