-- ===== src/Peppol/Process.antt =====
-- `process` and `process_sbdh` of as4/profiles/peppol/message.py.
use as_lib.Base.{
  String, ◌<>◌, Option, none, some, List, [], ◌∷◌, string_eq, option_eq, if◌then◌else◌,
}
use as_lib.Base.Text.{nonempty}
use as_lib.Base.Dict
use as_lib.Base.Dict.{Dict}
use as_lib.Errors
use as_lib.Errors.{error_of}
use as_lib.Platform.{Bytes}
use as_lib.Etree.{Element}
use as_lib.Outcome.{Result, ok, err, require, ensure, receiptable}
use as_lib.Parties.{As4ParseContext}
use as_lib.Environment.{Environment}
use as_lib.Message.{As4Message}
use as_lib.Outcome.{validation, bind}
use as_lib.Outcome.Validation.{from_pydantic_error}
use as_lib.Outcome.Exec.{Exec, lift, modify, ◌>>=◌, ◌>>◌}
use as_lib.Models.Mapping.{model_validate_etree}
use as_lib.Models.UserMessage.{MessageProperties}
use as_lib.Models.Sbdh.{Scope, StandardBusinessDocument, StandardBusinessDocumentHeader}
use as_lib.Message.Process.{process}
use as_lib.Message.Parse.{MessageClass}
use as_lib.Peppol.{
  PeppolAs4Message, accept_recipient, blank_peppol, missing_scopes, none_missing, sbdh_error,
  scope_fields, scope_of, user_message_of, verify_participants_agree, verify_party_identifiers,
}

-- The id of the first attachment, and what was decrypted under it.
unfoldable pub first_payload : As4Message → Option Bytes
unfolding Dict.get
first_payload m = elim m.mime_attachments [ [] ↦ none | (id, _) ∷ _ ↦ Dict.get m.decrypted_data id ]

-- The text of the schema's error in the detail.
reported : String → String
unfolding nonempty
reported s = if nonempty s then ": " <> s else ""

abbrev pub sbdh_path : String
sbdh_path =
    "{http://www.unece.org/cefact/namespaces/StandardBusinessDocumentHeader}StandardBusinessDocumentHeader"

-- `show_set` is how Python prints a set of texts, in an order that it does not promise.
module _ (env : Environment) (show_set : List String → String) (ctx : As4ParseContext) where
  -- From the payload to the validated document.
  unfoldable pub read_document : As4Message → Result StandardBusinessDocument
  unfolding first_payload model_validate_etree reported
  read_document m =
      bind
        (require (first_payload m)
          (sbdh_error "The first MIME attachment carries no decrypted payload"))
        λ payload.
          bind
            (require (env.xml.parse_xml payload)
              (sbdh_error "The first MIME attachment is not well-formed XML"))
            λ e.
              bind
                (require (env.xml.find e sbdh_path)
                  (sbdh_error "Decrypted payload carries no StandardBusinessDocumentHeader"))
                λ header. elim (env.xml.sbdh_validation_error header) [
                  | some problem ↦
                      err (sbdh_error ("The SBDH is not schema valid" <> reported problem))
                  | none ↦ model_validate_etree env.schemas.standard_business_document e
                ]

  -- `None if user_message is None else user_message.message_properties`
  unfoldable pub message_properties : As4Message → Result (Option MessageProperties)
  unfolding user_message_of
  message_properties m =
      bind (user_message_of m.soap_envelope)
        λ found. ok (elim found [ none ↦ none | some um ↦ um.message_properties ])

  unfoldable pub check_participants :
      StandardBusinessDocumentHeader → As4Message → Result (Unit {0})
  unfolding message_properties verify_participants_agree
  check_participants header m =
      if ctx.security_policy.verify_participants
      then bind (message_properties m)
          (λ ps. verify_participants_agree ps header.sender.identifier header.receiver.identifier)
      else ok tt

  unfoldable pub check_scopes : List Scope → Result (Scope × Scope)
  unfolding missing_scopes scope_of none_missing
  check_scopes scopes =
      let missing = missing_scopes scopes in
      let absent = sbdh_error ("Missing expected scopes with scope types: " <> show_set missing) in
      bind (ensure (none_missing missing) absent) λ _.
        bind (require (scope_of "DOCUMENTID" scopes) absent) λ document_scope.
          bind (require (scope_of "PROCESSID" scopes) absent)
            λ process_scope. ok (document_scope, process_scope)

  unfoldable pub process_sbdh : Exec PeppolAs4Message (Unit {0})
  unfolding verify_party_identifiers read_document check_participants accept_recipient check_scopes
      scope_fields
  process_sbdh f =
      let steps : Exec PeppolAs4Message (Unit {0}) = do
        lift (verify_party_identifiers f.soap_envelope)
        document ← lift (read_document f.as4)
        let header = document.standard_business_document_header
        modify (λ g. record g {
          sender = some header.sender.identifier.value;
          recipient = some header.receiver.identifier.value;
        })
        lift (check_participants header f.as4)
        lift (accept_recipient ctx.accept_participant header.receiver.identifier.value)
        found ← lift (check_scopes header.business_scope.scopes)
        modify (scope_fields found.0 found.1)
      in steps f

  -- `except ValidationError`, round `process_sbdh` alone
  unfoldable pub refuse_invalid : Result (Unit {0}) → Result (Unit {0})
  unfolding from_pydantic_error
  refuse_invalid (ok u) = ok u
  refuse_invalid (err (validation first rest)) =
      err (receiptable (from_pydantic_error Errors.peppol_sbdh first))
  refuse_invalid (err e) = err e

  -- `super().process`, which writes the fields of `AS4Message`
  unfoldable pub in_base : Exec As4Message (Unit {0}) → Exec PeppolAs4Message (Unit {0})
  in_base m f = let (r, b) = m f.as4 in (r, record f { as4 = b })

  unfoldable pub guarded_sbdh : Exec PeppolAs4Message (Unit {0})
  unfolding process_sbdh refuse_invalid
  guarded_sbdh f = let (r, g) = process_sbdh f in (refuse_invalid r, g)

  unfoldable pub process_peppol : Element → Dict Bytes → Exec PeppolAs4Message (Unit {0})
  unfolding process in_base guarded_sbdh
  process_peppol e mime_attachments = do in_base (process env ctx e mime_attachments); guarded_sbdh

-- `PeppolAS4Message` as the class that `parse` is called on.
unfoldable pub peppol_message_class :
    Environment → (List String → String) → MessageClass PeppolAs4Message
unfolding process_peppol
peppol_message_class env show_set = record {
  initial = blank_peppol;
  base = λ m. m.as4;
  with_base = λ m b. record m { as4 = b };
  process = λ ctx e mime. process_peppol env show_set ctx e mime;
}
