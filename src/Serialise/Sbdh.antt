-- ===== src/Serialise/Sbdh.antt =====
-- `dump_to_xml` of the models of as4/models/unece/sbdh.py.
use as_lib.Base.{String, ◌<>◌, Option, [], ◌∷◌}
use as_lib.Platform.{DateTime}
use as_lib.Etree.{Element}
use as_lib.Models.Sbdh.{
  BusinessScope, DocumentIdentification, Identifier, Scope, ScopeIdentifier,
  StandardBusinessDocument, StandardBusinessDocumentHeader,
}
use as_lib.Serialise.{
  text_field, optional_field, element_field, list_field, optional_element, dump, dump_text,
  Serialised,
}

abbrev pub unece : String → String
unece name = "{http://www.unece.org/cefact/namespaces/StandardBusinessDocumentHeader}" <> name

-- A child whose one field is its text.
abbrev text_child : String → String → String × Option Serialised
text_child name s = element_field (unece name) (dump_text (unece name) s)

unfoldable pub dump_identifier : Identifier → Element
unfolding dump
dump_identifier i =
    dump (unece "Identifier")
      (optional_field "@Authority" i.authority ∷ text_field "#text" i.value ∷ []) []

-- `Sender` and `Receiver` have the same field.
dump_partner : String → Identifier → Element
unfolding dump_identifier
dump_partner name i =
    dump (unece name) (element_field (unece "Identifier") (dump_identifier i) ∷ []) []

unfoldable pub dump_scope : Scope → Element
unfolding dump
dump_scope s =
    dump (unece "Scope")
      (text_child "Type" s.scope_type.value
        ∷ text_child "InstanceIdentifier" s.instance_identifier.value
        ∷ optional_element (unece "Identifier")
            (λ (i : ScopeIdentifier). dump_text (unece "Identifier") i.value) s.identifier
        ∷ [])
      []

dump_business_scope : BusinessScope → Element
unfolding dump_scope
dump_business_scope b =
    dump (unece "BusinessScope") (list_field (unece "Scope") dump_scope b.scopes ∷ []) []

module _ (isoformat : DateTime → String) where
  unfoldable pub dump_document_identification : DocumentIdentification → Element
  unfolding dump
  dump_document_identification d =
      dump (unece "DocumentIdentification")
        (text_child "Standard" d.standard.value
          ∷ text_child "TypeVersion" d.type_version.value
          ∷ text_child "InstanceIdentifier" d.instance_identifier.value
          ∷ text_child "Type" d.document_identification_type.value
          ∷ text_child "CreationDateAndTime" (isoformat d.creation_date_and_time.value)
          ∷ [])
        []

  unfoldable pub dump_header : StandardBusinessDocumentHeader → Element
  unfolding dump_partner dump_document_identification dump_business_scope
  dump_header h =
      dump (unece "StandardBusinessDocumentHeader")
        (text_child "HeaderVersion" h.header_version.value
          ∷ element_field (unece "Sender") (dump_partner "Sender" h.sender.identifier)
          ∷ element_field (unece "Receiver") (dump_partner "Receiver" h.receiver.identifier)
          ∷ element_field (unece "DocumentIdentification")
              (dump_document_identification h.document_identification)
          ∷ element_field (unece "BusinessScope") (dump_business_scope h.business_scope)
          ∷ [])
        []

  unfoldable pub dump_standard_business_document : StandardBusinessDocument → Element
  unfolding dump_header
  dump_standard_business_document d =
      dump (unece "StandardBusinessDocument")
        (element_field (unece "StandardBusinessDocumentHeader")
            (dump_header d.standard_business_document_header)
          ∷ [])
        []
