-- ===== src/Serialise/UserMessages.antt =====
-- `dump_to_xml` of a user message, and of the `eb:Messaging` that holds it.
use as_lib.Base.{String, none, some, [], ◌∷◌}
use as_lib.Platform.{DateTime}
use as_lib.Etree.{Element}
use as_lib.Models.MessageInfo.{Description}
use as_lib.Models.Messaging.{Messaging}
use as_lib.Models.UserMessage.{
  AgreementRef, CollaborationInfo, MessageProperties, PartInfo, PartProperties, PartyId, PartyInfo,
  PayloadInfo, Property, Role, Schema, UserMessage,
}
use as_lib.Serialise.{
  text_field, optional_field, element_field, list_field, optional_element, bool_text, dump,
  dump_text, wsu_id_alias,
}
use as_lib.Serialise.Signal.{eb, dump_message_info, dump_signal_message}

dump_party_id : PartyId → Element
unfolding dump
dump_party_id p =
    dump (eb "PartyId") (text_field "#text" p.value ∷ optional_field "@type" p.type_value ∷ []) []

-- `PartyFrom` and `PartyTo` have the same fields.
unfoldable pub dump_party : String → PartyId → Role → Element
unfolding dump_party_id
dump_party name id role =
    dump (eb name)
      (element_field (eb "PartyId") (dump_party_id id)
        ∷ element_field (eb "Role") (dump_text (eb "Role") role.value)
        ∷ [])
      []

unfoldable pub dump_party_info : PartyInfo → Element
unfolding dump_party
dump_party_info p =
    dump (eb "PartyInfo")
      (element_field (eb "From") (dump_party "From" p.party_from.party_id p.party_from.role)
        ∷ element_field (eb "To") (dump_party "To" p.party_to.party_id p.party_to.role)
        ∷ [])
      []

unfoldable pub dump_property : Property → Element
unfolding dump
dump_property p =
    dump (eb "Property")
      (optional_field "@type" p.property_type
        ∷ text_field "#text" p.value
        ∷ text_field "@name" p.name
        ∷ [])
      []

dump_agreement_ref : AgreementRef → Element
unfolding dump
dump_agreement_ref a =
    dump (eb "AgreementRef")
      (text_field "#text" a.value
        ∷ optional_field "@type" a.type_value
        ∷ optional_field "@pmode" a.pmode
        ∷ [])
      []

unfoldable pub dump_collaboration_info : CollaborationInfo → Element
unfolding dump_agreement_ref
dump_collaboration_info i =
    dump (eb "CollaborationInfo")
      (optional_element (eb "AgreementRef") dump_agreement_ref i.agreement_ref
        ∷ element_field (eb "Service") (
            dump (eb "Service")
              (text_field "#text" i.service.value
                ∷ optional_field "@type" i.service.type_value
                ∷ [])
              [])
        ∷ element_field (eb "Action") (dump_text (eb "Action") i.action.value)
        ∷ element_field (eb "ConversationId")
            (dump_text (eb "ConversationId") i.conversation_id.value)
        ∷ [])
      []

dump_message_properties : MessageProperties → Element
unfolding dump_property
dump_message_properties ps =
    dump (eb "MessageProperties") (list_field (eb "Property") dump_property ps.properties ∷ []) []

dump_schema : Schema → Element
unfolding dump
dump_schema s =
    dump (eb "Schema")
      (text_field "@location" s.location
        ∷ optional_field "@version" s.version
        ∷ optional_field "@namespace" s.namespace
        ∷ [])
      []

dump_description : Description → Element
unfolding dump
dump_description d =
    dump (eb "Description")
      (text_field "#text" d.value
        ∷ optional_field "@{http://www.w3.org/XML/1998/namespace}lang" d.lang
        ∷ [])
      []

dump_part_properties : PartProperties → Element
unfolding dump_property
dump_part_properties ps =
    dump (eb "PartProperties") (list_field (eb "Property") dump_property ps.properties ∷ []) []

unfoldable pub dump_part_info : PartInfo → Element
unfolding dump_schema dump_description dump_part_properties
dump_part_info p =
    dump (eb "PartInfo")
      (list_field (eb "Schema") dump_schema p.part_schema
        ∷ list_field (eb "Description") dump_description p.description
        ∷ element_field (eb "PartProperties") (dump_part_properties p.part_properties)
        ∷ optional_field "@href" p.href
        ∷ [])
      []

dump_payload_info : PayloadInfo → Element
unfolding dump_part_info
dump_payload_info i =
    dump (eb "PayloadInfo") (list_field (eb "PartInfo") dump_part_info i.part_info ∷ []) []

module _ (isoformat : DateTime → String) where
  unfoldable pub dump_user_message : UserMessage → Element
  unfolding dump_message_info dump_party_info dump_collaboration_info dump_message_properties
      dump_payload_info
  dump_user_message m =
      dump (eb "UserMessage")
        (element_field (eb "MessageInfo") (dump_message_info isoformat m.message_info)
          ∷ element_field (eb "PartyInfo") (dump_party_info m.party_info)
          ∷ element_field (eb "CollaborationInfo") (dump_collaboration_info m.collaboration_info)
          ∷ optional_element (eb "MessageProperties") dump_message_properties m.message_properties
          ∷ optional_element (eb "PayloadInfo") dump_payload_info m.payload_info
          ∷ optional_field "@mpc" m.mpc
          ∷ [])
        []

  -- `Messaging.dump_to_xml`, of a model that the program has built.
  unfoldable pub dump_messaging : Messaging → Element
  unfolding dump_signal_message dump_user_message
  dump_messaging m =
      dump (eb "Messaging")
        (list_field (eb "SignalMessage") (dump_signal_message isoformat) m.signal_messages
          ∷ list_field (eb "UserMessage") dump_user_message m.user_messages
          ∷ optional_field wsu_id_alias m.messaging_id
          ∷ optional_field "@{http://www.w3.org/2003/05/soap-envelope}mustUnderstand"
              (elim m.w3_org_2003_05_soap_envelope_must_understand [
                | none ↦ none
                | some b ↦ some (bool_text b)
              ])
          ∷ [])
        []
