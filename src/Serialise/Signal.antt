-- ===== src/Serialise/Signal.antt =====
-- `dump_to_xml` of a signal message and of the `eb:Messaging` that holds it.
use as_lib.Base.{String, ◌<>◌, Bool, Option, List, [], ◌∷◌}
use as_lib.Platform.{DateTime}
use as_lib.Etree.{Element}
use as_lib.Models.MessageInfo.{MessageInfo, Description, ErrorDetail, RefToMessageId}
use as_lib.Models.SignalMessage.{
  MessagePartNrInformation, NonRepudiationInformation, PullRequest, Receipt, Error, SignalMessage,
}
use as_lib.Serialise.{
  text_field, optional_field, element_field, list_field, optional_element, bool_text, dump,
  dump_text, dump_reference, wsu_id_alias,
}

abbrev pub eb : String → String
eb name = "{http://docs.oasis-open.org/ebxml-msg/ebms/v3.0/ns/core/200704/}" <> name

abbrev pub ebbpsig : String → String
ebbpsig name = "{http://docs.oasis-open.org/ebxml-bp/ebbp-signals-2.0}" <> name

-- `isoformat` is `datetime.isoformat(timespec="milliseconds")`.
module _ (isoformat : DateTime → String) where
  unfoldable pub dump_message_info : MessageInfo → Element
  unfolding dump
  dump_message_info i =
      dump (eb "MessageInfo")
        (element_field (eb "Timestamp") (dump_text (eb "Timestamp") (isoformat i.timestamp.value))
          ∷ element_field (eb "MessageId") (dump_text (eb "MessageId") i.message_id.value)
          ∷ optional_element (eb "RefToMessageId")
              (λ (r : RefToMessageId). dump_text (eb "RefToMessageId") r.value) i.ref_to_message_id
          ∷ [])
        []

  dump_part : MessagePartNrInformation → Element
  unfolding dump_reference
  dump_part p =
      let name : String = "{http://www.w3.org/2000/09/xmldsig#}Reference" in
      dump (ebbpsig "MessagePartNrInformation")
        (list_field name (dump_reference name) p.references ∷ []) []

  dump_non_repudiation : NonRepudiationInformation → Element
  unfolding dump_part
  dump_non_repudiation i =
      dump (ebbpsig "NonRepudiationInformation")
        (list_field (ebbpsig "MessagePartNrInformation") dump_part i.message_part_nr_information
          ∷ [])
        []

  dump_receipt : Receipt → Element
  unfolding dump_non_repudiation
  dump_receipt r =
      dump (eb "Receipt")
        (optional_element (ebbpsig "NonRepudiationInformation") dump_non_repudiation
            r.non_repudiation_information
          ∷ [])
        []

  dump_error : Error → Element
  unfolding dump
  dump_error e =
      dump (eb "Error")
        (optional_element (eb "Description")
            (λ (d : Description).
              dump (eb "Description")
                (text_field "#text" d.value
                  ∷ optional_field "@{http://www.w3.org/XML/1998/namespace}lang" d.lang
                  ∷ [])
                [])
            e.description
          ∷ optional_element (eb "ErrorDetail")
              (λ (d : ErrorDetail). dump_text (eb "ErrorDetail") d.value) e.error_detail
          ∷ optional_field "@category" e.category
          ∷ optional_field "@refToMessageInError" e.ref_to_message_in_error
          ∷ text_field "@errorCode" e.error_code
          ∷ optional_field "@origin" e.origin
          ∷ text_field "@severity" e.severity
          ∷ optional_field "@shortDescription" e.short_description
          ∷ [])
        []

  dump_pull_request : PullRequest → Element
  unfolding dump
  dump_pull_request r = dump (eb "PullRequest") (optional_field "@mpc" r.mpc ∷ []) []

  unfoldable pub dump_signal_message : SignalMessage → Element
  unfolding dump_message_info dump_pull_request dump_receipt dump_error
  dump_signal_message m =
      dump (eb "SignalMessage")
        (element_field (eb "MessageInfo") (dump_message_info m.message_info)
          ∷ optional_element (eb "PullRequest") dump_pull_request m.pull_request
          ∷ optional_element (eb "Receipt") dump_receipt m.receipt
          ∷ list_field (eb "Error") dump_error m.errors
          ∷ [])
        []

  -- `Messaging.dump_to_xml` of an envelope that holds signal messages only.
  unfoldable pub dump_signal_messaging : List SignalMessage → Option String → Bool → Element
  unfolding dump_signal_message
  dump_signal_messaging signals messaging_id must_understand =
      dump (eb "Messaging")
        (list_field (eb "SignalMessage") dump_signal_message signals
          ∷ optional_field wsu_id_alias messaging_id
          ∷ text_field "@{http://www.w3.org/2003/05/soap-envelope}mustUnderstand"
              (bool_text must_understand)
          ∷ [])
        []
