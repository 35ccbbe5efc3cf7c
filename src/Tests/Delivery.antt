-- ===== src/Tests/Delivery.antt =====
-- A message that is built, and read back.
use as_lib.Base.{
  ◌≡◌, refl, arith, String, Bool, true, false, Option, none, some, List, [], ◌∷◌, ◌==◌, ==_refl,
  All, ◌≤◌, length, if◌then◌else◌,
}
use as_lib.Platform.{bytes_eq}
use as_lib.Outcome.{ok}
use as_lib.Message.{blank}
use as_lib.Message.Process.{process_envelope}
use as_lib.Peppol.{PeppolAs4Message, blank_peppol}
use as_lib.Peppol.Process.{process_sbdh}
use as_lib.Peppol.Build.{get_standard_business_document}
use as_lib.Peppol.Build.Envelope.{message_of}
use as_lib.Peppol.Build.Parts.{filled}
use as_lib.Peppol.Build.Delivered.{build_message-ReadBack}
use as_lib.Peppol.Build.Signed.{references_of}
use as_lib.Peppol.Profile.{
  document_type_identifier_of, build_peppol_message, builder_args, create_peppol_internal_party,
}
use as_lib.Peppol.Profile.Carried.{build_peppol_message-process_sbdh}
use as_lib.Serialise.Reading.{read_envelope}
use as_lib.Tests.Fixtures.{alice, anchor, document, envelope}
use as_lib.Tests.Settings.{identifiers}
use as_lib.Tests.Identifiers.{invoice, invoice_text}
use as_lib.Tests.Building.{
  sender, receiver, supplies, business, args, sbd, world, reader, message, built, delivered,
  received, small, reads, to_milliseconds, unwrap,
}

build_message-ReadBack_example :
    process_envelope world reader document message.mime_attachments received blank ≡ (
      ok tt,
      record blank { signer_certificate = some alice; decrypted_data = message.decrypted_data },
    )
unfolding message_of create_peppol_internal_party
build_message-ReadBack_example =
    build_message-ReadBack world supplies sender receiver [] args identifiers
      (filled supplies identifiers) message reader document (delivered envelope) (built envelope)
      received blank refl small

abbrev held : PeppolAs4Message
held = record blank_peppol {
  as4 = record message.as4 {
    soap_envelope = some (read_envelope to_milliseconds received);
    signer_certificate = some alice;
  };
}

named : document_type_identifier_of business ≡ ok invoice
unfolding document_type_identifier_of as_lib.Base.string_eq
named = refl

carried :
    build_peppol_message world supplies [] "i" [] sender receiver business (some identifiers)
    ≡ ok (message, filled supplies identifiers)
unfolding build_peppol_message as_lib.Base.string_eq references_of
carried = refl

build_peppol_message-process_sbdh_example : process_sbdh world (λ _. "") reader held ≡ (
  ok tt,
  record held {
    sender = some "9915:a";
    recipient = some "9915:b";
    document_type_identifier_value = some invoice_text;
    document_type_identifier_scheme = some "busdox-docid-qns";
    process_identifier = some "urn:process";
  },
)
unfolding as_lib.Base.Regex.first_line get_standard_business_document builder_args
    as_lib.Peppol.accept_recipient message_of
build_peppol_message-process_sbdh_example =
    build_peppol_message-process_sbdh world supplies [] "i" [] "alice" "bob" alice anchor
      (record { sign = λ b. b; decrypt = unwrap }) business (some identifiers) message held
      (filled supplies identifiers) (λ _. "") reader to_milliseconds invoice sbd carried refl named
      refl refl (reads envelope) (record { envelope = refl; attachments = refl; decrypted = refl })
