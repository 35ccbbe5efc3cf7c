-- ===== src/Receipt/Signals.antt =====
-- The signal messages that `AS4Receipt` of as4/core/receipt.py builds.
use as_lib.Base.{
  ℕ, String, true, Option, none, some, List, [], ◌∷◌, string_eq, option_eq, if◌then◌else◌,
}
use as_lib.Base.Text.{nonempty}
use as_lib.Models.Reference.{Reference}
use as_lib.Platform.{DateTime}
use as_lib.Models.MessageInfo.{MessageInfo, RefToMessageId}
use as_lib.Models.SignalMessage.{SignalMessage, MessagePartNrInformation}
use as_lib.Models.Messaging.{Messaging}
use as_lib.References.{As4References, default_references}

-- What the clock, the random identifiers and `isoformat` give while a signal is built.
pub record Moment : Type 0 where
  pub now : DateTime
  pub isoformat : DateTime → String
  pub uuid : ℕ → String

-- `if not references: references = AS4References()`
unfoldable pub given_or_new : Moment → Option As4References → As4References
unfolding default_references
given_or_new t none = default_references t.uuid
given_or_new t (some r) = r

-- `[MessagePartNRInformation(references=[ref]) for ref in …]`
unfoldable pub parts_for : List Reference → List MessagePartNrInformation
parts_for [] = []
parts_for (r ∷ rest) = record { references = r ∷ [] } ∷ parts_for rest

-- What the error signal carries of the error: `AS4ErrorReceiptBuilderArgs`.
pub record ErrorArgs : Type 0 where
  pub error_code : String
  pub error_short_description : String
  pub error_severity : String
  pub error_detail : String
  pub error_description : String
  pub error_category : String

message_info : Moment → As4References → Option RefToMessageId → MessageInfo
message_info t references ref = record {
  timestamp = record { value = t.now };
  message_id = record { value = references.message_id };
  ref_to_message_id = ref;
}

unfoldable pub get_success_signal_message :
    Moment → String → List Reference → As4References → SignalMessage
unfolding parts_for message_info
get_success_signal_message t referenced_message_id references_to_confirm references = record {
  message_info = message_info t references (some (record { value = referenced_message_id }));
  pull_request = none;
  receipt = some (record {
    non_repudiation_information =
        some (record { message_part_nr_information = parts_for references_to_confirm });
  });
  errors = [];
}

-- `value or None`, where the value is a text
nonempty_or_none : String → Option String
unfolding nonempty
nonempty_or_none s = if nonempty s then some s else none

ref_to : Option String → Option RefToMessageId
ref_to none = none
ref_to (some s) = some (record { value = s })

unfoldable pub get_error_signal_message :
    Moment → ErrorArgs → String → As4References → SignalMessage
unfolding message_info nonempty_or_none ref_to
get_error_signal_message t a referenced_message_id references = record {
  message_info = message_info t references (ref_to (nonempty_or_none referenced_message_id));
  pull_request = none;
  receipt = none;
  errors =
      record {
        description = some (record { value = a.error_description; lang = none });
        error_detail = some (record { value = a.error_detail });
        category = some a.error_category;
        ref_to_message_in_error = nonempty_or_none referenced_message_id;
        error_code = a.error_code;
        origin = none;
        severity = a.error_severity;
        short_description = some a.error_short_description;
      }
      ∷ [];
}

unfoldable pub get_messaging : As4References → SignalMessage → Messaging
get_messaging references signal = record {
  signal_messages = signal ∷ [];
  user_messages = [];
  messaging_id = some references.messaging_id;
  w3_org_2003_05_soap_envelope_must_understand = some true;
}
