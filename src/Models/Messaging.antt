-- ===== src/Models/Messaging.antt =====
-- The model of as4/models/ebms/messaging.py.
use as_lib.Base.{String, Bool, Option, List}
use as_lib.Models.UserMessage.{UserMessage}
use as_lib.Models.SignalMessage.{SignalMessage}

pub record Messaging : Type 0 where
  pub signal_messages : List SignalMessage
  pub user_messages : List UserMessage
  pub messaging_id : Option String
  pub w3_org_2003_05_soap_envelope_must_understand : Option Bool
