-- ===== src/Models/MessageInfo.antt =====
-- The models of as4/models/ebms/description.py and message_info.py.
use as_lib.Base.{String, Option}
use as_lib.Platform.{DateTime}

pub record Description : Type 0 where
  pub value : String
  pub lang : Option String

pub record ErrorDetail : Type 0 where
  pub value : String

pub record Timestamp : Type 0 where
  pub value : DateTime

pub record MessageId : Type 0 where
  pub value : String

pub record RefToMessageId : Type 0 where
  pub value : String

pub record MessageInfo : Type 0 where
  pub timestamp : Timestamp
  pub message_id : MessageId
  pub ref_to_message_id : Option RefToMessageId
