-- ===== src/Models/SignalMessage.antt =====
-- The models of as4/models/ebbp/non_repudiation_information.py and as4/models/ebms/signal_message.py.
use as_lib.Base.{String, Option, List}
use as_lib.Models.Reference.{Reference}
use as_lib.Models.MessageInfo.{Description, ErrorDetail, MessageInfo}

pub record MessagePartNrInformation : Type 0 where
  pub references : List Reference

pub record NonRepudiationInformation : Type 0 where
  pub message_part_nr_information : List MessagePartNrInformation

pub record PullRequest : Type 0 where
  pub mpc : Option String

pub record Receipt : Type 0 where
  pub non_repudiation_information : Option NonRepudiationInformation

pub record Error : Type 0 where
  pub description : Option Description
  pub error_detail : Option ErrorDetail
  pub category : Option String
  pub ref_to_message_in_error : Option String
  pub error_code : String
  pub origin : Option String
  pub severity : String
  pub short_description : Option String

pub record SignalMessage : Type 0 where
  pub message_info : MessageInfo
  pub pull_request : Option PullRequest
  pub receipt : Option Receipt
  pub errors : List Error
