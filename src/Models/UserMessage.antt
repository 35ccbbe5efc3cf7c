-- ===== src/Models/UserMessage.antt =====
-- The models of as4/models/ebms/user_message.py.
use as_lib.Base.{String, Option, List}
use as_lib.Models.MessageInfo.{Description, MessageInfo}

pub record AgreementRef : Type 0 where
  pub value : String
  pub type_value : Option String
  pub pmode : Option String

pub record PartyId : Type 0 where
  pub value : String
  pub type_value : Option String

pub record Role : Type 0 where
  pub value : String

pub record PartyFrom : Type 0 where
  pub party_id : PartyId
  pub role : Role

pub record PartyTo : Type 0 where
  pub party_id : PartyId
  pub role : Role

pub record PartyInfo : Type 0 where
  pub party_from : PartyFrom
  pub party_to : PartyTo

pub record Property : Type 0 where
  pub property_type : Option String
  pub value : String
  pub name : String

pub record Service : Type 0 where
  pub value : String
  pub type_value : Option String

pub record Action : Type 0 where
  pub value : String

pub record ConversationId : Type 0 where
  pub value : String

pub record CollaborationInfo : Type 0 where
  pub agreement_ref : Option AgreementRef
  pub service : Service
  pub action : Action
  pub conversation_id : ConversationId

pub record MessageProperties : Type 0 where
  pub properties : List Property

pub record Schema : Type 0 where
  pub location : String
  pub version : Option String
  pub namespace : Option String

pub record PartProperties : Type 0 where
  pub properties : List Property

pub record PartInfo : Type 0 where
  pub part_schema : List Schema
  pub description : List Description
  pub part_properties : PartProperties
  pub href : Option String

pub record PayloadInfo : Type 0 where
  pub part_info : List PartInfo

pub record UserMessage : Type 0 where
  pub message_info : MessageInfo
  pub party_info : PartyInfo
  pub collaboration_info : CollaborationInfo
  pub message_properties : Option MessageProperties
  pub payload_info : Option PayloadInfo
  pub mpc : Option String
