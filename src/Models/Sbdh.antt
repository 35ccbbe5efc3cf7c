-- ===== src/Models/Sbdh.antt =====
-- The models of as4/models/unece/sbdh.py.
use as_lib.Base.{String, Option, List}
use as_lib.Platform.{DateTime}

pub record HeaderVersion : Type 0 where
  pub value : String

pub record Identifier : Type 0 where
  pub authority : Option String
  pub value : String

pub record Sender : Type 0 where
  pub identifier : Identifier

pub record Receiver : Type 0 where
  pub identifier : Identifier

pub record Standard : Type 0 where
  pub value : String

pub record TypeVersion : Type 0 where
  pub value : String

pub record InstanceIdentifier : Type 0 where
  pub value : String

pub record SbdhType : Type 0 where
  pub value : String

pub record CreationDateAndTime : Type 0 where
  pub value : DateTime

pub record DocumentIdentification : Type 0 where
  pub standard : Standard
  pub type_version : TypeVersion
  pub instance_identifier : InstanceIdentifier
  pub document_identification_type : SbdhType
  pub creation_date_and_time : CreationDateAndTime

pub record ScopeIdentifier : Type 0 where
  pub value : String

pub record Scope : Type 0 where
  pub scope_type : SbdhType
  pub instance_identifier : InstanceIdentifier
  pub identifier : Option ScopeIdentifier

pub record BusinessScope : Type 0 where
  pub scopes : List Scope

pub record StandardBusinessDocumentHeader : Type 0 where
  pub header_version : HeaderVersion
  pub sender : Sender
  pub receiver : Receiver
  pub document_identification : DocumentIdentification
  pub business_scope : BusinessScope

pub record StandardBusinessDocument : Type 0 where
  pub standard_business_document_header : StandardBusinessDocumentHeader
