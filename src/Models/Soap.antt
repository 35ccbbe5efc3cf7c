-- ===== src/Models/Soap.antt =====
-- The models of as4/models/soap.
use as_lib.Base.{String, Option}
use as_lib.Models.Security.{Security}
use as_lib.Models.Messaging.{Messaging}

pub record Header : Type 0 where
  pub security : Security
  pub messaging : Messaging

pub record Body : Type 0 where
  pub body_id : Option String

pub record Envelope : Type 0 where
  pub header : Header
  pub body : Body
