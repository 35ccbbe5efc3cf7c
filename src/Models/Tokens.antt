-- ===== src/Models/Tokens.antt =====
-- The models of as4/models/wsse/security_token_reference.py and binary_security_token.py.
use as_lib.Base.{String, Option}

pub record TokenLocation : Type 0 where
  pub uri : Option String
  pub value_type : Option String

pub record SecurityTokenReference : Type 0 where
  pub security_token_reference_id : Option String
  pub usage : String
  pub reference : TokenLocation
  pub token_type : Option String

pub record BinarySecurityToken : Type 0 where
  pub encoding_type : String
  pub value_type : String
  pub bst_id : String
  pub value : String
