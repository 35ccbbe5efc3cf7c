-- ===== src/Models/Security.antt =====
-- The models of as4/models/wsse/security.py.
use as_lib.Base.{Bool, Option, List}
use as_lib.Models.Tokens.{BinarySecurityToken}
use as_lib.Models.Signature.{Signature}
use as_lib.Models.Xenc.{EncryptedKey, EncryptedType}

pub record Security : Type 0 where
  pub binary_security_tokens : List BinarySecurityToken
  pub encrypted_key : Option EncryptedKey
  pub encrypted_data : Option (List EncryptedType)
  pub signature : Option Signature
  pub must_understand : Bool
