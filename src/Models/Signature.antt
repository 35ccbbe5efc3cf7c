-- ===== src/Models/Signature.antt =====
-- The models of as4/models/dsig/signature.py.
use as_lib.Base.{String, Option, List}
use as_lib.Platform.{Bytes}
use as_lib.Etree.{Element}
use as_lib.Models.Reference.{Reference}
use as_lib.Models.KeyInfo.{KeyInfo}

pub record CanonicalizationMethod : Type 0 where
  pub etree_element : Option Element
  pub algorithm : Option String

pub record HmacOutputLength : Type 0 where
  pub text : String

pub record SignatureMethod : Type 0 where
  pub algorithm : String

pub record SignedInfo : Type 0 where
  pub etree_element : Option Element
  pub canonicalization_method : CanonicalizationMethod
  pub signature_method : SignatureMethod
  pub references : List Reference
  pub id : Option String

pub record Object : Type 0 where
  pub id : Option String
  pub mime_type : Option String
  pub encoding : Option String

pub record SignatureValue : Type 0 where
  pub value : Option Bytes
  pub id : Option String

pub record Signature : Type 0 where
  pub signed_info : SignedInfo
  pub signature_value : SignatureValue
  pub key_info : KeyInfo
  pub object_value : List Object
  pub signature_id : Option String
