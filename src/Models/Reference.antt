-- ===== src/Models/Reference.antt =====
-- The models of as4/models/dsig/reference.py.
use as_lib.Base.{String, Option}
use as_lib.Models.Transforms.{Transforms}

pub record DigestMethod : Type 0 where
  pub algorithm : String

pub record DigestValue : Type 0 where
  pub text : String

pub record Reference : Type 0 where
  pub transforms : Transforms
  pub digest_method : DigestMethod
  pub digest_value : DigestValue
  pub id : Option String
  pub uri : Option String
  pub type_value : Option String
