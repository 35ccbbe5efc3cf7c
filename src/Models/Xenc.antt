-- ===== src/Models/Xenc.antt =====
-- The models of as4/models/xenc.
use as_lib.Base.{ℕ, String, Option, List}
use as_lib.Platform.{Bytes}
use as_lib.Models.Transforms.{Transform}
use as_lib.Models.Reference.{DigestMethod}
use as_lib.Models.KeyInfo.{KeyInfo}

pub record DataReference : Type 0 where
  pub uri : Option String

pub record ReferenceList : Type 0 where
  pub data_reference : List DataReference
  pub key_reference : List DataReference

pub record Mgf : Type 0 where
  pub algorithm : String

pub record KeySize : Type 0 where
  pub value : ℕ

pub record OaepParams : Type 0 where
  pub value : Bytes

pub record EncryptionMethod : Type 0 where
  pub algorithm : String
  pub digest_method : Option DigestMethod
  pub mgf : Option Mgf

pub record CipherTransforms : Type 0 where
  pub transforms : List Transform

pub record CipherReference : Type 0 where
  pub transforms : CipherTransforms
  pub uri : Option String

pub record CipherValue : Type 0 where
  pub value : Option String

pub record CipherData : Type 0 where
  pub cipher_value : Option CipherValue
  pub cipher_reference : Option CipherReference

pub record EncryptionProperty : Type 0 where
  pub target : Option String
  pub id : Option String

pub record EncryptionProperties : Type 0 where
  pub encryption_property : List EncryptionProperty
  pub id : Option String

pub record EncryptedType : Type 0 where
  pub encryption_method : EncryptionMethod
  pub key_info : KeyInfo
  pub cipher_data : CipherData
  pub encryption_properties : List EncryptionProperties
  pub encrypted_type_id : Option String
  pub type_value : Option String
  pub mime_type : Option String
  pub encoding : Option String

pub record CarriedKeyName : Type 0 where
  pub text : Option String

pub record EncryptedKey : Type 0 where
  pub encrypted_type : EncryptedType
  pub open encrypted_type use *
  pub reference_list : ReferenceList
  pub carried_key_name : List CarriedKeyName
  pub recipient : Option String
