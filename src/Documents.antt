-- ===== src/Documents.antt =====
-- The methods of the document models that the program reads a message by: as4/models/ebms,
-- as4/models/wsse.
pub mod Payloads
use as_lib.Base.{
  ℕ, ◌+◌, String, ◌<>◌, Bool, true, false, Option, none, some, List, [], ◌∷◌, find, length, ltb,
  string_eq, option_eq, ◌==◌, if◌then◌else◌,
}
use as_lib.Base.Text.{show}
use as_lib.Errors.{
  bundled_messages_not_supported, decompression_failed, decompressed_payload_too_large, error_of,
}
use as_lib.Platform.{Bytes, Certificate, Crypto}
use as_lib.Outcome.{
  Raised, Result, ok, err, require, receiptable, unsupported_security_token_type, value_error,
}
use as_lib.Models.Tokens.{BinarySecurityToken}
use as_lib.Models.Xenc.{EncryptedType}
use as_lib.Models.Security.{Security}
use as_lib.Models.UserMessage.{
  Property, MessageProperties, PartProperties, PartInfo, PayloadInfo, UserMessage,
}
use as_lib.Models.SignalMessage.{SignalMessage, Error}
use as_lib.Models.Messaging.{Messaging}

-- `Messaging.only_one`
unfoldable pub only_one {ℓ} : {A : Type ℓ} → List A → String → Result (Option A)
only_one [] element_name = ok none
only_one (m ∷ []) element_name = ok (some m)
only_one (m ∷ n ∷ rest) element_name = err (
    receiptable (
      error_of bundled_messages_not_supported (
        "found "
        <> show (length (m ∷ n ∷ rest))
        <> " "
        <> element_name
        <> " elements, bundling is not supported")))

unfoldable pub signal_message : Messaging → Result (Option SignalMessage)
unfolding only_one
signal_message m = only_one m.signal_messages "eb:SignalMessage"

unfoldable pub user_message : Messaging → Result (Option UserMessage)
unfolding only_one
user_message m = only_one m.user_messages "eb:UserMessage"

unfoldable pub get_property : MessageProperties → String → Option Property
get_property ps name = find (λ (p : Property). p.name == name) ps.properties

unfoldable pub original_sender : MessageProperties → Option Property
unfolding get_property
original_sender ps = get_property ps "originalSender"

unfoldable pub final_recipient : MessageProperties → Option Property
unfolding get_property
final_recipient ps = get_property ps "finalRecipient"

unfoldable pub compression_type : List Property → Option String
compression_type [] = none
compression_type (p ∷ rest) =
    let others = compression_type rest in
    if p.name == "CompressionType" then some p.value else others

unfoldable pub get_part_info : PayloadInfo → String → Option PartInfo
get_part_info i part_cid = find (λ (p : PartInfo). p.href == some part_cid) i.part_info

unfoldable pub get_encrypted_data : Security → String → Option EncryptedType
get_encrypted_data s encrypted_data_id = elim s.encrypted_data [
  | none ↦ none
  | some all ↦ find (λ (e : EncryptedType). e.encrypted_type_id == some encrypted_data_id) all
]

abbrev pub x509v3 : String
x509v3 = "http://docs.oasis-open.org/wss/2004/01/oasis-200401-wss-x509-token-profile-1.0#X509v3"

module _ (c : Crypto) where
  -- `PartProperties.decompress`: one byte more than allowed is asked for, to see the excess.
  unfoldable pub decompress : PartProperties → Bytes → ℕ → Result Bytes
  unfolding compression_type
  decompress ps content maximum_size =
      if compression_type ps.properties == some "application/gzip"
      then (elim (c.gzip_read content (maximum_size + 1)) [
        | none ↦ err (receiptable (error_of decompression_failed ""))
        | some decompressed ↦
            if ltb maximum_size (length decompressed)
            then err (receiptable (error_of decompressed_payload_too_large ""))
            else ok decompressed
      ])
      else ok content

  -- `BinarySecurityToken.x509_certificate`: `base64` and `cryptography` raise `ValueError`.
  unfoldable pub x509_certificate : BinarySecurityToken → Result Certificate
  x509_certificate t =
      if t.value_type == x509v3
      then (elim (c.b64decode t.value) [
        | none ↦ err (value_error "Incorrect padding")
        | some der ↦
            require (c.load_der_x509_certificate der) (value_error "error parsing asn1 value")
      ])
      else err (unsupported_security_token_type t.value_type)
