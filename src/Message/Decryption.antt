-- ===== src/Message/Decryption.antt =====
-- `get_decrypted_data` of as4/core/message.py.
pub mod Meaning
use as_lib.Base.{
  ℕ, ◌≤◌, ◌≡◌, ◌≢◌, refl, String, ◌<>◌, Bool, true, false, not, ◌&&◌, ◌||◌, Option, none, some,
  List, [], ◌∷◌, ◌++◌, ◌⊎◌, inl, inr, find, keep, take, drop, All, In, Any, length, contains,
  string_eq, option_eq, ◌==◌, if◌then◌else◌, arith, Bool-cases, Option-cases,
}
use as_lib.Base.Text.{starts_with, remove_prefix, nonempty}
use as_lib.Base.Sorting.{sorted}
use as_lib.Base.Dict
use as_lib.Base.Dict.{Dict}
use as_lib.Errors
use as_lib.Errors.{error_of}
use as_lib.Platform.{Bytes, Certificate, Crypto}
use as_lib.Etree.{Element, tag, index_elements_by_id}
use as_lib.Outcome.{
  Raised, Result, ok, err, require, ensure, ◌>>=◌, ◌>>◌, receiptable, unsupported_digest_algorithm,
  unsupported_transform, unsupported_signature_algorithm, unsupported_security_token_type,
  invalid_signature, untrusted_signer,
}
use as_lib.Models.Reference.{Reference}
use as_lib.Models.Signature.{Signature}
use as_lib.Models.Security.{Security}
use as_lib.Models.Soap.{Envelope}
use as_lib.Models.UserMessage.{PartyFrom, PartInfo, UserMessage}
use as_lib.Models.Tokens.{BinarySecurityToken, SecurityTokenReference}
use as_lib.Models.Xenc.{DataReference, EncryptedKey, EncryptedType, CipherValue}
use as_lib.Dsig.{or_empty, digest_matches, digest_matches_bytes}
use as_lib.Dsig.Verify.{verify}
use as_lib.Documents.{user_message, x509_certificate, get_encrypted_data, decompress}
use as_lib.Parties.{SecurityPolicy, As4ParseContext, As4PrivateKey}
use as_lib.Environment.{Environment, Xml, Schemas}
use as_lib.Message.{present, or_blank, As4Message, blank}
use Prim.Native.String as Text

abbrev pub rsa_oaep : String
rsa_oaep = "http://www.w3.org/2009/xmlenc11#rsa-oaep"

abbrev pub aes128_gcm : String
aes128_gcm = "http://www.w3.org/2009/xmlenc11#aes128-gcm"

-- `uri[1:]`
unfoldable pub drop_first : String → String
drop_first Text.[] = Text.[]
drop_first (Text.◌∷◌ c s) = s

abbrev failed : Raised
failed = receiptable (error_of Errors.decryption_failed "")

-- `cipher_reference.uri`, where there is one
unfoldable pub cipher_uri : EncryptedType → Option String
cipher_uri d = elim d.cipher_data.cipher_reference [ none ↦ none | some r ↦ r.uri ]

-- `cipher_value.value`, where there is one
unfoldable pub cipher_text : Option CipherValue → Option String
cipher_text none = none
cipher_text (some v) = v.value

module _ (c : Crypto) where
  -- `AESGCM(session_key).decrypt(nonce, data, None)` on an attachment: the nonce is its first twelve
  -- bytes.
  unfoldable pub decrypt_attachment : Bytes → String → Bytes → Result Bytes
  decrypt_attachment session_key algorithm content =
      if algorithm == aes128_gcm
      then require (c.aes_gcm_decrypt session_key (take 12 content) (drop 12 content)) failed
      else err (receiptable (Errors.unsupported_encryption_algorithm_error algorithm))

  -- One round of the loop: the attachment that a data reference leads to, and what it holds.
  unfoldable pub decrypt_reference :
      Security → Dict Bytes → Bytes → DataReference → Result (String × Bytes)
  unfolding drop_first cipher_uri decrypt_attachment nonempty get_encrypted_data starts_with
      remove_prefix Dict.get
  decrypt_reference security mime_attachments session_key r = do
    ensure (present r.uri) (receiptable (error_of Errors.encrypted_data_reference_not_found ""))
    let data_uri = or_blank r.uri
    encrypted ←
        require (get_encrypted_data security (drop_first data_uri))
          (receiptable (Errors.encrypted_data_not_found_error data_uri))
    let uri = cipher_uri encrypted
    ensure (present uri) (receiptable (error_of Errors.cipher_reference_not_found ""))
    ensure (starts_with (or_blank uri) "cid:")
        (receiptable (error_of Errors.cipher_reference_not_found ""))
    let attachment_id = remove_prefix (or_blank uri) "cid:"
    content ←
        require (Dict.get mime_attachments attachment_id)
          (receiptable (Errors.encrypted_attachment_not_found_error attachment_id))
    decrypted ← decrypt_attachment session_key encrypted.encryption_method.algorithm content
    ok (attachment_id, decrypted)

  unfoldable pub decrypt_references :
      Security → Dict Bytes → Bytes → List DataReference → Dict Bytes → Result (Dict Bytes)
  unfolding decrypt_reference Dict.put
  decrypt_references security mime_attachments session_key [] decrypted = ok decrypted
  decrypt_references security mime_attachments session_key (r ∷ rest) decrypted = do
    one ← decrypt_reference security mime_attachments session_key r
    decrypt_references security mime_attachments session_key rest (Dict.put decrypted one.0 one.1)

  -- The session key: `base64` and the private key raise `ValueError`.
  unfoldable pub session_key_of : As4PrivateKey → String → Result Bytes
  session_key_of key value = do
    encrypted ← require (c.b64decode_strict value) failed
    require (key.decrypt encrypted) failed

  -- The steps from the encrypted key on.
  unfoldable pub decrypt_with :
      As4ParseContext → Security → Dict Bytes → EncryptedKey → Result (Dict Bytes)
  unfolding session_key_of decrypt_references nonempty cipher_text
  decrypt_with ctx security mime_attachments key = do
    let value = cipher_text key.cipher_data.cipher_value
    ensure (present value) (receiptable (error_of Errors.cipher_value_not_found ""))
    let algorithm = key.encryption_method.algorithm
    ensure (algorithm == rsa_oaep)
        (receiptable (Errors.unsupported_encryption_algorithm_error algorithm))
    session_key ← session_key_of ctx.local_party.credentials.private_key (or_blank value)
    decrypt_references security mime_attachments session_key key.reference_list.data_reference []

  unfoldable pub get_decrypted_data : As4ParseContext → Security → Dict Bytes → Result (Dict Bytes)
  unfolding decrypt_with
  get_decrypted_data ctx security mime_attachments = elim security.encrypted_key [
    | none ↦
        if ctx.security_policy.encrypt_required
        then err (receiptable (error_of Errors.encryption_required ""))
        else ok []
    | some key ↦ decrypt_with ctx security mime_attachments key
  ]
