-- ===== src/Mime.antt =====
-- The reading side of as4/utils/mime_handler.py, and `unpack_message` of
-- as4/profiles/peppol/profile.py. A parsed email message is the tree of its parts; the parser is the
-- environment's.
pub mod Unpacking
pub mod Writing
pub mod RoundTrip
use as_lib.Base.{
  ℕ, ◌≤◌, ◌≡◌, ◌≢◌, refl, String, ◌<>◌, Bool, true, false, not, ◌&&◌, ◌||◌, Option, none, some,
  List, [], ◌∷◌, ◌++◌, ◌⊎◌, inl, inr, find, keep, take, drop, All, In, Any, length, contains,
  string_eq, option_eq, ◌==◌, if◌then◌else◌, arith, Bool-cases, Option-cases,
}
use as_lib.Base.Text.{starts_with, remove_prefix, nonempty}
use as_lib.Base.Sorting.{sorted}
use as_lib.Base.Dict
use as_lib.Base.Dict.{Dict}
use as_lib.Errors
use as_lib.Errors.{error_of}
use as_lib.Platform.{Bytes, Certificate, Crypto}
use as_lib.Etree.{Element, tag, index_elements_by_id}
use as_lib.Outcome.{
  Raised, Result, ok, err, require, ensure, ◌>>=◌, ◌>>◌, receiptable, unsupported_digest_algorithm,
  unsupported_transform, unsupported_signature_algorithm, unsupported_security_token_type,
  invalid_signature, untrusted_signer,
}
use as_lib.Models.Reference.{Reference}
use as_lib.Models.Signature.{Signature}
use as_lib.Models.Security.{Security}
use as_lib.Models.Soap.{Envelope}
use as_lib.Models.UserMessage.{PartyFrom, PartInfo, UserMessage}
use as_lib.Models.Tokens.{BinarySecurityToken, SecurityTokenReference}
use as_lib.Models.Xenc.{DataReference, EncryptedType}
use as_lib.Dsig.{or_empty, digest_matches, digest_matches_bytes}
use as_lib.Dsig.Verify.{verify}
use as_lib.Documents.{user_message, x509_certificate, get_encrypted_data, decompress}
use as_lib.Parties.{SecurityPolicy, As4ParseContext, As4PrivateKey}
use as_lib.Environment.{Environment, Xml, Schemas}
use as_lib.Message.{present, or_blank, As4Message, blank, signature_references, signed_references}
use as_lib.Base.Text.{strip, strip_of, utf8}

-- An `EmailMessage`: `get_content_type()`, the Content-ID header, `get_payload(decode=True)` where
-- that gives bytes, and `iter_parts()`.
mutual
  pub data Part : Type 0 where
    part : String → Option String → Option Bytes → Parts → Part

  pub data Parts : Type 0 where
    no_parts : Parts
    first_part : Part → Parts → Parts

abbrev pub content_id_of : Part → Option String
content_id_of (part t i b ps) = i

abbrev pub payload_of : Part → Option Bytes
payload_of (part t i b ps) = b

-- `get_soap_part` and `get_encrypted_part` differ in the content type that they look for.
unfoldable mutual
  pub find_part : String → Part → Option Part
  find_part wanted (part t i b ps) =
      let inside = find_in_parts wanted ps in
      if t == "multipart/related"
      then inside
      else if t == wanted
      then some (part t i b ps)
      else none

  -- The first of the parts in which there is one.
  find_in_parts : String → Parts → Option Part
  find_in_parts wanted no_parts = none
  find_in_parts wanted (first_part p ps) = elim (find_part wanted p) [
    | some found ↦ some found
    | none ↦ find_in_parts wanted ps
  ]

unfoldable pub get_soap_part : Part → Option Part
unfolding find_part
get_soap_part = find_part "application/soap+xml"

unfoldable pub get_encrypted_part : Part → Option Part
unfolding find_part
get_encrypted_part = find_part "application/octet-stream"

unfoldable pub get_content_id : Part → Option String
unfolding strip strip_of
get_content_id p = elim (content_id_of p) [ none ↦ none | some i ↦ some (strip_of (strip i) "<>") ]

header_lines : Dict String → Bytes
unfolding utf8
header_lines [] = []
header_lines ((name, value) ∷ rest) = utf8 (name <> ": " <> value) ++ (13 ∷ 10 ∷ header_lines rest)

-- `payload_from_request`: the header lines, an empty line, and the body.
unfoldable pub payload_from_request : Dict String → Bytes → Bytes
unfolding header_lines
payload_from_request request_headers request_body =
    header_lines request_headers ++ (13 ∷ 10 ∷ request_body)

module _ (parsebytes : Bytes → Part) where
  -- `MIMEHandler.parse`
  unfoldable pub parse_parts : Bytes → Result (Part × Part)
  unfolding get_soap_part get_encrypted_part
  parse_parts message = do
    let parsed = parsebytes message
    soap_part ←
        require (get_soap_part parsed) (receiptable (error_of Errors.soap_part_not_found ""))
    encrypted_part ←
        require (get_encrypted_part parsed)
          (receiptable (error_of Errors.payload_part_not_found ""))
    ok (soap_part, encrypted_part)

  unfoldable pub unpack_message : Bytes → Result (Bytes × Dict Bytes)
  unfolding parse_parts get_content_id nonempty
  unpack_message payload = do
    parts ← parse_parts payload
    soap_data ←
        require (payload_of parts.0) (
          receiptable
            (error_of Errors.soap_part_not_found "SOAP part carries no decodable content"))
    let content_id = get_content_id parts.1
    content ← require (payload_of parts.1) (
        receiptable
          (error_of Errors.payload_part_not_found "Payload part carries no decodable content"))
    ensure (present content_id) (
        receiptable
          (error_of Errors.payload_part_not_found "Payload part carries no Content-ID header"))
    ok (soap_data, (or_blank content_id, content) ∷ [])
