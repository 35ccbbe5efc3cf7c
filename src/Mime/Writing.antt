-- ===== src/Mime/Writing.antt =====
-- The writing side of as4/utils/mime_handler.py, and the request that as4/core/message.py and
-- as4/core/receipt.py make of what they hold. `urllib3` encodes the parts.
use as_lib.Base.{String, ◌<>◌, Option, none, some, List, [], ◌∷◌, map, if◌then◌else◌}
use as_lib.Base.Dict.{Dict}
use as_lib.Base.Text.{nonempty}
use as_lib.Platform.{Bytes, DateTime}
use as_lib.Etree.{Element}
use as_lib.Models.Soap.{Envelope}
use as_lib.Outcome.{Result, ok, require, ◌>>=◌, value_error}
use as_lib.Message.{As4Message}
use as_lib.Receipt.{As4Receipt}
use as_lib.Serialise.Envelopes.{dump_envelope}

-- `urllib3.fields.RequestField`
pub record RequestField : Type 0 where
  pub name : String
  pub data_value : Bytes
  pub headers : Dict String

-- What the third parties give: `version("as4")`, `choose_boundary()`, the local time as
-- `strftime("%Y%m%d-%H%M%S")`, `uuid4()`, `encode_multipart_formdata`, `etree.tostring`,
-- `isoformat` and base64.
pub record Writer : Type 0 where
  pub version : Option String
  pub choose_boundary : String
  pub timestamp : String
  pub uuid : String
  pub encode_multipart_formdata : List RequestField → String → Bytes
  pub tostring : Element → Bytes
  pub isoformat : DateTime → String
  pub b64encode : Bytes → String

abbrev project_url : String
project_url = "https://github.com/dbkosky/as4"

unfoldable pub make_soap_part_request_field : Bytes → RequestField
make_soap_part_request_field soap_envelope_bytes = record {
  name = "soap_field";
  data_value = soap_envelope_bytes;
  headers = ("Content-Type", "application/soap+xml; charset=UTF-8") ∷ [];
}

unfoldable pub make_attachment_part_request_field : String × Bytes → RequestField
make_attachment_part_request_field (part_cid, attachment_bytes) = record {
  name = "attachment";
  data_value = attachment_bytes;
  headers =
      ("Content-Type", "application/octet-stream") ∷ ("Content-ID", "<" <> part_cid <> ">") ∷ [];
}

module _ (w : Writer) where
  unfoldable pub self_user_agent : String
  self_user_agent = elim w.version [
    | some v ↦ "as4/" <> v <> " (+" <> project_url <> ")"
    | none ↦ "as4 (+" <> project_url <> ")"
  ]

  -- The body and its boundary.
  unfoldable pub build_request_data : Bytes → Option (Dict Bytes) → Option String → Bytes × String
  unfolding make_soap_part_request_field make_attachment_part_request_field
  build_request_data soap_envelope_bytes attachments boundary =
      let b : String = elim boundary [ none ↦ w.choose_boundary | some given ↦ given ] in
      let parts : Dict Bytes = elim attachments [ none ↦ [] | some given ↦ given ] in
      (
        w.encode_multipart_formdata
            (make_soap_part_request_field soap_envelope_bytes
              ∷ map make_attachment_part_request_field parts)
            b,
        b,
      )

  unfoldable pub build_request_headers : String → Option String → Option String → Dict String
  unfolding self_user_agent nonempty
  build_request_headers boundary message_id user_agent =
      (
        "Content-Type",
        "multipart/related; type=\"application/soap+xml\"; boundary=\"" <> boundary <> "\"",
      )
      ∷ (
        "Message-ID",
        elim message_id [
          | none ↦ "<" <> w.timestamp <> "-" <> w.uuid <> "-@as4>"
          | some given ↦ given
        ],
      )
      ∷ ("Mime-Version", "1.0")
      ∷ (
        "User-Agent",
        elim user_agent [
          | none ↦ self_user_agent
          | some given ↦ if nonempty given then given else self_user_agent
        ],
      )
      ∷ []

  -- `require_soap_envelope` of a message, and of a receipt.
  unfoldable pub require_soap_envelope : As4Message → Result Envelope
  require_soap_envelope m = require m.soap_envelope (value_error "Message carries no SOAP envelope")

  unfoldable pub require_signal_envelope : As4Receipt → Result Envelope
  require_signal_envelope r =
      require r.soap_envelope (value_error "Receipt carries no SOAP envelope")

  -- `AS4Message.get_request_data`
  unfoldable pub get_request_data : As4Message → Result (Bytes × String)
  unfolding require_soap_envelope dump_envelope build_request_data
  get_request_data m = do
    envelope ← require_soap_envelope m
    let soap_xml = w.tostring (dump_envelope w.b64encode w.isoformat envelope)
    ok (build_request_data soap_xml (some m.mime_attachments) none)

  -- `AS4Message.soap_envelope_xml`: `etree_element` is what the envelope was read from, if it was, and
  -- `pretty` is `tostring` with line breaks.
  unfoldable pub soap_envelope_xml : (Element → Bytes) → Option Element → As4Message → Result Bytes
  unfolding require_soap_envelope dump_envelope
  soap_envelope_xml pretty etree_element m = do
    envelope ← require_soap_envelope m
    ok (
        pretty (elim etree_element [
          | some e ↦ e
          | none ↦ dump_envelope w.b64encode w.isoformat envelope
        ]))

  unfoldable pub get_http_headers : String → Option String → Dict String
  unfolding build_request_headers
  get_http_headers boundary user_agent = build_request_headers boundary none user_agent

  -- `AS4Receipt.get_request_data`
  unfoldable pub get_signal_request_data : As4Receipt → Result (Dict String × Bytes)
  unfolding require_signal_envelope dump_envelope
  get_signal_request_data r = do
    envelope ← require_signal_envelope r
    let soap_xml = w.tostring (dump_envelope w.b64encode w.isoformat envelope)
    ok (("Content-Type", "application/soap+xml;charset=utf-8") ∷ [], soap_xml)
