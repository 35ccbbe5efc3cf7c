-- ===== src/Tests/Requests.antt =====
-- A request that is written and read, and a profile that is found by its name.
use as_lib.Base.{
  ℕ, refl, ap, ◌∙◌, String, true, false, Option, none, some, List, [], ◌∷◌, ◌++◌, length, take,
  drop, take-append, drop-append, In, inl, string_eq,
}
use as_lib.Platform.{Bytes}
use as_lib.Message.{As4Message, blank}
use as_lib.Mime.{Part, payload_from_request}
use as_lib.Mime.Writing.{RequestField, Writer, get_http_headers}
use as_lib.Mime.RoundTrip.{ParsesBack, written_parts}
use as_lib.Tests.Fixtures.{envelope}

-- The parts one after the other, and before them the length of the first.
abbrev encoded : List RequestField → String → Bytes
encoded (soap ∷ attachment ∷ rest) boundary =
    length soap.data_value ∷ (soap.data_value ++ attachment.data_value)
encoded fields boundary = []

abbrev pub writer : Writer
writer = record {
  version = none;
  choose_boundary = "x";
  timestamp = "20260101-000000";
  uuid = "u";
  encode_multipart_formdata = encoded;
  tostring = λ _. 7 ∷ [];
  isoformat = λ _. "1970";
  b64encode = λ _. "AA==";
}

abbrev parts_of : String → Bytes → Part
parts_of cid [] = written_parts [] cid []
parts_of cid (n ∷ b) = written_parts (take n b) cid (drop n b)

abbrev pub parser : String → Bytes → Part
parser cid payload =
    parts_of cid
      (drop (length (payload_from_request (get_http_headers writer "x" none) [])) payload)

pub parses :
    (cid : String) (soap_xml content : Bytes) → ParsesBack writer (parser cid) cid soap_xml content
unfolding payload_from_request get_http_headers as_lib.Mime.Writing.make_soap_part_request_field
    as_lib.Mime.Writing.make_attachment_part_request_field
parses cid soap_xml content =
    ap (λ s. written_parts s cid (drop (length soap_xml) (soap_xml ++ content)))
      (take-append (length soap_xml) soap_xml content refl)
    ∙ ap (written_parts soap_xml cid) (drop-append (length soap_xml) soap_xml content refl)

abbrev message : As4Message
message = record blank { soap_envelope = some envelope; mime_attachments = ("p", 1 ∷ 2 ∷ []) ∷ [] }
