-- ===== src/Mime/RoundTrip.antt =====
-- A request that `get_request_data` of as4/core/message.py makes, as `unpack_message` of
-- as4/profiles/peppol/profile.py reads it.
use as_lib.Base.{◌≡◌, refl, ap, sym, ◌∙◌, String, ◌<>◌, true, none, some, [], ◌∷◌, string_eq}
use as_lib.Base.Text.{nonempty, strip, strip_of}
use as_lib.Platform.{Bytes}
use as_lib.Models.Soap.{Envelope}
use as_lib.Outcome.{ok, ok-injective}
use as_lib.Message.{As4Message}
use as_lib.Serialise.Envelopes.{dump_envelope}
use as_lib.Mime.{
  Part, part, no_parts, first_part, find_part, get_content_id, get_encrypted_part, get_soap_part,
  parse_parts, payload_from_request, unpack_message,
}
use as_lib.Mime.Writing.{
  Writer, build_request_data, get_http_headers, get_request_data,
  make_attachment_part_request_field, make_soap_part_request_field, require_soap_envelope,
}

-- The two parts as the parser gives them back.
abbrev pub written_parts : Bytes → String → Bytes → Part
written_parts soap_xml cid content = part "multipart/related" none none (
    first_part (part "application/soap+xml" none (some soap_xml) no_parts) (
      first_part
        (part "application/octet-stream" (some ("<" <> cid <> ">")) (some content) no_parts)
        no_parts))

module _ (w : Writer) (parsebytes : Bytes → Part) where
  -- The email parser gives back the parts of a request that `urllib3` has encoded, under the
  -- headers that name its type and its boundary: an attachment under this id.
  abbrev pub ParsesBack : String → Bytes → Bytes → Type 0
  ParsesBack cid soap_xml content =
      parsebytes (
        payload_from_request (get_http_headers w w.choose_boundary none) (
          w.encode_multipart_formdata
            (make_soap_part_request_field soap_xml
              ∷ make_attachment_part_request_field (cid, content)
              ∷ [])
            w.choose_boundary))
      ≡ written_parts soap_xml cid content

  soap_found :
      (soap_xml content : Bytes) (cid : String)
      → get_soap_part (written_parts soap_xml cid content)
        ≡ some (part "application/soap+xml" none (some soap_xml) no_parts)
  unfolding get_soap_part find_part string_eq
  soap_found soap_xml content cid = refl

  payload_found :
      (soap_xml content : Bytes) (cid : String)
      → get_encrypted_part (written_parts soap_xml cid content)
        ≡ some (part "application/octet-stream" (some ("<" <> cid <> ">")) (some content) no_parts)
  unfolding get_encrypted_part find_part string_eq
  payload_found soap_xml content cid = refl

  unpack-written_parts :
      (payload soap_xml content : Bytes) (cid : String)
      → parsebytes payload ≡ written_parts soap_xml cid content
      → strip_of (strip ("<" <> cid <> ">")) "<>" ≡ cid
      → nonempty cid ≡ true
      → unpack_message parsebytes payload ≡ ok (soap_xml, (cid, content) ∷ [])
  unfolding unpack_message parse_parts get_content_id
  unpack-written_parts payload soap_xml content cid parsed bare named =
      rw
        (
          unpack_message,
          parse_parts,
          parsed,
          soap_found soap_xml content cid,
          payload_found soap_xml content cid,
          get_content_id,
          bare,
          named,
        )
        refl

pub unpack_message-get_request_data :
    (w : Writer) (parsebytes : Bytes → Part) (m : As4Message) (envelope : Envelope)
    (cid boundary : String) (content body : Bytes)
    → ParsesBack w parsebytes cid
        (w.tostring (dump_envelope w.b64encode w.isoformat envelope))
        content
    → m.soap_envelope ≡ some envelope
    → m.mime_attachments ≡ (cid, content) ∷ []
    → strip_of (strip ("<" <> cid <> ">")) "<>" ≡ cid
    → nonempty cid ≡ true
    → get_request_data w m ≡ ok (body, boundary)
    → unpack_message parsebytes (payload_from_request (get_http_headers w boundary none) body)
      ≡ ok (w.tostring (dump_envelope w.b64encode w.isoformat envelope), m.mime_attachments)
unfolding get_request_data require_soap_envelope build_request_data
unpack_message-get_request_data w parsebytes m envelope cid boundary content body parses e a bare
      named h =
    let soap_xml = w.tostring (dump_envelope w.b64encode w.isoformat envelope) in
    let encoded =
      w.encode_multipart_formdata
        (make_soap_part_request_field soap_xml
          ∷ make_attachment_part_request_field (cid, content)
          ∷ [])
        w.choose_boundary in
    let same : (encoded, w.choose_boundary) ≡ (body, boundary) =
      ok-injective (rw (get_request_data, require_soap_envelope, e, a) at h) in
    ap
      (λ (r : Bytes × String).
        unpack_message parsebytes (payload_from_request (get_http_headers w r.1 none) r.0))
      (sym same)
    ∙ unpack-written_parts w parsebytes
        (payload_from_request (get_http_headers w w.choose_boundary none) encoded) soap_xml content
        cid parses bare named
    ∙ ap (λ d. ok (soap_xml, d)) (sym a)
