-- ===== src/Mime/Unpacking.antt =====
-- What `unpack_message` makes of the parts of a MIME message.
use as_lib.Base.{
  ◌≡◌, refl, ap, sym, ◌∙◌, arith, String, Bool, true, Option, none, some, List, [], ◌∷◌, ◌==◌,
  string_eq, if◌then◌else◌, find, ◌++◌,
}
use as_lib.Base.Dict.{Dict}
use as_lib.Errors.{error_of, family_of, ReceiptableError}
use as_lib.Errors.Attributes.{error_code, family_code}
use as_lib.Base.Text.{nonempty}
use as_lib.Platform.{Bytes}
use as_lib.Outcome.{
  Raised, ok, err, require, ensure, bind-eq-ok, bind-raises, require-raises, ensure-raises,
  ensure-eq-ok, ok-injective, require-eq-some, receiptable,
}
use as_lib.Message.{present, or_blank}
use as_lib.Mime.{
  Part, part, Parts, no_parts, first_part, find_part, find_in_parts, get_soap_part,
  get_encrypted_part, get_content_id, payload_of, parse_parts, unpack_message,
}

abbrev pub content_type : Part → String
content_type (part t i b ps) = t

-- The parts in the order of the message, each `multipart/related` replaced by what is in it.
unfoldable mutual
  pub related_parts : Part → List Part
  related_parts (part t i b ps) =
      let inside = related_in ps in if t == "multipart/related" then inside else part t i b ps ∷ []

  related_in : Parts → List Part
  related_in no_parts = []
  related_in (first_part p ps) = related_parts p ++ related_in ps

find-append :
    {A : Type 0}
    → (p : A → Bool) (xs ys : List A)
    → find p (xs ++ ys) ≡ (elim (find p xs) [ some x ↦ some x | none ↦ find p ys ])
find-append p [] ys = refl
find-append p (x ∷ xs) ys = ground (arith, find-append p xs ys)

mutual
  unfolding find_part related_parts

  in_part :
      (wanted : String) (p : Part)
      → find_part wanted p ≡ find (λ q. content_type q == wanted) (related_parts p)
  in_part wanted (part t i b ps) = ground (arith, in_parts wanted ps)

  in_parts :
      (wanted : String) (ps : Parts)
      → find_in_parts wanted ps ≡ find (λ q. content_type q == wanted) (related_in ps)
  in_parts wanted no_parts = refl
  in_parts wanted (first_part p ps) = ground (
    arith,
    in_part wanted p,
    in_parts wanted ps,
    find-append (λ q. content_type q == wanted) (related_parts p) (related_in ps),
  )

-- The search for a part gives the first part of that content type, among the parts of the message
-- in their order, where each `multipart/related` part stands for what is in it.
pub find_part_lem :
    (wanted : String) (p : Part)
    → find_part wanted p ≡ find (λ q. content_type q == wanted) (related_parts p)
find_part_lem wanted p = in_part wanted p

module _ (parsebytes : Bytes → Part) where
  -- What `unpack_message` takes from the message.
  pub record Unpacked (payload : Bytes) (soap_data : Bytes) (attachments : Dict Bytes)
      : Type 0 where
    pub soap_part : Part
    pub payload_part : Part
    pub content : Bytes
    pub content_id : String
    pub is_soap : get_soap_part (parsebytes payload) ≡ some soap_part
    pub soap_content : payload_of soap_part ≡ some soap_data
    pub is_payload : get_encrypted_part (parsebytes payload) ≡ some payload_part
    pub payload_content : payload_of payload_part ≡ some content
    pub named : get_content_id payload_part ≡ some content_id
    pub id_nonempty : nonempty content_id ≡ true
    pub one_attachment : attachments ≡ (content_id, content) ∷ []

  present-eq-true :
      (o : Option String)
      → present o ≡ true
      → (o ≡ some (or_blank o)) × (nonempty (or_blank o) ≡ true)
  present-eq-true none h = ground arith
  present-eq-true (some s) h = (refl, h)

  -- When `unpack_message` returns, then the message has a SOAP part and a payload part with
  -- contents, the payload part has a Content-ID that is not empty, and the attachments are that
  -- one payload under that id.
  pub unpack_message-Unpacked :
      (payload soap_data : Bytes) (attachments : Dict Bytes)
      → unpack_message parsebytes payload ≡ ok (soap_data, attachments)
      → Unpacked payload soap_data attachments
  unfolding unpack_message parse_parts
  unpack_message-Unpacked payload soap_data attachments h =
      let ((s, p), e, h1) = bind-eq-ok (parse_parts parsebytes payload) _ h in
      let (s', is_s, g1) = bind-eq-ok (require (get_soap_part (parsebytes payload)) _) _ e in
      let (p', is_p, g2) = bind-eq-ok (require (get_encrypted_part (parsebytes payload)) _) _ g1 in
      let same : (s', p') ≡ (s, p) = ok-injective g2 in
      let (d, is_d, h2) = bind-eq-ok (require (payload_of s) _) _ h1 in
      let (c, is_c, h3) = bind-eq-ok (require (payload_of p) _) _ h2 in
      let (u, is_id, h4) = bind-eq-ok (ensure (present (get_content_id p)) _) _ h3 in
      let out : (d, (or_blank (get_content_id p), c) ∷ []) ≡ (soap_data, attachments) =
        ok-injective h4 in
      let (named, full) = present-eq-true _ (ensure-eq-ok _ _ _ is_id) in
      record {
        soap_part = s;
        payload_part = p;
        content = c;
        content_id = or_blank (get_content_id p);
        is_soap = require-eq-some _ _ is_s ∙ ap (λ x. some x.0) same;
        soap_content = require-eq-some _ _ is_d ∙ ap (λ x. some x.0) out;
        is_payload = require-eq-some _ _ is_p ∙ ap (λ x. some x.1) same;
        payload_content = require-eq-some _ _ is_c;
        named = named;
        id_nonempty = full;
        one_attachment = sym (ap (λ x. x.1) out);
      }

  -- The error EBMS:0009, which an error signal reports.
  abbrev pub Reports : Raised → Type 0
  Reports e = (x : ReceiptableError) × (e ≡ receiptable x) × (error_code x.class ≡ "EBMS:0009")

  -- Every failure of `unpack_message` is the error EBMS:0009, which an error signal can report to
  -- the sender.
  pub unpack_message-raises :
      (payload : Bytes) (e : Raised) → unpack_message parsebytes payload ≡ err e → Reports e
  unfolding unpack_message parse_parts error_code family_code family_of error_of
  unpack_message-raises payload e h =
      bind-raises Reports e (parse_parts parsebytes payload) _
        (bind-raises Reports e (require (get_soap_part (parsebytes payload)) _) _
          (require-raises Reports e _ _ (_, refl, refl))
          (λ s.
            bind-raises Reports e (require (get_encrypted_part (parsebytes payload)) _) _
              (require-raises Reports e _ _ (_, refl, refl)) (λ p q. ground arith)))
        (λ parts.
          bind-raises Reports e (require (payload_of parts.0) _) _
            (require-raises Reports e _ _ (_, refl, refl))
            (λ d.
              bind-raises Reports e (require (payload_of parts.1) _) _
                (require-raises Reports e _ _ (_, refl, refl))
                (λ c.
                  bind-raises Reports e (ensure (present (get_content_id parts.1)) _) _
                    (ensure-raises Reports e _ _ (_, refl, refl)) (λ u q. ground arith))))
        h
