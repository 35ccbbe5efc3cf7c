-- ===== src/Message/Parse.antt =====
-- `AS4Message.parse` of as4/core/message.py, for the class and for its subclasses, which give their
-- own `process`.
use as_lib.Base.{Option, none, some, string_eq, option_eq}
use as_lib.Base.Dict.{Dict}
use as_lib.Errors
use as_lib.Errors.{error_of}
use as_lib.Platform.{Bytes}
use as_lib.Etree.{Element}
use as_lib.Outcome.{Result, ok, err, require, receiptable}
use as_lib.Parties.{As4ParseContext}
use as_lib.Environment.{Environment}
use as_lib.Message.{As4Message, blank}
use as_lib.Outcome.{xml_syntax, validation}
use as_lib.Outcome.Validation.{from_validation_error}
use as_lib.Outcome.Exec.{Exec, lift, ◌>>=◌, ◌>>◌}
use as_lib.Errors.{ReceiptableError}
use as_lib.Message.{pre_validate, get_addressed_to, party_to_path}
use as_lib.Message.Process.{process}

-- What `cls` is to the method: its blank value, the message inside it, and its `process`.
pub record MessageClass (M : Type 0) : Type 0 where
  pub initial : M
  pub base : M → As4Message
  pub with_base : M → As4Message → M
  pub process : As4ParseContext → Element → Dict Bytes → Exec M (Unit {0})

-- `AS4Message` itself.
unfoldable pub message_class : Environment → MessageClass As4Message
unfolding process
message_class env = record {
  initial = blank;
  base = λ m. m;
  with_base = λ m b. b;
  process = λ ctx e mime. process env ctx e mime;
}

-- The handlers, in order. What is not handled escapes.
unfoldable pub handled : Result (Unit {0}) → Result (Option ReceiptableError)
unfolding from_validation_error
handled (ok u) = ok none
handled (err xml_syntax) = ok (some (error_of Errors.malformed_soap_envelope ""))
handled (err (validation first rest)) = ok (some (from_validation_error first rest))
handled (err (receiptable e)) = ok (some e)
handled (err e) = err e

module _ (env : Environment) {M : Type 0} (cls : MessageClass M) where
  unfoldable pub write : (As4Message → As4Message) → Exec M (Unit {0})
  write f m = (ok tt, cls.with_base m (f (cls.base m)))

  -- `party_to_element` is looked for before the ids are.
  unfoldable pub read_header : Element → Exec M (Unit {0})
  unfolding write pre_validate get_addressed_to
  read_header e = do
    ids ← lift (pre_validate env.xml e)
    write (λ f. record f { message_id = ids.0; messaging_id = ids.1 })
    addressed ← lift (get_addressed_to env.schemas (env.xml.find e party_to_path))
    write (λ f. record f { addressed_to = some addressed })

  -- The body of the `try`.
  unfoldable pub parse_steps : As4ParseContext → Bytes → Dict Bytes → Exec M (Unit {0})
  unfolding read_header
  parse_steps ctx soap_bytes mime_attachments = do
    e ← lift (require (env.xml.parse_xml soap_bytes) xml_syntax)
    read_header e
    cls.process ctx e mime_attachments

  unfoldable pub parse : As4ParseContext → Bytes → Dict Bytes → Result M
  unfolding parse_steps handled
  parse ctx soap_bytes mime_attachments =
      let (r, m) = parse_steps ctx soap_bytes mime_attachments cls.initial in
      elim (handled r) [
        | err e ↦ err e
        | ok error ↦ ok (cls.with_base m (record (cls.base m) { parse_error = error }))
      ]
