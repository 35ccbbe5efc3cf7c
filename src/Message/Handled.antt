-- ===== src/Message/Handled.antt =====
-- What `AS4Message.parse` of as4/core/message.py raises and what it reports.
use as_lib.Base.{◌≡◌, ◌≢◌, ◌↔◌, ap, sym, ◌∙◌, arith, String, Option, none, some, List}
use as_lib.Base.Dict.{Dict}
use as_lib.Errors.{ReceiptableError}
use as_lib.Platform.{Bytes}
use as_lib.Etree.{Element}
use as_lib.Outcome.{Raised, Result, ok, err, ErrorDetails, receiptable, validation, xml_syntax}
use as_lib.Environment.{Environment}
use as_lib.Parties.{As4ParseContext}
use as_lib.Message.{As4Message, pre_validate}
use as_lib.Message.Process.Kept.{process-SameIds}
use as_lib.Message.Parse.{
  MessageClass, message_class, parse_steps, handled, read_header, write, parse,
}

-- The exceptions that `parse` turns into the error of the message.
pub data Reported : Raised → Type 0 where
  by_syntax : Reported xml_syntax
  by_validation :
      (first : ErrorDetails) (rest : List ErrorDetails) → Reported (validation first rest)
  by_error : (e : ReceiptableError) → Reported (receiptable e)

handled-passes : (r : Result (Unit {0})) (e : Raised) → handled r ≡ err e → r ≡ err e
unfolding handled
handled-passes (ok u) e h = ground arith
handled-passes (err x) e h = ground arith

handled-Reported : (e x : Raised) → Reported e → handled (err e) ≢ err x
unfolding handled
handled-Reported _ x by_syntax h = ground arith
handled-Reported _ x (by_validation first rest) h = ground arith
handled-Reported _ x (by_error e) h = ground arith

raised-of :
    {M : Type 0}
    → (error : Result (Option ReceiptableError)) (f : Option ReceiptableError → M) (e : Raised)
    → ◌≡◌ {A = Result M} (elim error [ err x ↦ err x | ok o ↦ ok (f o) ]) (err e)
    → error ≡ err e
raised-of (ok o) f e h = ground arith
raised-of (err x) f e h = ground arith

module _ (env : Environment) (ctx : As4ParseContext) (soap : Bytes) (mime : Dict Bytes) where
  -- When `parse` returns a message, rejected or not, for XML from which the ids could be read,
  -- then the message carries these ids.
  pub parse-ids :
      (e : Element) (ids : String × String) (m : As4Message)
      → env.xml.parse_xml soap ≡ some e
      → pre_validate env.xml e ≡ ok ids
      → parse env (message_class env) ctx soap mime ≡ ok m
      → (m.message_id ≡ ids.0) × (m.messaging_id ≡ ids.1)
  unfolding parse parse_steps message_class handled read_header write
  parse-ids e ids m x v h = ground (arith, process-SameIds env ctx e mime)

  -- A message that `parse` returns carries no error exactly when all the steps of parsing ended
  -- without raising.
  pub parse_successful_iff :
      (m : As4Message)
      → parse env (message_class env) ctx soap mime ≡ ok m
      → (m.parse_error ≡ none) ↔ (
          (parse_steps env (message_class env) ctx soap mime (message_class env).initial).0 ≡ ok tt)
  unfolding parse message_class handled
  parse_successful_iff m h = ground arith

module _ (env : Environment) {M : Type 0} (cls : MessageClass M) (ctx : As4ParseContext)
    (soap : Bytes) (mime : Dict Bytes) where
  -- `parse`, of any message class, raises only what its steps raise, and never malformed XML, a
  -- failed validation or an error that an error signal can report.
  pub parse-raises :
      (e : Raised)
      → parse env cls ctx soap mime ≡ err e
      → ((parse_steps env cls ctx soap mime cls.initial).0 ≡ err e) × ((Reported e) → ⊥)
  unfolding parse
  parse-raises e h =
      let raised = raised-of (handled (parse_steps env cls ctx soap mime cls.initial).0) _ e h in
      let passed = handled-passes _ e raised in
      (passed, λ r. handled-Reported e e r (ap handled (sym passed) ∙ raised))
