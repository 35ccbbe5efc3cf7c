-- ===== src/Message/Process/Kept.antt =====
-- The fields of a message that `process` leaves alone.
use as_lib.Base.{◌≡◌, arith}
use as_lib.Base.Dict.{Dict}
use as_lib.Platform.{Bytes}
use as_lib.Etree.{Element}
use as_lib.Environment.{Environment}
use as_lib.Parties.{As4ParseContext}
use as_lib.Models.Soap.{Envelope}
use as_lib.Message.{As4Message}
use as_lib.Message.Process.{process_envelope, process, on_decrypted}

-- The fields that the two messages have in common.
abbrev pub SameIds : As4Message → As4Message → Type 0
SameIds m n =
    (m.message_id ≡ n.message_id)
    × (m.messaging_id ≡ n.messaging_id)
    × (m.addressed_to ≡ n.addressed_to)
    × (m.parse_error ≡ n.parse_error)

module _ (env : Environment) (ctx : As4ParseContext) where
  process_envelope-SameIds :
      (e : Element) (mime : Dict Bytes) (envelope : Envelope) (m : As4Message)
      → SameIds (process_envelope env ctx e mime envelope m).1 m
  unfolding process_envelope on_decrypted
  process_envelope-SameIds e mime envelope m = ground arith

  -- `process` leaves the ids, the addressee and the error of the message as they are, whether it
  -- ends or raises.
  pub process-SameIds :
      (e : Element) (mime : Dict Bytes) (m : As4Message) → SameIds (process env ctx e mime m).1 m
  unfolding process
  process-SameIds e mime m = ground (arith, process_envelope-SameIds e mime)
