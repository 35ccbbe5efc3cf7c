-- ===== src/Exchange/Building.antt =====
-- `AS4SendingExchange.build`, `AS4ReceivingExchange.build_signal` and `restore` of
-- as4/core/exchange.py.
use as_lib.Base.{String, Option, none, some, string_eq}
use as_lib.Base.Dict.{Dict}
use as_lib.Platform.{Bytes}
use as_lib.Outcome.{Result, ok, require, bind, value_error}
use as_lib.Outcome.Exec.{Exec, lift, modify, ◌>>=◌, ◌>>◌}
use as_lib.Parties.{As4ExternalParty, As4InternalParty}
use as_lib.References.{As4References}
use as_lib.Message.{As4Message}
use as_lib.Mime.Writing.{Writer, get_http_headers, get_request_data, get_signal_request_data}
use as_lib.Exchange.{check_stored_party}
use as_lib.Exchange.Sending.{As4SendingExchange, record_built}
use as_lib.Exchange.Receiving.{As4ReceivingExchange}

-- `build_message` of a profile: the message, and the references as it leaves them.
abbrev pub MessageBuilder : Type 0 → Type 0 → Type 0
MessageBuilder M A =
    Bytes
    → As4InternalParty
    → As4ExternalParty
    → A
    → Option As4References
    → Result (M × As4References)

module _ (w : Writer) where
  -- `base` is the `AS4Message` inside the message. The headers and the body.
  unfoldable pub build :
      {M A : Type 0}
      → (M → As4Message)
      → MessageBuilder M A
      → Bytes
      → A
      → Exec As4SendingExchange (Dict String × Bytes)
  unfolding get_request_data get_http_headers record_built
  build base build_message payload builder_args s =
      let steps : Exec As4SendingExchange (Dict String × Bytes) = do
        made ←
            lift
              (build_message payload s.local_party s.remote_party builder_args (some s.identifiers))
        modify (λ t. record t { exchange = record t.exchange { identifiers = made.1 } })
        request ← lift (get_request_data w (base made.0))
        modify (record_built (base made.0))
        lift (ok (get_http_headers w request.1 none, request.0))
      in steps s

  unfoldable pub build_signal : As4ReceivingExchange → Result (Dict String × Bytes)
  unfolding get_signal_request_data
  build_signal x =
      bind
        (require x.receipt
          (value_error "Exchange has no signal to send; nothing has been received yet"))
        λ r. get_signal_request_data w r

-- `restore`: `stored` is what `json.loads` gives, with the id of its party; `model_validate` is
-- pydantic's, on what was stored and the party that the caller supplies.
unfoldable pub restore :
    {J X : Type 0}
    → (J → String)
    → (J → As4InternalParty → Result X)
    → J
    → As4InternalParty
    → Result X
unfolding check_stored_party
restore stored_party_id model_validate stored local_party =
    bind (check_stored_party (stored_party_id stored) local_party)
      λ _. model_validate stored local_party
