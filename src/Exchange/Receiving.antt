-- ===== src/Exchange/Receiving.antt =====
-- `AS4ReceivingExchange` of as4/core/exchange.py, and `parse_message` of as4/core/profiles.py.
pub mod Answered
use as_lib.Base.{
  ℕ, ◌≤◌, ◌≡◌, ◌≢◌, refl, String, ◌<>◌, Bool, true, false, not, ◌&&◌, ◌||◌, Option, none, some,
  List, [], ◌∷◌, ◌++◌, ◌⊎◌, inl, inr, map, ◌↔◌, head?, find, keep, take, drop, All, In, Any, length,
  contains, string_eq, option_eq, ◌==◌, if◌then◌else◌, arith, Bool-cases, Option-cases,
}
use as_lib.Base.Text.{starts_with, remove_prefix, nonempty}
use as_lib.Base.Sorting.{sorted}
use as_lib.Base.Dict
use as_lib.Base.Dict.{Dict}
use as_lib.Errors
use as_lib.Errors.{error_of}
use as_lib.Platform.{Bytes, Certificate, Crypto}
use as_lib.Etree.{Element, tag, index_elements_by_id}
use as_lib.Outcome.{
  Raised, Result, ok, err, require, ensure, receiptable, unsupported_digest_algorithm,
  unsupported_transform, unsupported_signature_algorithm, unsupported_security_token_type,
  invalid_signature, receipt_verification, xml_syntax, validation, value_error, bind, ReceiptFault,
  untrusted_signer,
}
use as_lib.Models.Reference.{Reference}
use as_lib.Models.Signature.{Signature}
use as_lib.Models.Security.{Security}
use as_lib.Models.Soap.{Envelope}
use as_lib.Models.UserMessage.{PartyFrom, PartInfo, UserMessage}
use as_lib.Models.Tokens.{BinarySecurityToken, SecurityTokenReference}
use as_lib.Models.Xenc.{DataReference, EncryptedType}
use as_lib.Dsig.{or_empty, digest_matches, digest_matches_bytes}
use as_lib.Dsig.Verify.{verify}
use as_lib.Documents.{user_message, x509_certificate, get_encrypted_data, decompress}
use as_lib.Parties.{SecurityPolicy, As4ParseContext, As4PrivateKey}
use as_lib.Environment.{Environment, Xml, Schemas}
use as_lib.Message.{get_remote_party, As4Message, blank, signature_references, signed_references}
use as_lib.Outcome
use as_lib.Outcome.{remote_party_not_verified}
use as_lib.Outcome.Exec.{Exec, lift, modify, continue, ◌>>=◌, ◌>>◌}
use as_lib.Parties.{
  As4ExternalParty, As4InternalParty, ParticipantAcceptor, default_security_policy,
}
use as_lib.Receipt.{As4Receipt}
use as_lib.Receipt.Build.{for_message}
use as_lib.Receipt.Signals.{Moment}
use as_lib.Message.Parse.{MessageClass, parse}
use as_lib.Mime.{payload_from_request}
use as_lib.Exchange.{
  ExchangeState, created, built, sent, received, acknowledged, rejected, failed, As4Exchange,
  new_exchange,
}

pub record As4ReceivingExchange : Type 0 where
  pub exchange : As4Exchange
  pub open exchange use *
  pub remote_party : Option As4ExternalParty

unfoldable pub receiving_successful : As4ReceivingExchange → Bool
receiving_successful x = elim x.state [ received ↦ true | _ ↦ false ]

unfoldable pub is_user_message_not_found : Errors.ErrorClass → Bool
is_user_message_not_found Errors.user_message_not_found = true
is_user_message_not_found _ = false

-- `with suppress(RemotePartyNotVerifiedError, UserMessageNotFoundException)`: the value before the
-- block stays where the block raises one of these.
unfoldable pub suppressed :
    Option As4ExternalParty → Result As4ExternalParty → Result (Option As4ExternalParty)
unfolding is_user_message_not_found
suppressed before (ok p) = ok (some p)
suppressed before (err (remote_party_not_verified s)) = ok before
suppressed before (err (receiptable e)) =
    if is_user_message_not_found e.class then ok before else err (receiptable e)
suppressed before (err e) = err e

-- `REJECTED if message.parse_error else RECEIVED`: an exception object is true.
unfoldable pub state_of : Option Errors.ReceiptableError → ExchangeState
state_of none = received
state_of (some _) = rejected

unfoldable pub state_after : As4Message → ExchangeState
unfolding state_of
state_after m = state_of m.parse_error

module _ (env : Environment) (t : Moment) where
  unfoldable pub receive_message : As4Message → Exec As4ReceivingExchange (Unit {0})
  unfolding suppressed get_remote_party for_message signed_references state_after
  receive_message m x =
      let steps : Exec As4ReceivingExchange (Unit {0}) = do
        remote ← lift (suppressed x.remote_party (get_remote_party m))
        answer ← lift (for_message env t x.local_party m (some x.identifiers))
        modify (λ y. record y {
          exchange = record y.exchange {
            message = some m;
            message_id = m.message_id;
            messaging_id = m.messaging_id;
            signed_references = signed_references m;
            receipt = some answer;
            state = state_after m;
          };
          remote_party = remote;
        })
      in steps x

  -- `AS4Profile.parse_message`, for the class and the `unpack_message` of a profile.
  module _ {M : Type 0} (cls : MessageClass M) (unpack : Bytes → Result (Bytes × Dict Bytes)) where
    unfoldable pub unpacked : As4ParseContext → Result (Bytes × Dict Bytes) → Result M
    unfolding parse
    unpacked ctx (ok parts) = parse env cls ctx parts.0 parts.1
    unpacked ctx (err (receiptable e)) =
        ok (cls.with_base cls.initial (record (cls.base cls.initial) { parse_error = some e }))
    unpacked ctx (err e) = err e

    unfoldable pub parse_message : Bytes → As4ParseContext → Result M
    unfolding unpacked
    parse_message payload ctx = unpacked ctx (unpack payload)

    -- `receive`
    unfoldable pub receive :
        Dict String
        → Bytes
        → Option ParticipantAcceptor
        → Option SecurityPolicy
        → Exec As4ReceivingExchange (Unit {0})
    unfolding receive_message payload_from_request parse_message
    receive request_headers request_body accept_participant security_policy x =
        let ctx : As4ParseContext = record {
          local_party = x.local_party;
          accept_participant = accept_participant;
          security_policy = elim security_policy [ none ↦ default_security_policy | some p ↦ p ];
        } in
        let steps : Exec As4ReceivingExchange (Unit {0}) = do
          m ← lift (parse_message (payload_from_request request_headers request_body) ctx)
          receive_message (cls.base m)
        in steps x
