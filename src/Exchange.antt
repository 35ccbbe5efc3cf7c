-- ===== src/Exchange.antt =====
-- The life of one message, as4/core/exchange.py: the states, the two sides, and what each method does
-- to the exchange whether it returns or raises.
pub mod Sending
pub mod Receiving
pub mod States
pub mod Outcomes
pub mod Completion
pub mod Correlation
pub mod Building
use as_lib.Base.{
  String, Bool, true, false, Option, none, some, List, [], ◌==◌, string_eq, if◌then◌else◌, head?,
}
use as_lib.Outcome.{Result, ok, err, ensure, ◌>>=◌, ◌>>◌, bind, mismatched_local_party}
use as_lib.Platform.{DateTime}
use as_lib.Dsig.{ComparableReferenceFields}
use as_lib.Models.SignalMessage.{Error}
use as_lib.Parties.{As4InternalParty}
use as_lib.References.{As4References}
use as_lib.Message.{As4Message, conversation_id}
use as_lib.Receipt.{As4Receipt, errors}

pub data ExchangeState : Type 0 where
  created built sent received acknowledged rejected failed : ExchangeState

-- `AS4Exchange`. The profile and its name are left to the methods that call it.
pub record As4Exchange : Type 0 where
  pub local_party : As4InternalParty
  pub message_id : String
  pub messaging_id : String
  pub identifiers : As4References
  pub state : ExchangeState
  pub created_at : DateTime
  pub signed_references : List ComparableReferenceFields
  pub required_references : Option (List ComparableReferenceFields)
  pub message : Option As4Message
  pub receipt : Option As4Receipt

-- A new exchange: the references that it requires, if any, are the caller's, and the other fields have
-- their defaults.
unfoldable pub new_exchange :
    As4InternalParty
    → As4References
    → DateTime
    → Option (List ComparableReferenceFields)
    → As4Exchange
new_exchange local_party identifiers now required_references = record {
  local_party = local_party;
  message_id = "";
  messaging_id = "";
  identifiers = identifiers;
  state = created;
  created_at = now;
  signed_references = [];
  required_references = required_references;
  message = none;
  receipt = none;
}

-- The property `errors`.
unfoldable pub exchange_errors : As4Exchange → Result (List Error)
unfolding errors
exchange_errors x = elim x.receipt [ none ↦ ok [] | some r ↦ errors r ]

-- The property `error`.
unfoldable pub exchange_error : As4Exchange → Result (Option Error)
unfolding exchange_errors
exchange_error x = bind (exchange_errors x) (λ es. ok (head? es))

-- The property `conversation_id`.
unfoldable pub exchange_conversation_id : As4Exchange → Result (Option String)
unfolding conversation_id
exchange_conversation_id x = elim x.message [ none ↦ ok none | some m ↦ conversation_id m ]

-- What `restore` checks before it validates what was stored.
unfoldable pub check_stored_party : String → As4InternalParty → Result (Unit {0})
check_stored_party stored_party_id p =
    ensure (stored_party_id == p.identity.party_id)
      (mismatched_local_party stored_party_id p.identity.party_id)
