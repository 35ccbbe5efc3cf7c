-- ===== src/Parties.antt =====
-- Parties and what a parse is given: as4/core/common.py and as4/core/context.py.
use as_lib.Base.{ℕ, String, Bool, true, Option, List, [], ◌∷◌, ◌^◌}
use as_lib.Platform.{Bytes, Certificate}
use as_lib.Outcome.{Result, err, signer_not_configured}
use as_lib.Models.UserMessage.{PartyId, PartyFrom, PartyTo}

pub record As4PartyIdentity : Type 0 where
  pub party_id : String
  pub party_type : Option String

-- `AS4PartyIdentity.from_party`, which takes either kind of party.
unfoldable pub from_party_id : PartyId → As4PartyIdentity
from_party_id p = record { party_id = p.value; party_type = p.type_value }

unfoldable pub from_party_to : PartyTo → As4PartyIdentity
unfolding from_party_id
from_party_to p = from_party_id p.party_id

unfoldable pub from_party_from : PartyFrom → As4PartyIdentity
unfolding from_party_id
from_party_from p = from_party_id p.party_id

unfoldable pub to_party_from : As4PartyIdentity → PartyFrom
to_party_from i = record {
  party_id = record { value = i.party_id; type_value = i.party_type };
  role = record {
    value = "http://docs.oasis-open.org/ebxml-msg/ebms/v3.0/ns/core/200704/initiator";
  };
}

unfoldable pub to_party_to : As4PartyIdentity → PartyTo
to_party_to i = record {
  party_id = record { value = i.party_id; type_value = i.party_type };
  role = record {
    value = "http://docs.oasis-open.org/ebxml-msg/ebms/v3.0/ns/core/200704/responder";
  };
}

-- A private key is whatever object the caller supplies. The program signs by PKCS #1 v1.5 over
-- SHA-256 and decrypts by OAEP over SHA-256 with an empty label, and passes no other arguments.
-- `decrypt` has no answer where it raises `ValueError`.
pub record As4PrivateKey : Type 0 where
  pub sign : Bytes → Bytes
  pub decrypt : Bytes → Option Bytes

pub record As4BaseCredentials : Type 0 where
  pub certificate : Certificate

pub record As4InternalCredentials : Type 0 where
  pub base_credentials : As4BaseCredentials
  pub open base_credentials use *
  pub private_key : As4PrivateKey

pub record As4InternalParty : Type 0 where
  pub identity : As4PartyIdentity
  pub credentials : As4InternalCredentials

pub record As4ExternalParty : Type 0 where
  pub identity : As4PartyIdentity
  pub credentials : As4BaseCredentials

abbrev pub SignerResolver : Type 0
SignerResolver = PartyFrom → Option Certificate → Result Certificate

abbrev pub ParticipantAcceptor : Type 0
ParticipantAcceptor = String → Result (Unit {0})

unfoldable pub signer_resolver_not_configured : SignerResolver
signer_resolver_not_configured party_from embedded = err signer_not_configured

-- A set of texts is the list of its members.
pub record SecurityPolicy : Type 0 where
  pub sign_required : Bool
  pub encrypt_required : Bool
  pub signer_resolver : SignerResolver
  pub required_coverage : List String
  pub verify_digests : Bool
  pub maximum_decompressed_size : ℕ
  pub verify_participants : Bool

-- `MAXIMUM_DECOMPRESSED_SIZE`
abbrev pub maximum_decompressed_size : ℕ
maximum_decompressed_size = 1024 ^ 3

-- `SecurityPolicy()`
abbrev pub default_security_policy : SecurityPolicy
default_security_policy = record {
  sign_required = true;
  encrypt_required = true;
  signer_resolver = signer_resolver_not_configured;
  required_coverage = "messaging" ∷ "body" ∷ "payloads" ∷ [];
  verify_digests = true;
  maximum_decompressed_size = maximum_decompressed_size;
  verify_participants = true;
}

pub record As4ParseContext : Type 0 where
  pub local_party : As4InternalParty
  pub accept_participant : Option ParticipantAcceptor
  pub security_policy : SecurityPolicy
