-- ===== src/Trust.antt =====
-- The trust rules of as4/core/trust.py, and the Peppol rule on top of them from
-- as4/profiles/peppol/profile.py. The time at which a chain is judged is an argument.
pub mod Chains
pub mod Pins
pub mod Termination
use as_lib.Base.{
  ℕ, zero, suc, ◌-◌, String, Bool, true, false, not, ◌&&◌, Option, none, some, List, [], ◌∷◌, ◌++◌,
  find, keep, contains, length, leb, string_eq, ◌==◌, if◌then◌else◌,
}
use as_lib.Platform.{Bytes, DateTime, Certificate, certificate_eq, X509, bytes_eq}
use as_lib.Outcome.{
  Raised, Result, ok, err, ensure, require, ◌>>=◌, ◌>>◌, value_error, untrusted_signer,
  no_certificate, not_pinned, no_chain, chain_too_deep, outside_validity, revoked_certificate,
  not_named,
}
use as_lib.Models.UserMessage.{PartyFrom}
use as_lib.Parties.{SignerResolver, SecurityPolicy, default_security_policy}

module _ (x : X509) where
  -- `{certificate.fingerprint(…): certificate for …}[fingerprint]`: the last one that has it.
  unfoldable pub pinned_as : Bytes → List Certificate → Option Certificate
  pinned_as fingerprint [] = none
  pinned_as fingerprint (c ∷ rest) = elim (pinned_as fingerprint rest) [
    | some later ↦ some later
    | none ↦ if x.fingerprint c == fingerprint then some c else none
  ]

  unfoldable pub resolve_pinned : List Certificate → SignerResolver
  unfolding pinned_as
  resolve_pinned certificates party_from none = err (untrusted_signer no_certificate)
  resolve_pinned certificates party_from (some embedded) =
      require (pinned_as (x.fingerprint embedded) certificates)
        (untrusted_signer (not_pinned embedded party_from.party_id.value))

  unfoldable pub pinned_certificates : List Certificate → Result SignerResolver
  unfolding resolve_pinned
  pinned_certificates [] = err (value_error "pinned_certificates requires at least one certificate")
  pinned_certificates (c ∷ rest) = ok (resolve_pinned (c ∷ rest))

  unfoldable pub can_issue_certificates : Certificate → Bool
  can_issue_certificates c = elim (x.basic_constraints_ca c) [
    | none ↦ false
    | some false ↦ false
    | some true ↦ (elim (x.key_cert_sign c) [ none ↦ true | some sign ↦ sign ])
  ]

  -- The first candidate that may issue certificates and issued this one.
  unfoldable pub issuer_of : Certificate → List Certificate → Option Certificate
  unfolding can_issue_certificates
  issuer_of certificate candidates =
      find (λ c. can_issue_certificates c && x.directly_issued_by certificate c) candidates

  -- The loop of `path_to_anchor`, from the path built so far, which ends in `last`. `rounds` is how
  -- often `len(path) < maximum_depth` still holds, since each round adds one certificate.
  unfoldable pub extend_path :
      ℕ
      → Certificate
      → List Certificate
      → Certificate
      → List Certificate
      → List Certificate
      → Result (List Certificate)
  unfolding issuer_of
  extend_path zero leaf path last anchors intermediates =
      err (untrusted_signer (chain_too_deep leaf))
  extend_path (suc rounds) leaf path last anchors intermediates = elim (issuer_of last anchors) [
    | some anchor ↦ ok (path ++ anchor ∷ [])
    | none ↦ (elim (issuer_of last (keep (λ c. not (contains path c)) intermediates)) [
      | none ↦ err (untrusted_signer (no_chain leaf))
      | some next ↦ extend_path rounds leaf (path ++ next ∷ []) next anchors intermediates
    ])
  ]

  unfoldable pub path_to_anchor :
      Certificate → List Certificate → List Certificate → ℕ → Result (List Certificate)
  unfolding extend_path
  path_to_anchor leaf anchors intermediates maximum_depth =
      extend_path (maximum_depth - 1) leaf (leaf ∷ []) leaf anchors intermediates

  -- The checks of the loop over the path.
  unfoldable pub check_path :
      DateTime → Option (Certificate → Bool) → List Certificate → Result (Unit {0})
  check_path now revoked [] = ok tt
  check_path now revoked (c ∷ rest) = do
    ensure (leb (x.not_valid_before c) now && leb now (x.not_valid_after c))
        (untrusted_signer (outside_validity c))
    ensure (elim revoked [ none ↦ true | some is_revoked ↦ not (is_revoked c) ])
        (untrusted_signer (revoked_certificate c))
    check_path now revoked rest

  unfoldable pub resolve_chain :
      DateTime
      → List Certificate
      → List Certificate
      → Option (Certificate → Bool)
      → ℕ
      → SignerResolver
  unfolding path_to_anchor check_path
  resolve_chain now anchors intermediates revoked maximum_depth party_from none =
      err (untrusted_signer no_certificate)
  resolve_chain now anchors intermediates revoked maximum_depth party_from (some embedded) = do
    path ← path_to_anchor embedded anchors intermediates maximum_depth
    check_path now revoked path
    ok embedded

  unfoldable pub certificate_chain :
      DateTime
      → List Certificate
      → List Certificate
      → Option (Certificate → Bool)
      → ℕ
      → Result SignerResolver
  unfolding resolve_chain
  certificate_chain now [] intermediates revoked maximum_depth =
      err (value_error "certificate_chain requires at least one trust anchor")
  certificate_chain now (a ∷ anchors) intermediates revoked maximum_depth =
      ok (resolve_chain now (a ∷ anchors) intermediates revoked maximum_depth)

  -- Peppol: the certificate must name the party that the message says it is from.
  unfoldable pub certificate_names_the_sender : SignerResolver → SignerResolver
  certificate_names_the_sender resolver party_from embedded = do
    certificate ← resolver party_from embedded
    let claimed = party_from.party_id.value
    ensure (contains (x.common_names certificate) claimed) (untrusted_signer (not_named claimed))
    ok certificate

  abbrev pub peppol_chain_depth : ℕ
  peppol_chain_depth = 3

  unfoldable pub peppol_security_policy :
      DateTime
      → List Certificate
      → List Certificate
      → Option (Certificate → Bool)
      → Result SecurityPolicy
  unfolding certificate_chain certificate_names_the_sender
  peppol_security_policy now anchors intermediates revoked = do
    chain ← certificate_chain now anchors intermediates revoked peppol_chain_depth
    ok (record default_security_policy { signer_resolver = certificate_names_the_sender chain })
