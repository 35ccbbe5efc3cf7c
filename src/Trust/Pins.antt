-- ===== src/Trust/Pins.antt =====
-- What the resolvers of as4/core/trust.py and the Peppol rule accept.
use mathlib.Core.Path.{subst}
use as_lib.Base.{
  ℕ, ◌≤◌, ◌≡◌, ◌↔◌, ap, sym, ◌∙◌, Bool, true, false, Option, none, some, List, [], ◌∷◌, All, In,
  length, contains, string_eq, ◌==◌, arith, leb,
}
use as_lib.Outcome.{ok, bind-eq-ok, ensure-eq-ok, ok-injective, require-eq-some, ensure}
use as_lib.Platform.{Bytes, DateTime, Certificate, X509, bytes_eq, certificate_eq}
use as_lib.Models.UserMessage.{PartyFrom}
use as_lib.Parties.{SecurityPolicy, SignerResolver}
use as_lib.Trust.{
  path_to_anchor, check_path, pinned_as, resolve_pinned, pinned_certificates, resolve_chain,
  certificate_chain, certificate_names_the_sender, peppol_security_policy, peppol_chain_depth,
}
use as_lib.Trust.Chains.{ChainAbove, path_to_anchor-ChainAbove}

module _ (x : X509) where
  pinned_as-eq-some :
      (f : Bytes) (certificates : List Certificate) (c : Certificate)
      → pinned_as x f certificates ≡ some c
      → (x.fingerprint c == f ≡ true) × In c certificates
  unfolding pinned_as
  pinned_as-eq-some f [] c h = ground arith
  pinned_as-eq-some f (d ∷ rest) c h = ground (arith, pinned_as-eq-some f rest c)

  pinned_as-eq-none :
      (f : Bytes) (certificates : List Certificate)
      → (pinned_as x f certificates ≡ none) ↔ All (λ c. (x.fingerprint c == f) ≡ false) certificates
  unfolding pinned_as
  pinned_as-eq-none f [] = ground arith
  pinned_as-eq-none f (d ∷ rest) = ground (arith, pinned_as-eq-none f rest)

  -- A signer that the resolver of pinned certificates gives is one of these, and has the
  -- fingerprint of the certificate in the message.
  pub resolve_pinned-In :
      (certificates : List Certificate) (resolver : SignerResolver) (party_from : PartyFrom)
      (embedded signer : Certificate)
      → pinned_certificates x certificates ≡ ok resolver
      → resolver party_from (some embedded) ≡ ok signer
      → In signer certificates × ((x.fingerprint signer == x.fingerprint embedded) ≡ true)
  unfolding pinned_certificates resolve_pinned
  resolve_pinned-In [] resolver party_from embedded signer h r = ground arith
  resolve_pinned-In (c ∷ rest) resolver party_from embedded signer h r =
      let found =
        require-eq-some _ _ (ap (λ f. f party_from (some embedded)) (ok-injective h) ∙ r) in
      let (same, pinned) = pinned_as-eq-some (x.fingerprint embedded) (c ∷ rest) signer found in
      (pinned, same)

  -- Valid at the time, and not revoked, where there is a test for that.
  abbrev pub ValidAt : DateTime → Option (Certificate → Bool) → Certificate → Type 0
  ValidAt now none c =
      (leb (x.not_valid_before c) now ≡ true) × (leb now (x.not_valid_after c) ≡ true)
  ValidAt now (some is_revoked) c =
      (leb (x.not_valid_before c) now ≡ true)
      × (leb now (x.not_valid_after c) ≡ true)
      × (is_revoked c ≡ false)

  check_path_iff :
      (now : DateTime) (revoked : Option (Certificate → Bool)) (path : List Certificate)
      → (check_path x now revoked path ≡ ok tt) ↔ All (ValidAt now revoked) path
  unfolding check_path
  check_path_iff now none [] = ground arith
  check_path_iff now none (c ∷ path) = ground (arith, check_path_iff now none path)
  check_path_iff now (some f) [] = ground arith
  check_path_iff now (some f) (c ∷ path) = ground (arith, check_path_iff now (some f) path)

  -- A signer that the Peppol policy accepts.
  pub record PeppolSigner (now : DateTime) (anchors intermediates : List Certificate)
      (revoked : Option (Certificate → Bool)) (party_from : PartyFrom)
      (embedded signer : Certificate) : Type 0 where
    pub above : List Certificate
    pub is_embedded : signer ≡ embedded
    pub chain : ChainAbove x anchors intermediates signer above
    pub depth : length (signer ∷ above) ≤ peppol_chain_depth x
    pub valid : All (ValidAt now revoked) (signer ∷ above)
    pub names_sender : contains (x.common_names signer) party_from.party_id.value ≡ true

  resolve_chain-eq-ok :
      (now : DateTime) (anchors intermediates : List Certificate)
      (revoked : Option (Certificate → Bool)) (depth : ℕ) (party_from : PartyFrom)
      (embedded signer : Certificate)
      → resolve_chain x now anchors intermediates revoked depth party_from (some embedded)
        ≡ ok signer
      → (path : List Certificate) × (path_to_anchor x embedded anchors intermediates depth
          ≡ ok path)
        × All (ValidAt now revoked) path
        × (signer ≡ embedded)
  unfolding resolve_chain
  resolve_chain-eq-ok now anchors intermediates revoked depth party_from embedded signer h =
      let (path, p, h1) = bind-eq-ok (path_to_anchor x embedded anchors intermediates depth) _ h in
      let (u, v, h2) = bind-eq-ok (check_path x now revoked path) _ h1 in
      (path, p, (check_path_iff now revoked path).0 v, sym (ok-injective h2))

  names_the_sender-eq-ok :
      (resolver : SignerResolver) (party_from : PartyFrom) (embedded : Option Certificate)
      (signer : Certificate)
      → certificate_names_the_sender x resolver party_from embedded ≡ ok signer
      → (resolver party_from embedded ≡ ok signer)
        × (contains (x.common_names signer) party_from.party_id.value ≡ true)
  unfolding certificate_names_the_sender
  names_the_sender-eq-ok resolver party_from embedded signer h =
      let (c, p, h1) = bind-eq-ok (resolver party_from embedded) _ h in
      let (u, n, h2) =
        bind-eq-ok (ensure (contains (x.common_names c) party_from.party_id.value) _) _ h1 in
      let same = ok-injective h2 in
      (
        p ∙ ap ok same,
        ap (λ d. contains (x.common_names d) party_from.party_id.value) (sym same)
            ∙ ensure-eq-ok _ _ _ n,
      )

  signer_of_chain :
      (now : DateTime) (anchors intermediates : List Certificate)
      (revoked : Option (Certificate → Bool)) (party_from : PartyFrom)
      (embedded signer : Certificate)
      → certificate_names_the_sender x
          (resolve_chain x now anchors intermediates revoked (peppol_chain_depth x))
          party_from
          (some embedded)
        ≡ ok signer
      → PeppolSigner now anchors intermediates revoked party_from embedded signer
  signer_of_chain now anchors intermediates revoked party_from embedded signer h =
      let (c, named) = names_the_sender-eq-ok _ party_from (some embedded) signer h in
      let (path, p, valid, same) =
        resolve_chain-eq-ok now anchors intermediates revoked _ party_from embedded signer c in
      let (above, is_path, chain, depth) =
        path_to_anchor-ChainAbove x embedded anchors intermediates _ path p in
      let to_path = is_path ∙ ap (λ d. d ∷ above) (sym same) in
      record {
        above = above;
        is_embedded = same;
        chain = subst (λ d. ChainAbove x anchors intermediates d above) (sym same) chain;
        depth = subst (λ p. length p ≤ peppol_chain_depth x) to_path depth;
        valid = subst (All (ValidAt now revoked)) to_path valid;
        names_sender = named;
      }

  -- A signer that the resolver of the Peppol policy gives is the certificate in the message; it
  -- chains, each certificate issued by the next one, over configured intermediates to a
  -- configured anchor, in at most three certificates, all of them valid at the time and not
  -- revoked; and its common names contain the id of the sending party.
  pub peppol_security_policy-PeppolSigner :
      (now : DateTime) (anchors intermediates : List Certificate)
      (revoked : Option (Certificate → Bool)) (policy : SecurityPolicy) (party_from : PartyFrom)
      (embedded signer : Certificate)
      → peppol_security_policy x now anchors intermediates revoked ≡ ok policy
      → policy.signer_resolver party_from (some embedded) ≡ ok signer
      → PeppolSigner now anchors intermediates revoked party_from embedded signer
  unfolding peppol_security_policy certificate_chain
  peppol_security_policy-PeppolSigner now [] intermediates revoked policy party_from embedded signer
        h r =
      ground arith
  peppol_security_policy-PeppolSigner now (a ∷ anchors) intermediates revoked policy party_from
        embedded signer h r =
      signer_of_chain now (a ∷ anchors) intermediates revoked party_from embedded signer
        (ap (λ p. p.signer_resolver party_from (some embedded)) (ok-injective h) ∙ r)
