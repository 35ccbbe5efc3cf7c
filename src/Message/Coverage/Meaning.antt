-- ===== src/Message/Coverage/Meaning.antt =====
-- What the coverage of a signature says about its references.
use as_lib.Base.{
  ◌≡◌, ◌≢◌, refl, ap, sym, ◌∙◌, ◌⊎◌, inl, inr, String, true, false, Option, none, some, List, [],
  ◌∷◌, ◌↔◌, All, Any, contains, string_eq, option_eq, ◌==◌, arith,
}
use as_lib.Base.Text.{starts_with, remove_prefix}
use as_lib.Base.Dict
use as_lib.Base.Dict.{Dict}
use as_lib.Etree.{Element, tag}
use as_lib.Outcome.{ok}
use as_lib.Models.Reference.{Reference}
use as_lib.Models.Signature.{Signature}
use as_lib.Dsig.{or_empty}
use mathlib.Core.Bool.{false≢true}
use text.Mathlib.TextEquality.{eq_iff}
use as_lib.Message.Coverage.{
  coverage_by_tag, cover, cover_all, kind_of, subset, signature_coverage, missing_coverage,
  refuse_missing, verify_signature_coverage,
}

abbrev pub messaging_tag : String
messaging_tag = "{http://docs.oasis-open.org/ebxml-msg/ebms/v3.0/ns/core/200704/}Messaging"

abbrev pub body_tag : String
body_tag = "{http://www.w3.org/2003/05/soap-envelope}Body"

-- The element that a reference of the document names.
abbrev pub target_of : Dict Element → Reference → Option Element
target_of elements r = Dict.get elements (remove_prefix (or_empty r.uri) "#")

-- The reference is no `cid:` reference and names an element with this tag.
abbrev pub Targets : Dict Element → String → Reference → Type 0
Targets elements t r =
    (starts_with (or_empty r.uri) "cid:" ≡ false)
    × ((e : Element) × (target_of elements r ≡ some e) × (tag e ≡ t))

-- The reference is the `cid:` reference of this URI.
abbrev pub SignsPayload : String → Reference → Type 0
SignsPayload uri r = (starts_with uri "cid:" ≡ true) × (or_empty r.uri ≡ uri)

-- The two words are different, and so are the two tags.
body-ne-messaging : ◌≢◌ {A = String} "body" "messaging"
body-ne-messaging p = false≢true ((eq_iff "body" "messaging").1 p)

body_tag-ne-messaging_tag : (body_tag == messaging_tag) ≡ false
unfolding string_eq
body_tag-ne-messaging_tag = refl

tag-messaging : (t : String) → (coverage_by_tag t ≡ some "messaging") ↔ (t ≡ messaging_tag)
unfolding coverage_by_tag
tag-messaging t = ground (arith, body-ne-messaging)

tag-body : (t : String) → (coverage_by_tag t ≡ some "body") ↔ (t ≡ body_tag)
unfolding coverage_by_tag
tag-body t = ground (arith, body-ne-messaging, body_tag-ne-messaging_tag)

kind_of-messaging :
    (o : Option Element)
    → (kind_of o ≡ some "messaging") ↔ ((e : Element) × (o ≡ some e) × (tag e ≡ messaging_tag))
unfolding kind_of
kind_of-messaging none = ground arith
kind_of-messaging (some e) = (
  λ h. (e, refl, (tag-messaging (tag e)).0 h),
  λ (x, p, q). ground (arith, tag-messaging (tag e), tag-messaging (tag x)),
)

kind_of-body :
    (o : Option Element)
    → (kind_of o ≡ some "body") ↔ ((e : Element) × (o ≡ some e) × (tag e ≡ body_tag))
unfolding kind_of
kind_of-body none = ground arith
kind_of-body (some e) = (
  λ h. (e, refl, (tag-body (tag e)).0 h),
  λ (x, p, q). ground (arith, tag-body (tag e), tag-body (tag x)),
)

covered-messaging :
    (elements : Dict Element) (refs : List Reference)
    → (contains (cover_all elements refs).covered "messaging" ≡ true)
      ↔ Any (Targets elements messaging_tag) refs
unfolding cover_all cover
covered-messaging elements [] = ground arith
covered-messaging elements (r ∷ rest) =
    ground (arith, covered-messaging elements rest, kind_of-messaging (target_of elements r))

covered-body :
    (elements : Dict Element) (refs : List Reference)
    → (contains (cover_all elements refs).covered "body" ≡ true)
      ↔ Any (Targets elements body_tag) refs
unfolding cover_all cover
covered-body elements [] = ground arith
covered-body elements (r ∷ rest) =
    ground (arith, covered-body elements rest, kind_of-body (target_of elements r))

messaging-ne-payloads : ◌≢◌ {A = String} "messaging" "payloads"
messaging-ne-payloads p = false≢true ((eq_iff "messaging" "payloads").1 p)

body-ne-payloads : ◌≢◌ {A = String} "body" "payloads"
body-ne-payloads p = false≢true ((eq_iff "body" "payloads").1 p)

kind_of-ne-payloads : (o : Option Element) → kind_of o ≢ some "payloads"
unfolding kind_of coverage_by_tag
kind_of-ne-payloads none = ground arith
kind_of-ne-payloads (some e) = ground (arith, messaging-ne-payloads, body-ne-payloads)

covered-payloads :
    (elements : Dict Element) (refs : List Reference)
    → contains (cover_all elements refs).covered "payloads" ≡ false
unfolding cover_all cover
covered-payloads elements [] = refl
covered-payloads elements (r ∷ rest) =
    ground (arith, covered-payloads elements rest, kind_of-ne-payloads (target_of elements r))

signed-payloads :
    (elements : Dict Element) (refs : List Reference) (uri : String)
    → (contains (cover_all elements refs).signed_payloads uri ≡ true) ↔ Any (SignsPayload uri) refs
unfolding cover_all cover
signed-payloads elements [] uri = ground arith
signed-payloads elements (r ∷ rest) uri =
    ground (arith, signed-payloads elements rest uri, kind_of (target_of elements r))

subset-payloads :
    (elements : Dict Element) (refs : List Reference) (hrefs : List String)
    → (subset hrefs (cover_all elements refs).signed_payloads ≡ true)
      ↔ All (λ href. Any (SignsPayload href) refs) hrefs
unfolding subset
subset-payloads elements refs [] = ground arith
subset-payloads elements refs (h ∷ hs) =
    ground (arith, subset-payloads elements refs hs, signed-payloads elements refs h)

-- What each of the three words stands for.
pub record CoverageMeaning (s : Signature) (elements : Dict Element) (hrefs : List String)
    : Type 0 where
  pub messaging :
      (contains (signature_coverage s elements hrefs) "messaging" ≡ true)
      ↔ Any (Targets elements messaging_tag) s.signed_info.references
  pub body :
      (contains (signature_coverage s elements hrefs) "body" ≡ true)
      ↔ Any (Targets elements body_tag) s.signed_info.references
  pub payloads :
      (contains (signature_coverage s elements hrefs) "payloads" ≡ true)
      ↔ All (λ href. Any (SignsPayload href) s.signed_info.references) hrefs

-- The coverage of a signature holds "messaging" exactly when one of its references that is no `cid:`
-- reference names an element with the tag of eb:Messaging, "body" exactly when one names an element
-- with the tag of the SOAP Body, and "payloads" exactly when every declared href is a `cid:`
-- reference of the signature.
pub signature_coverage-CoverageMeaning :
    (s : Signature) (elements : Dict Element) (hrefs : List String)
    → CoverageMeaning s elements hrefs
unfolding signature_coverage
signature_coverage-CoverageMeaning s elements hrefs = record {
  messaging = ground (arith, covered-messaging elements refs, messaging-ne-payloads);
  body = ground (arith, covered-body elements refs, body-ne-payloads);
  payloads = ground (arith, covered-payloads elements refs, subset-payloads elements refs hrefs);
}
  where
    refs : List Reference
    refs = s.signed_info.references

missing-eq-nil :
    (required coverage : List String)
    → (missing_coverage required coverage ≡ []) ↔ All (λ k. contains coverage k ≡ true) required
unfolding missing_coverage
missing-eq-nil [] coverage = ground arith
missing-eq-nil (k ∷ ks) coverage = ground (arith, missing-eq-nil ks coverage)

-- The kind is one of the three, and the references of the signature reach what it stands for.
abbrev pub Reaches : Signature → Dict Element → List String → String → Type 0
Reaches s elements hrefs kind =
    ((kind ≡ "messaging") × Any (Targets elements messaging_tag) s.signed_info.references)
    ⊎ (((kind ≡ "body") × Any (Targets elements body_tag) s.signed_info.references)
        ⊎ ((kind ≡ "payloads")
            × All (λ href. Any (SignsPayload href) s.signed_info.references) hrefs))

-- There are no kinds but the three.
kind_of-known :
    (o : Option Element) (k : String) → kind_of o ≡ some k → (k ≡ "messaging") ⊎ (k ≡ "body")
unfolding kind_of coverage_by_tag
kind_of-known none k h = ground arith
kind_of-known (some e) k h = ground arith

covered-known :
    (elements : Dict Element) (refs : List Reference) (k : String)
    → contains (cover_all elements refs).covered k ≡ true
    → (k ≡ "messaging") ⊎ (k ≡ "body")
unfolding cover_all cover
covered-known elements [] k h = ground arith
covered-known elements (r ∷ rest) k h =
    ground (arith, covered-known elements rest k, kind_of-known (target_of elements r))

signature_coverage-known :
    (s : Signature) (elements : Dict Element) (hrefs : List String) (k : String)
    → contains (signature_coverage s elements hrefs) k ≡ true
    → (k ≡ "messaging") ⊎ ((k ≡ "body") ⊎ (k ≡ "payloads"))
unfolding signature_coverage
signature_coverage-known s elements hrefs k h =
    ground (arith, covered-known elements s.signed_info.references k)

contains-Reaches :
    (s : Signature) (elements : Dict Element) (hrefs : List String) (k : String)
    → (contains (signature_coverage s elements hrefs) k ≡ true) ↔ Reaches s elements hrefs k
contains-Reaches s elements hrefs k = (to, from)
  where
    c : CoverageMeaning s elements hrefs
    c = signature_coverage-CoverageMeaning s elements hrefs

    at :
        (a : String)
        → k ≡ a
        → contains (signature_coverage s elements hrefs) k ≡ true
        → contains (signature_coverage s elements hrefs) a ≡ true
    at a e h = ap (contains (signature_coverage s elements hrefs)) (sym e) ∙ h

    back :
        (a : String)
        → k ≡ a
        → contains (signature_coverage s elements hrefs) a ≡ true
        → contains (signature_coverage s elements hrefs) k ≡ true
    back a e h = ap (contains (signature_coverage s elements hrefs)) e ∙ h

    to : contains (signature_coverage s elements hrefs) k ≡ true → Reaches s elements hrefs k
    to h = elim (signature_coverage-known s elements hrefs k h) [
      | inl e ↦ inl (e, c.messaging.0 (at "messaging" e h))
      | inr (inl e) ↦ inr (inl (e, c.body.0 (at "body" e h)))
      | inr (inr e) ↦ inr (inr (e, c.payloads.0 (at "payloads" e h)))
    ]

    from : Reaches s elements hrefs k → contains (signature_coverage s elements hrefs) k ≡ true
    from (inl (e, p)) = back "messaging" e (c.messaging.1 p)
    from (inr (inl (e, p))) = back "body" e (c.body.1 p)
    from (inr (inr (e, p))) = back "payloads" e (c.payloads.1 p)

All-Reaches :
    (s : Signature) (elements : Dict Element) (hrefs required : List String)
    → All (λ k. contains (signature_coverage s elements hrefs) k ≡ true) required
      ↔ All (Reaches s elements hrefs) required
All-Reaches s elements hrefs [] = (λ h. h, λ h. h)
All-Reaches s elements hrefs (k ∷ ks) =
    let here = contains-Reaches s elements hrefs k in
    let rest = All-Reaches s elements hrefs ks in
    (λ (h, t). (here.0 h, rest.0 t), λ (h, t). (here.1 h, rest.1 t))

pub verify_signature_coverage-contains :
    (s : Signature) (elements : Dict Element) (hrefs required : List String)
    → (verify_signature_coverage s elements hrefs required ≡ ok tt)
      ↔ All (λ k. contains (signature_coverage s elements hrefs) k ≡ true) required
unfolding verify_signature_coverage refuse_missing
verify_signature_coverage-contains s elements hrefs required =
    ground (arith, missing-eq-nil required (signature_coverage s elements hrefs))

-- `verify_signature_coverage` passes exactly when everything that the policy requires is reached
-- by the references of the signature: "messaging" where one of them leads to an eb:Messaging
-- element, "body" where one leads to a Body, and "payloads" where every href that the user
-- message declares is the URI of one; it never passes where something else is required.
pub verify_signature_coverage_iff :
    (s : Signature) (elements : Dict Element) (hrefs required : List String)
    → (verify_signature_coverage s elements hrefs required ≡ ok tt)
      ↔ All (Reaches s elements hrefs) required
verify_signature_coverage_iff s elements hrefs required =
    let passes = verify_signature_coverage-contains s elements hrefs required in
    let reached = All-Reaches s elements hrefs required in
    (λ h. reached.0 (passes.0 h), λ h. passes.1 (reached.1 h))
