-- ===== src/Receipt/NonRepudiation.antt =====
-- What `AS4Receipt.verify_non_repudiation` accepts, as a statement about the two lists.
use as_lib.Outcome.{bind, ensure, err, bind-eq-ok, receipt_verification}
use as_lib.Receipt.{error, errors, signal_of, receipt_in}
use as_lib.Models.SignalMessage.{Error, SignalMessage}
use as_lib.Base.{
  refl, ◌⊎◌, inl, inr, Bool-cases, ◌≡◌, ◌≢◌, ◌↔◌, String, true, Option, none, some, List, [], ◌∷◌,
  All, contains, option_eq, string_eq, arith,
}
use as_lib.Outcome
use as_lib.Outcome.{
  Result, ok, err, require, ensure, bind-eq-ok, ReceiptFault, receipt_verification,
}
use as_lib.Models.SignalMessage.{Receipt}
use as_lib.Dsig.{ComparableReferenceFields, comparable_eq}
use as_lib.Receipt.{
  As4Receipt, receipt, acknowledged_by, non_repudiated_references, require_each,
  nonempty_requirement, required_or_sent, verify_non_repudiation,
}

-- Every one of the second list is in the first.
abbrev pub Among : List ComparableReferenceFields → List ComparableReferenceFields → Type 0
Among wanted rs = All (λ r. contains wanted r ≡ true) rs

pub require_each_iff :
    (fault : String → ReceiptFault) (wanted rs : List ComparableReferenceFields)
    → (require_each fault wanted rs ≡ ok tt) ↔ Among wanted rs
unfolding require_each
require_each_iff fault wanted [] = ground arith
require_each_iff fault wanted (r ∷ rs) = ground (arith, require_each_iff fault wanted rs)

nonempty_requirement_iff :
    (required : Option (List ComparableReferenceFields))
    → (nonempty_requirement required ≡ true) ↔ (required ≢ some [])
unfolding nonempty_requirement
nonempty_requirement_iff none = ground arith
nonempty_requirement_iff (some []) = ground arith
nonempty_requirement_iff (some (r ∷ rs)) = ground arith

-- Once the receipt of the signal has been read as `found`, the verification accepts exactly when
-- there is a receipt, the list of required references is not empty where one is given, every
-- acknowledged reference was sent, and every required one (every sent one, where no list is
-- given) is acknowledged.
pub verify_non_repudiation_iff :
    (r : As4Receipt) (found : Option Receipt) (sent : List ComparableReferenceFields)
    (required : Option (List ComparableReferenceFields))
    → receipt r ≡ ok found
    → (verify_non_repudiation r sent required ≡ ok tt)
      ↔ (found ≢ none)
        × (required ≢ some [])
        × Among sent (acknowledged_by found)
        × Among (acknowledged_by found) (required_or_sent required sent)
unfolding verify_non_repudiation non_repudiated_references
verify_non_repudiation_iff r none sent required h = rw h (ground arith)
verify_non_repudiation_iff r (some rc) sent required h = rw h (
    ground (
      arith,
      nonempty_requirement_iff required,
      require_each_iff Outcome.acknowledges_unsent sent (acknowledged_by (some rc)),
      require_each_iff Outcome.does_not_acknowledge (acknowledged_by (some rc))
          (required_or_sent required sent),
    ))

-- The comparison accepts, or raises a fault of its own.
abbrev pub Faulty : Result (Unit {0}) → Type 0
Faulty m = (m ≡ ok tt) ⊎ ((fault : ReceiptFault) × (m ≡ err (receipt_verification fault)))

require_each-Faulty :
    (fault : String → ReceiptFault) (wanted rs : List ComparableReferenceFields)
    → Faulty (require_each fault wanted rs)
unfolding require_each
require_each-Faulty fault wanted [] = inl refl
require_each-Faulty fault wanted (r ∷ rs) = elim (Bool-cases (contains wanted r)) [
  | inl y ↦ rw y (require_each-Faulty fault wanted rs)
  | inr n ↦ rw n (inr (fault r.uri, refl))
]

then-Faulty : (m n : Result (Unit {0})) → Faulty m → Faulty n → Faulty (bind m (λ _. n))
then-Faulty m n (inl y) f = rw y f
then-Faulty m n (inr (fault, y)) f = rw y (inr (fault, refl))

compare-Faulty :
    (found : Option Receipt) (sent : List ComparableReferenceFields)
    (required : Option (List ComparableReferenceFields))
    → Faulty (
        bind (require found (receipt_verification Outcome.no_receipt)) λ _.
          bind
            (ensure (nonempty_requirement required) (receipt_verification Outcome.nothing_required))
            λ _. bind (require_each Outcome.acknowledges_unsent sent (acknowledged_by found)) λ _.
              require_each Outcome.does_not_acknowledge
                (acknowledged_by found)
                (required_or_sent required sent))
compare-Faulty none sent required = inr (Outcome.no_receipt, refl)
compare-Faulty (some rc) sent required =
    then-Faulty _ _
      (elim (Bool-cases (nonempty_requirement required)) [
        | inl y ↦ rw y (inl refl)
        | inr n ↦ rw n (inr (Outcome.nothing_required, refl))
      ])
      (then-Faulty _ _
        (require_each-Faulty Outcome.acknowledges_unsent sent (acknowledged_by (some rc)))
        (require_each-Faulty Outcome.does_not_acknowledge (acknowledged_by (some rc))
          (required_or_sent required sent)))

read-Faulty :
    (found : Option SignalMessage) (sent : List ComparableReferenceFields)
    (required : Option (List ComparableReferenceFields)) (r : As4Receipt)
    → signal_of r ≡ ok found
    → Faulty (verify_non_repudiation r sent required)
unfolding verify_non_repudiation non_repudiated_references receipt
read-Faulty found sent required r h =
    rw (verify_non_repudiation, non_repudiated_references, receipt, h)
      (compare-Faulty (receipt_in found) sent required)

-- A signal whose error could be read is one whose receipt can be read.
pub verify_non_repudiation-Faulty :
    (r : As4Receipt) (sent : List ComparableReferenceFields)
    (required : Option (List ComparableReferenceFields)) (found : Option Error)
    → error r ≡ ok found
    → Faulty (verify_non_repudiation r sent required)
unfolding error errors
verify_non_repudiation-Faulty r sent required found h =
    let (es, e1, h1) = bind-eq-ok (errors r) _ h in
    let (s, e2, h2) = bind-eq-ok (signal_of r) _ e1 in read-Faulty s sent required r e2
