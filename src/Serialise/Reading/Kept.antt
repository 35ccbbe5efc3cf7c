-- ===== src/Serialise/Reading/Kept.antt =====
-- What reading an envelope keeps: the one message in it, and the references as `from_reference` of
-- as4/dsig/reference.py compares them.
use as_lib.Base.{◌≡◌, refl, ap, String, Option, none, some, List, [], ◌∷◌, map, if◌then◌else◌}
use as_lib.Base.Text.{nonempty}
use as_lib.Models.Signature.{Signature}
use as_lib.Platform.{DateTime}
use as_lib.Outcome.{ok}
use as_lib.Documents.{only_one, signal_message, user_message}
use as_lib.Dsig.{ComparableReferenceFields, from_reference, named_algorithms}
use as_lib.Message.{As4Message, signature_references, signed_references}
use as_lib.Models.Reference.{Reference}
use as_lib.Models.SignalMessage.{
  MessagePartNrInformation, NonRepudiationInformation, Receipt, SignalMessage,
}
use as_lib.Models.Soap.{Envelope}
use as_lib.Models.Transforms.{Transform}
use as_lib.Models.UserMessage.{UserMessage}
use as_lib.Receipt.{
  As4Receipt, acknowledged_by, error, errors, errors_in, fields_of_parts, non_repudiated_references,
  receipt, receipt_in, signal_of, verify_non_repudiation,
}
use as_lib.Serialise.Reading.{
  read_carried, read_envelope, read_signature, read_part, read_receipt, read_reference,
  read_signal_message, read_transform, read_user_message,
}

named_algorithms-read :
    (ts : List Transform) → named_algorithms (map read_transform ts) ≡ named_algorithms ts
unfolding named_algorithms
named_algorithms-read [] = refl
named_algorithms-read (t ∷ ts) =
    ap
      (λ (others : List String). elim t.algorithm [
        | none ↦ others
        | some a ↦ if nonempty a then a ∷ others else others
      ])
      (named_algorithms-read ts)

from_reference-read : (r : Reference) → from_reference (read_reference r) ≡ from_reference r
unfolding from_reference
from_reference-read r = rw (from_reference, named_algorithms-read r.transforms.transforms) refl

from_references-read :
    (rs : List Reference) → map from_reference (map read_reference rs) ≡ map from_reference rs
from_references-read [] = refl
from_references-read (r ∷ rs) = rw (from_reference-read r, from_references-read rs) refl

fields_of_parts-read :
    (ps : List MessagePartNrInformation) → fields_of_parts (map read_part ps) ≡ fields_of_parts ps
unfolding fields_of_parts
fields_of_parts-read [] = refl
fields_of_parts-read (p ∷ ps) =
    rw (fields_of_parts, from_references-read p.references, fields_of_parts-read ps) refl

acknowledged_in-read :
    (i : Option NonRepudiationInformation)
    → acknowledged_by (some (read_receipt (record { non_repudiation_information = i })))
      ≡ acknowledged_by (some (record { non_repudiation_information = i }))
unfolding acknowledged_by
acknowledged_in-read none = refl
acknowledged_in-read (some i) = fields_of_parts-read i.message_part_nr_information

abbrev references_in : Option Signature → List Reference
references_in o = elim o [ none ↦ [] | some s ↦ s.signed_info.references ]

abbrev read_signed : Option Signature → Option Signature
read_signed o = elim o [ none ↦ none | some x ↦ some (read_signature x) ]

signature_references-read :
    (o : Option Signature)
    → map from_reference (references_in (read_signed o)) ≡ map from_reference (references_in o)
signature_references-read none = refl
signature_references-read (some s) = from_references-read s.signed_info.references

only_one-map {ℓ} :
    {A B : Type ℓ}
    → (f : A → B) (xs : List A) (name : String) (x : A) → only_one xs name ≡ ok (some x)
    → only_one (map f xs) name ≡ ok (some (f x))
unfolding only_one
only_one-map f [] name x h = cc
only_one-map f (y ∷ []) name x h = cc
only_one-map f (y ∷ z ∷ ys) name x h = cc

module _ (read_time : DateTime → DateTime) where
  signed_references-carried :
      (n m : As4Message) (o : Option Envelope)
      → m.soap_envelope ≡ o
      → n.soap_envelope ≡ read_carried read_time o
      → signed_references n ≡ signed_references m
  unfolding signed_references signature_references
  signed_references-carried n m none e h = rw (signed_references, signature_references, e, h) refl
  signed_references-carried n m (some v) e h =
      rw (signed_references, signature_references, e, h)
        (signature_references-read v.header.security.signature)

  pub signed_references-read :
      (n m : As4Message)
      → n.soap_envelope ≡ read_carried read_time m.soap_envelope
      → signed_references n ≡ signed_references m
  signed_references-read n m h = signed_references-carried n m m.soap_envelope refl h

  signal_of-carried :
      (r a : As4Receipt) (s : SignalMessage) (o : Option Envelope)
      → a.soap_envelope ≡ o
      → r.soap_envelope ≡ read_carried read_time o
      → signal_of a ≡ ok (some s)
      → signal_of r ≡ ok (some (read_signal_message read_time s))
  unfolding signal_of signal_message
  signal_of-carried r a s none i h e = (let no = rw (signal_of, i) at e in cc)
  signal_of-carried r a s (some v) i h e =
      rw (signal_of, h)
        (only_one-map (read_signal_message read_time) v.header.messaging.signal_messages
          "eb:SignalMessage" s (rw (signal_of, i) at e))

  -- The one user message of an envelope is that of the envelope as it is read.
  pub user_message-read :
      (v : Envelope) (u : UserMessage)
      → user_message v.header.messaging ≡ ok (some u)
      → user_message (read_envelope read_time v).header.messaging
        ≡ ok (some (read_user_message read_time u))
  unfolding user_message
  user_message-read v u h =
      only_one-map (read_user_message read_time) v.header.messaging.user_messages "eb:UserMessage" u
        h

  pub signal_of-read :
      (r a : As4Receipt) (s : SignalMessage)
      → r.soap_envelope ≡ read_carried read_time a.soap_envelope
      → signal_of a ≡ ok (some s)
      → signal_of r ≡ ok (some (read_signal_message read_time s))
  signal_of-read r a s h e = signal_of-carried r a s a.soap_envelope refl h e

  -- What is read from a signal is read from its envelope.
  pub error-read :
      (r a : As4Receipt) (s : SignalMessage)
      → r.soap_envelope ≡ read_carried read_time a.soap_envelope
      → signal_of a ≡ ok (some s)
      → error r ≡ error a
  unfolding error errors errors_in
  error-read r a s h e = rw (error, errors, e, signal_of-read r a s h e) refl

  verified_found :
      (r a : As4Receipt) (found : Option Receipt) (sent : List ComparableReferenceFields)
      → receipt a ≡ ok found
      → receipt r ≡ ok (elim found [ none ↦ none | some x ↦ some (read_receipt x) ])
      → verify_non_repudiation r sent none ≡ verify_non_repudiation a sent none
  unfolding verify_non_repudiation non_repudiated_references
  verified_found r a none sent e1 e2 = rw (verify_non_repudiation, e1, e2) refl
  verified_found r a (some x) sent e1 e2 =
      rw
        (
          verify_non_repudiation,
          non_repudiated_references,
          e1,
          e2,
          acknowledged_in-read x.non_repudiation_information,
        )
        refl

  pub verify_non_repudiation-read :
      (r a : As4Receipt) (s : SignalMessage) (sent : List ComparableReferenceFields)
      → r.soap_envelope ≡ read_carried read_time a.soap_envelope
      → signal_of a ≡ ok (some s)
      → verify_non_repudiation r sent none ≡ verify_non_repudiation a sent none
  unfolding receipt receipt_in
  verify_non_repudiation-read r a s sent h e =
      verified_found r a s.receipt sent (rw (receipt, e) refl)
        (rw (receipt, signal_of-read r a s h e) refl)
