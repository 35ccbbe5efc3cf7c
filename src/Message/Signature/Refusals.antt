-- ===== src/Message/Signature/Refusals.antt =====
-- What the handlers of `get_verified_signature` in as4/core/message.py let through.
use as_lib.Base.{◌≡◌, refl, Bool, true, Option, some, string_eq, option_eq, if◌then◌else◌, arith}
use as_lib.Platform.{Certificate}
use as_lib.Outcome.{Result, ok, err, ◌>>◌, receiptable}
use as_lib.Models.Signature.{Signature}
use as_lib.Message.Signature.{refuse_untrusted, refuse_token_type, refuse_unverified}

pub refuse_unverified-eq-ok : (m : Result (Unit {0})) → refuse_unverified m ≡ ok tt → m ≡ ok tt
unfolding refuse_unverified
refuse_unverified-eq-ok (ok x) h = refl
refuse_unverified-eq-ok (err (receiptable e)) h = ground arith
refuse_unverified-eq-ok (err _) h = ground arith

pub refuse_token_type-eq-ok :
    (m : Result Certificate) (c : Certificate) → refuse_token_type m ≡ ok c → m ≡ ok c
unfolding refuse_token_type
refuse_token_type-eq-ok (ok x) c h = h
refuse_token_type-eq-ok (err (receiptable e)) c h = ground arith
refuse_token_type-eq-ok (err _) c h = ground arith

pub refuse_untrusted-eq-ok :
    (m : Result Certificate) (c : Certificate) → refuse_untrusted m ≡ ok c → m ≡ ok c
unfolding refuse_untrusted
refuse_untrusted-eq-ok (ok x) c h = h
refuse_untrusted-eq-ok (err (receiptable e)) c h = ground arith
refuse_untrusted-eq-ok (err _) c h = ground arith

pub digests_of :
    (b : Bool) (m : Result (Unit {0})) → (if b then m else ok tt) ≡ ok tt → b ≡ true → m ≡ ok tt
digests_of b m h is = ground arith

pub pair-eq-ok :
    (s t : Signature) (c d : Certificate)
    → ◌≡◌ {A = Result (Option Signature × Option Certificate)}
        (ok (some s, some c))
        (ok (some t, some d))
    → (s ≡ t) × (c ≡ d)
pair-eq-ok s t c d h = ground arith

-- What a run of three checks that hands a certificate on has passed.
pub checks-eq-ok :
    (a b c : Result (Unit {0})) (x y : Certificate)
    → (do a; b; c; ok x) ≡ ok y
    → (a ≡ ok tt) × (b ≡ ok tt) × (c ≡ ok tt) × (x ≡ y)
checks-eq-ok (ok _) (ok _) (ok _) x y h = ground arith
checks-eq-ok (ok _) (ok _) (err e) x y h = ground arith
checks-eq-ok (ok _) (err e) c x y h = ground arith
checks-eq-ok (err e) b c x y h = ground arith
