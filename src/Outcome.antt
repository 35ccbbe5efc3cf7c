-- ===== src/Outcome.antt =====
-- What a call of the program does: it returns, or it raises. The exceptions are those of
-- as4/errors.py, as4/models/dsig and as4/models/wsse, and those that pydantic, lxml and
-- cryptography raise.
pub mod Exec
pub mod Validation
use mathlib.Core.Path.{subst}
use as_lib.Base.{◌≡◌, refl, ap, String, Bool, true, false, Option, none, some, List, arith}
use as_lib.Errors.{ReceiptableError}
use as_lib.Platform.{Certificate}

-- One entry of `ValidationError.errors()`. `repeated` says that `ctx["error"]` is a
-- `RepeatedElement`; the location's parts are given as texts.
pub record ErrorDetails : Type 0 where
  pub loc : List String
  pub type : String
  pub msg : String
  pub repeated : Bool

-- The reasons for which a `SignerResolver` of the library refuses a certificate: one for each text of
-- `UntrustedSignerError`, with what the text names.
pub data SignerFault : Type 0 where
  no_certificate : SignerFault
  not_pinned : Certificate → String → SignerFault
  no_chain : Certificate → SignerFault
  chain_too_deep : Certificate → SignerFault
  outside_validity : Certificate → SignerFault
  revoked_certificate : Certificate → SignerFault
  not_named : String → SignerFault

-- The same for `ReceiptVerificationError`.
pub data ReceiptFault : Type 0 where
  unreadable : ReceiptFault
  no_ref_to_message_id : ReceiptFault
  no_soap_envelope : ReceiptFault
  no_signature : ReceiptFault
  no_security_token : ReceiptFault
  wrong_signer : Certificate → Certificate → ReceiptFault
  signature_does_not_verify : ReceiptFault
  signature_not_verifiable : String → ReceiptFault
  messaging_not_covered : ReceiptFault
  reference_not_in_document : String → ReceiptFault
  reference_not_verifiable : String → String → ReceiptFault
  receipt_digest_mismatch : String → ReceiptFault
  no_receipt : ReceiptFault
  nothing_required : ReceiptFault
  acknowledges_unsent : String → ReceiptFault
  does_not_acknowledge : String → ReceiptFault
  refers_to_other : Option String → String → ReceiptFault

pub data Raised : Type 0 where
  receiptable : ReceiptableError → Raised
  -- pydantic's error lists at least one entry.
  validation : ErrorDetails → List ErrorDetails → Raised
  xml_syntax : Raised
  value_error : String → Raised
  repeated_element : String → Raised
  invalid_signature : Raised
  unsupported_digest_algorithm : String → Raised
  unsupported_transform : String → Raised
  unsupported_signature_algorithm : String → Raised
  unsupported_security_token_type : String → Raised
  untrusted_signer : SignerFault → Raised
  participant_not_serviced : Raised
  remote_party_not_verified : String → Raised
  receipt_verification : ReceiptFault → Raised
  signer_not_configured : Raised
  mismatched_local_party : String → String → Raised
  unknown_profile : String → Raised

pub data Result {ℓ} (A : Type ℓ) : Type ℓ where
  ok : A → Result A
  err : Raised → Result A

abbrev pub bind {ℓ κ} : {A : Type ℓ} {B : Type κ} → Result A → (A → Result B) → Result B
bind (ok a) f = f a
bind (err e) f = err e

infixl 5 ◌>>=◌ ◌>>◌
abbrev pub ◌>>=◌ {ℓ κ} : {A : Type ℓ} {B : Type κ} → Result A → (A → Result B) → Result B
m >>= f = bind m f

abbrev pub ◌>>◌ {ℓ} : {B : Type ℓ} → Result (Unit {0}) → Result B → Result B
m >> k = bind m (λ _. k)

-- `if not condition: raise error`
abbrev pub ensure : Bool → Raised → Result (Unit {0})
ensure true e = ok tt
ensure false e = err e

-- `if value is None: raise error`
abbrev pub require {ℓ} : {A : Type ℓ} → Option A → Raised → Result A
require none e = err e
require (some a) e = ok a

pub bind-eq-ok {ℓ κ} :
    {A : Type ℓ} {B : Type κ} (m : Result A) (f : A → Result B) {b : B}
    → bind m f ≡ ok b
    → (a : A) × (m ≡ ok a) × (f a ≡ ok b)
bind-eq-ok (ok a) f h = (a, refl, h)
bind-eq-ok (err e) f h = cc

pub ensure-eq-ok : (b : Bool) (e : Raised) (u : Unit {0}) → ensure b e ≡ ok u → b ≡ true
ensure-eq-ok true e u h = refl
ensure-eq-ok false e u h = cc

unpack_ok {ℓ} : {A : Type ℓ} → A → Result A → A
unpack_ok a (ok b) = b
unpack_ok a (err e) = a

pub ok-injective {ℓ} : {A : Type ℓ} {a b : A} → ok a ≡ ok b → a ≡ b
unfolding unpack_ok
ok-injective {a = a} h = ap (unpack_ok a) h

pub require-eq-some {ℓ} :
    {A : Type ℓ} (o : Option A) (e : Raised) {a : A} → require o e ≡ ok a → o ≡ some a
require-eq-some none e h = cc
require-eq-some (some b) e h = ap some (ok-injective h)

unpack_some {ℓ} : {A : Type ℓ} → A → Option A → A
unpack_some a (some b) = b
unpack_some a none = a

pub some-injective {ℓ} : {A : Type ℓ} {a b : A} → some a ≡ some b → a ≡ b
unfolding unpack_some
some-injective {a = a} h = ap (unpack_some a) h

raised_in {ℓ} : {A : Type ℓ} → Raised → Result A → Raised
raised_in x (ok a) = x
raised_in x (err e) = e

pub raised_eq {ℓ} : {A : Type ℓ} {x y : Raised} → ◌≡◌ {A = Result A} (err x) (err y) → x ≡ y
unfolding raised_in
raised_eq {x = x} h = ap (raised_in x) h

-- What a chain of calls can raise is what each of them can raise.
module _ {ℓ} (P : Raised → Type ℓ) (e : Raised) where
  pub bind-raises {κ μ} :
      {A : Type κ} {B : Type μ} (m : Result A) (f : A → Result B)
      → (m ≡ err e → P e)
      → ((a : A) → f a ≡ err e → P e)
      → bind m f ≡ err e
      → P e
  bind-raises (ok a) f first rest h = rest a h
  bind-raises (err x) f first rest h = first (ap err (raised_eq h))

  pub require-raises {κ} :
      {A : Type κ} (o : Option A) (x : Raised) → P x → require o x ≡ err e → P e
  require-raises none x p h = subst P (raised_eq h) p
  require-raises (some a) x p h = cc

  pub ensure-raises : (b : Bool) (x : Raised) → P x → ensure b x ≡ err e → P e
  ensure-raises true x p h = cc
  ensure-raises false x p h = subst P (raised_eq h) p
