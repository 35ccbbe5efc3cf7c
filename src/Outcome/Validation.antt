-- ===== src/Outcome/Validation.antt =====
-- `from_pydantic_error` and `from_validation_error` of as4/errors.py, and `exactly_one` of
-- as4/models/common.py.
use as_lib.Base.{String, ◌<>◌, List, [], ◌∷◌, if◌then◌else◌, ◌==◌, string_eq}
use as_lib.Base.Text.{join}
use as_lib.Errors.{
  ErrorClass, base, value_inconsistent, duplicate_header_element, ReceiptableError, error_of,
}
use as_lib.Outcome.{ErrorDetails, Result, ok, err, repeated_element, value_error}

-- `cls.from_pydantic_error(error_details)` for the class `c`.
unfoldable pub from_pydantic_error : ErrorClass → ErrorDetails → ReceiptableError
from_pydantic_error c e =
    let location = join "/" e.loc in
    if e.type == "missing"
    then error_of c ("Missing expected content at: " <> location)
    else error_of c (e.msg <> " at: " <> location)

-- Only the first entry of the error is read.
unfoldable pub from_validation_error : ErrorDetails → List ErrorDetails → ReceiptableError
unfolding from_pydantic_error
from_validation_error e rest =
    if e.repeated
    then error_of duplicate_header_element ("Repeated element at: " <> join "/" e.loc)
    else from_pydantic_error (base value_inconsistent) e

-- The validator of a `Singular` field at a list, with the texts of its errors for the length given.
unfoldable pub exactly_one {ℓ} : {A : Type ℓ} → (List A → String) → List A → Result A
exactly_one got [] = err (value_error "expected exactly one element, got 0")
exactly_one got (x ∷ []) = ok x
exactly_one got (x ∷ y ∷ rest) =
    err (repeated_element ("expected exactly one element, got " <> got (x ∷ y ∷ rest)))
