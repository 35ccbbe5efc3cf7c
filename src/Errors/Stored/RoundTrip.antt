-- ===== src/Errors/Stored/RoundTrip.antt =====
-- The storing of an error and its loading, one after the other.
use as_lib.Base.{string_eq, ◌≡◌, refl, some, string_eq}
use as_lib.Errors.{ErrorClass, base, feature_not_supported, ReceiptableError}
use as_lib.Errors.Stored.{
  class_name, class_named, descendants, dump_parse_error, load_parse_error, loaded,
}

class_named-class_name : (c : ErrorClass) → class_named (class_name c) descendants ≡ some c
unfolding class_named string_eq
class_named-class_name (base feature_not_supported) = refl
class_named-class_name (base _) = refl
class_named-class_name _ = refl

-- Every error of every class comes back from storage as it was, its detail included, also where
-- that detail is empty and the constructor would have put the class's own in its place.
pub load_parse_error-dump_parse_error :
    (e : ReceiptableError) → load_parse_error (dump_parse_error e) ≡ loaded e
unfolding load_parse_error dump_parse_error
load_parse_error-dump_parse_error e = rw (class_named-class_name e.class, load_parse_error)
