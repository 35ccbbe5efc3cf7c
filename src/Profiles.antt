-- ===== src/Profiles.antt =====
-- as4/core/profiles.py: the registry of profiles, which is the tree of the subclasses of `AS4Profile`,
-- and what a stored exchange keeps of its profile.
pub mod Lookup
use as_lib.Base.{String, Option, List, [], ◌∷◌, ◌++◌, find, ◌==◌, string_eq}
use as_lib.Outcome.{Result, require, unknown_profile}

-- A class with its `__subclasses__()`; what the class gives is of the type `P`.
mutual
  pub data ProfileClass (P : Type 0) : Type 0 where
    profile_class : P → ProfileClasses P → ProfileClass P

  pub data ProfileClasses (P : Type 0) : Type 0 where
    no_classes : ProfileClasses P
    first_class : ProfileClass P → ProfileClasses P → ProfileClasses P

-- `descendants(cls)`: a subclass comes before its own subclasses.
unfoldable mutual
  pub descendants : {P : Type 0} → ProfileClass P → List P
  descendants (profile_class p cs) = descendants_in cs

  descendants_in : {P : Type 0} → ProfileClasses P → List P
  descendants_in no_classes = []
  descendants_in (first_class (profile_class p below) cs) =
      p ∷ (descendants_in below ++ descendants_in cs)

module _ {P : Type 0} (get_profile_name : P → String) (as4_profile : ProfileClass P) where
  unfoldable pub by_name : String → Result P
  unfolding descendants
  by_name profile_name =
      require (find (λ p. get_profile_name p == profile_name) (descendants as4_profile))
        (unknown_profile profile_name)

  -- What pydantic hands to `load_profile`: a text, or anything else, which stays as it is.
  pub data Given : Type 0 where
    text : String → Given
    loaded : P → Given

  unfoldable pub load_profile : Given → Result P
  unfolding by_name
  load_profile (text s) = by_name s
  load_profile (loaded p) = Result.ok p

  unfoldable pub dump_profile : P → String
  dump_profile p = get_profile_name p
