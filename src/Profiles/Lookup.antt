-- ===== src/Profiles/Lookup.antt =====
-- What the registry of as4/core/profiles.py finds.
use as_lib.Base.{
  ◌≡◌, refl, ap, sym, ◌∙◌, String, false, some, List, [], ◌∷◌, find, In, All, All-In, ◌==◌, ==→eq,
  ==_refl, string_eq, arith, Bool-cases, inl, inr,
}
use as_lib.Outcome.{ok, require-eq-some, some-injective}
use as_lib.Profiles.{ProfileClass, by_name, descendants, dump_profile, load_profile, text}

find-first :
    {P : Type 0} (name : P → String) (n : String) (ps : List P) (p : P)
    → find (λ q. name q == n) ps ≡ some p
    → (name p ≡ n) × In p ps
find-first name n [] p h = ground arith
find-first name n (q ∷ ps) p h = elim (Bool-cases (name q == n)) [
  | inl y ↦
      let same : q ≡ p = some-injective (rw (find, y) at h) in
      (ap name (sym same) ∙ ==→eq (name q) n y, inl (sym same))
  | inr z ↦ (let (a, b) = find-first name n ps p (rw (find, z) at h) in (a, inr b))
]

-- No two profiles have one name.
abbrev pub Distinct : {P : Type 0} → (P → String) → List P → Type 0
Distinct name [] = Unit
Distinct name (p ∷ ps) = All (λ q. (name p == name q) ≡ false) ps × Distinct name ps

find-Distinct :
    {P : Type 0} (name : P → String) (ps : List P) (p : P)
    → Distinct name ps
    → In p ps
    → find (λ q. name q == name p) ps ≡ some p
find-Distinct name [] p d m = elim m [ ]
find-Distinct name (q ∷ ps) p (fresh, d) (inl e) = rw (e, ==_refl (name q)) refl
find-Distinct name (q ∷ ps) p (fresh, d) (inr m) =
    rw (All-In (λ r. (name q == name r) ≡ false) ps p fresh m) (find-Distinct name ps p d m)

module _ {P : Type 0} (get_profile_name : P → String) (as4_profile : ProfileClass P) where
  -- A profile that is found under a name is registered and has that name.
  pub by_name-In :
      (n : String) (p : P)
      → by_name get_profile_name as4_profile n ≡ ok p
      → (get_profile_name p ≡ n) × In p (descendants as4_profile)
  unfolding by_name
  by_name-In n p h =
      find-first get_profile_name n (descendants as4_profile) p (require-eq-some _ _ h)

  -- When no two registered profiles have one name, then a registered profile is loaded back from
  -- the name that it is dumped as.
  pub load_profile-dump_profile :
      (p : P)
      → Distinct get_profile_name (descendants as4_profile)
      → In p (descendants as4_profile)
      → load_profile get_profile_name as4_profile
          (text (dump_profile get_profile_name as4_profile p))
        ≡ ok p
  unfolding load_profile by_name dump_profile
  load_profile-dump_profile p d m =
      rw (load_profile, by_name, find-Distinct get_profile_name (descendants as4_profile) p d m)
        refl
