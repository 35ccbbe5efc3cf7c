-- ===== src/Trust/Termination.antt =====
-- The loop of `path_to_anchor` of as4/core/trust.py ends by itself: no certificate comes twice into a
-- path, so the intermediates run out before the depth does, if the depth is large enough.
use as_lib.Base.{
  ℕ, zero, suc, ◌+◌, ◌-◌, ◌≤◌, ◌<◌, ◌≡◌, refl, ap, sym, ◌∙◌, Bool, true, false, not, ◌||◌, List, [],
  ◌∷◌, ◌++◌, keep, In, length, contains, arith, Option-cases, Bool-cases, ◌⊎◌, inl, inr, ◌==◌,
  ==_refl,
}
use as_lib.Platform.{Certificate, X509, certificate_eq}
use as_lib.Outcome.{Result, ok, err, untrusted_signer, no_chain}
use as_lib.Trust.{extend_path, issuer_of, path_to_anchor}
use as_lib.Trust.Chains.{issuer_of-eq-some}

length-keep : {A : Type 0} (p : A → Bool) (xs : List A) → length (keep p xs) ≤ length xs
length-keep p [] = omega arith
length-keep p (x ∷ xs) = ground (arith, length-keep p xs)

-- A filter that lets through less keeps no more.
keep-fewer :
    {A : Type 0} (p q : A → Bool)
    → ((a : A) → q a ≡ true → p a ≡ true)
    → (xs : List A) → length (keep q xs) ≤ length (keep p xs)
keep-fewer p q h [] = omega arith
keep-fewer p q h (x ∷ xs) = ground (arith, keep-fewer p q h xs, h x)

-- It keeps fewer, if it drops one that the other keeps.
keep-shorter :
    {A : Type 0} (p q : A → Bool)
    → ((a : A) → q a ≡ true → p a ≡ true)
    → (xs : List A) (d : A) → In d (keep p xs)
    → q d ≡ false
    → length (keep q xs) < length (keep p xs)
keep-shorter p q h [] d m n = elim m [ ]
keep-shorter p q h (x ∷ xs) d m n = elim (Bool-cases (p x)) [
  | inl y ↦ kept (λ r. keep-shorter p q h xs d r n) y (rw (keep, y) at m)
  | inr z ↦ elim (Bool-cases (q x)) [
    | inl y ↦ let both = h x y in absurd (ground arith)
    | inr w ↦ rw (z, w) (keep-shorter p q h xs d (rw (keep, z) at m) n)
  ]
]
  where
    kept :
        (In d (keep p xs) → length (keep q xs) < length (keep p xs))
        → p x ≡ true
        → In d (x ∷ keep p xs)
        → length (keep q (x ∷ xs)) < length (keep p (x ∷ xs))
    kept shorter y (inl e) =
        let off : q x ≡ false = ap q (sym e) ∙ n in
        let most : length (keep q xs) ≤ length (keep p xs) = keep-fewer p q h xs in
        rw (y, off) (omega arith)
    kept shorter y (inr r) =
        let fewer : length (keep q xs) < length (keep p xs) = shorter r in ground arith

contains-append :
    (path : List Certificate) (next c : Certificate)
    → contains (path ++ next ∷ []) c ≡ contains path c || (c == next)
contains-append [] next c = ground arith
contains-append (p ∷ path) next c = ground (arith, contains-append path next c)

-- The intermediates that the path does not hold yet.
abbrev unused : List Certificate → List Certificate → List Certificate
unused path intermediates = keep (λ c. not (contains path c)) intermediates

unused-shorter :
    (path intermediates : List Certificate) (next : Certificate)
    → In next (unused path intermediates)
    → length (unused (path ++ next ∷ []) intermediates) < length (unused path intermediates)
unused-shorter path intermediates next m =
    keep-shorter (λ c. not (contains path c)) (λ c. not (contains (path ++ next ∷ []) c))
      (λ c h. let e = contains-append path next c in ground arith) intermediates next m
      (let e = contains-append path next next in let same = ==_refl next in ground arith)

module _ (x : X509) (leaf : Certificate) (anchors intermediates : List Certificate) where
  -- The search finds a path, or there is none to find.
  abbrev pub Decided : Result (List Certificate) → Type 0
  Decided r =
      ((path : List Certificate) × (r ≡ ok path)) ⊎ (r ≡ err (untrusted_signer (no_chain leaf)))

  extend_path-Decided :
      (rounds : ℕ) (path : List Certificate) (last : Certificate)
      → length (unused path intermediates) < rounds
      → Decided (extend_path x rounds leaf path last anchors intermediates)
  unfolding extend_path
  extend_path-Decided zero path last h = absurd (omega arith)
  extend_path-Decided (suc rounds) path last h = elim (Option-cases (issuer_of x last anchors)) [
    | inr (anchor, e) ↦ inl (path ++ anchor ∷ [], rw (extend_path, e) refl)
    | inl e ↦ elim (Option-cases (issuer_of x last (unused path intermediates))) [
      | inl e2 ↦ inr (rw (extend_path, e, e2) refl)
      | inr (next, e2) ↦
          let m = (issuer_of-eq-some x last next (unused path intermediates) e2).1 in
          let fewer = unused-shorter path intermediates next m in
          rw (extend_path, e, e2)
            (extend_path-Decided rounds (path ++ next ∷ []) next (omega arith))
    ]
  ]

  -- When the maximum depth is at least the number of the intermediates and two more, then
  -- `path_to_anchor` never fails for the depth: it returns a path, or raises that the leaf does
  -- not chain to an anchor.
  pub path_to_anchor-Decided :
      (maximum_depth : ℕ)
      → length intermediates + 2 ≤ maximum_depth
      → Decided (path_to_anchor x leaf anchors intermediates maximum_depth)
  unfolding path_to_anchor
  path_to_anchor-Decided maximum_depth h =
      let all : length (unused (leaf ∷ []) intermediates) ≤ length intermediates =
        length-keep _ intermediates in
      extend_path-Decided (maximum_depth - 1) (leaf ∷ []) leaf (omega arith)
