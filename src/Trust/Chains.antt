-- ===== src/Trust/Chains.antt =====
-- What a chain of certificates that `path_to_anchor` finds is.
use as_lib.Base.{
  ℕ, zero, suc, ◌≤◌, ◌-◌, ◌≡◌, refl, ap, ◌∙◌, Bool, true, not, some, List, [], ◌∷◌, ◌++◌, find,
  keep, In, length, contains, arith, Option-cases, inl, inr,
}
use as_lib.Outcome.{ok}
use as_lib.Platform.{Certificate, X509, certificate_eq}
use as_lib.Trust.{can_issue_certificates, issuer_of, extend_path, path_to_anchor}

find-eq-some :
    {A : Type 0}
    → (p : A → Bool) (xs : List A) (a : A) → find p xs ≡ some a
    → (p a ≡ true) × In a xs
find-eq-some p [] a h = ground arith
find-eq-some p (x ∷ xs) a h = ground (arith, find-eq-some p xs a)

In-keep : {A : Type 0} → (p : A → Bool) (xs : List A) (a : A) → In a (keep p xs) → In a xs
In-keep p [] a h = h
In-keep p (x ∷ xs) a h = ground (arith, In-keep p xs a)

snoc-append :
    {A : Type 0} → (xs : List A) (y : A) (ys : List A) → (xs ++ y ∷ []) ++ ys ≡ xs ++ y ∷ ys
snoc-append [] y ys = refl
snoc-append (x ∷ xs) y ys = ap (λ zs. x ∷ zs) (snoc-append xs y ys)

module _ (x : X509) where
  -- The second certificate may issue certificates, and issued the first.
  pub record IssuedBy (c d : Certificate) : Type 0 where
    pub may_issue : can_issue_certificates x d ≡ true
    pub issued : x.directly_issued_by c d ≡ true

  -- The certificates above one, up to a trust anchor; those on the way are intermediates.
  pub data ChainAbove (anchors intermediates : List Certificate)
      : Certificate → List Certificate → Type 0 where
    anchored :
        (c a : Certificate)
        → In a anchors
        → IssuedBy c a
        → ChainAbove anchors intermediates c (a ∷ [])
    through :
        (c d : Certificate) (rest : List Certificate)
        → In d intermediates
        → IssuedBy c d
        → ChainAbove anchors intermediates d rest
        → ChainAbove anchors intermediates c (d ∷ rest)

  pub issuer_of-eq-some :
      (c d : Certificate) (candidates : List Certificate)
      → issuer_of x c candidates ≡ some d
      → IssuedBy c d × In d candidates
  unfolding issuer_of
  issuer_of-eq-some c d candidates h =
      let (p, m) = find-eq-some _ candidates d h in
      (record { may_issue = ground arith; issued = ground arith }, m)

  ChainAbove-nonempty :
      (anchors intermediates : List Certificate) (c : Certificate) (above : List Certificate)
      → ChainAbove anchors intermediates c above
      → 1 ≤ length above
  ChainAbove-nonempty anchors intermediates _ _ (anchored c a m by) = omega arith
  ChainAbove-nonempty anchors intermediates _ _ (through c d rest m by h) = omega arith

  -- What one run of the loop adds to the path.
  record Extension (rounds : ℕ) (path : List Certificate) (last : Certificate)
      (anchors intermediates out : List Certificate) : Type 0 where
    above : List Certificate
    chain : ChainAbove anchors intermediates last above
    is_path : out ≡ path ++ above
    bounded : length above ≤ rounds

  extend_path-eq-ok :
      (rounds : ℕ) (leaf : Certificate) (path : List Certificate) (last : Certificate)
      (anchors intermediates out : List Certificate)
      → extend_path x rounds leaf path last anchors intermediates ≡ ok out
      → Extension rounds path last anchors intermediates out
  unfolding extend_path
  extend_path-eq-ok zero leaf path last anchors intermediates out h = ground arith
  extend_path-eq-ok (suc n) leaf path last anchors intermediates out h =
      elim (Option-cases (issuer_of x last anchors)) [
        | inr (a, e) ↦
            let (by, m) = issuer_of-eq-some last a anchors e in
            record {
              above = a ∷ [];
              chain = anchored last a m by;
              is_path = ground arith;
              bounded = omega arith;
            }
        | inl e ↦
            elim (Option-cases
              (issuer_of x last (keep (λ c. not (contains path c)) intermediates))) [
                | inl e' ↦ ground arith
                | inr (d, e') ↦
                    let (by, m) = issuer_of-eq-some last d _ e' in
                    let r =
                      extend_path-eq-ok n leaf (path ++ d ∷ []) d anchors intermediates out
                        (ground arith) in
                    record {
                      above = d ∷ r.above;
                      chain = through last d r.above (In-keep _ intermediates d m) by r.chain;
                      is_path = r.is_path ∙ snoc-append path d r.above;
                      bounded = let b = r.bounded in omega arith;
                    }
              ]
      ]

  -- A path that `path_to_anchor` returns starts at the leaf; each certificate on it was issued by
  -- the next, which may issue certificates; it ends in an anchor, all between are intermediates,
  -- and it has at most the maximum depth.
  pub path_to_anchor-ChainAbove :
      (leaf : Certificate) (anchors intermediates : List Certificate) (maximum_depth : ℕ)
      (out : List Certificate)
      → path_to_anchor x leaf anchors intermediates maximum_depth ≡ ok out
      → (above : List Certificate) × (out ≡ leaf ∷ above)
        × ChainAbove anchors intermediates leaf above
        × (length out ≤ maximum_depth)
  unfolding path_to_anchor
  path_to_anchor-ChainAbove leaf anchors intermediates maximum_depth out h =
      let r =
        extend_path-eq-ok (maximum_depth - 1) leaf (leaf ∷ []) leaf anchors intermediates out h in
      let b = r.bounded in
      let some_above = ChainAbove-nonempty anchors intermediates leaf r.above r.chain in
      (r.above, r.is_path, r.chain, (rw r.is_path (omega arith)))
