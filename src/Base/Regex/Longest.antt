-- ===== src/Base/Regex/Longest.antt =====
-- What a greedy group of Base/Regex.antt takes: the longest text that lets the rest of the pattern
-- match.
use Prim.Native.Char.{Char}
use Prim.Native.String.append
use Prim.Native.String.{String, [], ◌∷◌, ◌++◌}
use mathlib.Core.Path.{◌≡◌, refl, sym, ap, ◌∙◌, subst}
use mathlib.Core.Logic.{inl, inr}
use mathlib.Core.Option.{Option, none, some, none-ne-some, some-ne-none, some-injective}
use as_lib.Base.Equality.{Option-cases}
use as_lib.Base.Text.{after_prefix}
use as_lib.Base.Prefix.{after_prefix-text, after_prefix-append}
use as_lib.Base.Regex.{matches_here, greedy, after_first}

tail_of : String → String
tail_of [] = []
tail_of (c ∷ s) = s

head_of : Char → String → Char
head_of x [] = x
head_of x (c ∷ s) = c

∷-head : (c d : Char) (s t : String) → (c ∷ s) ≡ (d ∷ t) → c ≡ d
unfolding head_of
∷-head c d s t h = ap (head_of c) h

not_cons : (d : Char) (t : String) → [] ≡ (d ∷ t) → ⊥
not_cons d t h = cc

∷-tail : (c d : Char) (s t : String) → (c ∷ s) ≡ (d ∷ t) → s ≡ t
unfolding tail_of
∷-tail c d s t h = ap tail_of h

after_first-cons-none :
    (sep : String) (c : Char) (s : String)
    → after_first sep (c ∷ s) ≡ none
    → (after_prefix sep (c ∷ s) ≡ none) × (after_first sep s ≡ none)
unfolding after_first
after_first-cons-none sep c s h = elim (Option-cases (after_prefix sep (c ∷ s))) [
  | inl e ↦ (e, rw (after_first, e) at h)
  | inr (r, e) ↦ absurd (some-ne-none r (rw (after_first, e) at h))
]

module _ {ℓ} {A : Type ℓ} (sep : String) (k : String → Option A) where
  -- The pattern does not match at this place.
  matches_here-none : (r : String) → matches_here sep k (sep ++ r) ≡ none → k r ≡ none
  unfolding matches_here
  matches_here-none r h = elim (Option-cases (k r)) [
    | inl e ↦ e
    | inr (a, e) ↦
        absurd (some-ne-none ([], a) (rw (matches_here, after_prefix-append sep r, e) at h))
  ]

  matches_here-some :
      (s before : String) (a : A)
      → matches_here sep k s ≡ some (before, a)
      → (before ≡ []) × (rest : String) × (s ≡ sep ++ rest) × (k rest ≡ some a)
  unfolding matches_here
  matches_here-some s before a h = elim (Option-cases (after_prefix sep s)) [
    | inl e ↦ absurd (none-ne-some (before, a) (rw (matches_here, e) at h))
    | inr (rest, e) ↦ elim (Option-cases (k rest)) [
      | inl e2 ↦ absurd (none-ne-some (before, a) (rw (matches_here, e, e2) at h))
      | inr (b, e2) ↦
          let same : ([], b) ≡ (before, a) = some-injective _ _ (rw (matches_here, e, e2) at h) in
          (
            sym (ap (λ p. p.0) same),
            rest,
            after_prefix-text sep s rest e,
            e2 ∙ ap some (ap (λ p. p.1) same),
          )
    ]
  ]

  -- What `none` says of the rest of the pattern, at each step.
  greedy-cons-none :
      (c : Char) (s : String)
      → greedy sep k (c ∷ s) ≡ none
      → (greedy sep k s ≡ none) × (matches_here sep k (c ∷ s) ≡ none)
  unfolding greedy
  greedy-cons-none c s h = elim (Option-cases (greedy sep k s)) [
    | inl e ↦ (e, rw e at h)
    | inr ((b, a), e) ↦ absurd (some-ne-none (c ∷ b, a) (rw e at h))
  ]

  pub greedy-none : (s b r : String) → greedy sep k s ≡ none → s ≡ b ++ sep ++ r → k r ≡ none
  unfolding greedy
  greedy-none [] [] r h e = matches_here-none r (rw (e ∙ append.nil (sep ++ r)) at h)
  greedy-none [] (d ∷ b) r h e = absurd (not_cons d _ (e ∙ append.cons d b (sep ++ r)))
  greedy-none (c ∷ s) [] r h e =
      matches_here-none r (rw (e ∙ append.nil (sep ++ r)) at (greedy-cons-none c s h).1)
  greedy-none (c ∷ s) (d ∷ b) r h e =
      greedy-none s b r (greedy-cons-none c s h).0 (∷-tail c d s _ (e ∙ append.cons d b (sep ++ r)))

  -- The text is split at the separator, and no other split that lets the rest match has a longer
  -- first part.
  pub record LongestSplit (s before : String) (a : A) : Type ℓ where
    pub rest : String
    pub split : s ≡ before ++ sep ++ rest
    pub matched : k rest ≡ some a
    pub longest :
        (b r : String) (x : A)
        → s ≡ b ++ sep ++ r
        → k r ≡ some x
        → (more : String) × (before ≡ b ++ more)

  at_end :
      (s before : String) (a : A)
      → ((d : Char) (b r : String) (x : A) → s ≡ d ∷ (b ++ sep ++ r) → k r ≡ some x → ⊥)
      → matches_here sep k s ≡ some (before, a)
      → LongestSplit s before a
  at_end s before a only h =
      let (empty, rest, e, m) = matches_here-some s before a h in
      record {
        rest = rest;
        split = rw (empty, append.nil (sep ++ rest)) e;
        matched = m;
        longest = λ b r x e2 m2. first_only b r x e2 m2 empty;
      }
    where
      first_only :
          (b r : String) (x : A)
          → s ≡ b ++ sep ++ r
          → k r ≡ some x
          → before ≡ []
          → (more : String) × (before ≡ b ++ more)
      first_only [] r x e m empty = (before, sym (append.nil before))
      first_only (d ∷ b) r x e m empty = absurd (only d b r x (e ∙ append.cons d b (sep ++ r)) m)

  pub greedy-LongestSplit :
      (s before : String) (a : A) → greedy sep k s ≡ some (before, a) → LongestSplit s before a
  unfolding greedy
  greedy-LongestSplit [] before a h = at_end [] before a (λ d b r x e m. absurd (not_cons d _ e)) h
  greedy-LongestSplit (c ∷ s) before a h = elim (Option-cases (greedy sep k s)) [
    | inl e ↦
        at_end (c ∷ s) before a
          (λ d b r x e2 m.
            absurd (none-ne-some x (sym (greedy-none s b r e (∷-tail c d s _ e2)) ∙ m)))
          (rw e at h)
    | inr ((b0, a0), e) ↦
        let same : (c ∷ b0, a0) ≡ (before, a) = some-injective _ _ (rw e at h) in
        subst (λ (p : String × A). LongestSplit (c ∷ s) p.0 p.1) same
          (one_more c s b0 a0 (greedy-LongestSplit s b0 a0 e))
  ]
    where
      one_more :
          (c : Char) (s before : String) (a : A)
          → LongestSplit s before a
          → LongestSplit (c ∷ s) (c ∷ before) a
      one_more c s before a l = record {
        rest = l.rest;
        split = ap (λ t. c ∷ t) l.split ∙ sym (append.cons c before (sep ++ l.rest));
        matched = l.matched;
        longest = λ b r x e m. longer b r x e m;
      }
        where
          longer :
              (b r : String) (x : A)
              → (c ∷ s) ≡ b ++ sep ++ r
              → k r ≡ some x
              → (more : String) × ((c ∷ before) ≡ b ++ more)
          longer [] r x e m = (c ∷ before, sym (append.nil (c ∷ before)))
          longer (d ∷ b) r x e m =
              let e2 = e ∙ append.cons d b (sep ++ r) in
              let (more, e3) = l.longest b r x (∷-tail c d s _ e2) m in
              (more, rw (∷-head c d s _ e2, e3) (sym (append.cons d b more)))

  -- The group takes all that stands before the place where the rest begins.
  pub greedy-append :
      (b t : String) (a : A) → greedy sep k t ≡ some ([], a) → greedy sep k (b ++ t) ≡ some (b, a)
  unfolding greedy
  greedy-append [] t a h = rw (append.nil t) h
  greedy-append (c ∷ b) t a h = rw (append.cons c b t, greedy, greedy-append b t a h) refl

  -- Without the separator the pattern matches nowhere.
  pub greedy-absent :
      (s : String) → after_prefix sep [] ≡ none → after_first sep s ≡ none → greedy sep k s ≡ none
  unfolding greedy matches_here
  greedy-absent [] h e = rw (greedy, matches_here, h) refl
  greedy-absent (c ∷ s) h e =
      let (here, later) = after_first-cons-none sep c s e in
      rw (greedy, greedy-absent s h later, matches_here, here) refl

-- At a separator that is the last one, the group is empty.
pub greedy-here {ℓ} :
    {A : Type ℓ} (c : Char) (p rest : String) (k : String → Option A) (a : A)
    → greedy (c ∷ p) k (p ++ rest) ≡ none
    → k rest ≡ some a
    → greedy (c ∷ p) k ((c ∷ p) ++ rest) ≡ some ([], a)
unfolding greedy matches_here
greedy-here c p rest k a last m =
    let same : (c ∷ p) ++ rest ≡ c ∷ (p ++ rest) = append.cons c p rest in
    let here : after_prefix (c ∷ p) (c ∷ (p ++ rest)) ≡ some rest =
      ap (after_prefix (c ∷ p)) (sym same) ∙ after_prefix-append (c ∷ p) rest in
    rw (same, greedy, last, matches_here, here, m) refl
