-- ===== src/Peppol/Routing.antt =====
-- The scopes of a business document, which name its type and its process.
use as_lib.Base.{
  ◌≡◌, ap, sym, ◌∙◌, arith, String, Bool, true, not, some, List, [], ◌∷◌, All, In, keep, ◌==◌,
  string_eq, Option-cases, Bool-cases, inl, inr,
}
use as_lib.Outcome.{
  ok, require, ensure, bind-eq-ok, ensure-eq-ok, ok-injective, some-injective, require-eq-some,
}
use as_lib.Environment.{Environment}
use as_lib.Parties.{As4ParseContext}
use as_lib.Models.Sbdh.{Scope}
use as_lib.Peppol.{scope_of, has_scope, mandatory_scopes, missing_scopes, none_missing}
use as_lib.Peppol.Process.{check_scopes}

scope_of-In :
    (name : String) (scopes : List Scope) (s : Scope)
    → scope_of name scopes ≡ some s
    → ((s.scope_type.value == name) ≡ true) × In s scopes
unfolding scope_of
scope_of-In name [] s h = ground arith
scope_of-In name (t ∷ rest) s h = elim (Option-cases (scope_of name rest)) [
  | inr (l, e) ↦ let (a, b) = scope_of-In name rest s (e ∙ (rw e at h)) in (a, inr b)
  | inl e ↦ elim (Bool-cases (t.scope_type.value == name)) [
    | inl y ↦
        let same = some-injective (rw (e, y) at h) in
        (ap (λ u. u.scope_type.value == name) (sym same) ∙ y, inl (sym same))
    | inr n ↦ (let m = rw (e, n) at h in ground arith)
  ]
]

keep-nil :
    (p : String → Bool) (xs : List String)
    → none_missing (keep (λ x. not (p x)) xs) ≡ true
    → All (λ x. p x ≡ true) xs
unfolding none_missing
keep-nil p [] h = tt
keep-nil p (x ∷ xs) h = ground (arith, keep-nil p xs)

-- When the scopes of a document are accepted, then there is one of each mandatory type, and the
-- two that are handed on are among them and have the types DOCUMENTID and PROCESSID.
pub check_scopes-In :
    (env : Environment) (show_set : List String → String) (ctx : As4ParseContext)
    (scopes : List Scope) (d p : Scope)
    → check_scopes env show_set ctx scopes ≡ ok (d, p)
    → All (λ name. has_scope scopes name ≡ true) mandatory_scopes
      × ((d.scope_type.value == "DOCUMENTID") ≡ true)
      × In d scopes
      × ((p.scope_type.value == "PROCESSID") ≡ true)
      × In p scopes
unfolding check_scopes missing_scopes
check_scopes-In env show_set ctx scopes d p h =
    let (u, e, h1) = bind-eq-ok (ensure (none_missing (missing_scopes scopes)) _) _ h in
    let (d', is_d, h2) = bind-eq-ok (require (scope_of "DOCUMENTID" scopes) _) _ h1 in
    let (p', is_p, h3) = bind-eq-ok (require (scope_of "PROCESSID" scopes) _) _ h2 in
    let same : (d', p') ≡ (d, p) = ok-injective h3 in
    let (a, b) =
      scope_of-In "DOCUMENTID" scopes d (require-eq-some _ _ is_d ∙ ap (λ x. some x.0) same) in
    let (a', b') =
      scope_of-In "PROCESSID" scopes p (require-eq-some _ _ is_p ∙ ap (λ x. some x.1) same) in
    (keep-nil (has_scope scopes) mandatory_scopes (ensure-eq-ok _ _ _ e), a, b, a', b')
