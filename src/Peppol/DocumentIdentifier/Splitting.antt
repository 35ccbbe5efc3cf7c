-- ===== src/Peppol/DocumentIdentifier/Splitting.antt =====
-- What the pattern of as4/profiles/peppol/document_identifier.py matches, and which identifiers are
-- read back from the text that they are written as.
use mathlib.Core.Path.{subst}
use as_lib.Base.{
  arith, ◌≡◌, refl, sym, ap, ◌∙◌, String, ◌<>◌, Option, none, some, ◌&&◌, true, Bool-cases,
  Option-cases, inl, inr,
}
use as_lib.Base.Text.{nonempty}
use as_lib.Base.Regex.{first_line, greedy, rest_of_line, after_first}
use as_lib.Base.Regex.Longest.{
  LongestSplit, greedy-LongestSplit, greedy-append, greedy-absent, greedy-here,
}
use as_lib.Outcome.{ok, ok-injective, some-injective}
use as_lib.Peppol.DocumentIdentifier.{
  BusdoxDocidQnsDocumentIdentifier, match_qns, from_identifier_value, identifier_value,
}

-- Three parts, none of them empty, in the order of the text, each as long as what follows allows.
pub record Recognised (s : String) (i : BusdoxDocidQnsDocumentIdentifier) : Type 0 where
  pub scheme : i.scheme ≡ "busdox-docid-qns"
  pub named : nonempty i.syntax_specific_id ≡ true
  pub customized : nonempty i.customization_id ≡ true
  pub versioned : nonempty i.version ≡ true
  pub written : first_line s ≡ identifier_value i
  pub first_group :
      LongestSplit "##"
        (greedy "::" rest_of_line)
        (first_line s)
        i.syntax_specific_id
        (i.customization_id, i.version)
  pub second_group :
      LongestSplit "::" rest_of_line
        (i.customization_id <> "::" <> i.version)
        i.customization_id
        i.version

groups-Recognised :
    (s a b v : String)
    → match_qns s ≡ some (a, (b, v))
    → nonempty a && (nonempty b && nonempty v) ≡ true
    → Recognised s (record {
      scheme = "busdox-docid-qns";
      syntax_specific_id = a;
      customization_id = b;
      version = v;
    })
unfolding match_qns identifier_value
groups-Recognised s a b v h full =
    let first = greedy-LongestSplit "##" (greedy "::" rest_of_line) (first_line s) a (b, v) h in
    let second = greedy-LongestSplit "::" rest_of_line first.rest b v first.matched in
    let tail : first.rest ≡ b <> "::" <> v =
      second.split ∙ ap (λ t. b <> "::" <> t) (some-injective second.matched) in
    record {
      scheme = refl;
      named = ground arith;
      customized = ground arith;
      versioned = ground arith;
      written = first.split ∙ ap (λ t. a <> "##" <> t) tail;
      first_group = first;
      second_group = subst (λ t. LongestSplit "::" rest_of_line t b v) tail second;
    }

-- When a text is read as a document identifier, then the three parts are not empty and, with "##"
-- and "::" between them, make up the first line of the text; the first part is the longest one
-- that leaves a "##" with a "::" somewhere after it, and the second the longest one that leaves a
-- "::" after it.
pub from_identifier_value-Recognised :
    (s : String) (i : BusdoxDocidQnsDocumentIdentifier)
    → from_identifier_value s ≡ ok i
    → Recognised s i
unfolding from_identifier_value
from_identifier_value-Recognised s i h = elim (Option-cases (match_qns s)) [
  | inl e ↦ let no = rw (from_identifier_value, e) at h in cc
  | inr ((a, (b, v)), e) ↦ elim (Bool-cases (nonempty a && (nonempty b && nonempty v))) [
    | inl y ↦
        subst (Recognised s) (ok-injective (rw (from_identifier_value, e, y) at h))
          (groups-Recognised s a b v e y)
    | inr n ↦ let no = rw (from_identifier_value, e, n) at h in cc
  ]
]

-- The text is one line, its three parts are not empty, and neither separator comes again after the
-- place where it was written.
pub record Readable (i : BusdoxDocidQnsDocumentIdentifier) : Type 0 where
  pub scheme : i.scheme ≡ "busdox-docid-qns"
  pub named : nonempty i.syntax_specific_id ≡ true
  pub customized : nonempty i.customization_id ≡ true
  pub versioned : nonempty i.version ≡ true
  pub one_line : first_line (identifier_value i) ≡ identifier_value i
  pub last_hashes : after_first "##" ("#" <> i.customization_id <> "::" <> i.version) ≡ none
  pub last_colons : after_first "::" (":" <> i.version) ≡ none

match_qns-identifier_value :
    (i : BusdoxDocidQnsDocumentIdentifier)
    → Readable i
    → match_qns (identifier_value i) ≡ some (i.syntax_specific_id, (i.customization_id, i.version))
unfolding match_qns identifier_value
match_qns-identifier_value i r =
    let k : String → Option (String × String) = greedy "::" rest_of_line in
    let tail : String = i.customization_id <> "::" <> i.version in
    let inner : k tail ≡ some (i.customization_id, i.version) =
      greedy-append "::" rest_of_line i.customization_id ("::" <> i.version) i.version (
        greedy-here ":" ":" i.version rest_of_line i.version
          (greedy-absent "::" rest_of_line _ refl r.last_colons) refl) in
    rw r.one_line (
      greedy-append "##" k i.syntax_specific_id ("##" <> tail) (i.customization_id, i.version)
        (greedy-here "#" "#" tail k (i.customization_id, i.version)
          (greedy-absent "##" k _ refl r.last_hashes) inner))

-- An identifier with the scheme of the class and three parts that are not empty is read back from
-- the text that it is written as, when that text is one line, no "##" begins after the first of
-- its own, and no "::" begins after that before the version.
pub from_identifier_value-identifier_value :
    (i : BusdoxDocidQnsDocumentIdentifier)
    → Readable i
    → from_identifier_value (identifier_value i) ≡ ok i
unfolding from_identifier_value
from_identifier_value-identifier_value i r =
    rw
      (
        from_identifier_value,
        match_qns-identifier_value i r,
        r.named,
        r.customized,
        r.versioned,
        sym r.scheme,
      )
      refl
