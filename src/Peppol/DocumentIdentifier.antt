-- ===== src/Peppol/DocumentIdentifier.antt =====
-- as4/profiles/peppol/document_identifier.py: a document type identifier of the scheme
-- busdox-docid-qns, read from its text and written back.
pub mod Splitting
use as_lib.Base.{String, ◌<>◌, Option, none, some, ◌&&◌, if◌then◌else◌}
use as_lib.Base.Text.{nonempty}
use as_lib.Base.Regex.{first_line, greedy, rest_of_line, before_first, after_first}
use as_lib.Outcome.{Result, ok, err, require, value_error}

pub record BusdoxDocidQnsDocumentIdentifier : Type 0 where
  pub scheme : String
  pub syntax_specific_id : String
  pub customization_id : String
  pub version : String

-- `re.match`, which looks for the pattern at the start of the text only. The groups in order.
unfoldable pub match_qns : String → Option (String × (String × String))
unfolding first_line greedy
match_qns s = greedy "##" (greedy "::" rest_of_line) (first_line s)

abbrev pub not_an_identifier : Result BusdoxDocidQnsDocumentIdentifier
not_an_identifier =
    err (
      value_error "Cannot construct BusdoxDocidQnsDocumentIdentifier from document_type_identifier")

unfoldable pub from_identifier_value : String → Result BusdoxDocidQnsDocumentIdentifier
unfolding match_qns nonempty
from_identifier_value document_type_identifier = elim (match_qns document_type_identifier) [
  | none ↦ not_an_identifier
  | some (syntax_specific_id, (customization_id, version)) ↦
      if nonempty syntax_specific_id && (nonempty customization_id && nonempty version)
      then ok (record {
        scheme = "busdox-docid-qns";
        syntax_specific_id = syntax_specific_id;
        customization_id = customization_id;
        version = version;
      })
      else not_an_identifier
]

unfoldable pub root_element_namespace : BusdoxDocidQnsDocumentIdentifier → String
unfolding before_first
root_element_namespace i = before_first "::" i.syntax_specific_id

-- `split("::")[1]`, which is an `IndexError` where there is no separator
unfoldable pub root_element_name : BusdoxDocidQnsDocumentIdentifier → Result String
unfolding before_first after_first
root_element_name i = elim (after_first "::" i.syntax_specific_id) [
  | none ↦ err (value_error "IndexError: list index out of range")
  | some rest ↦ ok (before_first "::" rest)
]

unfoldable pub identifier_value : BusdoxDocidQnsDocumentIdentifier → String
identifier_value i = i.syntax_specific_id <> "##" <> i.customization_id <> "::" <> i.version

unfoldable pub action : BusdoxDocidQnsDocumentIdentifier → String
unfolding identifier_value
action i = i.scheme <> "::" <> identifier_value i
