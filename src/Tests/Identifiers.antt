-- ===== src/Tests/Identifiers.antt =====
-- A document type identifier that is read and written, and a search for a chain.
use as_lib.Base.{arith, ◌≡◌, refl, String, ◌<>◌, Option, some, List, [], ◌∷◌}
use as_lib.Base.Regex.{first_line}
use as_lib.Outcome.{ok}
use as_lib.Peppol.DocumentIdentifier.{
  BusdoxDocidQnsDocumentIdentifier, from_identifier_value, identifier_value,
}
use as_lib.Peppol.DocumentIdentifier.Splitting.{
  Recognised, from_identifier_value-Recognised, from_identifier_value-identifier_value,
}
use as_lib.Trust.{path_to_anchor}
use as_lib.Trust.Termination.{Decided, path_to_anchor-Decided}
use as_lib.Tests.Fixtures.{alice, anchor, x509}

abbrev pub invoice : BusdoxDocidQnsDocumentIdentifier
invoice = record {
  scheme = "busdox-docid-qns";
  syntax_specific_id = "urn:oasis::Invoice";
  customization_id = "urn:cen.eu:en16931";
  version = "2.1";
}

abbrev pub invoice_text : String
invoice_text = "urn:oasis::Invoice##urn:cen.eu:en16931::2.1"

from_identifier_value-Recognised_example : Recognised invoice_text invoice
unfolding from_identifier_value
from_identifier_value-Recognised_example =
    from_identifier_value-Recognised invoice_text invoice refl

from_identifier_value-identifier_value_example :
    from_identifier_value (identifier_value invoice) ≡ ok invoice
unfolding as_lib.Base.Text.nonempty identifier_value first_line as_lib.Base.Regex.after_first
from_identifier_value-identifier_value_example =
    from_identifier_value-identifier_value invoice (record {
      scheme = refl;
      named = refl;
      customized = refl;
      versioned = refl;
      one_line = refl;
      last_hashes = refl;
      last_colons = refl;
    })

path_to_anchor-Decided_example :
    Decided x509 alice
      (anchor ∷ [])
      (alice ∷ [])
      (path_to_anchor x509 alice (anchor ∷ []) (alice ∷ []) 3)
path_to_anchor-Decided_example =
    path_to_anchor-Decided x509 alice (anchor ∷ []) (alice ∷ []) 3 (omega arith)
