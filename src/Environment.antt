-- ===== src/Environment.antt =====
-- The third parties of a parse, in one record: cryptography and the codecs, lxml, and the models'
-- validation by pydantic.
use as_lib.Base.{String, Option, List}
use as_lib.Platform.{Bytes, Crypto}
use as_lib.Etree.{Element}
use as_lib.Models.Mapping.{ElementDict, Validated}
use as_lib.Models.Soap.{Envelope}
use as_lib.Models.UserMessage.{PartyTo}
use as_lib.Models.Sbdh.{StandardBusinessDocument}

pub record Xml : Type 0 where
  -- `etree.fromstring` with the hardened parser; `XMLSyntaxError`
  pub parse_xml : Bytes → Option Element
  -- `find` and `findtext` by a path, with the prefixes of `NAMESPACES`
  pub find : Element → String → Option Element
  pub findtext : Element → String → Option String
  -- exclusive canonicalisation without comments, with the inclusive prefixes
  pub c14n : Element → List String → Bytes
  -- `SBDHSchema.validation_error`: no answer where the schema accepts the element
  pub sbdh_validation_error : Element → Option String

pub record Schemas : Type 0 where
  pub envelope : ElementDict → Validated Envelope
  pub party_to : ElementDict → Validated PartyTo
  pub standard_business_document : ElementDict → Validated StandardBusinessDocument

pub record Environment : Type 0 where
  pub crypto : Crypto
  pub xml : Xml
  pub schemas : Schemas
