-- ===== src/Serialise.antt =====
-- `dump_to_xml` of as4/models/common.py: a model's fields, in the order of its class, become the
-- attributes, the text and the child elements of one element. The method reads the fields by
-- reflection; here each model has its own function, which lists them, and `dump` is the loop.
pub mod Signal
pub mod UserMessages
pub mod Sbdh
pub mod KeyInfos
pub mod Envelopes
pub mod Reading
use as_lib.Base.{
  map, ℕ, ◌≤◌, ◌≡◌, ◌≢◌, refl, String, ◌<>◌, Bool, true, false, not, ◌&&◌, ◌||◌, Option, none, some,
  List, [], ◌∷◌, ◌++◌, ◌⊎◌, inl, inr, find, keep, take, drop, All, In, Any, length, contains,
  string_eq, option_eq, ◌==◌, if◌then◌else◌, arith, Bool-cases, Option-cases,
}
use as_lib.Base.Text.{starts_with, remove_prefix, nonempty}
use as_lib.Base.Sorting.{sorted}
use as_lib.Base.Dict
use as_lib.Base.Dict.{Dict}
use as_lib.Platform.{Bytes, DateTime}
use as_lib.Etree.{Element, element, Elements, end, child}
use as_lib.Models.Transforms.{Transform, Transforms}
use as_lib.Models.Reference.{Reference}
use as_lib.Models.Signature.{SignedInfo, CanonicalizationMethod, SignatureMethod}
use as_lib.Models.Soap.{Body}
use as_lib.Models.Wildcard.{wildcard_content}

-- What the serialiser of a field makes of its content: a text, or the elements that it has appended.
pub data Serialised : Type 0 where
  text : String → Serialised
  appended : List Element → Serialised

-- A field's alias, and its content if that is not `None`.
abbrev pub Field : Type 0
Field = String × Option Serialised

abbrev pub text_field : String → String → Field
text_field alias s = (alias, some (text s))

abbrev pub optional_field : String → Option String → Field
optional_field alias o = (alias, elim o [ none ↦ none | some s ↦ some (text s) ])

abbrev pub element_field : String → Element → Field
element_field alias e = (alias, some (appended (e ∷ [])))

-- `[inner(v) for v in values]`
abbrev pub list_field : {A : Type 0} → String → (A → Element) → List A → Field
list_field alias f xs = (alias, some (appended (map f xs)))

abbrev pub optional_element : {A : Type 0} → String → (A → Element) → Option A → Field
optional_element alias f o = (alias, elim o [ none ↦ none | some a ↦ some (appended (f a ∷ [])) ])

-- `bool_val and "true" or "false"`
abbrev pub bool_text : Bool → String
bool_text b = if b then "true" else "false"

-- `alias[1:]` of an alias that begins with `@`
abbrev pub attribute_name : String → String
attribute_name alias = remove_prefix alias "@"

-- The element under construction.
record Draft : Type 0 where
  attributes : Dict String
  content : Option String
  children : List Element

add_text : String → String → Draft → Draft
unfolding nonempty starts_with remove_prefix Dict.put
add_text alias s d =
    if starts_with alias "@" && nonempty s
    then record d { attributes = Dict.put d.attributes (attribute_name alias) s }
    else if alias == "#text"
    then record d { content = some s }
    else d

add_field : Field → Draft → Draft
unfolding add_text
add_field (alias, none) d = d
add_field (alias, some (text s)) d = add_text alias s d
add_field (alias, some (appended es)) d = record d { children = d.children ++ es }

add_fields : List Field → Draft → Draft
unfolding add_field
add_fields [] d = d
add_fields (f ∷ fs) d = add_fields fs (add_field f d)

elements_of : List Element → Elements
elements_of [] = end
elements_of (e ∷ es) = child e (elements_of es)

-- The fields, and after them the wildcard content.
unfoldable pub dump : String → List Field → List Element → Element
unfolding add_fields elements_of
dump clark_name fields wildcards =
    let d = add_fields fields (record { attributes = []; content = none; children = [] }) in
    element clark_name d.attributes d.content (elements_of (d.children ++ wildcards))

-- A model whose one field is its text.
abbrev pub dump_text : String → String → Element
dump_text clark_name s = dump clark_name (text_field "#text" s ∷ []) []

abbrev pub dump_algorithm : String → String → Element
dump_algorithm clark_name s = dump clark_name (text_field "@Algorithm" s ∷ []) []

unfoldable pub dump_transform : String → Transform → Element
unfolding wildcard_content dump
dump_transform name t =
    dump name (optional_field "@Algorithm" t.algorithm ∷ []) (wildcard_content t.etree_element)

abbrev ds_transform : String
ds_transform = "{http://www.w3.org/2000/09/xmldsig#}Transform"

unfoldable pub dump_transforms : String → Transforms → Element
unfolding dump_transform
dump_transforms name ts =
    dump name (list_field ds_transform (dump_transform ds_transform) ts.transforms ∷ []) []

abbrev ds_transforms : String
ds_transforms = "{http://www.w3.org/2000/09/xmldsig#}Transforms"

abbrev ds_digest_method : String
ds_digest_method = "{http://www.w3.org/2000/09/xmldsig#}DigestMethod"

abbrev ds_digest_value : String
ds_digest_value = "{http://www.w3.org/2000/09/xmldsig#}DigestValue"

unfoldable pub dump_reference : String → Reference → Element
unfolding dump_transforms
dump_reference name r =
    dump name
      (element_field ds_transforms (dump_transforms ds_transforms r.transforms)
        ∷ element_field ds_digest_method (dump_algorithm ds_digest_method r.digest_method.algorithm)
        ∷ element_field ds_digest_value (dump_text ds_digest_value r.digest_value.text)
        ∷ optional_field "@Id" r.id
        ∷ optional_field "@URI" r.uri
        ∷ optional_field "@Type" r.type_value
        ∷ [])
      []

unfoldable pub dump_canonicalization_method : String → CanonicalizationMethod → Element
unfolding wildcard_content dump
dump_canonicalization_method name m =
    dump name (optional_field "@Algorithm" m.algorithm ∷ []) (wildcard_content m.etree_element)

abbrev ds_canonicalization_method : String
ds_canonicalization_method = "{http://www.w3.org/2000/09/xmldsig#}CanonicalizationMethod"

abbrev ds_signature_method : String
ds_signature_method = "{http://www.w3.org/2000/09/xmldsig#}SignatureMethod"

abbrev ds_reference : String
ds_reference = "{http://www.w3.org/2000/09/xmldsig#}Reference"

unfoldable pub dump_signed_info : String → SignedInfo → Element
unfolding dump_canonicalization_method dump_reference
dump_signed_info name i =
    dump name
      (element_field ds_canonicalization_method
          (dump_canonicalization_method ds_canonicalization_method i.canonicalization_method)
        ∷ element_field ds_signature_method
            (dump_algorithm ds_signature_method i.signature_method.algorithm)
        ∷ list_field ds_reference (dump_reference ds_reference) i.references
        ∷ optional_field "@Id" i.id
        ∷ [])
      []

abbrev pub wsu_id_alias : String
wsu_id_alias =
    "@{http://docs.oasis-open.org/wss/2004/01/oasis-200401-wss-wssecurity-utility-1.0.xsd}Id"

unfoldable pub dump_body : String → Body → Element
unfolding dump
dump_body name b = dump name (optional_field wsu_id_alias b.body_id ∷ []) []
