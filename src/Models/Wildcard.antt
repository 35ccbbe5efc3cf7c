-- ===== src/Models/Wildcard.antt =====
-- `WildcardSpecification` and `wildcard_content` of as4/models/common.py, and the
-- `inclusive_namespaces` of the two models that read their wildcard content.
use as_lib.Base.{
  ℕ, String, not, Option, none, some, List, [], ◌∷◌, ◌++◌, keep, contains, string_eq, ◌==◌,
  if◌then◌else◌,
}
use as_lib.Base.Text.{split}
use as_lib.Base.Dict
use as_lib.Etree.{Element, element, Elements, end, child, tag, attrib}
use as_lib.Models.Transforms.{Transform}
use as_lib.Models.Signature.{CanonicalizationMethod}

pub record WildcardSpecification : Type 0 where
  pub max_occurs : ℕ
  pub min_occurs : ℕ
  pub namespace : String
  pub choices : Option (List String)

-- Both branches of the `match` return the elements as they are.
filter_by_namespace : WildcardSpecification → List Element → List Element
filter_by_namespace w elements = elements

filter_by_choices : WildcardSpecification → List Element → List Element
filter_by_choices w elements = elim w.choices [
  | none ↦ elements
  | some choices ↦ keep (λ e. contains choices (tag e)) elements
]

-- `list(element)`
children : Elements → List Element
children end = []
children (child e es) = e ∷ children es

children_of : Element → List Element
unfolding children
children_of (element t a x cs) = children cs

unfoldable pub get_content_from_element :
    WildcardSpecification → Option Element → List String → List Element
unfolding filter_by_namespace filter_by_choices children_of
get_content_from_element w none existing_tags = []
get_content_from_element w (some e) existing_tags =
    filter_by_choices w
      (filter_by_namespace w (keep (λ c. not (contains existing_tags (tag c))) (children_of e)))

-- `WildcardSpecification(namespace="##any")`
abbrev any_namespace : WildcardSpecification
any_namespace = record { max_occurs = 0; min_occurs = 0; namespace = "##any"; choices = none }

prefix_list : List Element → List String
prefix_list [] = []
prefix_list (item ∷ items) =
    let rest = prefix_list items in
    if tag item == "{http://www.w3.org/2001/10/xml-exc-c14n#}InclusiveNamespaces"
    then (elim (Dict.get (attrib item) "PrefixList") [ none ↦ [] | some text ↦ split text ]) ++ rest
    else rest

-- `wildcard_content` of a model whose only aliases are these.
abbrev aliases : List String
aliases = "*etree_element" ∷ "@Algorithm" ∷ []

unfoldable pub wildcard_content : Option Element → List Element
unfolding get_content_from_element
wildcard_content e = get_content_from_element any_namespace e aliases

-- `Transform.inclusive_namespaces`
unfoldable pub transform_namespaces : Transform → List String
unfolding prefix_list wildcard_content
transform_namespaces t = prefix_list (wildcard_content t.etree_element)

-- `CanonicalizationMethod.inclusive_namespaces`
unfoldable pub canonicalization_namespaces : CanonicalizationMethod → List String
unfolding prefix_list wildcard_content
canonicalization_namespaces m = prefix_list (wildcard_content m.etree_element)
