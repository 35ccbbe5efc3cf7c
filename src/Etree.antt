-- ===== src/Etree.antt =====
-- lxml's elements, as the trees that they stand for: the Clark name of the tag, the attributes in
-- document order, the text before the first child, and the child elements. Comments and processing
-- instructions are not modelled. The walks are those of as4/utils/xml_parser.py,
-- as4/core/common.py and as4/models/common.py.
pub mod Index
use Prim.Native.Char.{code}
use Prim.Native.String
use as_lib.Base.{
  ℕ, String, ◌<>◌, Bool, Option, none, some, List, [], ◌∷◌, ◌++◌, if◌then◌else◌, ◌==◌, string_eq,
  ltb,
}
use as_lib.Base.Text.{strip, nonempty, starts_with}
use as_lib.Base.Dict
use as_lib.Base.Dict.{Dict}
use as_lib.Errors.{duplicate_element_id_error}
use as_lib.Outcome.{Result, ok, err, receiptable}

mutual
  pub data Element : Type 0 where
    element : String → Dict String → Option String → Elements → Element

  pub data Elements : Type 0 where
    end : Elements
    child : Element → Elements → Elements

abbrev pub tag : Element → String
tag (element t a x cs) = t

abbrev pub attrib : Element → Dict String
attrib (element t a x cs) = a

-- `element.iter()`: the element and all below it, in document order.
unfoldable mutual
  pub iter : Element → List Element
  iter (element t a x cs) = element t a x cs ∷ iter_all cs

  iter_all : Elements → List Element
  iter_all end = []
  iter_all (child e es) = iter e ++ iter_all es

after_brace : String → Option String
after_brace String.[] = none
after_brace (String.◌∷◌ c s) =
    let rest = after_brace s in
    if ltb (code c) 125 then rest else if ltb 125 (code c) then rest else some s

-- `etree.QName(key).localname`
unfoldable pub local_name : String → String
unfolding after_brace
local_name s =
    if starts_with s "{" then (elim (after_brace s) [ none ↦ s | some name ↦ name ]) else s

-- The pairs that one element adds.
ids_of : Element → Dict String → List (String × Element)
unfolding local_name
ids_of e [] = []
ids_of e ((key, value) ∷ rest) =
    let more = ids_of e rest in if local_name key == "Id" then (value, e) ∷ more else more

ids_of_all : List Element → List (String × Element)
unfolding ids_of
ids_of_all [] = []
ids_of_all (e ∷ es) = ids_of e (attrib e) ++ ids_of_all es

unfoldable pub id_attributes : Element → List (String × Element)
unfolding iter ids_of_all
id_attributes e = ids_of_all (iter e)

-- The loop of `index_elements_by_id`, from the dict built so far.
index_onto : Dict Element → List (String × Element) → Result (Dict Element)
unfolding Dict.has_key Dict.put
index_onto indexed [] = ok indexed
index_onto indexed ((identifier, e) ∷ rest) =
    let more = index_onto (Dict.put indexed identifier e) rest in
    if Dict.has_key indexed identifier
    then err (receiptable (duplicate_element_id_error identifier))
    else more

unfoldable pub index_elements_by_id : Element → Result (Dict Element)
unfolding index_onto id_attributes
index_elements_by_id e = index_onto [] (id_attributes e)
