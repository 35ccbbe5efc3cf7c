-- ===== src/Models/Mapping.antt =====
-- `BaseElement.element_to_dict` and `model_validate_etree` of as4/models/common.py: the dict that
-- pydantic validates.
use as_lib.Base.{String, ◌<>◌, Option, none, some, List, [], ◌∷◌, if◌then◌else◌, string_eq, ◌==◌}
use as_lib.Base.Text.{strip, nonempty}
use as_lib.Base.Dict.{Dict}
use as_lib.Etree.{Element, element, Elements, end, child, tag}
use as_lib.Outcome.{ErrorDetails, Result, ok, err, validation}

-- What a key of the dict holds: the element itself, the dicts of the child elements of one tag, or
-- a text.
mutual
  pub data Content : Type 0 where
    node : Element → Content
    many : ElementDicts → Content
    text : String → Content

  pub data ElementDict : Type 0 where
    stop : ElementDict
    entry : String → Content → ElementDict → ElementDict

  pub data ElementDicts : Type 0 where
    nil : ElementDicts
    cons : ElementDict → ElementDicts → ElementDicts

append_dict : ElementDicts → ElementDict → ElementDicts
append_dict nil d = cons d nil
append_dict (cons x xs) d = cons x (append_dict xs d)

add_dict : Content → ElementDict → Content
unfolding append_dict
add_dict (many ds) d = many (append_dict ds d)
add_dict c d = c

-- `child_element_dict.setdefault(tag, []).append(d)`
set_default_append : ElementDict → String → ElementDict → ElementDict
unfolding add_dict
set_default_append stop t d = entry t (many (cons d nil)) stop
set_default_append (entry key c rest) t d =
    if key == t then entry key (add_dict c d) rest else entry key c (set_default_append rest t d)

-- `element_dict[key] = content`
put_content : ElementDict → String → Content → ElementDict
put_content stop k v = entry k v stop
put_content (entry key c rest) k v =
    if key == k then entry key v rest else entry key c (put_content rest k v)

put_all : ElementDict → ElementDict → ElementDict
unfolding put_content
put_all d stop = d
put_all d (entry k v rest) = put_all (put_content d k v) rest

put_attributes : ElementDict → Dict String → ElementDict
unfolding put_content
put_attributes d [] = d
put_attributes d ((k, v) ∷ rest) = put_attributes (put_content d ("@" <> k) (text v)) rest

put_text : ElementDict → Option String → ElementDict
unfolding put_content strip nonempty
put_text d none = d
put_text d (some t) =
    let stripped = strip t in if nonempty stripped then put_content d "#text" (text stripped) else d

unfoldable mutual
  unfolding set_default_append put_all put_attributes put_text

  pub element_to_dict : Element → ElementDict
  element_to_dict (element t attributes x children) =
      put_text
        (put_attributes
          (put_all (entry "*etree_element" (node (element t attributes x children)) stop)
            (group_children stop children))
          attributes)
        x

  -- The dicts of the children, grouped by tag in the order in which the tags are met.
  group_children : ElementDict → Elements → ElementDict
  group_children grouped end = grouped
  group_children grouped (child e es) =
      group_children (set_default_append grouped (tag e) (element_to_dict e)) es

-- What pydantic answers: the model, or a `ValidationError` with its entries.
pub data Validated (A : Type 0) : Type 0 where
  valid : A → Validated A
  invalid : ErrorDetails → List ErrorDetails → Validated A

unfoldable pub model_validate_etree :
    {A : Type 0} → (ElementDict → Validated A) → Element → Result A
unfolding element_to_dict
model_validate_etree check e = elim (check (element_to_dict e)) [
  | valid a ↦ ok a
  | invalid first rest ↦ err (validation first rest)
]
