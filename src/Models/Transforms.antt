-- ===== src/Models/Transforms.antt =====
-- The models of as4/models/dsig/transforms.py.
use as_lib.Base.{String, Option, List}
use as_lib.Etree.{Element}

pub record Transform : Type 0 where
  pub etree_element : Option Element
  pub algorithm : Option String

pub record Transforms : Type 0 where
  pub transforms : List Transform
