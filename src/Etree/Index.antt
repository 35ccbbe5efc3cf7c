-- ===== src/Etree/Index.antt =====
-- The index of `index_elements_by_id` of as4/core/common.py, and the ids of the document.
use as_lib.Base.{◌≡◌, refl, ◌↔◌, ◌⊎◌, String, none, some, List, [], ◌∷◌, In, arith, string_eq}
use as_lib.Base.Dict
use as_lib.Base.Dict.{Dict, get, put, has_key, get-put}
use as_lib.Outcome.{ok}
use as_lib.Etree.{Element, id_attributes, index_onto, index_elements_by_id}

abbrev Pairs : Type 0
Pairs = List (String × Element)

index_onto_lem :
    (acc : Dict Element) (l : Pairs) (d : Dict Element) (i : String) (t : Element)
    → index_onto acc l ≡ ok d
    → (get d i ≡ some t) ↔ ((get acc i ≡ some t) ⊎ In (i, t) l)
unfolding index_onto has_key
index_onto_lem acc [] d i t h = ground arith
index_onto_lem acc ((j, u) ∷ l) d i t h =
    ground (arith, index_onto_lem (put acc j u) l d i t, get-put acc j u i)

-- No id stands twice in the list.
abbrev pub Distinct : Pairs → Type 0
Distinct [] = Unit
Distinct ((i, _) ∷ l) = (get l i ≡ none) × Distinct l

-- No id of the list is a key of the dict.
abbrev Fresh : Dict Element → Pairs → Type 0
Fresh acc [] = Unit
Fresh acc ((i, _) ∷ l) = (get acc i ≡ none) × Fresh acc l

Fresh-put :
    (acc : Dict Element) (j : String) (u : Element) (l : Pairs)
    → Fresh (put acc j u) l ↔ (Fresh acc l × (get l j ≡ none))
unfolding get
Fresh-put acc j u [] = ground arith
Fresh-put acc j u ((i, t) ∷ l) = ground (arith, Fresh-put acc j u l, get-put acc j u i)

index_onto-Distinct :
    (acc : Dict Element) (l : Pairs) (d : Dict Element)
    → index_onto acc l ≡ ok d
    → Distinct l × Fresh acc l
unfolding index_onto has_key
index_onto-Distinct acc [] d h = (tt, tt)
index_onto-Distinct acc ((j, u) ∷ l) d h =
    ground (arith, index_onto-Distinct (put acc j u) l d, Fresh-put acc j u l)

index_onto_total :
    (acc : Dict Element) (l : Pairs)
    → Distinct l
    → Fresh acc l
    → (d : Dict Element) × (index_onto acc l ≡ ok d)
unfolding index_onto has_key
index_onto_total acc [] u f = (acc, refl)
index_onto_total acc ((j, v) ∷ l) (new, u) (absent, f) =
    let (d, e) = index_onto_total (put acc j v) l u ((Fresh-put acc j v l).1 (f, new)) in
    (d, ground arith)

-- In an indexed document an id finds an element exactly when that element carries the id in one of
-- its attributes.
pub index_elements_by_id_lem :
    (e : Element) (d : Dict Element) (i : String) (t : Element)
    → index_elements_by_id e ≡ ok d
    → (get d i ≡ some t) ↔ In (i, t) (id_attributes e)
unfolding index_elements_by_id get
index_elements_by_id_lem e d i t h = ground (arith, index_onto_lem [] (id_attributes e) d i t h)

-- A document is indexed exactly when no id is given twice in it.
pub index_elements_by_id_total :
    (e : Element)
    → ((d : Dict Element) × (index_elements_by_id e ≡ ok d)) ↔ Distinct (id_attributes e)
unfolding index_elements_by_id
index_elements_by_id_total e = (
  λ (d, h). (index_onto-Distinct [] (id_attributes e) d h).0,
  λ u. index_onto_total [] (id_attributes e) u (fresh_nil (id_attributes e)),
)
  where
    fresh_nil : (l : Pairs) → Fresh [] l
    fresh_nil [] = tt
    fresh_nil ((i, t) ∷ l) = (Dict.get-nil i, fresh_nil l)
