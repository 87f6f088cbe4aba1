-- ===== src/Mongo/Filters.antt =====
-- mongox/bsonx/bsonx.go: the elements of filters and updates. `V` are the callers' values.
use go_vkit.Prelude.{
  ◌⊎◌, inl, inr, Bool, List, [], ◌∷◌, Bytes, codes, ℤ, pos, negsuc, if◌then◌else◌,
}
use go_vkit.Mongo.Slices.{Arg, to_slice}

mutual
  pub data Value (V : Type 0) : Type 0 where
    given : V → Value V
    number : ℤ → Value V
    flag : Bool → Value V
    pattern_of : (pattern_text options : Bytes) → Value V
    values : List V → Value V
    document : Document V → Value V
    array : Documents V → Value V

  -- bson.D
  pub data Document (V : Type 0) : Type 0 where
    empty : Document V
    field : Bytes → Value V → Document V → Document V

  -- bson.A of documents
  pub data Documents (V : Type 0) : Type 0 where
    no_documents : Documents V
    one_more : Document V → Documents V → Documents V

-- bson.E
pub record Element (V : Type 0) : Type 0 where
  pub key : Bytes
  pub value : Value V

module _ {V : Type 0} where
  pub e : Bytes → V → Element V
  e key value = record { key = key; value = given value }

  single : Bytes → Value V → Document V
  single key value = field key value empty

  -- `bson.E{Key: key, Value: bson.D{bson.E{Key: op, Value: value}}}`
  compare_by : Bytes → Bytes → Value V → Element V
  unfolding single
  compare_by op key value = record { key = key; value = document (single op value) }

  pub ne : Bytes → V → Element V
  unfolding compare_by
  ne key value = compare_by (codes "$ne") key (given value)

  pub lt : Bytes → V → Element V
  unfolding compare_by
  lt key value = compare_by (codes "$lt") key (given value)

  pub lt_e : Bytes → V → Element V
  unfolding compare_by
  lt_e key value = compare_by (codes "$lte") key (given value)

  pub gt : Bytes → V → Element V
  unfolding compare_by
  gt key value = compare_by (codes "$gt") key (given value)

  pub gt_e : Bytes → V → Element V
  unfolding compare_by
  gt_e key value = compare_by (codes "$gte") key (given value)

  pub regex : (key value options : Bytes) → Element V
  regex key value options = record { key = key; value = pattern_of value options }

  pub regex_i : (key value : Bytes) → Element V
  regex_i key value = record { key = key; value = pattern_of value (codes "i") }

  pub regex_is : (key value : Bytes) → Element V
  regex_is key value = record { key = key; value = pattern_of value (codes "is") }

  -- toSlice of mongox/bsonx/private.go, which is that of mongox/internal.go line by line.
  values_of : List (Arg V) → List V
  values_of value = to_slice value

  pub in_list : Bytes → List (Arg V) → Element V
  unfolding compare_by values_of
  in_list key value = compare_by (codes "$in") key (values (values_of value))

  pub all_of : Bytes → List (Arg V) → Element V
  unfolding compare_by values_of
  all_of key value = compare_by (codes "$all") key (values (values_of value))

  -- One document for each element.
  each : List (Element V) → Documents V
  unfolding single
  each [] = no_documents
  each (v ∷ es) = one_more (single v.key v.value) (each es)

  pub or : List (Element V) → Element V
  unfolding each
  or es = record { key = codes "$or"; value = array (each es) }

  pub exists_key : Bytes → Bool → Element V
  unfolding compare_by
  exists_key key exists = compare_by (codes "$exists") key (flag exists)

  pub has_type : Bytes → ℤ → Element V
  unfolding compare_by
  has_type key n_type = compare_by (codes "$type") key (number n_type)

  -- One document of the elements.
  together : List (Element V) → Document V
  together [] = empty
  together (v ∷ es) = field v.key v.value (together es)

  pub elem_match : Bytes → List (Element V) → Element V
  unfolding compare_by together
  elem_match key es = compare_by (codes "$elemMatch") key (document (together es))

  pub sort_by_key : Bytes → (asc : Bool) → Document V
  unfolding single
  sort_by_key key asc = single key (number (if asc then pos 1 else negsuc 0))

  pub set_fields : List (Element V) → Document V
  unfolding single together
  set_fields es = single (codes "$set") (document (together es))

  pub set_kv : Bytes → V → Document V
  unfolding set_fields
  set_kv key value = set_fields (record { key = key; value = given value } ∷ [])

  pub inc : Bytes → ℤ → Element V
  unfolding single
  inc key increment = record {
    key = codes "$inc";
    value = document (single key (number increment));
  }

  pub pull : List (Element V) → Document V
  unfolding single together
  pull es = single (codes "$pull") (document (together es))

  -- A filter as ToFilter hands it on: the document, or the map of one that is empty. `to_map` is the method Map of bson.D.
  pub to_filter {ℓ} : {M : Type ℓ} (to_map : Document V → M) → Document V → M ⊎ Document V
  to_filter to_map empty = inl (to_map empty)
  to_filter to_map (field key value rest) = inr (field key value rest)
