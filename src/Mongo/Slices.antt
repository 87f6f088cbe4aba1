-- ===== src/Mongo/Slices.antt =====
-- toSlice of mongox/internal.go and mongox/bsonx/private.go, and the operations of mongox/mongox.go that
-- choose between one document and many.
pub mod Chosen
use go_vkit.Prelude.{ℕ, Bool, true, false, List, [], ◌∷◌, ◌++◌, Option, none, some}

-- An argument, by what reflection says of its kind.
pub data Arg {ℓ} (A : Type ℓ) : Type ℓ where
  item : A → Arg A
  slice : List A → Arg A

module _ {ℓ} {A : Type ℓ} where
  -- `for i := 0; i < vo.Len(); i++ { s = append(s, vo.Index(i).Interface()) }`
  append_each : List A → List A → List A
  append_each s [] = s
  append_each s (x ∷ xs) = append_each (s ++ (x ∷ [])) xs

  append_args : List A → List (Arg A) → List A
  unfolding append_each
  append_args s [] = s
  append_args s (item x ∷ args) = append_args (s ++ (x ∷ [])) args
  append_args s (slice xs ∷ args) = append_args (append_each s xs) args

  pub to_slice : List (Arg A) → List A
  unfolding append_args
  to_slice args = append_args [] args

-- A filter on `_id`: one value, or `$in` with a list of them.
pub data IdFilter {ℓ} (A : Type ℓ) : Type ℓ where
  is : A → IdFilter A
  among : List A → IdFilter A

-- What DeleteById asks of the driver.
pub data Deletion {ℓ} (A : Type ℓ) : Type ℓ where
  no_deletion : Deletion A
  delete_one : IdFilter A → Deletion A
  delete_many : IdFilter A → Deletion A

-- What Insert asks of it.
pub data Insertion {ℓ} (A : Type ℓ) : Type ℓ where
  no_insertion : Insertion A
  insert_one : A → Insertion A
  insert_many : List A → Insertion A

module _ {ℓ} {A : Type ℓ} where
  delete_ids : List A → Deletion A
  delete_ids [] = no_deletion
  delete_ids (x ∷ []) = delete_one (is x)
  delete_ids (x ∷ y ∷ ids) = delete_many (among (x ∷ y ∷ ids))

  pub delete_by_id : List (Arg A) → Deletion A
  unfolding delete_ids to_slice
  delete_by_id id = delete_ids (to_slice id)

  pub insert_docs : List A → Insertion A
  insert_docs [] = no_insertion
  insert_docs (d ∷ []) = insert_one d
  insert_docs (d ∷ e ∷ docs) = insert_many (d ∷ e ∷ docs)
