-- ===== src/Mongo/Queries.antt =====
-- The methods of mongox/mongox.go that make one call of the driver. An error is its text, `none` for nil.
use go_vkit.Prelude.{
  ℕ, Bool, true, false, List, [], ◌∷◌, Option, none, some, Bytes, GoMap, Result, ok, err, ltb,
}
use go_vkit.Mongo.Fields.{Object, struct_to_bson_m}
use go_vkit.Mongo.Cursor.{Decoding, Iterated, iterate}
use go_vkit.Mongo.Driver.{
  value, aggregate, Call, do_update_by_id, do_update_one, do_update_many, do_distinct, do_find,
  do_find_one,
}

-- An update: a bson.M, which is sent as it is, or a struct, of which the fields are set.
pub data Update {ℓ} (V : Type ℓ) : Type ℓ where
  document : V → Update V
  object : Object V → Update V

-- `bson.M{"$set": struct2BsonM(update, ignore...)}`; `none` is a panic.
to_document {ℓ} : {V : Type ℓ} → (GoMap V → V) → Update V → List Bytes → Option V
to_document set (document m) ignore = some m
to_document set (object o) ignore = elim (struct_to_bson_m o ignore) [
  | none ↦ none
  | some m ↦ some (set m)
]

module _ {ℓ} {V O : Type ℓ} (set : GoMap V → V) where
  pub update_all : Bytes → (filter : V) → Update V → (ops : Option O) → Option (Call V O)
  unfolding to_document
  update_all col filter update ops = elim (to_document set update []) [
    | none ↦ none
    | some u ↦ some (do_update_many col filter u ops)
  ]

  pub update_single_by_id :
      Bytes → (id : V) → Update V → (no_update_field : List Bytes) → Option (Call V O)
  unfolding to_document
  update_single_by_id col id update no_update_field =
      elim (to_document set update no_update_field) [
        | none ↦ none
        | some u ↦ some (do_update_by_id col id u)
      ]

  pub update_single :
      Bytes
      → (filter : V) → Update V
      → (ops : Option O) → (ignore_field : List Bytes) → Option (Call V O)
  unfolding to_document
  update_single col filter update ops ignore_field = elim (to_document set update ignore_field) [
    | none ↦ none
    | some u ↦ some (do_update_one col filter u ops)
  ]

  -- `upsert_option` is options.Update().SetUpsert(true).
  pub upsert : O → Bytes → (filter : V) → Update V → Option (Call V O)
  unfolding to_document
  upsert upsert_option col filter update = elim (to_document set update []) [
    | none ↦ none
    | some u ↦ some (do_update_one col filter u (some upsert_option))
  ]

module _ {ℓ} {V O : Type ℓ} where
  pub query_by_id : (id_filter : V → V) → Bytes → (id : V) → Call V O
  query_by_id id_filter coll id = do_find_one coll (id_filter id) none

  pub query_one : Bytes → (filter : V) → Call V O
  query_one col filter = do_find_one col filter none

  -- `sort_option` makes the options of a sort by the one field; `none` is its panic.
  pub query_latest : (List Bytes → Option O) → Bytes → Bytes → (filter : V) → Option (Call V O)
  query_latest sort_option col sort_by filter = elim (sort_option (sort_by ∷ [])) [
    | none ↦ none
    | some o ↦ some (do_find_one col filter (some o))
  ]

  pub query : (List Bytes → Option O) → Bytes → (filter : V) → List Bytes → Option (Call V O)
  query sort_option col filter [] = some (do_find col filter none)
  query sort_option col filter (f ∷ fs) = elim (sort_option (f ∷ fs)) [
    | none ↦ none
    | some o ↦ some (do_find col filter (some o))
  ]

  -- The pipeline goes to the collection itself, under the caller's context alone.
  pub pipe_query : Bytes → (pipeline : V) → Call V O
  pipe_query col pipeline = record { collection = col; command = aggregate pipeline; timed = false }

  distinct_query : Bytes → Bytes → (filter : V) → Call V O
  unfolding do_distinct
  distinct_query col distinct_field filter = do_distinct col distinct_field (value filter)

-- Query and PipeQuery read the cursor with iterate.
pub read_cursor {ℓ κ} :
    {V : Type ℓ} {D : Type κ}
    → V
    → (V → D → Decoding V)
    → (ℕ → ℕ)
    → (result spare : List V) → Result (List D)
    → Iterated V
read_cursor zero_value decode grow old spare (ok docs) =
    iterate zero_value decode grow old spare docs
read_cursor zero_value decode grow old spare (err e) = record { result = old; failed = true }

-- IsExist, from what CountDocuments returns with or without an error.
pub is_exist : ℕ → Option Bytes → Bool × Option Bytes
is_exist n e = (ltb 0 n, e)

-- UseSession: the error of StartTransaction, or else what the session returns.
pub use_session : (start session : Option Bytes) → Option Bytes
use_session (some e) session = some e
use_session none session = session
