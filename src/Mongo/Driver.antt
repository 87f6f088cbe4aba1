-- ===== src/Mongo/Driver.antt =====
-- mongox/mongo.go: each method is a call of the driver under the client's time limit. The driver is a function of
-- these calls; a filter, an update or a pipeline is a value of any type.
use go_vkit.Prelude.{ℕ, Bool, true, List, Option, none, some, codes, Bytes}
use go_vkit.Server.Handler.{Outcome, returned, panicked}

-- The arguments of type `any`: `V` are the callers' values, and a text is one too.
pub data Any {ℓ} (V : Type ℓ) : Type ℓ where
  value : V → Any V
  text : Bytes → Any V

pub data Command {ℓ} (V O : Type ℓ) : Type ℓ where
  insert_one : V → Command V O
  insert_many : List V → Command V O
  delete_one : Any V → Command V O
  delete_many : Any V → Command V O
  update_by_id : (id : V) (update : V) → Command V O
  update_one : (filter update : V) (options : Option O) → Command V O
  update_many : (filter update : V) (options : Option O) → Command V O
  replace_one : (filter replacement : V) → Command V O
  aggregate : (pipeline : V) → Command V O
  count_documents : (filter : V) → Command V O
  estimated_document_count : Command V O
  distinct : (field_name : Bytes) (filter : Any V) → Command V O
  find : (filter : V) (options : Option O) → Command V O
  find_one : (filter : V) (options : Option O) → Command V O
  find_one_and_delete : (filter : V) → Command V O
  find_one_and_replace : (filter replacement : V) → Command V O
  find_one_and_update : (filter update : V) → Command V O

-- A command on a collection, and whether it is under the time limit.
pub record Call {ℓ} (V O : Type ℓ) : Type ℓ where
  pub collection : Bytes
  pub command : Command V O
  pub timed : Bool

-- `return r.DeletedCount, e`: the driver may return a nil result with an error.
pub deleted_count : Option ℕ → Option Bytes → Outcome (ℕ × Option Bytes)
deleted_count none e =
    panicked (codes "runtime error: invalid memory address or nil pointer dereference")
deleted_count (some n) e = returned (n, e)

module _ {ℓ} {V O : Type ℓ} where
  timed : Bytes → Command V O → Call V O
  timed coll c = record { collection = coll; command = c; timed = true }

  pub do_insert_one : Bytes → V → Call V O
  unfolding timed
  do_insert_one coll doc = timed coll (insert_one doc)

  pub do_insert_many : Bytes → List V → Call V O
  unfolding timed
  do_insert_many coll docs = timed coll (insert_many docs)

  pub do_delete_one : Bytes → Any V → Call V O
  unfolding timed
  do_delete_one coll filter = timed coll (delete_one filter)

  pub do_delete_many : Bytes → Any V → Call V O
  unfolding timed
  do_delete_many coll filter = timed coll (delete_many filter)

  pub do_update_by_id : Bytes → (id update : V) → Call V O
  unfolding timed
  do_update_by_id coll id update = timed coll (update_by_id id update)

  pub do_update_one : Bytes → (filter update : V) → Option O → Call V O
  unfolding timed
  do_update_one coll filter update opts = timed coll (update_one filter update opts)

  pub do_update_many : Bytes → (filter update : V) → Option O → Call V O
  unfolding timed
  do_update_many coll filter update opts = timed coll (update_many filter update opts)

  pub do_replace_one : Bytes → (filter replacement : V) → Call V O
  unfolding timed
  do_replace_one coll filter replacement = timed coll (replace_one filter replacement)

  pub do_aggregate : Bytes → (pipeline : V) → Call V O
  unfolding timed
  do_aggregate coll pipeline = timed coll (aggregate pipeline)

  pub do_count_documents : Bytes → (filter : V) → Call V O
  unfolding timed
  do_count_documents coll filter = timed coll (count_documents filter)

  pub do_estimated_document_count : Bytes → Call V O
  unfolding timed
  do_estimated_document_count coll = timed coll estimated_document_count

  -- The name of the field stands for the filter too.
  unfoldable pub do_distinct : Bytes → Bytes → Any V → Call V O
  unfolding timed
  do_distinct coll field_name filter = timed coll (distinct field_name (text field_name))

  pub do_find : Bytes → (filter : V) → Option O → Call V O
  unfolding timed
  do_find coll filter opts = timed coll (find filter opts)

  pub do_find_one : Bytes → (filter : V) → Option O → Call V O
  unfolding timed
  do_find_one coll filter opts = timed coll (find_one filter opts)

  pub do_find_one_and_delete : Bytes → (filter : V) → Call V O
  unfolding timed
  do_find_one_and_delete coll filter = timed coll (find_one_and_delete filter)

  pub do_find_one_and_replace : Bytes → (filter replacement : V) → Call V O
  unfolding timed
  do_find_one_and_replace coll filter replacement =
      timed coll (find_one_and_replace filter replacement)

  pub do_find_one_and_update : Bytes → (filter update : V) → Call V O
  unfolding timed
  do_find_one_and_update coll filter update = timed coll (find_one_and_update filter update)
