-- ===== src/Mongo/Opening.antt =====
-- mongox/client.go. The driver is an argument: `S` is what it keeps, `C` a client of it, `D` a database.
use go_vkit.Prelude.{Bool, true, false, Option, none, some, Bytes, ℤ, Result, ok, err}

-- mongo.ErrNoDocuments, and other errors by their text.
pub data MongoError : Type 0 where
  no_documents : MongoError
  mongo_error : Bytes → MongoError

-- mongo.NewClient with the options of a URI, and the methods Connect, Ping of the primary, Database and Collection. Connect and
-- Ping share a context that ends after three seconds.
pub record Connects {ℓ} (S C D : Type ℓ) : Type ℓ where
  pub new_driver : (uri : Bytes) → S → Result C × S
  pub connect : C → S → Option Bytes × S
  pub ping : C → S → Option Bytes × S
  pub database : C → Bytes → D

pub record MongoClient {ℓ} (C D : Type ℓ) : Type ℓ where
  pub c : C
  pub db : D
  pub op_time : ℤ

module _ {ℓ} {S C D : Type ℓ} (driver : Connects S C D) (db_name : Bytes) (with_timeout : ℤ) where
  pinged : C → Option Bytes × S → Result (MongoClient C D) × S
  pinged c (some e, s) = (err e, s)
  pinged c (none, s) =
      (ok (record { c = c; db = driver.database c db_name; op_time = with_timeout }), s)

  connected : C → Option Bytes × S → Result (MongoClient C D) × S
  unfolding pinged
  connected c (some e, s) = (err e, s)
  connected c (none, s) = pinged c (driver.ping c s)

  created : Result C × S → Result (MongoClient C D) × S
  unfolding connected
  created (err e, s) = (err e, s)
  created (ok c, s) = connected c (driver.connect c s)

  -- NewClient. A client that does not answer the ping is not disconnected.
  pub open_client : (uri : Bytes) → S → Result (MongoClient C D) × S
  unfolding created
  open_client uri s = created (driver.new_driver uri s)

module _ {ℓ} {C D : Type ℓ} where
  pub get_client : MongoClient C D → C
  get_client the = the.c

  pub get_db : MongoClient C D → D
  get_db the = the.db

  pub collection {κ} : {L : Type κ} (collection_of : D → Bytes → L) → MongoClient C D → Bytes → L
  collection collection_of the col_name = collection_of the.db col_name

  -- `timeout_of` is context.WithTimeout.
  pub with_timeout {κ} :
      {Ctx Cancel : Type κ} (timeout_of : Ctx → ℤ → Ctx × Cancel)
      → MongoClient C D
      → Ctx
      → Ctx × Cancel
  with_timeout timeout_of the ctx = timeout_of ctx the.op_time

pub is_no_docs : Option MongoError → Bool
is_no_docs (some no_documents) = true
is_no_docs e = false

pub clear_no_docs : Option MongoError → Option MongoError
clear_no_docs (some no_documents) = none
clear_no_docs e = e
