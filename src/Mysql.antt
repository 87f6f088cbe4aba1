-- ===== src/Mysql.antt =====
-- mysqlx/client.go and mysqlx/mysqlx.go over the library gorm: `T` is a chain of the library, `S` the state of the database,
-- `V` the values that are read and written.
pub mod Chain
pub mod Opening
use go_vkit.Prelude.{
  Bool, true, false, ◌||◌, ◌∷◌, ◌++◌, Option, none, some, codes, Bytes, if◌then◌else◌, drop, ℤ, pos,
  int32, ltb_ℤ, is_zero,
}
use go_vkit.Strings.{index}
use go_vkit.Strings.Decimal.{format_int}
use go_vkit.Routes.{is_empty}
use go_vkit.Mongo.Paging.{at_least_one, skip_of}

-- gorm.ErrRecordNotFound, and other errors by their text.
pub data DbError : Type 0 where
  record_not_found : DbError
  db_error : Bytes → DbError

-- What a finished chain says.
pub record Done : Type 0 where
  pub error : Option DbError
  pub rows_affected : ℤ

pub record Gorm {ℓ} (T S V : Type ℓ) : Type ℓ where
  pub create : T → V → S → S × Done
  pub create_in_batches : T → V → ℤ → S → S × Done
  pub delete_by_id : T → V → Bytes → S → S × Done
  pub delete : T → V → S → S × Done
  pub save : T → V → S → S × Done
  pub first_by_id : T → Bytes → S → V × Done
  pub first : T → S → V × Done
  pub find : T → S → V × Done
  pub count : T → S → ℤ × Done
  pub offset : ℤ → T → T
  pub limit : ℤ → T → T
  pub raw : Bytes → T → T

-- What the methods that read return: whether there is a record, and the error.
pub found : Option DbError → Bool × Option DbError
found none = (true, none)
found (some record_not_found) = (false, none)
found (some (db_error e)) = (false, some (db_error e))

-- A page as it is read: the rows, if they were read, the count, if it was set, and the error.
pub record PageRead {ℓ} (V : Type ℓ) : Type ℓ where
  pub rows : Option V
  pub count : Option ℤ
  pub error : Option DbError

module _ {ℓ} {T S V : Type ℓ} (gorm : Gorm T S V) (db : T) where
  after_create : S × Done → S × Option DbError
  after_create (s, d) = elim d.error [
    | some e ↦ (s, some e)
    | none ↦ (
      s,
      if ltb_ℤ (pos 0) d.rows_affected
          then none
          else some (db_error (codes "Insert RowsAffected<=0")),
    )
  ]

  pub insert_row : V → S → S × Option DbError
  unfolding after_create
  insert_row o s = after_create (gorm.create db o s)

  pub insert_batch : V → (batch_size : ℤ) → S → S × Option DbError
  insert_batch o batch_size s =
      let (t, d) = gorm.create_in_batches db o batch_size s in (t, d.error)

  pub delete_row_by_id : V → (id : Bytes) → S → S × (Bool × Option DbError)
  delete_row_by_id o id s =
      let (t, d) = gorm.delete_by_id db o id s in
      elim d.error [ none ↦ (t, (true, none)) | some e ↦ (t, (false, some e)) ]

  -- No record to delete is no error.
  deleted : Done → Bool × Option DbError
  unfolding found
  deleted d = elim d.error [
    | none ↦ (ltb_ℤ (pos 0) d.rows_affected, none)
    | some e ↦ found (some e)
  ]

  pub delete_ex : V → S → S × (Bool × Option DbError)
  unfolding deleted
  delete_ex o s = let (t, d) = gorm.delete db o s in (t, deleted d)

  pub find_by_id : (id : Bytes) → S → V × (Bool × Option DbError)
  unfolding found
  find_by_id id s = let (v, d) = gorm.first_by_id db id s in (v, found d.error)

  pub find_first : S → V × (Bool × Option DbError)
  unfolding found
  find_first s = let (v, d) = gorm.first db s in (v, found d.error)

  pub exists : S → V × (Bool × Option DbError)
  unfolding found
  exists s = let (v, d) = gorm.first db s in (v, found d.error)

  pub find_list : S → V × Option DbError
  find_list s = let (v, d) = gorm.find db s in (v, d.error)

  pub update_ex : V → S → S × Option DbError
  update_ex o s = let (t, d) = gorm.save db o s in (t, d.error)

  -- The second query of a page, with the count that was set.
  read_rows : ℤ → V × Done → PageRead V
  read_rows n (v, d) = record { rows = some v; count = some n; error = d.error }

  find_page : (page size : ℤ) → S → PageRead V
  unfolding read_rows
  find_page page size s =
      let p = at_least_one 1 page in
      let n = at_least_one 10 size in
      let (total, d) = gorm.count db s in
      elim d.error [
        | some e ↦ record { rows = none; count = none; error = some e }
        | none ↦
            read_rows (int32 total)
              (gorm.find (gorm.limit (pos n) (gorm.offset (skip_of p n) db)) s)
      ]

  -- `sql + fmt.Sprintf(" limit %d,%d", skip, limit)`
  page_sql : Bytes → (page size : ℤ) → Bytes
  page_sql sql page size =
      let p = at_least_one 1 page in
      let n = at_least_one 10 size in
      sql ++ (codes " limit " ++ (format_int (skip_of p n) ++ (b',' ∷ format_int (pos n))))

  -- `refused` is the text of the error for a statement without "from".
  find_raw_page : (refused : Bytes → Bytes) → Bytes → (page size : ℤ) → S → PageRead V
  unfolding read_rows page_sql
  find_raw_page refused sql page size s = elim (index sql (codes "from")) [
    | none ↦ record { rows = none; count = none; error = some (db_error (refused sql)) }
    | some i ↦
        let (total, d) = gorm.count (gorm.raw (codes "select count(1) " ++ drop i sql) db) s in
        elim d.error [
          | some e ↦ record { rows = none; count = none; error = some e }
          | none ↦ read_rows (int32 total) (gorm.find (gorm.raw (page_sql sql page size) db) s)
        ]
  ]

-- NewClient, before it opens the database.
pub param_error : Bytes → (max_conn max_idel max_life_time : ℤ) → Bool
param_error uri max_conn max_idel max_life_time =
    is_empty uri || is_zero max_conn || is_zero max_idel || is_zero max_life_time
