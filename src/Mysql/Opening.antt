-- ===== src/Mysql/Opening.antt =====
-- NewClient of mysqlx/client.go. `S` is what gorm and database/sql keep, `D` a handle of database/sql.
use go_vkit.Prelude.{ℕ, Bytes, codes, ℤ, ◌*ℤ◌, int64, Result, ok, err, if◌then◌else◌}
use go_vkit.Mysql.{param_error}
use go_vkit.Mysql.Chain.{World, new_client}

-- gorm.Open with the driver's settings and a data source, the method DB of gorm.DB, and the limits of a pool of
-- connections. Errors are texts.
pub record Opens {ℓ} (S D : Type ℓ) : Type ℓ where
  pub open_db : (dsn : Bytes) → S → Result ℕ × S
  pub sql_db : ℕ → S → Result D
  pub set_max_idle_conns : ℤ → D → S → S
  pub set_max_open_conns : ℤ → D → S → S
  pub set_conn_max_lifetime : (nanoseconds : ℤ) → D → S → S

module _ {ℓ} {S D : Type ℓ} (opens : Opens S D) (max_conn max_idel max_life_time : ℤ) where
  -- The limits are set one after the other.
  limited : D → S → S
  limited d s =
      opens.set_conn_max_lifetime (int64 (max_life_time *ℤ 1000000000)) d
        (opens.set_max_open_conns max_conn d (opens.set_max_idle_conns max_idel d s))

  with_pool : ℕ → Result D → World S → Result ℕ × World S
  unfolding limited new_client
  with_pool db (err e) w = (err e, w)
  with_pool db (ok d) w =
      let (c, v) = new_client db (record w { gorm = limited d w.gorm }) in (ok c, v)

  with_db : World S → Result ℕ × S → Result ℕ × World S
  unfolding with_pool
  with_db w (err e, s) = (err e, record w { gorm = s })
  with_db w (ok db, s) = with_pool db (opens.sql_db db s) (record w { gorm = s })

  pub open_client : (uri : Bytes) → World S → Result ℕ × World S
  unfolding with_db
  open_client uri w =
      if param_error uri max_conn max_idel max_life_time
      then (err (codes "param error"), w)
      else with_db w (opens.open_db uri w.gorm)

  -- GetDB
  pub get_db : (client : ℕ) → World S → ℕ
  get_db client w = w.db client
