-- ===== src/Mysql/Chain.antt =====
-- mysqlx/mysql.go, and newOnChain of mysqlx/client.go. A client and a gorm.DB are pointers, here numbers; `S` is
-- what gorm keeps behind its pointers together with the database, `V` the Go values that are handed on.
pub mod Direct
use go_vkit.Prelude.{
  ℕ, ◌+◌, ◌==◌, Bool, List, [], ◌∷◌, Option, none, some, Bytes, ℤ, if◌then◌else◌, Result,
}

-- The methods that return a client, with their arguments.
pub data Method {ℓ} (V : Type ℓ) : Type ℓ where
  wheres : V → List V → Method V
  models : V → Method V
  counts : (count : V) → Method V
  tables : Bytes → List V → Method V
  distincts : List V → Method V
  selects : V → List V → Method V
  groups : Bytes → Method V
  offsets : ℤ → Method V
  limits : ℤ → Method V
  finds : (dest : V) → List V → Method V
  firsts : (dest : V) → List V → Method V
  raws : Bytes → List V → Method V
  joins : Bytes → List V → Method V
  deletes : V → List V → Method V
  updates : (column : Bytes) → V → Method V
  orders : V → Method V
  havings : V → List V → Method V
  ors : V → List V → Method V
  nots : V → List V → Method V
  omits : List Bytes → Method V
  scans : (dest : V) → Method V
  plucks : (column : Bytes) → (dest : V) → Method V
  takes : (dest : V) → List V → Method V

-- A method of gorm on a DB: it returns a DB, which may be the same one.
abbrev pub Op {ℓ} : Type ℓ → Type ℓ
Op S = ℕ → S → ℕ × S

-- The methods of gorm.DB that return a DB.
pub record Chains {ℓ} (S V : Type ℓ) : Type ℓ where
  pub where_of : V → List V → Op S
  pub model : V → Op S
  pub count : V → Op S
  pub table : Bytes → List V → Op S
  pub distinct : List V → Op S
  pub select : V → List V → Op S
  pub group : Bytes → Op S
  pub offset : ℤ → Op S
  pub limit : ℤ → Op S
  pub find : V → List V → Op S
  pub first : V → List V → Op S
  pub raw : Bytes → List V → Op S
  pub joins_of : Bytes → List V → Op S
  pub delete : V → List V → Op S
  pub update : Bytes → V → Op S
  pub order : V → Op S
  pub having : V → List V → Op S
  pub or_of : V → List V → Op S
  pub not_of : V → List V → Op S
  pub omit : List Bytes → Op S
  pub scan : V → Op S
  pub pluck : Bytes → V → Op S
  pub take : V → List V → Op S

-- The clients, each with its DB, and the first pointer that is not in use.
pub record World {ℓ} (S : Type ℓ) : Type ℓ where
  pub gorm : S
  pub next : ℕ
  pub db : ℕ → ℕ

module _ {ℓ} {S : Type ℓ} where
  -- `&MysqlClient{db: db}`
  unfoldable pub new_client : ℕ → World S → ℕ × World S
  new_client tx w =
      (w.next, record w { next = w.next + 1; db = λ p. if p == w.next then tx else w.db p })

  unfoldable pub new_on_chain : (client db : ℕ) → World S → ℕ × World S
  unfolding new_client
  new_on_chain client tx w = if w.db client == tx then (client, w) else new_client tx w

  on_chain : (client : ℕ) → World S → ℕ × S → ℕ × World S
  unfolding new_on_chain
  on_chain client w (tx, s) = new_on_chain client tx (record w { gorm = s })

  -- Transaction: gorm's own one, `run`, gets a callback that makes a client of its DB.
  pub transaction :
      (run : (db : ℕ)
        → (fc : (tx : ℕ) → World S → Option Bytes × World S) → World S
        → Option Bytes × World S)
      → (client : ℕ) → (fc : (client : ℕ) → World S → Option Bytes × World S) → World S
      → Option Bytes × World S
  unfolding new_on_chain
  transaction run client fc w =
      run (w.db client) (λ tx v. let (c, u) = new_on_chain client tx v in fc c u) w

  -- Rows, ScanRows and AutoMigrate hand the result of gorm on.
  pub rows : {R : Type ℓ} (gorm_rows : ℕ → S → Result R × S) → (client : ℕ) → World S → Result R × S
  rows gorm_rows client w = gorm_rows (w.db client) w.gorm

module _ {ℓ} {S V : Type ℓ} where
  -- `tx := the.db.Method(...)`
  unfoldable pub tx_of : Chains S V → Method V → Op S
  tx_of g (wheres query args) = g.where_of query args
  tx_of g (models value) = g.model value
  tx_of g (counts n) = g.count n
  tx_of g (tables name args) = g.table name args
  tx_of g (distincts args) = g.distinct args
  tx_of g (selects query args) = g.select query args
  tx_of g (groups name) = g.group name
  tx_of g (offsets n) = g.offset n
  tx_of g (limits n) = g.limit n
  tx_of g (finds dest conds) = g.find dest conds
  tx_of g (firsts dest conds) = g.first dest conds
  tx_of g (raws sql values) = g.raw sql values
  tx_of g (joins query args) = g.joins_of query args
  tx_of g (deletes value conds) = g.delete value conds
  tx_of g (updates column value) = g.update column value
  tx_of g (orders value) = g.order value
  tx_of g (havings query args) = g.having query args
  tx_of g (ors query args) = g.or_of query args
  tx_of g (nots query args) = g.not_of query args
  tx_of g (omits columns) = g.omit columns
  tx_of g (scans dest) = g.scan dest
  tx_of g (plucks column dest) = g.pluck column dest
  tx_of g (takes dest conds) = g.take dest conds

  -- A method of MysqlClient.
  unfoldable pub call : Chains S V → Method V → (client : ℕ) → World S → ℕ × World S
  unfolding tx_of on_chain
  call g m client w = on_chain client w (tx_of g m (w.db client) w.gorm)

  -- `client.A(...).B(...)`: each method on the client that the one before returned.
  unfoldable pub chain : Chains S V → List (Method V) → (client : ℕ) → World S → ℕ × World S
  unfolding call
  chain g [] client w = (client, w)
  chain g (m ∷ ms) client w = let (c, v) = call g m client w in chain g ms c v

  pub scan_rows :
      {R : Type ℓ} (gorm_scan : ℕ → R → V → S → Option Bytes × S)
      → (client : ℕ) → R
      → (dest : V) → World S
      → Option Bytes × S
  scan_rows gorm_scan client r dest w = gorm_scan (w.db client) r dest w.gorm

  pub auto_migrate :
      (gorm_migrate : ℕ → List V → S → Option Bytes × S)
      → (client : ℕ) → List V
      → World S
      → Option Bytes × S
  auto_migrate gorm_migrate client dst w = gorm_migrate (w.db client) dst w.gorm
