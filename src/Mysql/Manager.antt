-- ===== src/Mysql/Manager.antt =====
-- The connection of server/mysql/db.go: NewDBMgr and CloseDB. The package database/sql is a
-- parameter; a pool of connections and a prepared statement are handles of it.
pub mod Lifecycle
use fabric_byzantine.Base.{
  ◌≡◌, refl, sym, ap, ◌∙◌, String, str_append, Bool, true, false, ◌∷◌, [], List, arith, Bool-cases,
  inl, inr, if◌then◌else◌,
}
use fabric_byzantine.Int.{ℤ}
use fabric_byzantine.Flow.{
  Flow, go, crash, Body, bind-go, ◌>>=◌, ◌>>◌, lift, modify, Outcome, ok, err,
}
use fabric_byzantine.Helpers.{DbInfo}

-- `connect` is `sql.Open`.
pub record Driver : Type 1 where
  pub State : Type 0
  pub Handle : Type 0
  pub connect : String → String → State → Outcome String Handle × State
  pub set_max_open_conns : Handle → ℤ → State → State
  pub set_max_idle_conns : Handle → ℤ → State → State
  pub ping : Handle → State → Outcome String (Unit {0}) × State
  pub prepare : Handle → String → State → Outcome String Handle × State
  pub close : Handle → State → Outcome String (Unit {0}) × State

abbrev pub block_sql : String
block_sql = "INSERT INTO block VALUES(?,?,?,?,?,?,?);"

abbrev pub tx_sql : String
tx_sql = "INSERT INTO transaction VALUES(?,?,?,?,?,?,?);"

abbrev joined : List String → String
joined [] = ""
joined (s ∷ ss) = str_append s (joined ss)

-- `fmt.Sprintf("%s:%s@tcp(%s:%s)/%s", …)`
unfoldable pub data_source : DbInfo → String
data_source c =
    joined (c.user ∷ ":" ∷ c.password ∷ "@tcp(" ∷ c.host ∷ ":" ∷ c.port ∷ ")/" ∷ c.name ∷ [])

-- `panic` on an error.
abbrev pub or_panic : {S R A : Type 0} → Outcome String A × S → Flow R A × S
or_panic (ok a, s) = (go a, s)
or_panic (err e, s) = (crash, s)

module _ (driver : Driver) where
  pub record DbMgr : Type 0 where
    pub db : driver.Handle
    pub stmt_tx : driver.Handle
    pub stmt_block : driver.Handle

  unfoldable pub new_db_mgr : {R : Type 0} → DbInfo → Body driver.State R DbMgr
  new_db_mgr c = do
    db ← (λ s. or_panic (driver.connect "mysql" (data_source c) s))
    modify (driver.set_max_open_conns db c.max_open_conns)
    modify (driver.set_max_idle_conns db c.max_idle_conns)
    (λ s. or_panic (driver.ping db s))
    stmt_block ← (λ s. or_panic (driver.prepare db block_sql s))
    stmt_tx ← (λ s. or_panic (driver.prepare db tx_sql s))
    lift (go (record { db = db; stmt_tx = stmt_tx; stmt_block = stmt_block }))

  unfoldable pub close_db : {R : Type 0} → DbMgr → Body driver.State R (Unit {0})
  close_db m = do
    (λ s. or_panic (driver.close m.db s))
    (λ s. or_panic (driver.close m.stmt_tx s))
    (λ s. or_panic (driver.close m.stmt_block s))
