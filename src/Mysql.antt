-- ===== src/Mysql.antt =====
-- server/mysql/db.go and handler.go: the queries of the explorer's database. The driver is a
-- parameter: a query gives the names of its columns and its rows as they are scanned, a NULL as
-- none, or a fault. `json.Marshal` of the entries and the printing on the console are left out.
pub mod Manager
pub mod Pages
mod Tests
use fabric_byzantine.Base.{
  ℕ, suc, ◌*◌, String, List, [], ◌∷◌, ◌++◌, Option, none, some, length, ◌==◌, if◌then◌else◌,
}
use fabric_byzantine.Int.{ℤ, pos, sub64, mul64}
use fabric_byzantine.Dict.{Dict, insert}
use fabric_byzantine.Strconv.{parse_uint}
use fabric_byzantine.Flow.{Outcome, ok, err}

-- An argument of a statement.
pub data Arg : Type 0 where
  number : ℤ → Arg
  words : String → Arg

-- The rows are what `Next` and `Scan` give in turn; `fault` is what `rows.Err` gives at the end.
pub record Rows (F : Type 0) : Type 0 where
  pub columns : Outcome F (List String)
  pub rows : List (Outcome F (List (Option String)))
  pub fault : Option F

pub record Database : Type 1 where
  pub Fault : Type 0
  pub query : String → List Arg → Outcome Fault (Rows Fault)
  pub prepare : String → Outcome Fault (List Arg → Option Fault)

pub data Failure (F : Type 0) : Type 0 where
  driver : F → Failure F
  invalid_columns : Failure F

abbrev value_of : Option String → String
value_of none = "NULL"
value_of (some s) = s

-- `entry[columns[i]] = value` for each value of a row, from a position on.
unfoldable pub entry_from : List String → List (Option String) → Dict String → Dict String
entry_from [] vs entry = entry
entry_from (_ ∷ _) [] entry = entry
entry_from (c ∷ cs) (v ∷ vs) entry = entry_from cs vs (insert c (value_of v) entry)

-- The loop of QueryRows.
unfoldable pub scan_rows :
    {F : Type 0}
    → List String
    → Option F
    → List (Outcome F (List (Option String)))
    → List (Dict String)
    → Outcome (Failure F) (List (Dict String))
unfolding entry_from
scan_rows columns fault [] datas = elim fault [ some e ↦ err (driver e) | none ↦ ok datas ]
scan_rows columns fault (r ∷ rs) datas = elim r [
  | err e ↦ err (driver e)
  | ok vs ↦ scan_rows columns fault rs (datas ++ entry_from columns vs [] ∷ [])
]

-- The loop of QueryValue: the value of the last row stays; `rows.Err` is not asked for.
unfoldable pub scan_value :
    {F : Type 0}
    → List (Outcome F (List (Option String)))
    → Option String
    → Outcome (Failure F) (Option String)
scan_value [] col = ok col
scan_value (r ∷ rs) col = elim r [
  | err e ↦ err (driver e)
  | ok [] ↦ scan_value rs none
  | ok (v ∷ _) ↦ scan_value rs v
]

module _ (db : Database) where
  unfoldable pub query_rows : String → List Arg → Outcome (Failure db.Fault) (List (Dict String))
  unfolding scan_rows
  query_rows statement args = elim (db.query statement args) [
    | err e ↦ err (driver e)
    | ok r ↦ elim r.columns [
      | err e ↦ err (driver e)
      | ok columns ↦ scan_rows columns r.fault r.rows []
    ]
  ]

  unfoldable pub query_value : String → List Arg → Outcome (Failure db.Fault) (Option String)
  unfolding scan_value
  query_value statement args = elim (db.query statement args) [
    | err e ↦ err (driver e)
    | ok r ↦ elim r.columns [
      | err e ↦ err (driver e)
      | ok columns ↦ if length columns == 1 then scan_value r.rows none else err invalid_columns
    ]
  ]

  -- The statement's fault, if there is one; it is closed in either case.
  unfoldable pub insert_or_update : String → List Arg → Option db.Fault
  insert_or_update statement args = elim (db.prepare statement) [
    | err e ↦ some e
    | ok exec ↦ exec args
  ]

  abbrev pub block_page_sql : String
  block_page_sql =
      "select * from (select number from block order by number desc limit ?,?) a left join block b on a.number = b.number;"

  abbrev pub tx_page_sql : String
  tx_page_sql =
      "select * from (select tx_index from transaction order by tx_index desc limit ?,?) a left join transaction b on a.tx_index = b.tx_index;"

  unfoldable pub block_page : ℤ → ℤ → Outcome (Failure db.Fault) (List (Dict String))
  unfolding query_rows
  block_page page_id size =
      query_rows block_page_sql (number (mul64 (sub64 page_id (pos 1)) size) ∷ number size ∷ [])

  unfoldable pub transaction_page : ℤ → ℤ → Outcome (Failure db.Fault) (List (Dict String))
  unfolding query_rows
  transaction_page page_id size =
      query_rows tx_page_sql (number (mul64 (sub64 page_id (pos 1)) size) ∷ number size ∷ [])

  -- The number that a query gives; none is the panic on a fault.
  unfoldable pub query_number : String → Option ℕ
  unfolding query_value
  query_number statement = elim (query_value statement []) [
    | err e ↦ none
    | ok none ↦ some (parse_uint "")
    | ok (some s) ↦ some (parse_uint s)
  ]

  unfoldable pub get_block_height : Option ℕ
  unfolding query_number
  get_block_height = query_number "select max(number) as height from block;"

  unfoldable pub tx_number : Option ℕ
  unfolding query_number
  tx_number = query_number "select sum(tx_count) as tx from block;"

  unfoldable pub query_transaction : String → Outcome (Failure db.Fault) (List (Dict String))
  unfolding query_rows
  query_transaction tx_id = query_rows "select * from transaction where tx_id=?;" (words tx_id ∷ [])

  unfoldable pub peer_list : Outcome (Failure db.Fault) (List (Dict String))
  unfolding query_rows
  peer_list = query_rows "select * from peer;" []

  unfoldable pub update_peers : String → ℤ → Option db.Fault
  unfolding insert_or_update
  update_peers peer peer_type =
      insert_or_update "UPDATE peer SET peer_type=? WHERE name=?;"
        (number peer_type ∷ words peer ∷ [])

  unfoldable pub update_transaction : String → String → ℤ → Option db.Fault
  unfolding insert_or_update
  update_transaction peer tx_id tx_type =
      insert_or_update "UPDATE transaction SET peer=?,tx_type=? WHERE tx_id=?;"
        (words peer ∷ number tx_type ∷ words tx_id ∷ [])

  -- It says the same as update_transaction.
  unfoldable pub update_block : String → String → ℤ → Option db.Fault
  unfolding insert_or_update
  update_block peer tx_id tx_type =
      insert_or_update "UPDATE transaction SET peer=?,tx_type=? WHERE tx_id=?;"
        (words peer ∷ number tx_type ∷ words tx_id ∷ [])
