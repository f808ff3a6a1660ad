-- ===== src/Server/Restart.antt =====
-- The start of the block listener (server/block_listener.go, server/fabsdk.go) on a database that an
-- earlier run of the server has filled: GetBlockHeight (server/mysql/handler.go) tells which block
-- was stored last. The blocks that are handed over are handled one after the other here.
pub mod CatchesUp
pub mod Stored
mod Tests
use fabric_byzantine.Base.{
  ℕ, ◌+◌, ◌^◌, ◌≤◌, ◌<◌, ◌≡◌, refl, ap, ◌∙◌, Option-cases, inl, inr, String, Bool, true, false,
  List, [], ◌∷◌, Option, none, some, arith, ltb, ◌==◌, if◌then◌else◌,
}
use fabric_byzantine.Json.{Wire}
use fabric_byzantine.Strconv.{parse_uint, max_u64}
use fabric_byzantine.Strconv.Digits.{format_uint}
use fabric_byzantine.Strconv.RoundTrip.{parse_uint-format_uint}
use fabric_byzantine.Flow.{Flow, go, stop, crash, go_on, Body, Outcome, ok}
use fabric_byzantine.Mysql.{
  Database, Rows, scan_value, query_value, query_number, get_block_height, tx_number,
}
use fabric_byzantine.Server.Gateway.{Sdk, Orgs}
use fabric_byzantine.Server.Listener.{
  Proto, Block, Statement, insert_tx, insert_block, World, update_block,
}

-- A block's row is taken if both balances are there: their columns are NOT NULL in
-- scripts/db/explore.sql, and the statement for a row with a NULL fails. One for a number that has a
-- row already fails too and leaves that row, so the number is stored as it was. The other columns are
-- taken to accept what updateBlock gives them, also the zero time of a block without a readable
-- transaction.
abbrev taken : {B : Type 0} → Option B → Option B → ℕ → List ℕ → List ℕ
taken (some _) (some _) n ns = n ∷ ns
taken (some _) none n ns = ns
taken none _ n ns = ns

-- The numbers of the blocks that statements store.
abbrev pub numbers : {B : Type 0} → List (Statement B) → List ℕ
numbers [] = []
numbers (insert_tx i n tx_id name flag code time ∷ l) = numbers l
numbers (insert_block n hash count time alice bob flag ∷ l) = taken alice bob n (numbers l)

abbrev pub member : ℕ → List ℕ → Bool
member n [] = false
member n (m ∷ ms) = if m == n then true else member n ms

abbrev pub highest : List ℕ → ℕ
highest [] = 0
highest (n ∷ ns) = if ltb (highest ns) n then n else highest ns

-- `max(number)`, a NULL without a block.
abbrev pub max_text : List ℕ → Option String
max_text [] = none
max_text (n ∷ ns) = some (format_uint (highest (n ∷ ns)))

-- What a query for one value answers.
abbrev pub one_value : {F : Type 0} → String → Option String → Rows F
one_value column v = record { columns = ok (column ∷ []); rows = ok (v ∷ []) ∷ []; fault = none }

-- A database that has met the statements and taken what its schema allows: it answers the query for the highest block by the
-- blocks that were stored, and that for the number of transactions with some value.
pub record IsExplorer {B : Type 0} (database : List (Statement B) → Database) : Type 0 where
  pub height :
      (l : List (Statement B))
      → (database l).query "select max(number) as height from block;" []
        ≡ ok (one_value "height" (max_text (numbers l)))
  pub total :
      (l : List (Statement B))
      → (v : Option String) × ((database l).query "select sum(tx_count) as tx from block;" []
          ≡ ok (one_value "tx" v))

-- The blocks from 1 to `g` are stored, and none beyond.
abbrev pub IsComplete : {B : Type 0} → List (Statement B) → ℕ → Type 0
IsComplete l g = (highest (numbers l) ≡ g) × ((n : ℕ) → 0 < n → n ≤ g → member n (numbers l) ≡ true)

-- What QueryValue's caller makes of the answer.
abbrev as_number : Option String → ℕ
as_number none = parse_uint ""
as_number (some s) = parse_uint s

empty_zero : parse_uint "" ≡ 0
unfolding parse_uint
empty_zero = refl

read_back : (ns : List ℕ) → highest ns < 2 ^ 64 → as_number (max_text ns) ≡ highest ns
read_back [] small = empty_zero
read_back (n ∷ ns) small = parse_uint-format_uint (highest (n ∷ ns)) (omega (arith, small))

query_number-one_value :
    (db : Database) (sql column : String) (v : Option String)
    → db.query sql [] ≡ ok (one_value column v)
    → query_number db sql ≡ some (as_number v)
unfolding query_number query_value scan_value
query_number-one_value db sql column v answered = elim (Option-cases v) [
  | inl null ↦ rw (answered, null, query_number) refl
  | inr (s, found) ↦ rw (answered, found, query_number) refl
]

module _ {B : Type 0} (database : List (Statement B) → Database) where
  -- GetBlockHeight gives the highest block that is stored, 0 without one.
  pub get_block_height-highest :
      (l : List (Statement B))
      → IsExplorer database
      → highest (numbers l) < 2 ^ 64
      → get_block_height (database l) ≡ some (highest (numbers l))
  unfolding get_block_height
  get_block_height-highest l explorer small =
      query_number-one_value (database l) "select max(number) as height from block;" "height"
        (max_text (numbers l)) (explorer.height l)
      ∙ ap some (read_back (numbers l) small)

  -- TxNumber gives a number.
  pub tx_number_total :
      (l : List (Statement B)) → IsExplorer database → (c : ℕ) × (tx_number (database l) ≡ some c)
  unfolding tx_number
  tx_number_total l explorer =
      let (v, answered) = explorer.total l in
      (
        as_number v,
        query_number-one_value (database l) "select sum(tx_count) as tx from block;" "tx" v
            answered,
      )

-- A call that has come to its end goes on, also after an early return.
abbrev pub returned : Flow (Unit {0}) (Unit {0}) → Flow (Unit {0}) (Unit {0})
returned (go x) = go x
returned (stop x) = go x
returned crash = crash

module _ (w : Wire) (sdk : Sdk w) (proto : Proto w.Bytes) (orgs : Orgs w sdk) (per_block : ℕ)
    (database : List (Statement w.Bytes) → Database) where
  -- updateBlock for each of the blocks that are handed over.
  unfoldable pub handle_all : List (Block w.Bytes) → Body (World w.Bytes) (Unit {0}) (Unit {0})
  unfolding update_block
  handle_all [] u = (go tt, u)
  handle_all (b ∷ bs) u =
      let (r, u') =
        update_block w sdk proto orgs per_block true (λ l. tx_number (database l)) b u in
      go_on (returned r) (λ _. handle_all bs) u'
