-- ===== src/Server/State.antt =====
-- The package variables of server/*.go: the transactions that wait for their block (TxList), the
-- table of statistics, and the channels of the connected web sockets. A channel stands by the
-- identifier that it is stored under; what is sent to a channel is appended to `sent` with that
-- identifier. A send waits for its receiver in Go; here it has been received.
use fabric_byzantine.Base.{ℕ, String, List, [], ◌++◌, map}
use fabric_byzantine.Dict.{Dict}
use fabric_byzantine.Server.Statistics.{Table, empty_table}

pub record PeerTx : Type 0 where
  pub peer_name : String
  pub peer_type : ℕ

pub record TransactionInfo : Type 0 where
  pub status : ℕ
  pub tx_id : String
  pub date_time : ℕ
  pub peer : String
  pub tx_type : ℕ

-- The two balances are the bytes that the queries gave, as texts.
pub record BlockInfo : Type 0 where
  pub number : ℕ
  pub tx_count : ℕ
  pub block_hash : String
  pub date_time : ℕ
  pub alice : String
  pub bob : String
  pub block_type : ℕ

pub data Message : Type 0 where
  transaction : TransactionInfo → Message
  block : BlockInfo → Message
  number : ℕ → Message

pub record State : Type 0 where
  pub tx_list : Dict PeerTx
  pub table : Table
  pub block_chans : List String
  pub block_number_chans : List String
  pub tx_chans : List String
  pub tx_number_chans : List String
  pub sent : List (String × Message)

-- `chans.Range(func…)` that sends one message to every channel.
unfoldable pub broadcast : List String → Message → State → State
broadcast chans m s = record s { sent = s.sent ++ map (λ uid. (uid, m)) chans }

abbrev pub initial : State
initial = record {
  tx_list = [];
  table = empty_table;
  block_chans = [];
  block_number_chans = [];
  tx_chans = [];
  tx_number_chans = [];
  sent = [];
}
