-- ===== src/Server/Journey/Races.antt =====
-- TxList between goroutines that run at the same time: calls of InvokeCC (server/fabsdk.go), which
-- store a sender before they execute the transaction, and calls of updateBlock
-- (server/block_listener.go), which load and delete it. Each access of the list is a step of its
-- own, and a schedule names the goroutine that makes the next step. What a goroutine does without
-- the list falls to the step before: the row of a transaction is issued with the last access for
-- it. The transactions of a block are those that can be read. The network is a parameter in this: a
-- block arrives only when each of its transactions has been executed, and a transaction that is
-- executed need not come into a block.
pub mod Kept
pub mod Own
pub mod Settled
pub mod Stages
pub mod Steps
pub mod Turns
use fabric_byzantine.Base.{
  ℕ, zero, suc, ◌+◌, String, Bool, true, false, ◌&&◌, List, [], ◌∷◌, ◌++◌, map, Option, none, some,
  str_eq, if◌then◌else◌,
}
use fabric_byzantine.Dict.{Dict, lookup, insert, erase}
use fabric_byzantine.Server.State.{PeerTx}
use fabric_byzantine.Server.Listener.{Statement, insert_tx, status, tx_flag, row_index}
use fabric_byzantine.Server.Listener.Rows.{Tx}
use fabric_byzantine.Server.Listener.Ends.{first_sender}

-- TxList, and the identifiers of the transactions that the network has executed.
pub record Memory : Type 0 where
  pub tx_list : Dict PeerTx
  pub executed : List String

-- A block: its number and its transactions.
pub record Batch : Type 0 where
  pub number : ℕ
  pub txs : List Tx

-- Where a goroutine is: InvokeCC before it stores the sender, before it executes the transaction,
-- and at its end; updateBlock before its block has arrived, before it loads the sender of the
-- transaction at a position, before it deletes the sender that it has loaded, and at the end of the
-- loop. It keeps peerName and peerType, the transactions that are left and the rows that it issued.
pub data Place (B : Type 0) : Type 0 where
  calling : String → PeerTx → Place B
  stored : String → Place B
  called : Place B
  arriving : Batch → Place B
  handling : ℕ → ℕ → PeerTx → List Tx → List (Statement B) → Place B
  loaded : ℕ → ℕ → PeerTx → Tx → List Tx → List (Statement B) → Place B
  handled : PeerTx → List (Statement B) → Place B

abbrev pub member : String → List String → Bool
member k [] = false
member k (j ∷ ks) = if str_eq j k then true else member k ks

-- Whether the network has executed all of a block's transactions.
abbrev pub all_executed : List String → List Tx → Bool
all_executed done [] = true
all_executed done (t ∷ ts) = member t.header.tx_id done && all_executed done ts

-- The row that is issued for the transaction at position `i` of a block.
unfoldable pub issued_row : {B : Type 0} → ℕ → ℕ → ℕ → Tx → PeerTx → Statement B
unfolding status tx_flag row_index
issued_row per_block n i t p =
    insert_tx (row_index per_block n i) n t.header.tx_id p.peer_name (tx_flag p.peer_type)
      (status p.peer_type t.code) t.header.time

module _ {B : Type 0} (per_block : ℕ) where
  -- One step of a goroutine.
  unfoldable pub next : Memory → Place B → Memory × Place B
  unfolding issued_row
  next m (calling k p) = (record m { tx_list = insert k p m.tx_list }, stored k)
  next m (stored k) = (record m { executed = k ∷ m.executed }, called)
  next m called = (m, called)
  next m (arriving b) = elim (all_executed m.executed b.txs) [
    | false ↦ (m, arriving b)
    | true ↦ (m, handling b.number 0 first_sender b.txs [])
  ]
  next m (handling n i old [] issued) = (m, handled old issued)
  next m (handling n i old (t ∷ ts) issued) = elim (lookup t.header.tx_id m.tx_list) [
    | none ↦ (m, handling n (1 + i) old ts (issued ++ issued_row per_block n i t old ∷ []))
    | some p ↦ (m, loaded n i p t ts issued)
  ]
  next m (loaded n i p t ts issued) = (
    record m { tx_list = erase t.header.tx_id m.tx_list },
    handling n (1 + i) p ts (issued ++ issued_row per_block n i t p ∷ []),
  )
  next m (handled p issued) = (m, handled p issued)

  -- A step of the goroutine at a position.
  unfoldable pub turn : ℕ → Memory → List (Place B) → Memory × List (Place B)
  unfolding next
  turn j m [] = (m, [])
  turn zero m (p ∷ ps) = let (m', p') = next m p in (m', p' ∷ ps)
  turn (suc j) m (p ∷ ps) = let (m', ps') = turn j m ps in (m', p ∷ ps')

  unfoldable pub run : List ℕ → Memory → List (Place B) → Memory × List (Place B)
  unfolding turn
  run [] m ps = (m, ps)
  run (j ∷ schedule) m ps = let (m', ps') = turn j m ps in run schedule m' ps'

-- Nothing waits, and nothing is executed.
abbrev pub empty : Memory
empty = record { tx_list = []; executed = [] }

-- A goroutine for each call, then one for each block.
abbrev pub all_ready : {B : Type 0} → Dict PeerTx → List Batch → List (Place B)
all_ready [] blocks = map arriving blocks
all_ready ((k, p) ∷ calls) blocks = calling k p ∷ all_ready calls blocks
