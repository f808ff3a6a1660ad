-- ===== src/Server/Journey/Tests.antt =====
-- The theorem about goroutines on TxList (server/fabsdk.go, server/block_listener.go) at two calls
-- and two blocks.
use fabric_byzantine.Base.{
  ℕ, ◌≤◌, ◌≡◌, refl, subst, inl, inr, Bool-cases, str_eq, String, true, List, [], ◌∷◌, some, arith,
  eq_iff, get_elem?,
}
use fabric_byzantine.Dict.{Dict}
use fabric_byzantine.Server.State.{PeerTx}
use fabric_byzantine.Server.Listener.Rows.{Tx, row}
use fabric_byzantine.Server.Journey.Races.{
  Batch, handled, all_executed, run, turn, next, empty, all_ready,
}
use fabric_byzantine.Server.Journey.Races.Settled.{blocks_of, rows_own}

abbrev first_peer : PeerTx
first_peer = record { peer_name = "peer0.org1.example.com"; peer_type = 0 }

abbrev second_peer : PeerTx
second_peer = record { peer_name = "peer0.org2.example.com"; peer_type = 7 }

abbrev tx : String → Tx
tx k = record { header = record { tx_id = k; time = 5 }; code = 0 }

abbrev calls : Dict PeerTx
calls = ("aa", first_peer) ∷ ("bb", second_peer) ∷ []

abbrev first_block : Batch
first_block = record { number = 3; txs = tx "bb" ∷ [] }

abbrev second_block : Batch
second_block = record { number = 4; txs = tx "aa" ∷ [] }

-- The calls overlap, and so do the blocks after them.
abbrev before : List ℕ
before = 0 ∷ 1 ∷ 1 ∷ 2 ∷ 2 ∷ 0 ∷ []

abbrev after : List ℕ
after = 3 ∷ 2 ∷ 3 ∷ 3 ∷ 2 ∷ 2 ∷ 2 ∷ 3 ∷ []

blocks_apart : (k : String) → blocks_of k (first_block ∷ second_block ∷ []) ≤ 1
blocks_apart k = elim (Bool-cases (str_eq "aa" k)) [
  | inl same ↦
      subst (λ j. blocks_of j (first_block ∷ second_block ∷ []) ≤ 1) ((eq_iff "aa" k).0 same)
        (omega arith)
  | inr other ↦ ground (arith, other)
]

before-all_executed :
    all_executed
      (run {B = String} 10 before empty
        (all_ready calls (first_block ∷ second_block ∷ []))).0.executed
      (tx "aa" ∷ [])
    ≡ true
unfolding run turn next
before-all_executed = refl

rows_own_example :
    let (m, ps) =
      run {B = String} 10 before empty (all_ready calls (first_block ∷ second_block ∷ [])) in
    get_elem? (run 10 after m ps).1 3
    ≡ some (handled first_peer (row 10 4 0 (tx "aa") first_peer ∷ []))
rows_own_example =
    rows_own 10 calls (first_block ∷ second_block ∷ []) before after 1 second_block
      (refl, (refl, tt)) blocks_apart refl before-all_executed (omega arith)
