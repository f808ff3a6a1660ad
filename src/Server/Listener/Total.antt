-- ===== src/Server/Listener/Total.antt =====
-- updateBlock of server/block_listener.go as a whole.
use fabric_byzantine.Base.{
  ℕ, ◌<◌, ◌≡◌, ◌≢◌, ap, ◌∙◌, append_assoc, true, List, [], ◌∷◌, ◌++◌, Option, some, length,
}
use fabric_byzantine.Json.{Wire}
use fabric_byzantine.Flow.{go}
use fabric_byzantine.Server.Targets.Totality.{AllStaffed}
use fabric_byzantine.Server.Gateway.{Sdk, Orgs}
use fabric_byzantine.Server.Listener.{
  Proto, Block, Statement, World, Vars, block_flag, update_block,
}
use fabric_byzantine.Server.Listener.Ends.{first_sender, block_row, update_block-IsEnded}
use fabric_byzantine.Server.Listener.Rows.{Tx, rows, AllRead, AllWaiting, erase_all, each_tx_rows}
use fabric_byzantine.Server.State.{PeerTx}

module _ {w : Wire} (sdk : Sdk w) where
  -- A block other than block 0, whose transactions can all be read and have their senders in the
  -- list of those that wait, while the database begins a transaction, TxNumber does not panic, and
  -- there is an organisation and each has a peer:
  -- updateBlock returns, one row for each transaction is stored in order and after them one for
  -- the block, and the senders are taken out of the list.
  pub update_block_stores :
      (proto : Proto w.Bytes) (orgs : Orgs w sdk) (per_block : ℕ)
      (tx_number : List (Statement w.Bytes) → Option ℕ) (b : Block w.Bytes)
      (ts : List (Tx × PeerTx)) (u : World w.Bytes)
      → b.number ≢ 0
      → AllStaffed orgs
      → 0 < length orgs
      → ((l : List (Statement w.Bytes)) → (c : ℕ) × (tx_number l ≡ some c))
      → AllRead proto b 0 b.envelopes ts
      → AllWaiting u.memory.tx_list ts
      → let (r, u') = update_block w sdk proto orgs per_block true tx_number b u in
        (time flag : ℕ) × (alice bob : Option w.Bytes) × ((r ≡ go tt)
          × (u'.statements
              ≡ u.statements
                ++ (rows per_block b.number 0 ts ++ block_row sdk proto b time alice bob flag ∷ []))
          × (u'.memory.tx_list ≡ erase_all ts u.memory.tx_list))
  update_block_stores proto orgs per_block tx_number b ts u ne staffed some_org counted read
        waiting =
      let start : Vars = record { peer = first_sender; tx_time = proto.zero_time } in
      let (v, u₁, run, stored, erased) =
        each_tx_rows proto b per_block 0 b.envelopes ts start u read waiting in
      let end =
        update_block-IsEnded sdk proto orgs per_block tx_number b v u u₁ ne staffed some_org counted
          run in
      let last = block_row sdk proto b v.tx_time end.alice end.bob (block_flag v.peer.peer_type) in
      (
        v.tx_time,
        block_flag v.peer.peer_type,
        end.alice,
        end.bob,
        (
          end.done,
          end.stored
              ∙ ap (λ l. l ++ last ∷ []) stored
              ∙ append_assoc u.statements (rows per_block b.number 0 ts) (last ∷ []),
          end.left ∙ erased,
        ),
      )
