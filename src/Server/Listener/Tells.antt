-- ===== src/Server/Listener/Tells.antt =====
-- updateBlock of server/block_listener.go and the web sockets, as a whole.
use fabric_byzantine.Base.{
  ℕ, ◌<◌, ◌≡◌, ◌≢◌, ap, ◌∙◌, append_assoc, true, List, [], ◌∷◌, ◌++◌, Option, some, length,
}
use fabric_byzantine.Json.{Wire}
use fabric_byzantine.Flow.{go}
use fabric_byzantine.Server.Targets.Totality.{AllStaffed}
use fabric_byzantine.Server.State.{PeerTx}
use fabric_byzantine.Server.Gateway.{Sdk, Orgs}
use fabric_byzantine.Server.Listener.{
  Proto, Block, Statement, World, Vars, block_flag, update_block,
}
use fabric_byzantine.Server.Listener.Rows.{Tx, rows, AllRead, AllWaiting, each_tx_rows}
use fabric_byzantine.Server.Listener.Ends.{
  first_sender, block_row, block_news, update_block-IsEnded,
}
use fabric_byzantine.Server.Listener.Told.{all_news, each_tx_news, block_news_same}

module _ {w : Wire} (sdk : Sdk w) where
  -- A block other than block 0, whose transactions can all be read and have their senders in the
  -- list of those that wait, while the database begins a transaction, TxNumber does not panic, and
  -- there is an organisation and each has a peer: updateBlock returns; it tells each web socket
  -- that watches transactions of each transaction, in order and with its own sender, and then each
  -- one that watches block numbers, numbers of transactions or blocks of the block, with the
  -- values of the row that it has stored for the block and TxNumber's answer after that; and it
  -- tells them nothing else.
  pub update_block_tells :
      (proto : Proto w.Bytes) (orgs : Orgs w sdk) (per_block : ℕ)
      (tx_number : List (Statement w.Bytes) → Option ℕ) (b : Block w.Bytes)
      (ts : List (Tx × PeerTx)) (u : World w.Bytes)
      → b.number ≢ 0
      → AllStaffed orgs
      → 0 < length orgs
      → ((l : List (Statement w.Bytes)) → (c : ℕ) × (tx_number l ≡ some c))
      → AllRead proto b 0 b.envelopes ts
      → AllWaiting u.memory.tx_list ts
      → let (r, u') = update_block w sdk proto orgs per_block true tx_number b u in
        (count time flag : ℕ) × (alice bob : Option w.Bytes) × ((r ≡ go tt)
          × (u'.statements
              ≡ u.statements
                ++ (rows per_block b.number 0 ts ++ block_row sdk proto b time alice bob flag ∷ []))
          × (u'.memory.sent
              ≡ u.memory.sent
                ++ (all_news u.memory.tx_chans ts
                    ++ block_news sdk proto u.memory b count time alice bob flag))
          × (tx_number u'.statements ≡ some count))
  update_block_tells proto orgs per_block tx_number b ts u ne staffed some_org counted read
        waiting =
      let start : Vars = record { peer = first_sender; tx_time = proto.zero_time } in
      let (v, u₁, run, stored, erased) =
        each_tx_rows proto b per_block 0 b.envelopes ts start u read waiting in
      let (told, same) =
        rw run at
          (each_tx_news {B = w.Bytes} proto b per_block 0 b.envelopes ts start u read waiting) in
      let end =
        update_block-IsEnded sdk proto orgs per_block tx_number b v u u₁ ne staffed some_org counted
          run in
      let flag = block_flag v.peer.peer_type in
      let last = block_row sdk proto b v.tx_time end.alice end.bob flag in
      let news = all_news u.memory.tx_chans ts in
      let of_block = block_news sdk proto u₁.memory b end.count v.tx_time end.alice end.bob flag in
      (
        end.count,
        v.tx_time,
        flag,
        end.alice,
        end.bob,
        (
          end.done,
          end.stored
              ∙ ap (λ l. l ++ last ∷ []) stored
              ∙ append_assoc u.statements (rows per_block b.number 0 ts) (last ∷ []),
          end.told
              ∙ ap (λ l. l ++ of_block) told
              ∙ append_assoc u.memory.sent news of_block
              ∙ ap (λ l. u.memory.sent ++ (news ++ l))
                  (block_news_same sdk proto b u.memory u₁.memory end.count v.tx_time flag end.alice
                    end.bob same),
          end.counted,
        ),
      )
