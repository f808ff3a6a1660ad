-- ===== src/Server/Listener/Resolved.antt =====
-- Which senders updateBlock (server/block_listener.go) stores for the transactions of a block, whether
-- they have a sender in TxList or not.
use fabric_byzantine.Base.{
  ℕ, ◌+◌, ◌<◌, ◌≡◌, ◌≢◌, refl, ap, sym, append_one, append_none, append_assoc, ◌∙◌, inl, inr,
  Option-cases, String, true, List, [], ◌∷◌, ◌++◌, Option, none, some, length,
}
use fabric_byzantine.Dict.{Dict, lookup, erase, get_or}
use fabric_byzantine.Json.{Wire}
use fabric_byzantine.Flow.{go}
use fabric_byzantine.Server.Targets.Totality.{AllStaffed}
use fabric_byzantine.Server.State.{PeerTx, broadcast}
use fabric_byzantine.Server.Gateway.{Sdk, Orgs}
use fabric_byzantine.Server.Listener.{
  Proto, Block, Statement, World, Vars, load, record_tx, row_index, each_tx, block_flag,
  update_block,
}
use fabric_byzantine.Server.Listener.Rows.{Tx, row, rows, flag_code, AllRead}
use fabric_byzantine.Server.Listener.Ends.{first_sender, block_row, update_block-IsEnded}

-- The senders that wait after a transaction has been handled.
abbrev pub taken : String → Dict PeerTx → Dict PeerTx
taken k d = elim (lookup k d) [ none ↦ d | some _ ↦ erase k d ]

-- The sender of each transaction: its own where it waits, else that of the transaction before, `p`
-- for the first one.
abbrev pub resolved : Dict PeerTx → PeerTx → List Tx → List (Tx × PeerTx)
resolved d p [] = []
resolved d p (t ∷ ts) =
    let q = get_or d t.header.tx_id p in (t, q) ∷ resolved (taken t.header.tx_id d) q ts

abbrev pub rest : Dict PeerTx → List Tx → Dict PeerTx
rest d [] = d
rest d (t ∷ ts) = rest (taken t.header.tx_id d) ts

abbrev pub last_sender : Dict PeerTx → PeerTx → List Tx → PeerTx
last_sender d p [] = p
last_sender d p (t ∷ ts) = last_sender (taken t.header.tx_id d) (get_or d t.header.tx_id p) ts

record_tx-resolved :
    {B : Type 0} (per_block n i : ℕ) (t : Tx) (v : Vars) (u : World B)
    → let q = get_or u.memory.tx_list t.header.tx_id v.peer in
      let (v', u') = record_tx per_block n i t.header t.code v u in
      (u'.statements ≡ u.statements ++ row per_block n i t q ∷ [])
      × (u'.memory.tx_list ≡ taken t.header.tx_id u.memory.tx_list)
      × (v'.peer ≡ q)
unfolding record_tx load row_index broadcast
record_tx-resolved per_block n i t v u =
    elim (Option-cases (lookup t.header.tx_id u.memory.tx_list)) [
      | inr (p, found) ↦
          let (same_flag, same_code) = flag_code p.peer_type t.code in
          rw (found, load, get_or, taken, same_flag, same_code) (refl, refl, refl)
      | inl absent ↦
          let (same_flag, same_code) = flag_code v.peer.peer_type t.code in
          rw (absent, load, get_or, taken, same_flag, same_code) (refl, refl, refl)
    ]

module _ {B : Type 0} (proto : Proto B) (b : Block B) where
  each_tx-resolved :
      (per_block i : ℕ) (es : List B) (ts : List Tx) (v : Vars) (u : World B)
      → AllRead proto b i es (resolved u.memory.tx_list v.peer ts)
      → (v' : Vars) × (u' : World B) × (each_tx proto per_block b i es v u ≡ (go v', u'))
        × (u'.statements
            ≡ u.statements ++ rows per_block b.number i (resolved u.memory.tx_list v.peer ts))
        × (u'.memory.tx_list ≡ rest u.memory.tx_list ts)
        × (v'.peer ≡ last_sender u.memory.tx_list v.peer ts)
  unfolding each_tx
  each_tx-resolved per_block i [] [] v u read =
      (v, u, refl, sym (append_none u.statements), refl, refl)
  each_tx-resolved per_block i [] (t ∷ ts) v u read = absurd read
  each_tx-resolved per_block i (e ∷ es) [] v u read = absurd read
  each_tx-resolved per_block i (e ∷ es) (t ∷ ts) v u
        ((payload, h, opened, parsed, header, code), read) =
      let (stored, gone, peer) = record_tx-resolved per_block b.number i t v u in
      let (v₁, u₁) = record_tx per_block b.number i t.header t.code v u in
      let (v', u', run, after, left, last) =
        each_tx-resolved per_block (1 + i) es ts v₁ u₁ (rw (gone, peer) read) in
      let q = get_or u.memory.tx_list t.header.tx_id v.peer in
      let d = taken t.header.tx_id u.memory.tx_list in
      (
        v',
        u',
        rw (opened, parsed, code, header, each_tx) run,
        after
            ∙ rw (stored, gone, peer)
                (append_one u.statements (rows per_block b.number (1 + i) (resolved d q ts))
                  (row per_block b.number i t q)),
        left ∙ ap (λ l. rest l ts) gone,
        last ∙ rw (gone, peer) refl,
      )

module _ {w : Wire} (sdk : Sdk w) where
  -- A block other than block 0, whose transactions can all be read, while the database begins a
  -- transaction, TxNumber does not panic, and there is an organisation and each has a peer:
  -- updateBlock returns and stores one row for each transaction, in order, and after them one for
  -- the block. The row of a transaction whose sender waits in TxList names that sender, which is
  -- taken out of the list; another one's names the sender of the transaction before it in the
  -- block, and peer0.org1.example.com as a normal peer if there is none before. The flag of the
  -- block's row is that of the last of these senders.
  pub update_block_resolves :
      (proto : Proto w.Bytes) (orgs : Orgs w sdk) (per_block : ℕ)
      (tx_number : List (Statement w.Bytes) → Option ℕ) (b : Block w.Bytes) (ts : List Tx)
      (u : World w.Bytes)
      → b.number ≢ 0
      → AllStaffed orgs
      → 0 < length orgs
      → ((l : List (Statement w.Bytes)) → (c : ℕ) × (tx_number l ≡ some c))
      → AllRead proto b 0 b.envelopes (resolved u.memory.tx_list first_sender ts)
      → let (r, u') = update_block w sdk proto orgs per_block true tx_number b u in
        (time : ℕ) × (alice bob : Option w.Bytes) × ((r ≡ go tt)
          × (u'.statements
              ≡ u.statements
                ++ (rows per_block b.number 0 (resolved u.memory.tx_list first_sender ts)
                    ++ block_row sdk proto b time alice bob
                        (block_flag (last_sender u.memory.tx_list first_sender ts).peer_type)
                      ∷ []))
          × (u'.memory.tx_list ≡ rest u.memory.tx_list ts))
  update_block_resolves proto orgs per_block tx_number b ts u ne staffed some_org counted read =
      let start : Vars = record { peer = first_sender; tx_time = proto.zero_time } in
      let (v, u₁, run, stored, gone, last_one) =
        each_tx-resolved proto b per_block 0 b.envelopes ts start u read in
      let end =
        update_block-IsEnded sdk proto orgs per_block tx_number b v u u₁ ne staffed some_org counted
          run in
      let row_with : PeerTx → Statement w.Bytes =
        λ p. block_row sdk proto b v.tx_time end.alice end.bob (block_flag p.peer_type) in
      let stored_rows = rows per_block b.number 0 (resolved u.memory.tx_list first_sender ts) in
      (
        v.tx_time,
        end.alice,
        end.bob,
        (
          end.done,
          end.stored
              ∙ ap (λ l. l ++ row_with v.peer ∷ []) stored
              ∙ append_assoc u.statements stored_rows (row_with v.peer ∷ [])
              ∙ ap (λ p. u.statements ++ (stored_rows ++ row_with p ∷ [])) last_one,
          end.left ∙ gone,
        ),
      )
