-- ===== src/Server/Listener/Tests.antt =====
-- The theorems about the block listener at concrete inputs: block 3 with one transaction.
use fabric_byzantine.Base.{
  ℕ, map, ◌≡◌, ◌≢◌, refl, true, List, [], ◌∷◌, ◌++◌, Option, none, some, ap, ◌∙◌, eq_iff, arith,
}
use fabric_byzantine.Flow.{go, Outcome, ok}
use fabric_byzantine.Testbed.{Doc, plain, plain_text, documents}
use fabric_byzantine.Server.State.{State, PeerTx, initial}
use fabric_byzantine.Server.Gateway.{Failure, known_peers, submit}
use fabric_byzantine.Server.Targets.Quorum.{byzantine_count}
use fabric_byzantine.Server.Journey.{PeersAsked}
use fabric_byzantine.Server.Journey.Later.{
  Event, call, handle, serve_all, AllApart, submitted_stored_later,
}
use fabric_byzantine.Dict.{erase}
use fabric_byzantine.Server.Tests.{
  network-IsNetwork, unok, transfer_request, orgs, network, orgs-AllStaffed,
}
use fabric_byzantine.Server.Listener.{
  ChannelHeader, Proto, Block, World, update_block, filter_at, block_flag,
}
use fabric_byzantine.Server.Listener.Rows.{row, Tx, rows, AllRead, erase_all, row_index_injective}
use fabric_byzantine.Server.Listener.Ends.{block_row}
use fabric_byzantine.Server.Listener.Total.{update_block_stores}
use fabric_byzantine.Server.Listener.Resolved.{update_block_resolves}
use fabric_byzantine.Server.Listener.Ends.{block_news}
use fabric_byzantine.Server.Listener.Told.{all_news}
use fabric_byzantine.Server.Listener.Tells.{update_block_tells}
use fabric_byzantine.Server.Listener.Sync.{chain_from}
use fabric_byzantine.Server.Listener.Start.{
  Ledger, delivered, block_listener, block_listener_gapless,
}

row_index_injective_example : (◌≡◌ {A = ℕ} 1 1) × (◌≡◌ {A = ℕ} 2 2)
row_index_injective_example =
    row_index_injective 10 1 1 2 2 (omega arith) (omega arith) (omega arith) (omega arith) refl

abbrev header : ChannelHeader
header = record { tx_id = "t1"; time = 9 }

abbrev pub proto : Proto Doc
proto = record {
  get_envelope = λ b. ok b;
  unmarshal_payload = λ b. ok (some b);
  unmarshal_channel_header = λ b. header;
  hex = λ b. "00";
  zero_time = 0;
}

abbrev pub block : ℕ → Block Doc
block n = record {
  number = n;
  data_hash = plain "hash";
  envelopes = plain "envelope" ∷ [];
  filter = some (0 ∷ []);
}

abbrev waiting : PeerTx
waiting = record { peer_name = "peer0.org9.example.com"; peer_type = 2 }

abbrev world : World Doc
world = record { memory = record initial { tx_list = ("t1", waiting) ∷ [] }; statements = [] }

abbrev txs : List (Tx × PeerTx)
txs = (record { header = header; code = 0 }, waiting) ∷ []

three_ne : (block 3).number ≢ 0
three_ne e = omega (arith, e)

read_three : AllRead proto (block 3) 0 (block 3).envelopes txs
unfolding filter_at
read_three = ((plain "envelope", plain "envelope", refl, refl, refl, refl), tt)

update_block_stores_example :
    let (r, u') = update_block documents network proto orgs 10 true (λ l. some 1) (block 3) world in
    (time flag : ℕ) × (alice bob : Option Doc) × ((r ≡ go tt)
      × (u'.statements
          ≡ [] ++ (rows 10 3 0 txs ++ block_row network proto (block 3) time alice bob flag ∷ []))
      × (u'.memory.tx_list ≡ erase_all txs world.memory.tx_list))
update_block_stores_example =
    update_block_stores network proto orgs 10 (λ l. some 1) (block 3) txs world three_ne
      orgs-AllStaffed (omega arith) (λ l. (1, refl)) read_three (refl, tt)

read_one :
    (p : PeerTx)
    → AllRead proto (block 3) 0 (block 3).envelopes ((record { header = header; code = 0 }, p) ∷ [])
unfolding filter_at
read_one p = ((plain "envelope", plain "envelope", refl, refl, refl, refl), tt)

abbrev submitted : State
submitted =
    (submit documents network orgs tt (plain "creator") (plain "nonce") "t1"
      "peer0.org2.example.com" 1 7 transfer_request initial).1

-- Another transaction is called, and a block without transactions comes.
abbrev between : List (Event network)
between =
    call 8 (ok (plain "t2")) "peer0.org2.example.com" 1 1 "mychannel1" "token" "transfer"
      (plain "fab" ∷ [])
    ∷ handle true (λ l. some 1)
        (record { number = 2; data_hash = plain "hash"; envelopes = []; filter = none })
    ∷ []

t2_ne : (d : Doc) → plain "t2" ≡ d → plain_text d ≢ "t1"
t2_ne d e h =
    let equal : "t2" ≡ "t1" = ap plain_text e ∙ h in
    absurd (ground (arith, equal, eq_iff "t2" "t1"))

between-AllApart : AllApart network orgs proto 10 "t1" between
between-AllApart = (
  (omega arith, λ creator nonce digest drawn hashed. t2_ne digest (unok drawn ∙ unok hashed)),
  (tt, tt),
)

submitted_stored_later_example :
    let u =
      serve_all network orgs proto 10 between (record { memory = submitted; statements = [] }) in
    let (r, u') = update_block documents network proto orgs 10 true (λ l. some 1) (block 3) u in
    (result : Outcome (Failure network.Fault) Doc) × (time flag : ℕ) × (alice bob : Option Doc)
    × (PeersAsked network orgs initial result
        × (r ≡ go tt)
        × (u'.statements
            ≡ u.statements
              ++ row 10 3 0
                  (record { header = header; code = 0 })
                  (record {
                    peer_name = "peer0.org2.example.com";
                    peer_type = byzantine_count (known_peers documents network result);
                  })
                ∷ block_row network proto (block 3) time alice bob flag
                ∷ [])
        × (u'.memory.tx_list ≡ erase "t1" u.memory.tx_list))
submitted_stored_later_example =
    submitted_stored_later network orgs proto 10 tt (plain "creator") (plain "nonce")
      "peer0.org2.example.com" 1 7 transfer_request initial (λ l. some 1) (block 3)
      (record { header = header; code = 0 }) [] between network-IsNetwork between-AllApart three_ne
      (λ l. (1, refl)) (λ p. read_one p)

abbrev ledger_blocks : Ledger Doc
ledger_blocks = record { info = ok 6; block = λ n. ok (block n) }

block_listener_gapless_example :
    block_listener orgs
      (ok (ok (delivered (block 5) ∷ map (λ b. delivered b) (chain_from block 6 2))))
      (ok ledger_blocks)
      (some 3)
      []
    ≡ (go tt, block 3 ∷ chain_from block 4 4)
block_listener_gapless_example =
    block_listener_gapless orgs ledger_blocks block 3 6 2 orgs-AllStaffed (omega arith)
      (omega arith) (omega arith) refl (λ n. refl)

-- Two web sockets watch transactions, and one watches blocks.
abbrev watched : World Doc
watched = record world {
  memory = record world.memory { tx_chans = "s1" ∷ "s2" ∷ []; block_chans = "s3" ∷ [] };
}

update_block_tells_example :
    let (r, u') =
      update_block documents network proto orgs 10 true (λ l. some 1) (block 3) watched in
    (count time flag : ℕ) × (alice bob : Option Doc) × ((r ≡ go tt)
      × (u'.statements
          ≡ [] ++ (rows 10 3 0 txs ++ block_row network proto (block 3) time alice bob flag ∷ []))
      × (u'.memory.sent
          ≡ []
            ++ (all_news ("s1" ∷ "s2" ∷ []) txs
                ++ block_news network proto watched.memory (block 3) count time alice bob flag))
      × (some 1 ≡ some count))
update_block_tells_example =
    update_block_tells network proto orgs 10 (λ l. some 1) (block 3) txs watched three_ne
      orgs-AllStaffed (omega arith) (λ l. (1, refl)) read_three (refl, tt)

-- The transaction stands in the block twice, and its sender waits for the first one only.
abbrev twice : Block Doc
twice = record {
  number = 3;
  data_hash = plain "hash";
  envelopes = plain "envelope" ∷ plain "envelope" ∷ [];
  filter = some (0 ∷ 0 ∷ []);
}

abbrev tx_read : Tx
tx_read = record { header = header; code = 0 }

read_twice : AllRead proto twice 0 twice.envelopes ((tx_read, waiting) ∷ (tx_read, waiting) ∷ [])
unfolding filter_at
read_twice = (
  (plain "envelope", plain "envelope", refl, refl, refl, refl),
  ((plain "envelope", plain "envelope", refl, refl, refl, refl), tt),
)

update_block_resolves_example :
    let (r, u') = update_block documents network proto orgs 10 true (λ l. some 1) twice world in
    (time : ℕ) × (alice bob : Option Doc) × ((r ≡ go tt)
      × (u'.statements
          ≡ []
            ++ (rows 10 3 0 ((tx_read, waiting) ∷ (tx_read, waiting) ∷ [])
                ++ block_row network proto twice time alice bob 0 ∷ []))
      × (u'.memory.tx_list ≡ []))
unfolding block_flag
update_block_resolves_example =
    update_block_resolves network proto orgs 10 (λ l. some 1) twice (tx_read ∷ tx_read ∷ []) world
      three_ne orgs-AllStaffed (omega arith) (λ l. (1, refl)) read_twice
