-- ===== src/Server/Listener/Ends.antt =====
-- The end of updateBlock (server/block_listener.go), after the loop over the transactions.
use fabric_byzantine.Base.{
  ℕ, ◌<◌, ◌≡◌, ◌≢◌, ◌⊎◌, inl, inr, refl, ap, sym, ◌∙◌, append_assoc, String, true, false, List, [],
  ◌∷◌, ◌++◌, map, Option, none, some, arith, ◌==◌, length,
}
use fabric_byzantine.Json.{Wire}
use fabric_byzantine.Flow.{Flow, go, stop, crash, Outcome}
use fabric_byzantine.Server.Targets.Totality.{AllStaffed}
use fabric_byzantine.Server.State.{State, PeerTx, BlockInfo, Message, block, number, broadcast}
use fabric_byzantine.Server.Gateway.{Sdk, Failure, Orgs}
use fabric_byzantine.Server.Gateway.Total.{query_cc_calm}
use fabric_byzantine.Server.Listener.{
  Proto, Block, Statement, insert_block, World, Vars, block_flag, answer, text_of, balance_of,
  announce_total, announce, each_tx, update_block,
}

-- peerName and peerType at the start of updateBlock.
abbrev pub first_sender : PeerTx
first_sender = record { peer_name = "peer0.org1.example.com"; peer_type = 0 }

nat_ne : (n : ℕ) → n ≢ 0 → (n == 0) ≡ false
nat_ne n h = ground arith

abbrev pub to_all : List String → Message → List (String × Message)
to_all chans m = map (λ uid. (uid, m)) chans

list_cases : (l : List String) → (l ≡ []) ⊎ ((x : String) × (xs : List String) × (l ≡ x ∷ xs))
list_cases [] = inl refl
list_cases (x ∷ xs) = inr (x, xs, refl)

-- The bytes that a query gave, none after an error.
abbrev pub given : {R E B : Type 0} → Flow R (Outcome E B) → Option B
given (go r) = answer r
given (stop _) = none
given crash = none

module _ {w : Wire} (sdk : Sdk w) where
  -- What the query for a user's balance gives in a state.
  abbrev pub balance_given : Orgs w sdk → String → World w.Bytes → Option w.Bytes
  balance_given orgs user u = given (balance_of w sdk orgs user u).0

  balance_of_calm :
      (orgs : Orgs w sdk) (user : String) (u : World w.Bytes)
      → AllStaffed orgs
      → 0 < length orgs
      → (result : Outcome (Failure sdk.Fault) w.Bytes) × (balance_of w sdk orgs user u
          ≡ (go result, u))
  unfolding balance_of
  balance_of_calm orgs user u staffed some_org =
      let (result, asked, _) =
        query_cc_calm sdk {R = Unit {0}} orgs 0 "mychannel1" "token" "balance"
          (w.of_string "fab" ∷ w.of_string user ∷ []) u.memory staffed some_org in
      (result, rw asked refl)

  announce_calm :
      (tx_number : Option ℕ) (n : ℕ) (info : BlockInfo) (u : World w.Bytes)
      → (c : ℕ) × (tx_number ≡ some c)
      → let (r, u') = announce w sdk tx_number n info u in
        (r ≡ go tt) × (u'.statements ≡ u.statements) × (u'.memory.tx_list ≡ u.memory.tx_list)
  unfolding announce announce_total broadcast
  announce_calm tx_number n info u (c, known) = ground (arith, known)

  -- The announcement keeps the list of those that wait, also if TxNumber panics.
  pub announce_kept :
      (tx_number : Option ℕ) (n : ℕ) (info : BlockInfo) (u : World w.Bytes)
      → (announce w sdk tx_number n info u).1.memory.tx_list ≡ u.memory.tx_list
  unfolding announce announce_total broadcast
  announce_kept tx_number n info u = ground arith

  -- The row of a block, for what the queries for the two balances gave.
  abbrev pub block_row :
      Proto w.Bytes → Block w.Bytes → ℕ → Option w.Bytes → Option w.Bytes → ℕ → Statement w.Bytes
  block_row proto b time alice bob flag =
      insert_block b.number (proto.hex b.data_hash) (length b.envelopes) time alice bob flag

  -- What is told of a stored block: its number, the number of transactions, and the block.
  abbrev pub block_news :
      Proto w.Bytes
      → State
      → Block w.Bytes
      → ℕ
      → ℕ
      → Option w.Bytes
      → Option w.Bytes
      → ℕ
      → List (String × Message)
  block_news proto st b count time alice bob flag =
      to_all st.block_number_chans (number b.number)
      ++ (to_all st.tx_number_chans (number count)
          ++ to_all st.block_chans (
              block (record {
                number = b.number;
                tx_count = length b.envelopes;
                block_hash = proto.hex b.data_hash;
                date_time = time;
                alice = text_of w sdk alice;
                bob = text_of w sdk bob;
                block_type = flag;
              })))

  announce_news :
      (n c : ℕ) (info : BlockInfo) (u : World w.Bytes)
      → let u' = (announce w sdk (some c) n info u).1 in
        u'.memory.sent
        ≡ u.memory.sent
          ++ (to_all u.memory.block_number_chans (number n)
              ++ (to_all u.memory.tx_number_chans (number c)
                  ++ to_all u.memory.block_chans (block info)))
  unfolding announce announce_total broadcast
  announce_news n c info u =
      let first = to_all u.memory.block_number_chans (number n) in
      let last = to_all u.memory.block_chans (block info) in
      elim (list_cases u.memory.tx_number_chans) [
        | inl no_one ↦ rw (no_one, announce_total) (append_assoc u.memory.sent first last)
        | inr (uid, uids, some_one) ↦
            rw (some_one, announce_total)
              (append_assoc (u.memory.sent ++ first) (to_all u.memory.tx_number_chans (number c))
                  last
                ∙ append_assoc u.memory.sent first
                    (to_all u.memory.tx_number_chans (number c) ++ last)
                ∙ ap (λ l. u.memory.sent ++ (first ++ (to_all l (number c) ++ last))) some_one)
      ]

  -- What is sent to the sockets that watch blocks.
  abbrev pub info_of :
      Proto w.Bytes → Block w.Bytes → ℕ → Option w.Bytes → Option w.Bytes → ℕ → BlockInfo
  info_of proto b time alice bob flag = record {
    number = b.number;
    tx_count = length b.envelopes;
    block_hash = proto.hex b.data_hash;
    date_time = time;
    alice = text_of w sdk alice;
    bob = text_of w sdk bob;
    block_type = flag;
  }

  abbrev pub with_row : Statement w.Bytes → World w.Bytes → World w.Bytes
  with_row s u = record u { statements = u.statements ++ s ∷ [] }

  -- After the loop has come to its end, updateBlock stores the row of the block and announces it.
  pub update_block_announces :
      (proto : Proto w.Bytes) (orgs : Orgs w sdk) (per_block : ℕ)
      (tx_number : List (Statement w.Bytes) → Option ℕ) (b : Block w.Bytes) (v : Vars)
      (u u₁ : World w.Bytes)
      → (b.number == 0) ≡ false
      → AllStaffed orgs
      → 0 < length orgs
      → each_tx proto per_block b 0 b.envelopes
          (record { peer = first_sender; tx_time = proto.zero_time })
          u
        ≡ (go v, u₁)
      → (alice bob : Option w.Bytes) × (let flag = block_flag v.peer.peer_type in
          let u₂ = with_row (block_row proto b v.tx_time alice bob flag) u₁ in
          update_block w sdk proto orgs per_block true tx_number b u
          ≡ announce w sdk
              (tx_number u₂.statements)
              b.number
              (info_of proto b v.tx_time alice bob flag)
              u₂)
        × (alice ≡ balance_given orgs "alice" u₁)
        × (bob ≡ balance_given orgs "bob" u₁)
  unfolding update_block
  update_block_announces proto orgs per_block tx_number b v u u₁ later staffed some_org run =
      let (alice, asked_alice) = balance_of_calm orgs "alice" u₁ staffed some_org in
      let (bob, asked_bob) = balance_of_calm orgs "bob" u₁ staffed some_org in
      (
        answer alice,
        answer bob,
        rw (later, run, asked_alice, asked_bob, update_block) refl,
        sym (ap (λ p. given p.0) asked_alice),
        sym (ap (λ p. given p.0) asked_bob),
      )

  -- What updateBlock leaves, if `v` and `u₁` are what the loop left.
  pub record IsEnded (proto : Proto w.Bytes) (orgs : Orgs w sdk)
      (tx_number : List (Statement w.Bytes) → Option ℕ) (b : Block w.Bytes) (v : Vars)
      (u₁ : World w.Bytes) (r : Flow (Unit {0}) (Unit {0})) (u' : World w.Bytes) : Type 0 where
    pub alice : Option w.Bytes
    pub bob : Option w.Bytes
    pub alice_given : alice ≡ balance_given orgs "alice" u₁
    pub bob_given : bob ≡ balance_given orgs "bob" u₁
    pub count : ℕ
    pub done : r ≡ go tt
    pub stored :
        u'.statements
        ≡ u₁.statements ++ block_row proto b v.tx_time alice bob (block_flag v.peer.peer_type) ∷ []
    pub left : u'.memory.tx_list ≡ u₁.memory.tx_list
    pub counted : tx_number u'.statements ≡ some count
    pub told :
        u'.memory.sent
        ≡ u₁.memory.sent
          ++ block_news proto u₁.memory b count v.tx_time alice bob (block_flag v.peer.peer_type)

  pub update_block-IsEnded :
      (proto : Proto w.Bytes) (orgs : Orgs w sdk) (per_block : ℕ)
      (tx_number : List (Statement w.Bytes) → Option ℕ) (b : Block w.Bytes) (v : Vars)
      (u u₁ : World w.Bytes)
      → b.number ≢ 0
      → AllStaffed orgs
      → 0 < length orgs
      → ((l : List (Statement w.Bytes)) → (c : ℕ) × (tx_number l ≡ some c))
      → each_tx proto per_block b 0 b.envelopes
          (record { peer = first_sender; tx_time = proto.zero_time })
          u
        ≡ (go v, u₁)
      → let (r, u') = update_block w sdk proto orgs per_block true tx_number b u in
        IsEnded proto orgs tx_number b v u₁ r u'
  update_block-IsEnded proto orgs per_block tx_number b v u u₁ ne staffed some_org counted run =
      let (alice, bob, ends, alice_given, bob_given) =
        update_block_announces proto orgs per_block tx_number b v u u₁ (nat_ne b.number ne) staffed
          some_org run in
      let flag = block_flag v.peer.peer_type in
      let u₂ = with_row (block_row proto b v.tx_time alice bob flag) u₁ in
      let info = info_of proto b v.tx_time alice bob flag in
      let (c, known) = counted u₂.statements in
      let (done, kept, same) =
        announce_calm (tx_number u₂.statements) b.number info u₂ (c, known) in
      rw ends (record {
        alice = alice;
        bob = bob;
        alice_given = alice_given;
        bob_given = bob_given;
        count = c;
        done = done;
        stored = kept;
        left = same;
        counted = ap tx_number kept ∙ known;
        told =
            ap (λ t. (announce w sdk t b.number info u₂).1.memory.sent) known
            ∙ announce_news b.number c info u₂;
      })
