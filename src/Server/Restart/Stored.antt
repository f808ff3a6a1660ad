-- ===== src/Server/Restart/Stored.antt =====
-- Which blocks updateBlock (server/block_listener.go) stores, also of transactions that cannot be read
-- or have no sender in TxList.
use fabric_byzantine.Base.{
  ℕ, ◌+◌, ◌<◌, ◌≡◌, ◌≢◌, refl, ap, append_none, ◌∙◌, inl, inr, Option-cases, true, String, List, [],
  ◌∷◌, ◌++◌, Option, none, some, length,
}
use fabric_byzantine.Json.{Wire}
use fabric_byzantine.Flow.{go, Outcome-cases, ok}
use fabric_byzantine.Server.Targets.Totality.{AllStaffed, peer_at_total}
use fabric_byzantine.Server.Gateway.{Sdk, Orgs, query_cc}
use fabric_byzantine.Server.Gateway.Total.{balance_request}
use fabric_byzantine.Server.Targets.{OrgInfo, at}
use fabric_byzantine.Server.Listener.{
  ChannelHeader, Proto, Block, Statement, insert_tx, insert_block, World, Vars, record_tx,
  filter_at, each_tx, update_block, balance_of, block_flag,
}
use fabric_byzantine.Server.Listener.Ends.{
  first_sender, block_row, balance_given, update_block-IsEnded,
}
use fabric_byzantine.Server.Restart.{numbers}

-- A payload that can be read has a header, and each transaction has its validation code.
abbrev pub AllHeaded : {B : Type 0} → Proto B → Block B → ℕ → List B → Type 0
AllHeaded proto b i [] = Unit
AllHeaded {B} proto b i (e ∷ es) =
    (((payload : B) → proto.get_envelope e ≡ ok payload → proto.unmarshal_payload payload ≢ ok none)
      × ((code : ℕ) × (filter_at b i ≡ some code)))
    × AllHeaded proto b (1 + i) es

numbers-append :
    {B : Type 0} (l l' : List (Statement B)) → numbers (l ++ l') ≡ numbers l ++ numbers l'
numbers-append [] l' = refl
numbers-append (insert_tx i n tx_id name flag code time ∷ l) l' = numbers-append l l'
numbers-append (insert_block n hash count time (some a) (some b) flag ∷ l) l' =
    ap (λ ns. n ∷ ns) (numbers-append l l')
numbers-append (insert_block n hash count time (some a) none flag ∷ l) l' = numbers-append l l'
numbers-append (insert_block n hash count time none bob flag ∷ l) l' = numbers-append l l'

module _ {B : Type 0} (proto : Proto B) (per_block : ℕ) (b : Block B) where
  record_tx_numbers :
      (i : ℕ) (header : ChannelHeader) (code : ℕ) (v : Vars) (u : World B)
      → numbers (record_tx per_block b.number i header code v u).1.statements ≡ numbers u.statements
  unfolding record_tx
  record_tx_numbers i header code v u =
      numbers-append u.statements _ ∙ append_none (numbers u.statements)

  -- The loop over the transactions stores no block and comes to its end.
  each_tx_numbers :
      (i : ℕ) (es : List B) (v : Vars) (u : World B)
      → AllHeaded proto b i es
      → (v' : Vars) × (u' : World B) × (each_tx proto per_block b i es v u ≡ (go v', u'))
        × (numbers u'.statements ≡ numbers u.statements)
  unfolding each_tx
  each_tx_numbers i [] v u headed = (v, u, refl, refl)
  each_tx_numbers i (e ∷ es) v u headed = elim (Outcome-cases (proto.get_envelope e)) [
    | inr (x, unread) ↦ (v, u, rw (unread, each_tx) refl, refl)
    | inl (payload, opened) ↦ elim (Outcome-cases (proto.unmarshal_payload payload)) [
      | inr (x, unread) ↦
          let (v', u', run, same) = each_tx_numbers (1 + i) es v u headed.1 in
          (v', u', rw (opened, unread, each_tx) run, same)
      | inl (content, parsed) ↦ elim (Option-cases content) [
        | inl empty ↦ absurd (headed.0.0 payload opened (rw empty at parsed))
        | inr (c, full) ↦
            let (code, found) = headed.0.1 in
            let header = proto.unmarshal_channel_header c in
            let (v₁, u₁) = record_tx per_block b.number i header code v u in
            let (v', u', run, same) = each_tx_numbers (1 + i) es v₁ u₁ headed.1 in
            (
              v',
              u',
              rw (opened, parsed, full, found, each_tx) run,
              same ∙ record_tx_numbers i header code v u,
            )
      ]
    ]
  ]

module _ {w : Wire} (sdk : Sdk w) (proto : Proto w.Bytes) (orgs : Orgs w sdk) (per_block : ℕ) where
  -- A client for the channel can be had, and the peers answer the queries for both balances.
  pub record HasBalances : Type 0 where
    pub client : (o : OrgInfo) → (c : sdk.Client) × (sdk.new_client "mychannel1" o ≡ ok c)
    pub alice :
        (c : sdk.Client) (p : sdk.Peer)
        → (b : w.Bytes) × (sdk.query c (balance_request w "alice") (p ∷ []) ≡ ok b)
    pub bob :
        (c : sdk.Client) (p : sdk.Peer)
        → (b : w.Bytes) × (sdk.query c (balance_request w "bob") (p ∷ []) ≡ ok b)

  balance_known :
      (user : String) (u : World w.Bytes)
      → AllStaffed orgs
      → 0 < length orgs
      → HasBalances
      → ((c : sdk.Client) (p : sdk.Peer)
          → (b : w.Bytes) × (sdk.query c (balance_request w user) (p ∷ []) ≡ ok b))
      → (b : w.Bytes) × (balance_given sdk orgs user u ≡ some b)
  unfolding balance_of query_cc at
  balance_known user u staffed some_org has answers =
      let (org, found, target, known) = peer_at_total orgs 0 staffed some_org in
      let (c, made) = has.client org.config in
      let (b, answered) = answers c target in
      (b, rw (found, made, known, answered, balance_of, query_cc) refl)

  -- While the balances are answered, updateBlock stores the row of a block other than block 0,
  -- whatever its transactions.
  pub update_block_numbers :
      (tx_number : List (Statement w.Bytes) → Option ℕ) (b : Block w.Bytes) (u : World w.Bytes)
      → b.number ≢ 0
      → AllStaffed orgs
      → 0 < length orgs
      → ((l : List (Statement w.Bytes)) → (c : ℕ) × (tx_number l ≡ some c))
      → AllHeaded proto b 0 b.envelopes
      → HasBalances
      → let (r, u') = update_block w sdk proto orgs per_block true tx_number b u in
        (r ≡ go tt) × (numbers u'.statements ≡ numbers u.statements ++ b.number ∷ [])
  update_block_numbers tx_number b u ne staffed some_org counted headed has =
      let start : Vars = record { peer = first_sender; tx_time = proto.zero_time } in
      let (v, u₁, run, same) = each_tx_numbers proto per_block b 0 b.envelopes start u headed in
      let end =
        update_block-IsEnded sdk proto orgs per_block tx_number b v u u₁ ne staffed some_org counted
          run in
      let (x, alice) = balance_known "alice" u₁ staffed some_org has has.alice in
      let (y, bob) = balance_known "bob" u₁ staffed some_org has has.bob in
      let row : List (Statement w.Bytes) =
        block_row sdk proto b v.tx_time end.alice end.bob (block_flag v.peer.peer_type) ∷ [] in
      let is_taken : numbers row ≡ b.number ∷ [] =
        rw (end.alice_given ∙ alice, end.bob_given ∙ bob) refl in
      (
        end.done,
        ap numbers end.stored
            ∙ numbers-append u₁.statements row
            ∙ ap (λ ns. ns ++ numbers row) same
            ∙ ap (λ ns. numbers u.statements ++ ns) is_taken,
      )
