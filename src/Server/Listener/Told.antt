-- ===== src/Server/Listener/Told.antt =====
-- What updateBlock (server/block_listener.go) tells the web sockets.
use fabric_byzantine.Base.{
  ℕ, ◌+◌, ◌≡◌, refl, ap, sym, ◌∙◌, append_none, append_assoc, String, List, [], ◌∷◌, ◌++◌, Option,
  some, ltb, ◌==◌, if◌then◌else◌,
}
use fabric_byzantine.Json.{Wire}
use fabric_byzantine.Dict.{lookup}
use fabric_byzantine.Server.State.{State, PeerTx, Message, transaction, broadcast}
use fabric_byzantine.Server.Gateway.{Sdk}
use fabric_byzantine.Server.Listener.{Proto, Block, World, Vars, load, record_tx, each_tx}
use fabric_byzantine.Server.Listener.Ends.{to_all, block_news}
use fabric_byzantine.Server.Listener.Rows.{Tx, AllRead, AllWaiting, flag_code, record_tx-row}

-- What is told of a transaction: the sender's name, a flag that tells whether the sender is a
-- byzantine one, and the validation code, which is 1 for the transactions of up to three byzantine
-- peers.
abbrev pub news : Tx → PeerTx → Message
news t p = transaction (record {
  status = if p.peer_type == 0 then t.code else if ltb p.peer_type 4 then 1 else t.code;
  tx_id = t.header.tx_id;
  date_time = t.header.time;
  peer = p.peer_name;
  tx_type = if p.peer_type == 0 then 0 else 1;
})

-- One message to each socket for each transaction, in order.
abbrev pub all_news : List String → List (Tx × PeerTx) → List (String × Message)
all_news chans [] = []
all_news chans ((t, p) ∷ ts) = to_all chans (news t p) ++ all_news chans ts

-- The same sockets are connected.
abbrev SameChans : State → State → Type 0
SameChans st st' =
    (st'.tx_chans ≡ st.tx_chans)
    × (st'.block_chans ≡ st.block_chans)
    × (st'.block_number_chans ≡ st.block_number_chans)
    × (st'.tx_number_chans ≡ st.tx_number_chans)

record_tx-news :
    {B : Type 0} (per_block n i : ℕ) (t : Tx) (p : PeerTx) (v : Vars) (u : World B)
    → lookup t.header.tx_id u.memory.tx_list ≡ some p
    → let st' = (record_tx per_block n i t.header t.code v u).1.memory in
      (st'.sent ≡ u.memory.sent ++ to_all u.memory.tx_chans (news t p)) × SameChans u.memory st'
unfolding record_tx load broadcast
record_tx-news per_block n i t p v u found =
    let (same_flag, same_code) = flag_code p.peer_type t.code in
    rw (found, load, same_flag, same_code) (refl, (refl, refl, refl, refl))

module _ {B : Type 0} (proto : Proto B) (b : Block B) where
  pub each_tx_news :
      (per_block i : ℕ) (es : List B) (ts : List (Tx × PeerTx)) (v : Vars) (u : World B)
      → AllRead proto b i es ts
      → AllWaiting u.memory.tx_list ts
      → let u' = (each_tx proto per_block b i es v u).1 in
        (u'.memory.sent ≡ u.memory.sent ++ all_news u.memory.tx_chans ts)
        × SameChans u.memory u'.memory
  unfolding each_tx
  each_tx_news per_block i [] [] v u read waiting =
      (sym (append_none u.memory.sent), (refl, refl, refl, refl))
  each_tx_news per_block i [] (t ∷ ts) v u read waiting = absurd read
  each_tx_news per_block i (e ∷ es) [] v u read waiting = absurd read
  each_tx_news per_block i (e ∷ es) ((t, p) ∷ ts) v u
        ((payload, h, opened, parsed, header, code), read) (found, waiting) =
      let (stored, erased) = record_tx-row per_block b.number i t p v u found in
      let (told, same₁) = record_tx-news per_block b.number i t p v u found in
      let (v₁, u₁) = record_tx per_block b.number i t.header t.code v u in
      let (rest, same₂) = each_tx_news per_block (1 + i) es ts v₁ u₁ read (rw erased waiting) in
      let told_all =
        rest
        ∙ ap (λ l. l ++ all_news u₁.memory.tx_chans ts) told
        ∙ append_assoc u.memory.sent (to_all u.memory.tx_chans (news t p))
            (all_news u₁.memory.tx_chans ts)
        ∙ ap (λ c. u.memory.sent ++ (to_all u.memory.tx_chans (news t p) ++ all_news c ts))
            same₁.0 in
      rw (opened, parsed, code, header, each_tx)
        (told_all, (same₂.0 ∙ same₁.0, same₂.1 ∙ same₁.1, same₂.2 ∙ same₁.2, same₂.3 ∙ same₁.3))

module _ {w : Wire} (sdk : Sdk w) where
  pub block_news_same :
      (proto : Proto w.Bytes) (b : Block w.Bytes) (st st' : State) (count time flag : ℕ)
      (alice bob : Option w.Bytes)
      → SameChans st st'
      → block_news sdk proto st' b count time alice bob flag
        ≡ block_news sdk proto st b count time alice bob flag
  block_news_same proto b st st' count time flag alice bob (_, same_b, same_n, same_t) =
      rw (same_b, same_n, same_t) refl
