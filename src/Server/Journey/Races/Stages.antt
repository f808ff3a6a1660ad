-- ===== src/Server/Journey/Races/Stages.antt =====
-- How far a goroutine of updateBlock (server/block_listener.go) has come with its block while others
-- use TxList at the same time.
use fabric_byzantine.Base.{
  ℕ, ◌+◌, ◌-◌, ◌*◌, ◌≤◌, ◌≡◌, refl, sym, ◌∙◌, append_one, append_none, true, List, [], ◌∷◌, ◌++◌,
  some, arith, length,
}
use fabric_byzantine.Dict.{Dict, lookup, get_or}
use fabric_byzantine.Server.State.{PeerTx}
use fabric_byzantine.Server.Listener.{status, tx_flag, row_index}
use fabric_byzantine.Server.Listener.Rows.{Tx, row, rows}
use fabric_byzantine.Server.Listener.Ends.{first_sender}
use fabric_byzantine.Server.Journey.Races.{
  Memory, Batch, Place, calling, stored, called, arriving, handling, loaded, handled, all_executed,
  issued_row, next,
}
use fabric_byzantine.Server.Journey.Races.Kept.{AllOwned, AllOwned-lookup}
use fabric_byzantine.Server.Journey.Races.Steps.{Owns}

issued_row-row :
    {B : Type 0} (per_block n i : ℕ) (t : Tx) (p : PeerTx)
    → issued_row {B = B} per_block n i t p ≡ row per_block n i t p
unfolding issued_row status tx_flag row_index
issued_row-row per_block n i t p = ground arith

-- The sender of each transaction, by the calls.
abbrev pub own : Dict PeerTx → List Tx → List (Tx × PeerTx)
own calls [] = []
own calls (t ∷ ts) = (t, get_or calls t.header.tx_id first_sender) ∷ own calls ts

-- The sender of the last transaction, `p` if there is none.
abbrev pub last_peer : PeerTx → List (Tx × PeerTx) → PeerTx
last_peer p [] = p
last_peer p ((_, q) ∷ ts) = last_peer q ts

module _ {B : Type 0} (per_block : ℕ) (calls : Dict PeerTx) where
  -- How far a goroutine has come with its block: what it issued and what is left make up the rows
  -- that are to be stored.
  abbrev pub Stage : Batch → Place B → Type 0
  Stage b (arriving b') = b' ≡ b
  Stage b (handling n i old ts issued) =
      (n ≡ b.number)
      × (issued ++ rows per_block n i (own calls ts) ≡ rows per_block b.number 0 (own calls b.txs))
      × (last_peer old (own calls ts) ≡ last_peer first_sender (own calls b.txs))
  Stage b (loaded n i p t ts issued) =
      (n ≡ b.number)
      × (issued ++ rows per_block n i (own calls (t ∷ ts))
          ≡ rows per_block b.number 0 (own calls b.txs))
      × (last_peer first_sender (own calls (t ∷ ts)) ≡ last_peer first_sender (own calls b.txs))
      × (lookup t.header.tx_id calls ≡ some p)
  Stage b (handled p issued) =
      (issued ≡ rows per_block b.number 0 (own calls b.txs))
      × (p ≡ last_peer first_sender (own calls b.txs))
  Stage b _ = ⊥

  pub next-Stage :
      (m : Memory) (b : Batch) (p : Place B)
      → AllOwned calls m.tx_list
      → Owns per_block calls m p
      → Stage b p
      → Stage b (next per_block m p).1
  unfolding next
  next-Stage m b (calling k p) all h s = absurd s
  next-Stage m b (stored k) all h s = absurd s
  next-Stage m b called all h s = absurd s
  next-Stage m b (arriving b') all h s = ground (arith, s)
  next-Stage m b (handling n i old [] issued) all h s = (sym (append_none issued) ∙ s.1, s.2)
  next-Stage m b (handling n i old (t ∷ ts) issued) all h s =
      let (p, found) = h.0.1 in
      rw (found, next) (s.0, s.1, s.2, AllOwned-lookup calls m.tx_list t.header.tx_id p all found)
  next-Stage m b (loaded n i p t ts issued) all h s =
      let mine : get_or calls t.header.tx_id first_sender ≡ p = rw (s.3, get_or) refl in
      (
        s.0,
        append_one issued (rows per_block n (1 + i) (own calls ts)) (issued_row per_block n i t p)
            ∙ rw (issued_row-row {B = B} per_block n i t p, sym mine) s.1,
        rw (mine, last_peer) at s.2,
      )
  next-Stage m b (handled p issued) all h s = s

module _ {B : Type 0} (per_block : ℕ) where
  -- The steps that are left to a goroutine whose block can arrive.
  abbrev pub left : Place B → ℕ
  left (arriving b) = 2 + 2 * length b.txs
  left (handling n i old ts issued) = 1 + 2 * length ts
  left (loaded n i p t ts issued) = 2 + 2 * length ts
  left _ = 0

  pub next_less :
      (m : Memory) (b : Batch) (p : Place B) (calls : Dict PeerTx)
      → Stage per_block calls b p
      → let p' = (next per_block m p).1 in
        (left p' ≤ left p) × (all_executed m.executed b.txs ≡ true → left p' ≤ left p - 1)
  unfolding next
  next_less m b (calling k p) calls s = absurd s
  next_less m b (stored k) calls s = absurd s
  next_less m b called calls s = absurd s
  next_less m b (arriving b') calls s = ground (arith, s)
  next_less m b (handling n i old [] issued) calls s = ground arith
  next_less m b (handling n i old (t ∷ ts) issued) calls s = ground arith
  next_less m b (loaded n i p t ts issued) calls s = ground arith
  next_less m b (handled p issued) calls s = ground arith
