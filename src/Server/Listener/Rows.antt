-- ===== src/Server/Listener/Rows.antt =====
-- The loop of updateBlock (server/block_listener.go) and the rows that it stores.
use fabric_byzantine.Base.{
  ℕ, zero, suc, ◌+◌, ◌*◌, ◌%◌, ◌^◌, ◌≤◌, ◌<◌, ◌≡◌, refl, ap, sym, append_one, append_none, ◌∙◌,
  List, [], ◌∷◌, ◌++◌, some, arith, ltb, ◌==◌, if◌then◌else◌,
}
use fabric_byzantine.Dict.{Dict, lookup, erase}
use fabric_byzantine.Flow.{go, ok}
use fabric_byzantine.Server.State.{PeerTx, broadcast}
use fabric_byzantine.Server.Listener.{
  ChannelHeader, Proto, Block, Statement, insert_tx, World, Vars, status, tx_flag, row_index, load,
  record_tx, filter_at, each_tx,
}

product_suc : (n k : ℕ) → (n + 1) * k ≡ n * k + k
product_suc n k = ground arith

-- A number is a multiple and a remainder in one way only.
parts_injective : (k n m i j : ℕ) → i < k → j < k → n * k + i ≡ m * k + j → (n ≡ m) × (i ≡ j)
parts_injective k zero zero i j li lj e = (refl, ground arith)
parts_injective k zero (suc m) i j li lj e = absurd (ground (arith, product_suc m k))
parts_injective k (suc n) zero i j li lj e = absurd (ground (arith, product_suc n k))
parts_injective k (suc n) (suc m) i j li lj e =
    let (same, rest) =
      parts_injective k n m i j li lj (ground (arith, product_suc n k, product_suc m k)) in
    (ground arith, rest)

-- Two transactions of a chain have different row indices, if their positions stay below the
-- number of transactions per block and the products do not reach 2^64.
pub row_index_injective :
    (k n m i j : ℕ)
    → i < k
    → j < k
    → (n + 1) * k ≤ 2 ^ 64
    → (m + 1) * k ≤ 2 ^ 64
    → row_index k n i ≡ row_index k m j
    → (n ≡ m) × (i ≡ j)
unfolding row_index
row_index_injective k n m i j li lj hn hm e =
    parts_injective k n m i j li lj (ground (arith, product_suc n k, product_suc m k))

-- A transaction that can be read: its header and its validation code.
pub record Tx : Type 0 where
  pub header : ChannelHeader
  pub code : ℕ

-- What is to be stored of a transaction and its sender: the sender's name, a flag that tells
-- whether the sender is a byzantine one, and the validation code, which is 1 for the transactions
-- of up to three byzantine peers.
abbrev pub row : {B : Type 0} → ℕ → ℕ → ℕ → Tx → PeerTx → Statement B
row per_block n i t p =
    insert_tx ((n * per_block + i) % 2 ^ 64) n t.header.tx_id p.peer_name
      (if p.peer_type == 0 then 0 else 1)
      (if p.peer_type == 0 then t.code else if ltb p.peer_type 4 then 1 else t.code) t.header.time

-- What is to be stored of transactions and their senders.
abbrev pub rows : {B : Type 0} → ℕ → ℕ → ℕ → List (Tx × PeerTx) → List (Statement B)
rows per_block n i [] = []
rows per_block n i ((t, p) ∷ ts) = row per_block n i t p ∷ rows per_block n (1 + i) ts

pub flag_code :
    (t c : ℕ)
    → (tx_flag t ≡ (if t == 0 then 0 else 1))
      × (status t c ≡ (if t == 0 then c else if ltb t 4 then 1 else c))
unfolding tx_flag status
flag_code t c = ground arith

pub record_tx-row :
    {B : Type 0} (per_block n i : ℕ) (t : Tx) (p : PeerTx) (v : Vars) (u : World B)
    → lookup t.header.tx_id u.memory.tx_list ≡ some p
    → let (v', u') = record_tx per_block n i t.header t.code v u in
      (u'.statements ≡ u.statements ++ row per_block n i t p ∷ [])
      × (u'.memory.tx_list ≡ erase t.header.tx_id u.memory.tx_list)
unfolding record_tx load row_index broadcast
record_tx-row per_block n i t p v u found =
    let (same_flag, same_code) = flag_code p.peer_type t.code in
    ground (arith, found, same_flag, same_code)

-- Each transaction has its sender in the list of those that wait, when its turn comes.
abbrev pub AllWaiting : Dict PeerTx → List (Tx × PeerTx) → Type 0
AllWaiting d [] = Unit
AllWaiting d ((t, p) ∷ ts) =
    (lookup t.header.tx_id d ≡ some p) × AllWaiting (erase t.header.tx_id d) ts

abbrev pub erase_all : List (Tx × PeerTx) → Dict PeerTx → Dict PeerTx
erase_all [] d = d
erase_all ((t, _) ∷ ts) d = erase_all ts (erase t.header.tx_id d)

module _ {B : Type 0} (proto : Proto B) (b : Block B) where
  -- The envelopes from position `i` on hold these transactions.
  abbrev pub AllRead : ℕ → List B → List (Tx × PeerTx) → Type 0
  AllRead i [] [] = Unit
  AllRead i [] (_ ∷ _) = ⊥
  AllRead i (_ ∷ _) [] = ⊥
  AllRead i (e ∷ es) ((t, _) ∷ ts) =
      ((payload : B) × (h : B) × (proto.get_envelope e ≡ ok payload)
        × (proto.unmarshal_payload payload ≡ ok (some h))
        × (proto.unmarshal_channel_header h ≡ t.header)
        × (filter_at b i ≡ some t.code))
      × AllRead (1 + i) es ts

  -- The loop over the transactions of a block, if each can be read and has its sender in the list
  -- of those that wait: it stores one row for each, in order, and takes its sender out of the list.
  pub each_tx_rows :
      (per_block i : ℕ) (es : List B) (ts : List (Tx × PeerTx)) (v : Vars) (u : World B)
      → AllRead i es ts
      → AllWaiting u.memory.tx_list ts
      → (v' : Vars) × (u' : World B) × (each_tx proto per_block b i es v u ≡ (go v', u'))
        × (u'.statements ≡ u.statements ++ rows per_block b.number i ts)
        × (u'.memory.tx_list ≡ erase_all ts u.memory.tx_list)
  unfolding each_tx
  each_tx_rows per_block i [] [] v u read waiting =
      (v, u, refl, sym (append_none u.statements), refl)
  each_tx_rows per_block i [] (t ∷ ts) v u read waiting = absurd read
  each_tx_rows per_block i (e ∷ es) [] v u read waiting = absurd read
  each_tx_rows per_block i (e ∷ es) ((t, p) ∷ ts) v u
        ((payload, h, opened, parsed, header, code), read) (found, waiting) =
      let (stored, erased) = record_tx-row per_block b.number i t p v u found in
      let (v₁, u₁) = record_tx per_block b.number i t.header t.code v u in
      let (v', u', run, rest, gone) =
        each_tx_rows per_block (1 + i) es ts v₁ u₁ read (rw erased waiting) in
      (
        v',
        u',
        rw (opened, parsed, code, header, each_tx) run,
        rest
            ∙ rw stored (
                append_one u.statements (rows per_block b.number (1 + i) ts)
                  (row per_block b.number i t p)),
        gone ∙ ap (erase_all ts) erased,
      )
