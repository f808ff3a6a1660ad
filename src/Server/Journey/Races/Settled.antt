-- ===== src/Server/Journey/Races/Settled.antt =====
-- What goroutines of updateBlock (server/block_listener.go) store while others, of InvokeCC
-- (server/fabsdk.go) and of updateBlock, use TxList at the same time.
use fabric_byzantine.Base.{
  ℕ, zero, suc, ◌+◌, ◌*◌, ◌≤◌, ◌≡◌, refl, subst, String, true, List, [], ◌∷◌, none, some, arith,
  eq_iff, eq_refl, length, get_elem?,
}
use fabric_byzantine.Dict.{Dict, IsDict, lookup}
use fabric_byzantine.Server.State.{PeerTx}
use fabric_byzantine.Server.Listener.Rows.{Tx, rows}
use fabric_byzantine.Server.Listener.Ends.{first_sender}
use fabric_byzantine.Server.Journey.Races.{
  Batch, arriving, handled, all_executed, run, empty, all_ready,
}
use fabric_byzantine.Server.Journey.Races.Kept.{txs_of, AllOwned, AllGuarded}
use fabric_byzantine.Server.Journey.Races.Own.{all_calls, all_deletes, AllOwn, IsFair}
use fabric_byzantine.Server.Journey.Races.Stages.{own, last_peer}
use fabric_byzantine.Server.Journey.Races.Turns.{turns_of, run-At, run_ends, ended}

-- How often an identifier stands in blocks.
abbrev pub blocks_of : String → List Batch → ℕ
blocks_of k [] = 0
blocks_of k (b ∷ blocks) = txs_of k b.txs + blocks_of k blocks

dict-AllOwned :
    (full calls : Dict PeerTx)
    → IsDict calls
    → ((k : String) (p : PeerTx) → lookup k calls ≡ some p → lookup k full ≡ some p)
    → AllOwned full calls
dict-AllOwned full [] h sub = tt
dict-AllOwned full ((k, p) ∷ calls) h sub = (
  sub k p (ground (arith, eq_refl k)),
  dict-AllOwned full calls h.1 (λ j q e. sub j q (ground (arith, e, h.0, eq_iff k j))),
)

dict_alone :
    (B : Type 0) (calls : Dict PeerTx) (blocks : List Batch) (k : String)
    → IsDict calls
    → (all_calls {B = B} k (all_ready calls blocks) ≤ 1)
      × (lookup k calls ≡ none → all_calls {B = B} k (all_ready calls blocks) ≡ 0)
dict_alone B [] [] k h = (omega arith, λ e. refl)
dict_alone B [] (b ∷ blocks) k h = ground (arith, dict_alone B [] blocks k h)
dict_alone B ((j, p) ∷ calls) blocks k h =
    ground (arith, h.0, eq_iff j k, dict_alone B calls blocks k h.1)

deletes-start :
    (B : Type 0) (calls : Dict PeerTx) (blocks : List Batch) (k : String)
    → all_deletes {B = B} k (all_ready calls blocks) ≡ blocks_of k blocks
deletes-start B [] [] k = refl
deletes-start B [] (b ∷ blocks) k = omega (arith, deletes-start B [] blocks k)
deletes-start B ((j, p) ∷ calls) blocks k = omega (arith, deletes-start B calls blocks k)

nothing-AllGuarded : (ts : List Tx) → AllGuarded empty ts
nothing-AllGuarded [] = tt
nothing-AllGuarded (t ∷ ts) = (λ e. absurd (ground (arith, e)), nothing-AllGuarded ts)

start-AllOwn :
    (B : Type 0) (per_block : ℕ) (full calls : Dict PeerTx) (blocks : List Batch)
    → AllOwned full calls
    → AllOwn {B = B} per_block full empty (all_ready calls blocks)
start-AllOwn B per_block full [] [] h = tt
start-AllOwn B per_block full [] (b ∷ blocks) h =
    (nothing-AllGuarded b.txs, start-AllOwn B per_block full [] blocks h)
start-AllOwn B per_block full ((k, p) ∷ calls) blocks h =
    ((h.0, refl), start-AllOwn B per_block full calls blocks h.1)

get_elem-arriving :
    {B : Type 0} (blocks : List Batch) (j : ℕ) (b : Batch)
    → get_elem? blocks j ≡ some b
    → get_elem? (all_ready {B = B} [] blocks) j ≡ some (arriving b)
get_elem-arriving [] j b e = absurd (ground (arith, e))
get_elem-arriving (c ∷ blocks) zero b e = ground (arith, e)
get_elem-arriving {B} (c ∷ blocks) (suc j) b e = get_elem-arriving {B = B} blocks j b e

get_elem-start :
    {B : Type 0} (calls : Dict PeerTx) (blocks : List Batch) (j : ℕ) (b : Batch)
    → get_elem? blocks j ≡ some b
    → get_elem? (all_ready {B = B} calls blocks) (length calls + j) ≡ some (arriving b)
get_elem-start {B} [] blocks j b e =
    subst (λ i. get_elem? (all_ready {B = B} [] blocks) i ≡ some (arriving b)) {x = j} (omega arith)
      (get_elem-arriving {B = B} blocks j b e)
get_elem-start {B} ((k, p) ∷ calls) blocks j b e =
    subst (λ i. get_elem? (all_ready {B = B} ((k, p) ∷ calls) blocks) i ≡ some (arriving b))
      {x = suc (length calls + j)} (omega arith) (get_elem-start {B = B} calls blocks j b e)

-- Goroutines of InvokeCC and of updateBlock run at the same time, in whichever order their accesses
-- of TxList come. No two calls have the same identifier, and no identifier stands in two
-- transactions of blocks. Once all transactions of a block have been executed, and from then on the
-- goroutine of the block has had two turns for each transaction and two more, it is at its end: it
-- has issued one row for each transaction, in order, with the sender of the transaction's own call,
-- and the sender that remains for the block's row is that of its last transaction.
pub rows_own :
    {B : Type 0} (per_block : ℕ) (calls : Dict PeerTx) (blocks : List Batch) (before after : List ℕ)
    (j : ℕ) (b : Batch)
    → IsDict calls
    → ((k : String) → blocks_of k blocks ≤ 1)
    → get_elem? blocks j ≡ some b
    → let (m, ps) = run {B = B} per_block before empty (all_ready calls blocks) in
      all_executed m.executed b.txs ≡ true
      → 2 + 2 * length b.txs ≤ turns_of (length calls + j) after
      → get_elem? (run {B = B} per_block after m ps).1 (length calls + j)
        ≡ some (
            handled
              (last_peer first_sender (own calls b.txs))
              (rows per_block b.number 0 (own calls b.txs)))
rows_own {B} per_block calls blocks before after j b dict apart here executed enough =
    let start = all_ready {B = B} calls blocks in
    let fair : IsFair {B = B} per_block calls empty start = record {
      apart = λ k. (
        (dict_alone B calls blocks k dict).0,
        omega (arith, apart k, deletes-start B calls blocks k),
      );
      owned = tt;
      own =
          start-AllOwn B per_block calls calls blocks (dict-AllOwned calls calls dict (λ k p e. e));
    } in
    let n = 2 + 2 * length b.txs in
    let (fair', at) =
      run-At per_block calls before (length calls + j) b n empty start fair
        (arriving b, get_elem-start calls blocks j b here, refl, omega arith) in
    let (m, ps) = run {B = B} per_block before empty start in
    ended per_block calls (length calls + j) b (run per_block after m ps).1
      (run_ends per_block calls after (length calls + j) b n m ps fair' executed enough at)
