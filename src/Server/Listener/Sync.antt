-- ===== src/Server/Listener/Sync.antt =====
-- syncBlock of server/block_listener.go: which blocks are handed to updateBlock. The heights are
-- uint64; `height` is GetBlockHeight of server/mysql, and the blocks handed over are kept in order.
use fabric_byzantine.Base.{
  sym, ◌∙◌, ap, append_one, append_none, leb, ◌==◌, ℕ, zero, suc, ◌+◌, ◌-◌, ◌%◌, ◌^◌, ◌<◌, ◌≡◌,
  String, List, [], ◌∷◌, ◌++◌, arith, ltb, if◌then◌else◌,
}
use fabric_byzantine.Flow.{go, crash, Body, Outcome, ok, err}
use fabric_byzantine.Server.Listener.{Block}

-- The loop of syncBlock: `left` blocks from `i` on; the block of a height that cannot be had
-- panics.
unfoldable pub fetch :
    {B : Type 0}
    → (ℕ → Outcome String (Block B))
    → ℕ
    → ℕ
    → Body (List (Block B)) (Unit {0}) (Unit {0})
fetch query_block i zero handed = (go tt, handed)
fetch query_block i (suc left) handed = elim (query_block i) [
  | err e ↦ (crash, handed)
  | ok b ↦ fetch query_block (1 + i) left (handed ++ b ∷ [])
]

-- `info` is the height that QueryInfo gives.
unfoldable pub sync_block :
    {B : Type 0}
    → ℕ
    → Outcome String ℕ
    → (ℕ → Outcome String (Block B))
    → Body (List (Block B)) (Unit {0}) (Unit {0})
unfolding fetch
sync_block height info query_block handed = elim info [
  | err e ↦ (crash, handed)
  | ok h ↦
      let last = (h + (2 ^ 64 - 1)) % 2 ^ 64 in
      if ltb last height
      then (crash, handed)
      else if ltb height last
      then fetch query_block height (h - height) handed
      else (go tt, handed)
]

-- The blocks of a chain from `i` on.
abbrev pub chain_from : {B : Type 0} → (ℕ → Block B) → ℕ → ℕ → List (Block B)
chain_from chain i zero = []
chain_from chain i (suc left) = chain i ∷ chain_from chain (1 + i) left

fetch_chain :
    {B : Type 0} (chain : ℕ → Block B) (query_block : ℕ → Outcome String (Block B)) (i left : ℕ)
    (handed : List (Block B))
    → ((n : ℕ) → query_block n ≡ ok (chain n))
    → fetch query_block i left handed ≡ (go tt, handed ++ chain_from chain i left)
unfolding fetch
fetch_chain chain query_block i zero handed known = ap (λ l. (go tt, l)) (sym (append_none handed))
fetch_chain chain query_block i (suc left) handed known =
    rw (known i, fetch)
      (fetch_chain chain query_block (1 + i) left (handed ++ chain i ∷ []) known
        ∙ ap (λ l. (go tt, l)) (append_one handed (chain_from chain (1 + i) left) (chain i)))

-- On a chain of `h` blocks, at least one and fewer than 2^64, while the ledger client gives each:
-- syncBlock panics if the last stored block lies beyond the chain; it hands over nothing if that is
-- the chain's last block; and else it hands over all blocks from that block on, which is stored
-- already, in order.
pub sync_block_chain :
    {B : Type 0} (chain : ℕ → Block B) (query_block : ℕ → Outcome String (Block B)) (height h : ℕ)
    (handed : List (Block B))
    → 0 < h
    → h < 2 ^ 64
    → ((n : ℕ) → query_block n ≡ ok (chain n))
    → sync_block height (ok h) query_block handed ≡ (
        if leb h height
        then (crash, handed)
        else (go tt, handed ++ chain_from chain height (if h == height + 1 then 0 else h - height)))
unfolding sync_block
sync_block_chain chain query_block height h handed some_block small known =
    ground
      (arith, fetch_chain chain query_block height (h - height) handed known, append_none handed)
