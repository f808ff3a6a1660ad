-- ===== src/Server/Listener/Start.antt =====
-- BlockListener of server/fabsdk.go and registerBlockEvent of server/block_listener.go: the blocks
-- of the ledger and those of the events are handed to updateBlock. The clients for events and for
-- the ledger are parameters. The goroutine of syncBlock runs before the first event here.
use fabric_byzantine.Base.{
  ℕ, zero, suc, ◌+◌, ◌-◌, ◌^◌, ◌<◌, ◌≡◌, refl, sym, ◌∙◌, ap, append_one, append_none, Bool-cases,
  inl, inr, String, Bool, true, false, List, [], ◌∷◌, ◌++◌, map, Option, some, arith, length, leb,
  ◌==◌, if◌then◌else◌,
}
use fabric_byzantine.Int.{pos}
use fabric_byzantine.Flow.{go, crash, Body, ◌>>=◌, ◌>>◌, or_crash, Outcome, ok, err}
use fabric_byzantine.Server.Targets.{OrgInstance, at, first_peer}
use fabric_byzantine.Server.Targets.Totality.{AllStaffed, peer_at_total}
use fabric_byzantine.Server.Listener.{Block}
use fabric_byzantine.Server.Listener.Sync.{sync_block, chain_from, sync_block_chain}

-- What the channel of events gives: that it was closed, an event without a block, a block.
pub data BlockEvent (B : Type 0) : Type 0 where
  closed : BlockEvent B
  no_block : BlockEvent B
  delivered : Block B → BlockEvent B

-- The loop over the events that arrive, from the flag on: the first event is passed over, and
-- what is there no block of, or no event, is dereferenced.
unfoldable pub listen :
    {B : Type 0} → Bool → List (BlockEvent B) → Body (List (Block B)) (Unit {0}) (Unit {0})
listen flag [] handed = (go tt, handed)
listen flag (closed ∷ es) handed = (crash, handed)
listen true (no_block ∷ es) handed = listen false es handed
listen false (no_block ∷ es) handed = (crash, handed)
listen true (delivered b ∷ es) handed = listen false es handed
listen false (delivered b ∷ es) handed = listen false es (handed ++ b ∷ [])

-- A registration that fails is logged, and the loop waits on a channel that gives nothing.
unfoldable pub register_block_event :
    {B : Type 0}
    → Outcome String (List (BlockEvent B))
    → Body (List (Block B)) (Unit {0}) (Unit {0})
unfolding listen
register_block_event registered handed = elim registered [
  | err e ↦ (go tt, handed)
  | ok es ↦ listen true es handed
]

-- The answers of the ledger client: the height, and the blocks.
pub record Ledger (B : Type 0) : Type 0 where
  pub info : Outcome String ℕ
  pub block : ℕ → Outcome String (Block B)

-- `panic` for a client that cannot be made.
abbrev or_panic : {S R A : Type 0} → Outcome String A → Body S R A
or_panic (ok a) s = (go a, s)
or_panic (err e) s = (crash, s)

-- `height` is GetBlockHeight of server/mysql, none where it panics.
unfoldable pub block_listener :
    {P B : Type 0}
    → List (OrgInstance P)
    → Outcome String (Outcome String (List (BlockEvent B)))
    → Outcome String (Ledger B)
    → Option ℕ
    → Body (List (Block B)) (Unit {0}) (Unit {0})
unfolding at first_peer
block_listener orgs event_client ledger_client height = do
  org ← or_crash (at orgs (pos 0))
  registered ← or_panic event_client
  ledger ← or_panic ledger_client
  target ← or_crash (first_peer org)
  stored ← or_crash height
  sync_block stored ledger.info ledger.block
  register_block_event registered

listen_delivered :
    {B : Type 0} (bs handed : List (Block B))
    → listen false (map (λ b. delivered b) bs) handed ≡ (go tt, handed ++ bs)
unfolding listen
listen_delivered [] handed = ap (λ l. (go tt, l)) (sym (append_none handed))
listen_delivered (b ∷ bs) handed =
    listen_delivered bs (handed ++ b ∷ []) ∙ ap (λ l. (go tt, l)) (append_one handed bs b)

chain_from-append :
    {B : Type 0} (chain : ℕ → Block B) (i a b : ℕ)
    → chain_from chain i a ++ chain_from chain (i + a) b ≡ chain_from chain i (a + b)
chain_from-append chain i zero b =
    let e₁ : i + 0 ≡ i = omega arith in let e₂ : 0 + b ≡ b = omega arith in rw (e₁, e₂) refl
chain_from-append chain i (suc a) b =
    let e₁ : i + suc a ≡ (1 + i) + a = omega arith in
    let e₂ : suc a + b ≡ suc (a + b) = omega arith in
    rw (e₁, e₂) (ap (λ l. chain i ∷ l) (chain_from-append chain (1 + i) a b))

-- What syncBlock and the events hand over together, from the last stored block on.
handed_over :
    {B : Type 0} (chain : ℕ → Block B) (g h k : ℕ)
    → g < h
    → chain_from chain g (if h == g + 1 then 0 else h - g) ++ chain_from chain h k
      ≡ (if h == g + 1 then [] else chain g ∷ []) ++ chain_from chain (g + 1) (h - (g + 1) + k)
handed_over chain g h k lt = elim (Bool-cases (h == g + 1)) [
  | inl adjacent ↦
      let at_end : h ≡ g + 1 = ground arith in
      let none_between : h - (g + 1) + k ≡ k = ground arith in
      rw (adjacent, none_between) (ap (λ i. chain_from chain i k) at_end)
  | inr far ↦
      let back : h ≡ g + (h - g) = omega arith in
      let first : h - g + k ≡ suc (h - (g + 1) + k) = omega arith in
      let next : 1 + g ≡ g + 1 = omega arith in
      rw far (
        ap (λ i. chain_from chain g (h - g) ++ chain_from chain i k) back
        ∙ chain_from-append chain g (h - g) k
        ∙ ap (λ n. chain_from chain g n) first
        ∙ ap (λ i. chain g ∷ chain_from chain i (h - (g + 1) + k)) next)
]

-- In a network whose organisations each have a peer, where the clients can be made, the ledger has
-- h blocks, fewer than 2^64, and gives each, and the last stored block g is one of them: if the
-- first event brings the last block of the ledger, and the next ones the following k blocks, then
-- every block after g up to the last event's is handed to updateBlock once, in order, without a
-- gap. Before these block g is handed over again, unless it is the last one of the ledger.
pub block_listener_gapless :
    {P B : Type 0} (orgs : List (OrgInstance P)) (ledger : Ledger B) (chain : ℕ → Block B)
    (g h k : ℕ)
    → AllStaffed orgs
    → 0 < length orgs
    → g < h
    → h < 2 ^ 64
    → ledger.info ≡ ok h
    → ((n : ℕ) → ledger.block n ≡ ok (chain n))
    → block_listener orgs
        (ok (ok (delivered (chain (h - 1)) ∷ map (λ b. delivered b) (chain_from chain h k))))
        (ok ledger)
        (some g)
        []
      ≡ (
        go tt,
        (if h == g + 1 then [] else chain g ∷ []) ++ chain_from chain (g + 1) (h - (g + 1) + k),
      )
unfolding block_listener register_block_event listen at
block_listener_gapless orgs ledger chain g h k staffed some_org lt small height blocks =
    let (org, found, target, known) = peer_at_total orgs 0 staffed some_org in
    let synced = sync_block_chain chain ledger.block g h [] (omega arith) small blocks in
    let ahead : leb h g ≡ false = ground arith in
    let start = chain_from chain g (if h == g + 1 then 0 else h - g) in
    rw (found, known, height, synced, ahead, block_listener)
      (listen_delivered (chain_from chain h k) start
        ∙ ap (λ l. (go tt, l)) (handed_over chain g h k lt))
