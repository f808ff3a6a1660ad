-- ===== src/Server/Restart/CatchesUp.antt =====
-- A start of the server on the database of an earlier run (server/block_listener.go,
-- server/fabsdk.go, server/mysql/handler.go) stores the blocks that are missing.
use fabric_byzantine.Base.{
  ℕ, zero, suc, ◌+◌, ◌-◌, ◌^◌, ◌<◌, ◌≡◌, ◌≢◌, refl, ap, sym, subst, ◌∙◌, inl, inr, Bool-cases, true,
  List, [], ◌∷◌, ◌++◌, map, some, arith, ltb, ◌==◌, length, if◌then◌else◌,
}
use fabric_byzantine.Json.{Wire}
use fabric_byzantine.Flow.{go, go_on, ok}
use fabric_byzantine.Mysql.{Database, get_block_height, tx_number}
use fabric_byzantine.Server.Targets.Totality.{AllStaffed}
use fabric_byzantine.Server.Gateway.{Sdk, Orgs}
use fabric_byzantine.Server.Listener.{Proto, Block, Statement, World, update_block}
use fabric_byzantine.Server.Listener.Sync.{chain_from}
use fabric_byzantine.Server.Listener.Start.{
  Ledger, delivered, block_listener, block_listener_gapless,
}
use fabric_byzantine.Server.Restart.{
  numbers, member, highest, IsExplorer, IsComplete, get_block_height-highest, tx_number_total,
  returned, handle_all,
}
use fabric_byzantine.Server.Restart.Stored.{AllHeaded, HasBalances, update_block_numbers}

highest-append :
    (ns : List ℕ) (n : ℕ) → highest (ns ++ n ∷ []) ≡ (if ltb (highest ns) n then n else highest ns)
highest-append [] n = ground arith
highest-append (m ∷ ns) n = ground (arith, highest-append ns n)

member-append :
    (ns : List ℕ) (n k : ℕ) → member k (ns ++ n ∷ []) ≡ (if n == k then true else member k ns)
member-append [] n k = refl
member-append (m ∷ ns) n k = ground (arith, member-append ns n k)

-- The next block makes a complete database complete again,
IsComplete-next :
    {B : Type 0} (l l' : List (Statement B)) (g : ℕ)
    → IsComplete l g
    → numbers l' ≡ numbers l ++ (1 + g) ∷ []
    → IsComplete l' (1 + g)
IsComplete-next l l' g (top, all) e = (
  ap highest e ∙ highest-append (numbers l) (1 + g) ∙ ground (arith, top),
  λ n lt le.
      ap (member n) e ∙ member-append (numbers l) (1 + g) n ∙ ground (arith, all n lt, lt, le),
)

-- and the last one leaves it complete.
IsComplete-again :
    {B : Type 0} (l l' : List (Statement B)) (g : ℕ)
    → IsComplete l g
    → numbers l' ≡ numbers l ++ g ∷ []
    → IsComplete l' g
IsComplete-again l l' g (top, all) e = (
  ap highest e ∙ highest-append (numbers l) g ∙ ground (arith, top),
  λ n lt le. ap (member n) e ∙ member-append (numbers l) g n ∙ ground (arith, all n lt, lt, le),
)

module _ {w : Wire} (sdk : Sdk w) (proto : Proto w.Bytes) (orgs : Orgs w sdk) (per_block : ℕ)
    (database : List (Statement w.Bytes) → Database) (chain : ℕ → Block w.Bytes) where
  -- What is expected of the network, the chain and the database.
  pub record IsSetting : Type 0 where
    pub staffed : AllStaffed orgs
    pub some_org : 0 < length orgs
    pub numbered : (n : ℕ) → (chain n).number ≡ n
    pub balances : HasBalances sdk proto orgs per_block
    pub headed : (n : ℕ) → AllHeaded proto (chain n) 0 (chain n).envelopes
    pub explorer : IsExplorer database

  -- The calls of updateBlock come to their end in a state.
  abbrev Ends : List (Block w.Bytes) → World w.Bytes → World w.Bytes → Type 0
  Ends bs u u' = handle_all w sdk proto orgs per_block database bs u ≡ (go tt, u')

  handles_one :
      (n : ℕ) (bs : List (Block w.Bytes)) (u : World w.Bytes)
      → IsSetting
      → n ≢ 0
      → (u' : World w.Bytes) × (handle_all w sdk proto orgs per_block database (chain n ∷ bs) u
          ≡ handle_all w sdk proto orgs per_block database bs u')
        × (numbers u'.statements ≡ numbers u.statements ++ n ∷ [])
  unfolding handle_all
  handles_one n bs u s ne =
      let b = chain n in
      let is_n = s.numbered n in
      let (done, stored) =
        update_block_numbers sdk proto orgs per_block (λ l. tx_number (database l)) b u
          (λ e. ne (sym is_n ∙ e)) s.staffed s.some_org (λ l. tx_number_total database l s.explorer)
          (s.headed n) s.balances in
      let (r, u') =
        update_block w sdk proto orgs per_block true (λ l. tx_number (database l)) b u in
      (
        u',
        ap (λ x. go_on (returned x) (λ _. handle_all w sdk proto orgs per_block database bs) u')
            done,
        stored ∙ ap (λ k. numbers u.statements ++ k ∷ []) is_n,
      )

  handles_chain :
      (k g : ℕ) (u : World w.Bytes)
      → IsSetting
      → IsComplete u.statements g
      → (u' : World w.Bytes) × Ends (chain_from chain (1 + g) k) u u'
        × IsComplete u'.statements (g + k)
  unfolding handle_all
  handles_chain zero g u s h = (u, refl, subst (IsComplete u.statements) (omega arith) h)
  handles_chain (suc k) g u s h =
      let (u₁, step, stored) =
        handles_one (1 + g) (chain_from chain (1 + (1 + g)) k) u s (λ e. omega (arith, e)) in
      let (u', ends, complete) =
        handles_chain k (1 + g) u₁ s (IsComplete-next u.statements u₁.statements g h stored) in
      (u', step ∙ ends, subst (IsComplete u'.statements) (omega arith) complete)

  -- Also with the last stored block before them.
  handles_again :
      (k g : ℕ) (u : World w.Bytes)
      → IsSetting
      → IsComplete u.statements g
      → (u' : World w.Bytes) × Ends (chain g ∷ chain_from chain (1 + g) k) u u'
        × IsComplete u'.statements (g + k)
  unfolding handle_all update_block
  handles_again k g u s h = elim (Bool-cases (g == 0)) [
    | inl first ↦
        let zero_block : ((chain g).number == 0) ≡ true = ground (arith, first, s.numbered g) in
        let (u', ends, complete) = handles_chain k g u s h in
        (u', rw (zero_block, update_block) ends, complete)
    | inr later ↦
        let (u₁, step, stored) =
          handles_one g (chain_from chain (1 + g) k) u s (λ e. absurd (ground (arith, later, e))) in
        let (u', ends, complete) =
          handles_chain k g u₁ s (IsComplete-again u.statements u₁.statements g h stored) in
        (u', step ∙ ends, complete)
  ]

  handles_handed :
      (g h n : ℕ) (u : World w.Bytes)
      → IsSetting
      → IsComplete u.statements g
      → (u' : World w.Bytes) × Ends
          ((if h == g + 1 then [] else chain g ∷ []) ++ chain_from chain (g + 1) n)
          u
          u'
        × IsComplete u'.statements (g + n)
  handles_handed g h n u s stored =
      let swap : g + 1 ≡ 1 + g = omega arith in
      elim (Bool-cases (h == g + 1)) [
        | inl adjacent ↦
            let (u', ends, complete) = handles_chain n g u s stored in
            (u', rw (adjacent, swap) ends, complete)
        | inr far ↦
            let (u', ends, complete) = handles_again n g u s stored in
            (u', rw (far, swap) ends, complete)
      ]

  -- In a network whose organisations each have a peer and whose peers answer the queries for the two
  -- balances, on a chain of blocks that carry their numbers and whose readable payloads have headers,
  -- with a database that has taken the rows that its schema allows: if the blocks from 1 to g are stored and none beyond, and the server starts, its
  -- clients can be made, the ledger has h blocks, more than g, and gives each, and the first event
  -- brings its last block and the next ones the following k, then the listener and updateBlock for
  -- each block that it hands over, one after the other, come to their end without a panic; after it the blocks from 1 to
  -- the last event's are stored and none beyond, and a further start would ask for the blocks from
  -- there on. The numbers stay below 2^64.
  pub restart_catches_up :
      (ledger : Ledger w.Bytes) (g h k : ℕ) (u : World w.Bytes)
      → IsSetting
      → IsComplete u.statements g
      → g < h
      → h + k < 2 ^ 64
      → ledger.info ≡ ok h
      → ((n : ℕ) → ledger.block n ≡ ok (chain n))
      → let (r, handed) =
          block_listener orgs
            (ok (ok (delivered (chain (h - 1)) ∷ map (λ b. delivered b) (chain_from chain h k))))
            (ok ledger)
            (get_block_height (database u.statements))
            [] in
        let (r', u') = handle_all w sdk proto orgs per_block database handed u in
        (r ≡ go tt)
        × (r' ≡ go tt)
        × IsComplete u'.statements (h + k - 1)
        × (get_block_height (database u'.statements) ≡ some (h + k - 1))
  restart_catches_up ledger g h k u s stored lt small height blocks =
      let known : get_block_height (database u.statements) ≡ some g =
        get_block_height-highest database u.statements s.explorer
          (subst (λ m. m < 2 ^ 64) (sym stored.0) (omega (arith, lt, small)))
        ∙ ap some stored.0 in
      let listened =
        block_listener_gapless orgs ledger chain g h k s.staffed s.some_org lt
          (omega (arith, small)) height blocks in
      let (u', ends, reached) = handles_handed g h (h - (g + 1) + k) u s stored in
      let complete = subst (IsComplete u'.statements) {y = h + k - 1} (omega (arith, lt)) reached in
      let after : get_block_height (database u'.statements) ≡ some (h + k - 1) =
        get_block_height-highest database u'.statements s.explorer
          (subst (λ m. m < 2 ^ 64) (sym complete.0) (omega (arith, small)))
        ∙ ap some complete.0 in
      rw (known, listened, ends) (refl, refl, complete, after)
