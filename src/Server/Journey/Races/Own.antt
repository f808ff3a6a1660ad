-- ===== src/Server/Journey/Races/Own.antt =====
-- The goroutines of InvokeCC (server/fabsdk.go) and updateBlock (server/block_listener.go) on
-- TxList, by any schedule: each sender that waits is its transaction's own, and waits until it is
-- deleted.
use fabric_byzantine.Base.{ℕ, zero, suc, ◌+◌, ◌≤◌, inl, inr, String, List, [], ◌∷◌, arith}
use fabric_byzantine.Dict.{Dict}
use fabric_byzantine.Server.State.{PeerTx}
use fabric_byzantine.Server.Journey.Races.{Memory, Place, next, turn}
use fabric_byzantine.Server.Journey.Races.Kept.{calls_of, deletes_of, AllOwned, IsFrame}
use fabric_byzantine.Server.Journey.Races.Steps.{
  Owns, still-IsFrame, next-IsFrame, next-less, next-AllOwned, next-Owns, Owns-frame,
}

module _ {B : Type 0} where
  abbrev pub all_calls : String → List (Place B) → ℕ
  all_calls k [] = 0
  all_calls k (p ∷ ps) = calls_of k p + all_calls k ps

  abbrev pub all_deletes : String → List (Place B) → ℕ
  all_deletes k [] = 0
  all_deletes k (p ∷ ps) = deletes_of k p + all_deletes k ps

-- A step that uses less may be taken for one that uses more.
IsFrame-le :
    (c d c' d' : String → ℕ) (m m' : Memory)
    → ((k : String) → (c k ≤ c' k) × (d k ≤ d' k))
    → IsFrame c d m m'
    → IsFrame c' d' m m'
IsFrame-le c d c' d' m m' le frame = record {
  still = λ k here. elim (frame.still k here) [
    | inl stays ↦ inl stays
    | inr (some_left, executed) ↦ inr (omega (arith, some_left, (le k).1), executed)
  ];
  fresh = λ k e. elim (frame.fresh k e) [
    | inl before ↦ inl before
    | inr (some_left, present) ↦ inr (omega (arith, some_left, (le k).0), present)
  ];
  grown = frame.grown;
}

module _ {B : Type 0} (per_block : ℕ) (calls : Dict PeerTx) where
  abbrev pub AllOwn : Memory → List (Place B) → Type 0
  AllOwn m [] = Unit
  AllOwn m (p ∷ ps) = Owns per_block calls m p × AllOwn m ps

  -- No identifier is left to two calls, or stands in two transactions of blocks.
  abbrev pub IsApart : List (Place B) → Type 0
  IsApart ps = (k : String) → (all_calls k ps ≤ 1) × (all_deletes k ps ≤ 1)

  AllOwn-frame :
      (c d : String → ℕ) (m m' : Memory) (ps : List (Place B))
      → IsFrame c d m m'
      → ((k : String) → (all_calls k ps + c k ≤ 1) × (all_deletes k ps + d k ≤ 1))
      → AllOwn m ps
      → AllOwn m' ps
  AllOwn-frame c d m m' [] frame le h = tt
  AllOwn-frame c d m m' (p ∷ ps) frame le h = (
    Owns-frame per_block calls c d m m' p frame
        (λ k. (omega (arith, (le k).0), omega (arith, (le k).1))) h.0,
    AllOwn-frame c d m m' ps frame (λ k. (omega (arith, (le k).0), omega (arith, (le k).1))) h.1,
  )

  -- What holds of all goroutines and of the memory.
  pub record IsFair (m : Memory) (ps : List (Place B)) : Type 0 where
    pub apart : IsApart ps
    pub owned : AllOwned calls m.tx_list
    pub own : AllOwn m ps

  pub turn-IsFair :
      (j : ℕ) (m : Memory) (ps : List (Place B))
      → IsFair m ps
      → let (m', ps') = turn per_block j m ps in
        IsFair m' ps'
        × IsFrame (λ k. all_calls k ps) (λ k. all_deletes k ps) m m'
        × ((k : String)
            → (all_calls k ps' ≤ all_calls k ps) × (all_deletes k ps' ≤ all_deletes k ps))
  unfolding turn
  turn-IsFair j m [] h = (h, still-IsFrame (λ k. 0) (λ k. 0) m, λ k. (omega arith, omega arith))
  turn-IsFair zero m (p ∷ ps) h =
      let frame = next-IsFrame per_block calls m p h.own.0 in
      let less = next-less per_block calls m p in
      let m' = (next per_block m p).0 in
      (
        record {
          apart = λ k.
              (omega (arith, (h.apart k).0, (less k).0), omega (arith, (h.apart k).1, (less k).1));
          owned = next-AllOwned per_block calls m p h.own.0 h.owned;
          own = (
            next-Owns per_block calls m p (λ k. omega (arith, (h.apart k).1)) h.owned h.own.0,
            AllOwn-frame (λ k. calls_of k p) (λ k. deletes_of k p) m m' ps frame
                (λ k. (omega (arith, (h.apart k).0), omega (arith, (h.apart k).1))) h.own.1,
          );
        },
        IsFrame-le (λ k. calls_of k p) (λ k. deletes_of k p) (λ k. all_calls k (p ∷ ps))
            (λ k. all_deletes k (p ∷ ps)) m m' (λ k. (omega arith, omega arith)) frame,
        λ k. (omega (arith, (less k).0), omega (arith, (less k).1)),
      )
  turn-IsFair (suc j) m (p ∷ ps) h =
      let (after, frame, less) = turn-IsFair j m ps (record {
        apart = λ k. (omega (arith, (h.apart k).0), omega (arith, (h.apart k).1));
        owned = h.owned;
        own = h.own.1;
      }) in
      let m' = (turn per_block j m ps).0 in
      (
        record {
          apart = λ k.
              (omega (arith, (h.apart k).0, (less k).0), omega (arith, (h.apart k).1, (less k).1));
          owned = after.owned;
          own = (
            Owns-frame per_block calls (λ k. all_calls k ps) (λ k. all_deletes k ps) m m' p frame
                h.apart h.own.0,
            after.own,
          );
        },
        IsFrame-le (λ k. all_calls k ps) (λ k. all_deletes k ps) (λ k. all_calls k (p ∷ ps))
            (λ k. all_deletes k (p ∷ ps)) m m' (λ k. (omega arith, omega arith)) frame,
        λ k. (omega (arith, (less k).0), omega (arith, (less k).1)),
      )
