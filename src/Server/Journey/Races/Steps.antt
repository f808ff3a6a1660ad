-- ===== src/Server/Journey/Races/Steps.antt =====
-- A step of a goroutine of InvokeCC (server/fabsdk.go) or updateBlock (server/block_listener.go) on
-- TxList: what the goroutine relies on and keeps.
use fabric_byzantine.Base.{
  ℕ, ◌+◌, ◌≤◌, ◌≡◌, inl, inr, subst, ◌∙◌, Bool-cases, String, true, false, [], ◌∷◌, some, arith,
  str_eq, eq_iff, eq_refl, if◌then◌else◌,
}
use fabric_byzantine.Dict.{Dict, lookup, insert, lookup-insert, lookup-insert_self, lookup-erase_ne}
use fabric_byzantine.Server.State.{PeerTx}
use fabric_byzantine.Server.Journey.Races.{
  Memory, Place, calling, stored, called, arriving, handling, loaded, handled, member, all_executed,
  next,
}
use fabric_byzantine.Server.Journey.Races.Kept.{
  txs_of, calls_of, deletes_of, IsPresent, AllOwned, AllOwned-lookup, AllOwned-insert,
  AllOwned-erase, IsFrame, AllReady, AllGuarded, AllReady-guarded, AllReady-frame, AllGuarded-frame,
  AllReady-erase, txs_of-head,
}

IsPresent-insert :
    (d : Dict PeerTx) (k j : String) (p : PeerTx) → IsPresent d j → IsPresent (insert k p d) j
IsPresent-insert d k j p (q, found) = elim (Bool-cases (str_eq k j)) [
  | inl same ↦ (p, ground (arith, lookup-insert k j p d, same))
  | inr other ↦ (q, ground (arith, lookup-insert k j p d, other, found))
]

pub still-IsFrame : (c d : String → ℕ) (m : Memory) → IsFrame c d m m
still-IsFrame c d m = record { still = λ k h. inl h; fresh = λ k h. inl h; grown = λ k h. h }

own_call : (k : String) → ◌≡◌ {A = ℕ} (if str_eq k k then 1 else 0) 1
own_call k = ground (arith, eq_refl k)

-- No call but its own executes a transaction.
not_yet :
    (c d : String → ℕ) (m m' : Memory) (k : String)
    → IsFrame c d m m'
    → c k ≡ 0
    → member k m.executed ≡ false
    → member k m'.executed ≡ false
not_yet c d m m' k frame alone h = elim (Bool-cases (member k m'.executed)) [
  | inr no_one ↦ no_one
  | inl executed ↦ elim (frame.fresh k executed) [
    | inl before ↦ absurd (ground (arith, before, h))
    | inr (another, _) ↦ absurd (omega (arith, another, alone))
  ]
]

module _ {B : Type 0} (per_block : ℕ) (calls : Dict PeerTx) where
  -- What a goroutine relies on.
  abbrev pub Owns : Memory → Place B → Type 0
  Owns m (calling k p) = (lookup k calls ≡ some p) × (member k m.executed ≡ false)
  Owns m (stored k) = IsPresent m.tx_list k × (member k m.executed ≡ false)
  Owns m called = Unit
  Owns m (arriving b) = AllGuarded m b.txs
  Owns m (handling n i old ts issued) = AllReady m ts
  Owns m (loaded n i p t ts issued) =
      AllReady m ts
      × (member t.header.tx_id m.executed ≡ true)
      × (lookup t.header.tx_id calls ≡ some p)
  Owns m (handled p issued) = Unit

  pub next-IsFrame :
      (m : Memory) (p : Place B)
      → Owns m p
      → IsFrame (λ k. calls_of k p) (λ k. deletes_of k p) m (next per_block m p).0
  unfolding next
  next-IsFrame m (calling k p) h = record {
    still = λ j here. inl (IsPresent-insert m.tx_list k j p here);
    fresh = λ j e. inl e;
    grown = λ j e. e;
  }
  next-IsFrame m (stored k) h = record {
    still = λ j here. inl here;
    fresh = λ j e. elim (Bool-cases (str_eq k j)) [
      | inl same ↦ inr (ground (arith, same), subst (IsPresent m.tx_list) ((eq_iff k j).0 same) h.0)
      | inr other ↦ inl (ground (arith, other, e))
    ];
    grown = λ j e. ground (arith, e);
  }
  next-IsFrame m called h = still-IsFrame (λ k. 0) (λ k. 0) m
  next-IsFrame m (arriving b) h = elim (Bool-cases (all_executed m.executed b.txs)) [
    | inl there ↦ rw (there, next) (still-IsFrame (λ k. 0) (λ k. txs_of k b.txs) m)
    | inr missing ↦ rw (missing, next) (still-IsFrame (λ k. 0) (λ k. txs_of k b.txs) m)
  ]
  next-IsFrame m (handling n i old [] issued) h = still-IsFrame (λ k. 0) (λ k. 0) m
  next-IsFrame m (handling n i old (t ∷ ts) issued) h =
      let (p, found) = h.0.1 in rw (found, next) (still-IsFrame (λ k. 0) (λ k. txs_of k (t ∷ ts)) m)
  next-IsFrame m (loaded n i p t ts issued) h = record {
    still = λ j here. elim (Bool-cases (str_eq t.header.tx_id j)) [
      | inl same ↦ inr (
        ground (arith, same),
        subst (λ k. member k m.executed ≡ true) ((eq_iff t.header.tx_id j).0 same) h.1,
      )
      | inr other ↦ inl (
        here.0,
        lookup-erase_ne j t.header.tx_id m.tx_list
              (λ e. absurd (ground (arith, other, e, eq_refl j)))
            ∙ here.1,
      )
    ];
    fresh = λ j e. inl e;
    grown = λ j e. e;
  }
  next-IsFrame m (handled p issued) h = still-IsFrame (λ k. 0) (λ k. 0) m

  -- No more calls and deletions are left after a step,
  pub next-less :
      (m : Memory) (p : Place B) (k : String)
      → let p' = (next per_block m p).1 in
        (calls_of k p' ≤ calls_of k p) × (deletes_of k p' ≤ deletes_of k p)
  unfolding next
  next-less m p k = ground arith

  -- each sender that waits stays its transaction's own,
  pub next-AllOwned :
      (m : Memory) (p : Place B)
      → Owns m p
      → AllOwned calls m.tx_list
      → AllOwned calls (next per_block m p).0.tx_list
  unfolding next
  next-AllOwned m (calling k p) h all = AllOwned-insert calls m.tx_list k p all h.0
  next-AllOwned m (stored k) h all = all
  next-AllOwned m called h all = all
  next-AllOwned m (arriving b) h all = ground (arith, all)
  next-AllOwned m (handling n i old [] issued) h all = all
  next-AllOwned m (handling n i old (t ∷ ts) issued) h all = ground (arith, all)
  next-AllOwned m (loaded n i p t ts issued) h all =
      AllOwned-erase calls m.tx_list t.header.tx_id all
  next-AllOwned m (handled p issued) h all = all

  -- and the goroutine can rely on the same as before.
  pub next-Owns :
      (m : Memory) (p : Place B)
      → ((k : String) → deletes_of k p ≤ 1)
      → AllOwned calls m.tx_list
      → Owns m p
      → let (m', p') = next per_block m p in Owns m' p'
  unfolding next
  next-Owns m (calling k p) le all h = ((p, lookup-insert_self k p m.tx_list), h.1)
  next-Owns m (stored k) le all h = tt
  next-Owns m called le all h = tt
  next-Owns m (arriving b) le all h = elim (Bool-cases (all_executed m.executed b.txs)) [
    | inl there ↦ rw (there, next) (AllReady-guarded m b.txs h there)
    | inr missing ↦ rw (missing, next) h
  ]
  next-Owns m (handling n i old [] issued) le all h = tt
  next-Owns m (handling n i old (t ∷ ts) issued) le all h =
      let (p, found) = h.0.1 in
      rw (found, next) (h.1, h.0.0, AllOwned-lookup calls m.tx_list t.header.tx_id p all found)
  next-Owns m (loaded n i p t ts issued) le all h =
      AllReady-erase m t.header.tx_id ts (omega (arith, le t.header.tx_id, txs_of-head t ts)) h.0
  next-Owns m (handled p issued) le all h = tt

  -- What a goroutine relies on, another's step keeps.
  pub Owns-frame :
      (c d : String → ℕ) (m m' : Memory) (p : Place B)
      → IsFrame c d m m'
      → ((k : String) → (calls_of k p + c k ≤ 1) × (deletes_of k p + d k ≤ 1))
      → Owns m p
      → Owns m' p
  Owns-frame c d m m' (calling k p) frame le h =
      (h.0, not_yet c d m m' k frame (omega (arith, own_call k, (le k).0)) h.1)
  Owns-frame c d m m' (stored k) frame le h = (
    elim (frame.still k h.0) [
      | inl stays ↦ stays
      | inr (_, executed) ↦ absurd (ground (arith, executed, h.1))
    ],
    not_yet c d m m' k frame (omega (arith, own_call k, (le k).0)) h.1,
  )
  Owns-frame c d m m' called frame le h = tt
  Owns-frame c d m m' (arriving b) frame le h = AllGuarded-frame b.txs frame (λ k. (le k).1) h
  Owns-frame c d m m' (handling n i old ts issued) frame le h =
      AllReady-frame ts frame (λ k. (le k).1) h
  Owns-frame c d m m' (loaded n i p t ts issued) frame le h = (
    AllReady-frame ts frame (λ k. omega (arith, (le k).1)) h.0,
    frame.grown t.header.tx_id h.1,
    h.2,
  )
  Owns-frame c d m m' (handled p issued) frame le h = tt
