-- ===== src/Server/Journey/Races/Kept.antt =====
-- What a step of a goroutine of InvokeCC (server/fabsdk.go) or of updateBlock
-- (server/block_listener.go) does to TxList, and what the other goroutines rely on.
use fabric_byzantine.Base.{
  ℕ, ◌+◌, ◌≤◌, ◌≡◌, ◌≢◌, ◌⊎◌, inl, inr, Bool-cases, String, true, List, [], ◌∷◌, some, arith,
  str_eq, eq_iff, eq_refl, if◌then◌else◌,
}
use fabric_byzantine.Dict.{Dict, lookup, insert, erase, lookup-erase_ne}
use fabric_byzantine.Server.State.{PeerTx}
use fabric_byzantine.Server.Listener.Rows.{Tx}
use fabric_byzantine.Server.Journey.Races.{
  Memory, Place, calling, stored, arriving, handling, loaded, member, all_executed,
}

-- How often an identifier stands in transactions.
abbrev pub txs_of : String → List Tx → ℕ
txs_of k [] = 0
txs_of k (t ∷ ts) = (if str_eq t.header.tx_id k then 1 else 0) + txs_of k ts

module _ {B : Type 0} where
  -- The calls of an identifier that have not executed it yet.
  abbrev pub calls_of : String → Place B → ℕ
  calls_of k (calling j p) = if str_eq j k then 1 else 0
  calls_of k (stored j) = if str_eq j k then 1 else 0
  calls_of k _ = 0

  -- How often an identifier is still to be deleted.
  abbrev pub deletes_of : String → Place B → ℕ
  deletes_of k (arriving b) = txs_of k b.txs
  deletes_of k (handling n i old ts issued) = txs_of k ts
  deletes_of k (loaded n i p t ts issued) = txs_of k (t ∷ ts)
  deletes_of k _ = 0

abbrev pub IsPresent : Dict PeerTx → String → Type 0
IsPresent d k = (p : PeerTx) × (lookup k d ≡ some p)

-- Each sender in a list is the one that made the call.
abbrev pub AllOwned : Dict PeerTx → Dict PeerTx → Type 0
AllOwned calls [] = Unit
AllOwned calls ((k, p) ∷ d) = (lookup k calls ≡ some p) × AllOwned calls d

pub AllOwned-lookup :
    (calls d : Dict PeerTx) (k : String) (p : PeerTx)
    → AllOwned calls d
    → lookup k d ≡ some p
    → lookup k calls ≡ some p
AllOwned-lookup calls [] k p h e = absurd (ground arith)
AllOwned-lookup calls ((j, q) ∷ d) k p h e =
    ground (arith, h.0, eq_iff j k, AllOwned-lookup calls d k p h.1)

pub AllOwned-insert :
    (calls d : Dict PeerTx) (k : String) (p : PeerTx)
    → AllOwned calls d
    → lookup k calls ≡ some p
    → AllOwned calls (insert k p d)
AllOwned-insert calls [] k p h e = (e, tt)
AllOwned-insert calls ((j, q) ∷ d) k p h e = elim (Bool-cases (str_eq j k)) [
  | inl same ↦ rw (same, insert) (e, h.1)
  | inr other ↦ rw (other, insert) (h.0, AllOwned-insert calls d k p h.1 e)
]

pub AllOwned-erase :
    (calls d : Dict PeerTx) (k : String) → AllOwned calls d → AllOwned calls (erase k d)
AllOwned-erase calls [] k h = tt
AllOwned-erase calls ((j, q) ∷ d) k h = elim (Bool-cases (str_eq j k)) [
  | inl same ↦ rw (same, erase) h.1
  | inr other ↦ rw (other, erase) (h.0, AllOwned-erase calls d k h.1)
]

-- What a step may do, if `c` and `d` count the calls and the deletions that are left to those who
-- make it: only what has been executed is deleted, and only what waits is executed.
pub record IsFrame (c d : String → ℕ) (m m' : Memory) : Type 0 where
  pub still :
      (k : String)
      → IsPresent m.tx_list k
      → IsPresent m'.tx_list k ⊎ ((1 ≤ d k) × (member k m.executed ≡ true))
  pub fresh :
      (k : String)
      → member k m'.executed ≡ true
      → (member k m.executed ≡ true) ⊎ ((1 ≤ c k) × IsPresent m'.tx_list k)
  pub grown : (k : String) → member k m.executed ≡ true → member k m'.executed ≡ true

abbrev pub AllReady : Memory → List Tx → Type 0
AllReady m [] = Unit
AllReady m (t ∷ ts) =
    ((member t.header.tx_id m.executed ≡ true) × IsPresent m.tx_list t.header.tx_id) × AllReady m ts

-- What has been executed waits.
abbrev pub AllGuarded : Memory → List Tx → Type 0
AllGuarded m [] = Unit
AllGuarded m (t ∷ ts) =
    (member t.header.tx_id m.executed ≡ true → IsPresent m.tx_list t.header.tx_id) × AllGuarded m ts

pub AllReady-guarded :
    (m : Memory) (ts : List Tx)
    → AllGuarded m ts
    → all_executed m.executed ts ≡ true
    → AllReady m ts
AllReady-guarded m [] h e = tt
AllReady-guarded m (t ∷ ts) h e =
    let executed : member t.header.tx_id m.executed ≡ true = ground (arith, e) in
    ((executed, h.0 executed), AllReady-guarded m ts h.1 (ground (arith, e)))

pub txs_of-head :
    (t : Tx) (ts : List Tx) → txs_of t.header.tx_id (t ∷ ts) ≡ 1 + txs_of t.header.tx_id ts
txs_of-head t ts = ground (arith, eq_refl t.header.tx_id)

module _ {c d : String → ℕ} {m m' : Memory} where
  IsPresent-stays :
      (k : String) (ts : List Tx)
      → IsFrame c d m m'
      → 1 ≤ txs_of k ts
      → txs_of k ts + d k ≤ 1
      → IsPresent m.tx_list k
      → IsPresent m'.tx_list k
  IsPresent-stays k ts frame one le h = elim (frame.still k h) [
    | inl stays ↦ stays
    | inr (gone, _) ↦ absurd (omega (arith, one, le, gone))
  ]

  pub AllReady-frame :
      (ts : List Tx)
      → IsFrame c d m m'
      → ((k : String) → txs_of k ts + d k ≤ 1)
      → AllReady m ts
      → AllReady m' ts
  AllReady-frame [] frame le h = tt
  AllReady-frame (t ∷ ts) frame le h =
      let k = t.header.tx_id in
      (
        (
          frame.grown k h.0.0,
          IsPresent-stays k (t ∷ ts) frame (omega (arith, txs_of-head t ts)) (le k) h.0.1,
        ),
        AllReady-frame ts frame (λ j. omega (arith, le j)) h.1,
      )

  pub AllGuarded-frame :
      (ts : List Tx)
      → IsFrame c d m m'
      → ((k : String) → txs_of k ts + d k ≤ 1)
      → AllGuarded m ts
      → AllGuarded m' ts
  AllGuarded-frame [] frame le h = tt
  AllGuarded-frame (t ∷ ts) frame le h =
      let k = t.header.tx_id in
      (
        λ executed. elim (frame.fresh k executed) [
          | inl before ↦
              IsPresent-stays k (t ∷ ts) frame (omega (arith, txs_of-head t ts)) (le k) (h.0 before)
          | inr (_, present) ↦ present
        ],
        AllGuarded-frame ts frame (λ j. omega (arith, le j)) h.1,
      )

pub AllReady-erase :
    (m : Memory) (k : String) (ts : List Tx)
    → txs_of k ts ≡ 0
    → AllReady m ts
    → AllReady (record m { tx_list = erase k m.tx_list }) ts
AllReady-erase m k [] none_left h = tt
AllReady-erase m k (t ∷ ts) none_left h =
    let other : k ≢ t.header.tx_id = λ e. absurd (ground (arith, none_left, e, eq_refl k)) in
    let (p, found) = h.0.1 in
    (
      (h.0.0, (p, rw (lookup-erase_ne t.header.tx_id k m.tx_list other) found)),
      AllReady-erase m k ts (omega (arith, none_left)) h.1,
    )
