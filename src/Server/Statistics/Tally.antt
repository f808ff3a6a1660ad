-- ===== src/Server/Statistics/Tally.antt =====
-- The table of server/statistics.go and the history of transfers that InvokeCC counts.
use fabric_byzantine.Base.{
  ℕ, ◌+◌, ◌%◌, ◌^◌, ◌≤◌, ◌<◌, ◌≡◌, refl, Bool, true, not, ◌&&◌, List, [], ◌∷◌, none, some, arith,
  leb, ◌==◌, if◌then◌else◌,
}
use fabric_byzantine.Server.Statistics.{
  Statistics, Table, empty_table, int8, new_row, get_table, count_failed, count_committed,
}

-- A transfer that reached its end: whether its sender was a normal one, how many peers were
-- byzantine then, whether it was committed, and the time.
pub record Event : Type 0 where
  pub normal : Bool
  pub byzantine : ℕ
  pub committed : Bool
  pub now : ℕ

unfoldable pub count_event : Event → Table → Table
unfolding count_failed count_committed
count_event e table =
    if e.committed
    then count_committed e.normal e.byzantine e.now table
    else count_failed e.normal e.byzantine e.now table

-- The table after a history, the last event first.
unfoldable pub after : List Event → Table
after [] = empty_table
after (e ∷ es) = count_event e (after es)

-- How many events of a history pass a test.
abbrev pub count : (Event → Bool) → List Event → ℕ
count p [] = 0
count p (e ∷ es) = (if p e then 1 else 0) + count p es

abbrev pub of_row : ℕ → Event → Bool
of_row num e = int8 e.byzantine == num

abbrev pub row : ℕ → List Event → Statistics
row num es = elim (after es num) [ none ↦ new_row num 0 | some t ↦ t ]

normal_tx_count :
    (num : ℕ) (es : List Event)
    → (row num es).normal_tx ≡ count (λ e. of_row num e && e.normal) es % 2 ^ 64
unfolding after count_event get_table
normal_tx_count num [] = omega arith
normal_tx_count num (e ∷ es) = ground (arith, normal_tx_count num es)

normal_commit_count :
    (num : ℕ) (es : List Event)
    → (row num es).normal_commit
      ≡ count (λ e. of_row num e && (e.normal && e.committed)) es % 2 ^ 64
unfolding after count_event get_table
normal_commit_count num [] = omega arith
normal_commit_count num (e ∷ es) = ground (arith, normal_commit_count num es)

byzantine_tx_count :
    (num : ℕ) (es : List Event)
    → (row num es).byzantine_tx ≡ count (λ e. of_row num e && not e.normal) es % 2 ^ 64
unfolding after count_event get_table
byzantine_tx_count num [] = omega arith
byzantine_tx_count num (e ∷ es) = ground (arith, byzantine_tx_count num es)

byzantine_commit_count :
    (num : ℕ) (es : List Event)
    → (row num es).byzantine_commit
      ≡ count (λ e. of_row num e && (not e.normal && (e.committed && leb 7 e.byzantine))) es
        % 2 ^ 64
unfolding after count_event get_table
byzantine_commit_count num [] = omega arith
byzantine_commit_count num (e ∷ es) = ground (arith, byzantine_commit_count num es)

-- The counters that a history should show in the row of a number of byzantine peers.
pub record IsTally (num : ℕ) (es : List Event) (t : Statistics) : Type 0 where
  pub normal_tx : t.normal_tx ≡ count (λ e. of_row num e && e.normal) es % 2 ^ 64
  pub normal_commit :
      t.normal_commit ≡ count (λ e. of_row num e && (e.normal && e.committed)) es % 2 ^ 64
  pub byzantine_tx : t.byzantine_tx ≡ count (λ e. of_row num e && not e.normal) es % 2 ^ 64
  pub byzantine_commit :
      t.byzantine_commit
      ≡ count (λ e. of_row num e && (not e.normal && (e.committed && leb 7 e.byzantine))) es
        % 2 ^ 64

-- After any history of transfers that are counted one after the other, none while another is being
-- counted, each row shows, up to the wrap-around of a uint64, how many
-- normal and byzantine transfers there were under its number of byzantine peers, how many normal
-- ones were committed, and how many byzantine ones under seven byzantine peers or more.
pub row-IsTally : (num : ℕ) (es : List Event) → IsTally num es (row num es)
row-IsTally num es = record {
  normal_tx = normal_tx_count num es;
  normal_commit = normal_commit_count num es;
  byzantine_tx = byzantine_tx_count num es;
  byzantine_commit = byzantine_commit_count num es;
}

pub count_le :
    (p q : Event → Bool) (es : List Event)
    → ((e : Event) → p e ≡ true → q e ≡ true)
    → count p es ≤ count q es
count_le p q [] h = omega arith
count_le p q (e ∷ es) h = ground (arith, h e, count_le p q es h)

-- While fewer than 2^64 transfers were made, no row shows more commits than transfers.
pub commits_le :
    (num : ℕ) (es : List Event)
    → count (λ e. true) es < 2 ^ 64
    → ((row num es).normal_commit ≤ (row num es).normal_tx)
      × ((row num es).byzantine_commit ≤ (row num es).byzantine_tx)
commits_le num es small = omega (
  arith,
  normal_commit_count num es,
  normal_tx_count num es,
  byzantine_commit_count num es,
  byzantine_tx_count num es,
  count_le (λ e. of_row num e && (e.normal && e.committed)) (λ e. of_row num e && e.normal) es
      (λ e h. ground arith),
  count_le (λ e. of_row num e && (not e.normal && (e.committed && leb 7 e.byzantine)))
      (λ e. of_row num e && not e.normal) es (λ e h. ground arith),
  count_le (λ e. of_row num e && e.normal) (λ e. true) es (λ e h. refl),
  count_le (λ e. of_row num e && not e.normal) (λ e. true) es (λ e h. refl),
)
