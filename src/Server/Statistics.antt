-- ===== src/Server/Statistics.antt =====
-- server/statistics.go, and the counting at the end of InvokeCC (server/fabsdk.go). A row of the
-- table belongs to a number of byzantine peers, an int8, which stands here as its bit pattern: the
-- number itself up to 127. The table is a function of that pattern. A row is reached only through
-- the table, so the pointers of the source are values here.
pub mod Tally
pub mod Races
mod Tests
use fabric_byzantine.Base.{
  ℕ, ◌+◌, ◌%◌, ◌^◌, Bool, true, false, List, [], ◌∷◌, Option, none, some, leb, ◌==◌, if◌then◌else◌,
}
use fabric_byzantine.Dict.{Dict}

pub record Statistics : Type 0 where
  pub byzantine_peers : ℕ
  pub datetime : ℕ
  pub normal_tx : ℕ
  pub normal_commit : ℕ
  pub byzantine_tx : ℕ
  pub byzantine_commit : ℕ

abbrev pub Table : Type 0
Table = ℕ → Option Statistics

abbrev pub empty_table : Table
empty_table num = none

-- `StatisticsTable[num] = t`
abbrev pub set_row : ℕ → Statistics → Table → Table
set_row num t table i = if num == i then some t else table i

-- The conversion `int8(n)`, and `n++` on a uint64.
abbrev pub int8 : ℕ → ℕ
int8 n = n % 2 ^ 8

abbrev pub increment : ℕ → ℕ
increment n = (n + 1) % 2 ^ 64

abbrev pub new_row : ℕ → ℕ → Statistics
new_row num now = record {
  byzantine_peers = num;
  datetime = now;
  normal_tx = 0;
  normal_commit = 0;
  byzantine_tx = 0;
  byzantine_commit = 0;
}

-- A row that is not in the table is made with the time of the call, and not stored.
unfoldable pub get_table : ℕ → ℕ → Table → Statistics
get_table num now table = elim (table num) [ none ↦ new_row num now | some t ↦ t ]

-- The end of InvokeCC after a transfer that failed: `byzantine` is the length of the list of
-- byzantine peers, `normal` the test `peerType == 0`.
unfoldable pub count_failed : Bool → ℕ → ℕ → Table → Table
unfolding get_table
count_failed normal byzantine now table =
    let t = get_table (int8 byzantine) now table in
    set_row (int8 byzantine)
      (if normal
        then record t { normal_tx = increment t.normal_tx }
        else record t { byzantine_tx = increment t.byzantine_tx })
      table

-- The same after a transfer that succeeded: a byzantine one counts as committed only if the
-- byzantine peers are enough for the endorsement policy.
unfoldable pub count_committed : Bool → ℕ → ℕ → Table → Table
unfolding get_table
count_committed normal byzantine now table =
    let t = get_table (int8 byzantine) now table in
    set_row (int8 byzantine)
      (if normal
        then record t {
          normal_tx = increment t.normal_tx;
          normal_commit = increment t.normal_commit;
        }
        else record t {
          byzantine_tx = increment t.byzantine_tx;
          byzantine_commit =
              if leb 7 byzantine then increment t.byzantine_commit else t.byzantine_commit;
        })
      table

-- The loop of ByzantineNum over the peers.
unfoldable pub count_byzantine : Dict Bool → ℕ → ℕ
count_byzantine [] num = num
count_byzantine ((_, v) ∷ peers) num = count_byzantine peers (if v then num else int8 (num + 1))

-- `ByzantineNum`, on the peers that the query gave: the row that it asks for is dropped, and the
-- table stays what it was.
unfoldable pub byzantine_num : Dict Bool → ℕ → Table → Statistics × Table
unfolding get_table count_byzantine
byzantine_num peers now table = (get_table (count_byzantine peers 0) now table, table)
