-- ===== src/Server/Statistics/Tests.antt =====
-- The theorems about the counting of server/fabsdk.go at concrete inputs: two transfers under two
-- byzantine peers.
use fabric_byzantine.Base.{ℕ, ◌≤◌, ◌≡◌, refl, true, false, ◌&&◌, List, [], ◌∷◌, some, arith}
use fabric_byzantine.Server.Statistics.{Statistics, empty_table}
use fabric_byzantine.Server.Statistics.Tally.{Event, count, of_row, count_event}
use fabric_byzantine.Server.Statistics.Races.{
  normal_tx, get, counters, finished, next, turn, run, no_rows, all_ready, view,
}
use fabric_byzantine.Server.Statistics.Races.Serial.{serial, count_all, serial_counts}
use fabric_byzantine.Server.Statistics.Races.Bound.{never_above}
use fabric_byzantine.Server.Statistics.Races.Steps.{counts}
use fabric_byzantine.Server.Statistics.Races.Lost.{overlap, first_transfer_lost}

abbrev normal_transfer : Event
normal_transfer = record { normal = true; byzantine = 2; committed = true; now = 7 }

abbrev byzantine_transfer : Event
byzantine_transfer = record { normal = false; byzantine = 2; committed = true; now = 5 }

abbrev both : List Event
both = normal_transfer ∷ byzantine_transfer ∷ []

-- Both goroutines count, one after the other.
abbrev in_turn : List ℕ
in_turn = 0 ∷ 0 ∷ 0 ∷ 0 ∷ 0 ∷ 0 ∷ 1 ∷ 1 ∷ 1 ∷ 1 ∷ []

abbrev shown : Statistics
shown = record {
  byzantine_peers = 2;
  datetime = 7;
  normal_tx = 1;
  normal_commit = 1;
  byzantine_tx = 1;
  byzantine_commit = 0;
}

in_turn-shown : view (run in_turn no_rows (all_ready both)).0 2 ≡ some shown
unfolding run turn next counters
in_turn-shown = refl

never_above_example : get normal_tx shown ≤ count (λ e. of_row 2 e && counts normal_tx e) both
never_above_example = never_above normal_tx 2 both in_turn shown in_turn-shown

serial_counts_example :
    let (m', ps) = run (serial both) no_rows (all_ready both) in
    (ps ≡ finished ∷ finished ∷ []) × (view m' 2 ≡ count_all both empty_table 2)
serial_counts_example = serial_counts both no_rows 2 (λ k a h. absurd (ground arith))

first_transfer_lost_example :
    let (m, ps) = run (overlap normal_transfer byzantine_transfer) no_rows (all_ready both) in
    (ps ≡ finished ∷ finished ∷ []) × (view m 2 ≡ count_event byzantine_transfer empty_table 2)
first_transfer_lost_example = first_transfer_lost normal_transfer byzantine_transfer 2 refl
