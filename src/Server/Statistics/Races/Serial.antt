-- ===== src/Server/Statistics/Races/Serial.antt =====
-- Goroutines that count (server/fabsdk.go) one after the other.
use mathlib.Core.Path.{fun_ext}
use fabric_byzantine.Base.{ℕ, suc, ◌≡◌, refl, ap, ◌∙◌, List, [], ◌∷◌, ◌++◌, map}
use fabric_byzantine.Server.Statistics.{Table}
use fabric_byzantine.Server.Statistics.Tally.{Event, count_event}
use fabric_byzantine.Server.Statistics.Races.{
  Memory, Place, ready, finished, turn, run, all_ready, view,
}
use fabric_byzantine.Server.Statistics.Races.Cells.{IsLinked}
use fabric_byzantine.Server.Statistics.Races.Alone.{alone}
use fabric_byzantine.Server.Statistics.Races.Counted.{alone_ends, Counted-view, Counted-IsLinked}

pub run-append :
    (s s' : List ℕ) (m : Memory) (ps : List Place)
    → run (s ++ s') m ps ≡ run s' (run s m ps).0 (run s m ps).1
unfolding run
run-append [] s' m ps = refl
run-append (i ∷ s) s' m ps = run-append s s' (turn i m ps).0 (turn i m ps).1

-- The turns of the goroutines after the first one.
abbrev pub second : List ℕ → List ℕ
second s = map (λ i. suc i) s

pub run-second :
    (s : List ℕ) (m : Memory) (p : Place) (ps : List Place)
    → run (second s) m (p ∷ ps) ≡ ((run s m ps).0, p ∷ (run s m ps).1)
unfolding run turn
run-second [] m p ps = refl
run-second (i ∷ s) m p ps = run-second s (turn i m ps).0 p (turn i m ps).1

-- Each goroutine makes all of its steps before the next one begins.
abbrev pub serial : List Event → List ℕ
serial [] = []
serial (e ∷ es) = alone e ++ second (serial es)

-- The transfers counted in one step each, in order.
abbrev pub count_all : List Event → Table → Table
count_all [] table = table
count_all (e ∷ es) table = count_all es (count_event e table)

-- Goroutines that count one after the other all come to their end, and leave the table that
-- Server.Statistics gives for their transfers in order, if the table's pointers lead to rows of
-- their numbers.
pub serial_counts :
    (es : List Event) (m : Memory) (k : ℕ)
    → IsLinked m
    → let (m', ps) = run (serial es) m (all_ready es) in
      (ps ≡ map (λ e. finished) es) × (view m' k ≡ count_all es (view m) k)
unfolding run
serial_counts [] m k linked = (refl, refl)
serial_counts (e ∷ es) m k linked =
    let (counted, done) = alone_ends e m (all_ready es) linked in
    let m₁ = (run (alone e) m (ready e ∷ all_ready es)).0 in
    let (ended, shown) = serial_counts es m₁ k (Counted-IsLinked e m m₁ counted) in
    let same : view m₁ ≡ count_event e (view m) = fun_ext (λ i. Counted-view e m m₁ i counted) in
    rw
      (
        run-append (alone e) (second (serial es)) m (ready e ∷ all_ready es),
        done,
        run-second (serial es) m₁ finished (all_ready es),
      )
      (
        ap (λ (ps : List Place). finished ∷ ps) ended,
        shown ∙ ap (λ (t : Table). count_all es t k) same,
      )
