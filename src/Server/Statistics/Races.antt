-- ===== src/Server/Statistics/Races.antt =====
-- The counting at the end of InvokeCC (server/fabsdk.go) by goroutines that run at the same time.
-- A row is a cell that goroutines reach by a pointer: `GetTable` reads the table, a counter is
-- loaded and stored, and the row is written into the table, each in a step of its own. A schedule
-- names the goroutine that makes the next step. That Go may stop a program whose goroutines write
-- a map at the same time is not modelled.
pub mod Alone
pub mod Bound
pub mod Cells
pub mod Counted
pub mod Lost
pub mod Serial
pub mod Steps
use fabric_byzantine.Base.{
  ℕ, zero, suc, Bool, true, false, ◌&&◌, List, [], ◌∷◌, ◌++◌, map, Option, none, some, leb, ◌==◌,
  length, get_elem?, if◌then◌else◌,
}
use fabric_byzantine.Server.Statistics.{Statistics, Table, int8, increment, new_row}
use fabric_byzantine.Server.Statistics.Tally.{Event}

-- The counters of a row.
pub data Counter : Type 0 where
  normal_tx : Counter
  normal_commit : Counter
  byzantine_tx : Counter
  byzantine_commit : Counter

abbrev pub get : Counter → Statistics → ℕ
get normal_tx t = t.normal_tx
get normal_commit t = t.normal_commit
get byzantine_tx t = t.byzantine_tx
get byzantine_commit t = t.byzantine_commit

abbrev pub put : Counter → ℕ → Statistics → Statistics
put normal_tx v t = record t { normal_tx = v }
put normal_commit v t = record t { normal_commit = v }
put byzantine_tx v t = record t { byzantine_tx = v }
put byzantine_commit v t = record t { byzantine_commit = v }

-- The counters that InvokeCC increments for a transfer, in order.
unfoldable pub counters : Event → List Counter
counters e =
    if e.normal
    then normal_tx ∷ (if e.committed then normal_commit ∷ [] else [])
    else byzantine_tx ∷ (if e.committed && leb 7 e.byzantine then byzantine_commit ∷ [] else [])

-- The rows by their addresses, and the table's pointers.
pub record Memory : Type 0 where
  pub cells : List Statistics
  pub table : ℕ → Option ℕ

-- Where a goroutine is: before GetTable; with the row's number and address and the counters that
-- are left; with a counter loaded; at the end.
pub data Place : Type 0 where
  ready : Event → Place
  holding : ℕ → ℕ → List Counter → Place
  loaded : ℕ → ℕ → Counter → ℕ → List Counter → Place
  finished : Place

abbrev pub update {ℓ} : {A : Type ℓ} → ℕ → (A → A) → List A → List A
update a f [] = []
update zero f (x ∷ xs) = f x ∷ xs
update (suc a) f (x ∷ xs) = x ∷ update a f xs

-- One step of a goroutine. A pointer to no cell does not come up; it would stay where it is.
unfoldable pub next : Memory → Place → Memory × Place
unfolding counters
next m (ready e) = elim (m.table (int8 e.byzantine)) [
  | some a ↦ (m, holding (int8 e.byzantine) a (counters e))
  | none ↦ (
    record m { cells = m.cells ++ new_row (int8 e.byzantine) e.now ∷ [] },
    holding (int8 e.byzantine) (length m.cells) (counters e),
  )
]
next m (holding n a []) = (record m { table = λ i. if n == i then some a else m.table i }, finished)
next m (holding n a (c ∷ cs)) = elim (get_elem? m.cells a) [
  | none ↦ (m, holding n a (c ∷ cs))
  | some t ↦ (m, loaded n a c (get c t) cs)
]
next m (loaded n a c v cs) =
    (record m { cells = update a (put c (increment v)) m.cells }, holding n a cs)
next m finished = (m, finished)

-- A step of the goroutine at a position.
unfoldable pub turn : ℕ → Memory → List Place → Memory × List Place
unfolding next
turn i m [] = (m, [])
turn zero m (p ∷ ps) = let (m', p') = next m p in (m', p' ∷ ps)
turn (suc i) m (p ∷ ps) = let (m', ps') = turn i m ps in (m', p ∷ ps')

unfoldable pub run : List ℕ → Memory → List Place → Memory × List Place
unfolding turn
run [] m ps = (m, ps)
run (i ∷ schedule) m ps = let (m', ps') = turn i m ps in run schedule m' ps'

-- The server's start: no row, and a goroutine for each transfer.
abbrev pub no_rows : Memory
no_rows = record { cells = []; table = λ i. none }

abbrev pub all_ready : List Event → List Place
all_ready es = map ready es

-- The table as Server.Statistics has it.
abbrev pub view : Memory → Table
view m n = elim (m.table n) [ none ↦ none | some a ↦ get_elem? m.cells a ]
