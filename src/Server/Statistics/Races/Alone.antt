-- ===== src/Server/Statistics/Races/Alone.antt =====
-- The steps of a goroutine that counts (server/fabsdk.go) while no other one runs.
use fabric_byzantine.Base.{
  ℕ, ◌≡◌, ◌≢◌, refl, sym, ap, ◌∙◌, true, false, List, [], ◌∷◌, ◌++◌, none, some, arith, ◌==◌,
  length, get_elem?, if◌then◌else◌,
}
use fabric_byzantine.Server.Statistics.{Statistics, Table, int8, increment, new_row, get_table}
use fabric_byzantine.Server.Statistics.Tally.{Event, count_event}
use fabric_byzantine.Server.Statistics.Races.Cells.{
  get_elem?-update, get_elem?-update_ne, get_elem?-append_left, num_of_cell, nums-append,
  put-byzantine_peers, IsLinked,
}
use fabric_byzantine.Server.Statistics.Races.{
  Counter, get, put, counters, Memory, Place, ready, holding, loaded, finished, update, next, turn,
  run, view,
}

-- The turns of the only goroutine, for the counters that it has left, and for all of its steps.
abbrev pub turns : List Counter → List ℕ
turns [] = 0 ∷ []
turns (d ∷ ds) = 0 ∷ 0 ∷ turns ds

abbrev pub alone : Event → List ℕ
alone e = 0 ∷ turns (counters e)

abbrev pub bumped : List Counter → Statistics → Statistics
bumped [] t = t
bumped (d ∷ ds) t = bumped ds (put d (increment (get d t)) t)

-- Where the goroutine leaves the memory: the row at its address, and the table pointing there.
pub record Ends (n a : ℕ) (t : Statistics) (m m' : Memory) : Type 0 where
  pub row : get_elem? m'.cells a ≡ some t
  pub others : (b : ℕ) → a ≢ b → get_elem? m'.cells b ≡ get_elem? m.cells b
  pub table : (i : ℕ) → m'.table i ≡ (if n == i then some a else m.table i)

load_step :
    (n a : ℕ) (d : Counter) (ds : List Counter) (t : Statistics) (m : Memory)
    → get_elem? m.cells a ≡ some t
    → next m (holding n a (d ∷ ds)) ≡ (m, loaded n a d (get d t) ds)
unfolding next
load_step n a d ds t m e = rw (e, next) refl

two_turns :
    (n a : ℕ) (d : Counter) (ds : List Counter) (t : Statistics) (m : Memory) (ps : List Place)
    (schedule : List ℕ)
    → get_elem? m.cells a ≡ some t
    → run (0 ∷ 0 ∷ schedule) m (holding n a (d ∷ ds) ∷ ps)
      ≡ run schedule
          (record m { cells = update a (put d (increment (get d t))) m.cells })
          (holding n a ds ∷ ps)
unfolding run turn next
two_turns n a d ds t m ps schedule e =
    ap (λ (r : Memory × Place). run schedule (next r.0 r.1).0 ((next r.0 r.1).1 ∷ ps))
      (load_step n a d ds t m e)

pub turns_end :
    (n a : ℕ) (ds : List Counter) (t : Statistics) (m : Memory) (ps : List Place)
    → get_elem? m.cells a ≡ some t
    → let (m', ps') = run (turns ds) m (holding n a ds ∷ ps) in
      Ends n a (bumped ds t) m m' × (ps' ≡ finished ∷ ps)
unfolding run turn next
turns_end n a [] t m ps e = (record { row = e; others = λ b ne. refl; table = λ i. refl }, refl)
turns_end n a (d ∷ ds) t m ps e =
    let t₁ = put d (increment (get d t)) t in
    let m₁ : Memory = record m { cells = update a (put d (increment (get d t))) m.cells } in
    let (rest, places) =
      turns_end n a ds t₁ m₁ ps (get_elem?-update a (put d (increment (get d t))) t m.cells e) in
    rw (two_turns n a d ds t m ps (turns ds) e) (
      record {
        row = rest.row;
        others = λ b ne.
            rest.others b ne ∙ get_elem?-update_ne a b (put d (increment (get d t))) m.cells ne;
        table = rest.table;
      },
      places,
    )

-- A transfer's last row.
pub bumped-counters :
    (e : Event) (t : Statistics) (table : Table)
    → table (int8 e.byzantine) ≡ some t
    → count_event e table (int8 e.byzantine) ≡ some (bumped (counters e) t)
unfolding count_event counters get_table
bumped-counters e t table known = ground (arith, known)

pub bumped-counters_new :
    (e : Event) (table : Table)
    → table (int8 e.byzantine) ≡ none
    → count_event e table (int8 e.byzantine)
      ≡ some (bumped (counters e) (new_row (int8 e.byzantine) e.now))
unfolding count_event counters get_table
bumped-counters_new e table absent = ground (arith, absent)

pub count_event_ne :
    (e : Event) (table : Table) (k : ℕ)
    → (int8 e.byzantine == k) ≡ false
    → count_event e table k ≡ table k
unfolding count_event get_table
count_event_ne e table k ne = ground (arith, ne)

-- The first step of a goroutine, with a row and without one.
pub found_step :
    (e : Event) (a : ℕ) (m : Memory) (schedule : List ℕ) (ps : List Place)
    → m.table (int8 e.byzantine) ≡ some a
    → run (0 ∷ schedule) m (ready e ∷ ps)
      ≡ run schedule m (holding (int8 e.byzantine) a (counters e) ∷ ps)
unfolding run turn next
found_step e a m schedule ps found = rw (found, next, turn, run) refl

abbrev pub made : Event → Memory → Memory
made e m = record m { cells = m.cells ++ new_row (int8 e.byzantine) e.now ∷ [] }

made_next :
    (e : Event) (m : Memory)
    → m.table (int8 e.byzantine) ≡ none
    → next m (ready e) ≡ (made e m, holding (int8 e.byzantine) (length m.cells) (counters e))
unfolding next
made_next e m absent = ground (arith, absent)

pub made_step :
    (e : Event) (m : Memory) (schedule : List ℕ) (ps : List Place)
    → m.table (int8 e.byzantine) ≡ none
    → run (0 ∷ schedule) m (ready e ∷ ps)
      ≡ run schedule (made e m) (holding (int8 e.byzantine) (length m.cells) (counters e) ∷ ps)
unfolding run turn next
made_step e m schedule ps absent =
    ap (λ (r : Memory × Place). run schedule r.0 (r.1 ∷ ps)) (made_next e m absent)

-- The row under the number, and the other rows, after the goroutine's end.
pub view_row : (n a : ℕ) (t : Statistics) (m m' : Memory) → Ends n a t m m' → view m' n ≡ some t
view_row n a t m m' ends = ground (arith, ends.table n, ends.row)

pub num_eq : (n k : ℕ) → (n == k) ≡ true → n ≡ k
num_eq n k e = ground arith

-- The rows of different numbers are different cells.
pub apart_found :
    (m : Memory) (n a k : ℕ)
    → IsLinked m
    → (n == k) ≡ false
    → m.table n ≡ some a
    → (b : ℕ) → m.table k ≡ some b
    → (a ≢ b) × (get_elem? m.cells b ≡ get_elem? m.cells b)
apart_found m n a k linked ne found b at_k =
    (λ e. ground (arith, e, linked n a found, linked k b at_k), refl)

pub apart_made :
    (e : Event) (m : Memory) (k : ℕ)
    → IsLinked m
    → (b : ℕ) → m.table k ≡ some b
    → (length m.cells ≢ b) × (get_elem? (made e m).cells b ≡ get_elem? m.cells b)
apart_made e m k linked b at_k =
    let (t, known, _) = num_of_cell b k m.cells (linked k b at_k) in
    let (ne, kept) = get_elem?-append_left m.cells (new_row (int8 e.byzantine) e.now) t b known in
    (ne, kept ∙ sym known)

pub made-IsLinked : (e : Event) (m : Memory) → IsLinked m → IsLinked (made e m)
made-IsLinked e m linked k a h =
    nums-append a k (new_row (int8 e.byzantine) e.now) m.cells (linked k a h)

pub bumped_num :
    (ds : List Counter) (t : Statistics) → (bumped ds t).byzantine_peers ≡ t.byzantine_peers
bumped_num [] t = refl
bumped_num (d ∷ ds) t =
    bumped_num ds (put d (increment (get d t)) t) ∙ put-byzantine_peers d (increment (get d t)) t
