-- ===== src/Server/Statistics/Races/Counted.antt =====
-- What one goroutine that counts alone (server/fabsdk.go) leaves.
use fabric_byzantine.Base.{
  ℕ, ◌≡◌, ◌≢◌, refl, sym, subst, ◌∙◌, false, List, [], ◌∷◌, some, arith, ◌==◌, length, get_elem?,
  Option-cases, Bool-cases, inl, inr,
}
use fabric_byzantine.Server.Statistics.{Statistics, int8, new_row}
use fabric_byzantine.Server.Statistics.Tally.{Event, count_event}
use fabric_byzantine.Server.Statistics.Races.Cells.{
  get_elem?-append, num_of_cell, cell_of_num, nums, nums-append_last, IsLinked,
}
use fabric_byzantine.Server.Statistics.Races.{counters, Memory, Place, ready, finished, run, view}
use fabric_byzantine.Server.Statistics.Races.Alone.{
  turns, alone, bumped, turns_end, bumped-counters, bumped-counters_new, count_event_ne, found_step,
  made, made_step, view_row, num_eq, apart_found, apart_made, made-IsLinked, bumped_num, Ends,
}

-- How the counting of a transfer ends: the row that it leaves, at its address, and the memory with
-- that row's cell before the counting.
pub record Counted (e : Event) (m m' : Memory) : Type 0 where
  address : ℕ
  row : Statistics
  before : Memory
  ends : Ends (int8 e.byzantine) address row before m'
  num : row.byzantine_peers ≡ int8 e.byzantine
  cell : get_elem? (nums before.cells) address ≡ some (int8 e.byzantine)
  linked : IsLinked before
  same : (k : ℕ) → before.table k ≡ m.table k
  counted : count_event e (view m) (int8 e.byzantine) ≡ some row
  apart :
      (k : ℕ)
      → (int8 e.byzantine == k) ≡ false
      → (b : ℕ) → m.table k ≡ some b
      → (address ≢ b) × (get_elem? before.cells b ≡ get_elem? m.cells b)

pub alone_ends :
    (e : Event) (m : Memory) (ps : List Place)
    → IsLinked m
    → let (m', ps') = run (alone e) m (ready e ∷ ps) in Counted e m m' × (ps' ≡ finished ∷ ps)
alone_ends e m ps linked =
    let n = int8 e.byzantine in
    let schedule = turns (counters e) in
    elim (Option-cases (m.table n)) [
      | inr (a, found) ↦
          (let (t, at_a, num) = num_of_cell a n m.cells (linked n a found) in
            let (ends, done) = turns_end n a (counters e) t m ps at_a in
            subst (λ (r : Memory × List Place). Counted e m r.0 × (r.1 ≡ finished ∷ ps))
              (sym (found_step e a m schedule ps found))
              (
                record {
                  address = a;
                  row = bumped (counters e) t;
                  before = m;
                  ends = ends;
                  num = bumped_num (counters e) t ∙ num;
                  cell = linked n a found;
                  linked = linked;
                  same = λ k. refl;
                  counted = bumped-counters e t (view m) (rw (found, view) at_a);
                  apart = λ k ne. apart_found m n a k linked ne found;
                },
                done,
              ))
      | inl absent ↦
          (let t = new_row n e.now in
            let a = length m.cells in
            let (ends, done) =
              turns_end n a (counters e) t (made e m) ps (get_elem?-append m.cells t) in
            subst (λ (r : Memory × List Place). Counted e m r.0 × (r.1 ≡ finished ∷ ps))
              (sym (made_step e m schedule ps absent))
              (
                record {
                  address = a;
                  row = bumped (counters e) t;
                  before = made e m;
                  ends = ends;
                  num = bumped_num (counters e) t;
                  cell = nums-append_last t m.cells;
                  linked = made-IsLinked e m linked;
                  same = λ k. refl;
                  counted = bumped-counters_new e (view m) (rw (absent, view) refl);
                  apart = λ k ne. apart_made e m k linked;
                },
                done,
              ))
    ]

pub Counted-view :
    (e : Event) (m m' : Memory) (k : ℕ) → Counted e m m' → view m' k ≡ count_event e (view m) k
Counted-view e m m' k c = elim (Bool-cases (int8 e.byzantine == k)) [
  | inl same ↦
      subst (λ i. view m' i ≡ count_event e (view m) i) (num_eq (int8 e.byzantine) k same)
        (view_row (int8 e.byzantine) c.address c.row c.before m' c.ends ∙ sym c.counted)
  | inr other ↦ elim (Option-cases (m.table k)) [
    | inl absent ↦ ground (arith, c.ends.table k, c.same k, count_event_ne e (view m) k other)
    | inr (b, found) ↦
        let (far, kept) = c.apart k other b found in
        ground
          (arith, c.ends.table k, c.same k, c.ends.others b far, count_event_ne e (view m) k other)
  ]
]

pub Counted-IsLinked : (e : Event) (m m' : Memory) → Counted e m m' → IsLinked m'
Counted-IsLinked e m m' c k b h = elim (Bool-cases (int8 e.byzantine == k)) [
  | inl same ↦
      ground (arith, h, c.ends.table k, c.num, cell_of_num c.address c.row m'.cells c.ends.row)
  | inr other ↦
      let found : c.before.table k ≡ some b = ground (arith, h, c.ends.table k) in
      let (s, at_b, num) = num_of_cell b k c.before.cells (c.linked k b found) in
      let far : c.address ≢ b = λ e. ground (arith, e, c.cell, c.linked k b found) in
      ground (arith, num, cell_of_num b s m'.cells (c.ends.others b far ∙ at_b))
]

-- A goroutine that makes all of its steps while no other one runs leaves the table that
-- Server.Statistics gives for the transfer in one step, if the table's pointers lead to rows of
-- their numbers.
alone_counts :
    (e : Event) (m : Memory) (k : ℕ)
    → IsLinked m
    → view (run (alone e) m (ready e ∷ [])).0 k ≡ count_event e (view m) k
alone_counts e m k linked =
    Counted-view e m (run (alone e) m (ready e ∷ [])).0 k (alone_ends e m [] linked).0
