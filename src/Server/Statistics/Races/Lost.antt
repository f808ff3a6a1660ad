-- ===== src/Server/Statistics/Races/Lost.antt =====
-- Two goroutines that count (server/fabsdk.go) and make the same row.
use fabric_byzantine.Base.{
  ℕ, ◌≡◌, refl, sym, ap, ◌∙◌, List, [], ◌∷◌, ◌++◌, Bool-cases, inl, inr, subst, ◌==◌, none, arith,
}
use fabric_byzantine.Server.Statistics.{Statistics, empty_table, int8, new_row}
use fabric_byzantine.Server.Statistics.Tally.{Event, count_event}
use fabric_byzantine.Server.Statistics.Races.{
  counters, Memory, Place, holding, finished, next, turn, run, no_rows, all_ready, view,
}
use fabric_byzantine.Server.Statistics.Races.Serial.{run-append, second, run-second}
use fabric_byzantine.Server.Statistics.Races.Alone.{
  turns, bumped, Ends, turns_end, bumped-counters_new, view_row, num_eq, count_event_ne,
}

-- Both goroutines ask for the row; then the first one makes its other steps, and after it the
-- second one.
abbrev pub overlap : Event → Event → List ℕ
overlap e f = 0 ∷ 1 ∷ (turns (counters e) ++ second (turns (counters f)))

-- The rows that the two goroutines make.
both_rows : Event → Event → Memory
both_rows e f = record {
  cells = new_row (int8 e.byzantine) e.now ∷ new_row (int8 f.byzantine) f.now ∷ [];
  table = λ i. none;
}

-- The table when the second goroutine has written the row after the first one.
shows_last :
    (f : Event) (j a b k : ℕ) (t : Statistics) (m₀ m₁ m₂ : Memory)
    → m₀.table k ≡ none
    → j ≡ int8 f.byzantine
    → Ends j a t m₀ m₁
    → Ends (int8 f.byzantine) b (bumped (counters f) (new_row (int8 f.byzantine) f.now)) m₁ m₂
    → view m₂ k ≡ count_event f empty_table k
shows_last f j a b k t m₀ m₁ m₂ empty same first last = elim (Bool-cases (int8 f.byzantine == k)) [
  | inl at_row ↦
      subst (λ i. view m₂ i ≡ count_event f empty_table i) (num_eq (int8 f.byzantine) k at_row)
        (view_row (int8 f.byzantine) b (bumped (counters f) (new_row (int8 f.byzantine) f.now)) m₁
            m₂ last
          ∙ sym (bumped-counters_new f empty_table refl))
  | inr other ↦
      ground (arith, last.table k, first.table k, empty, same, count_event_ne f empty_table k other)
]

-- Of two transfers that are the first ones under a number of byzantine peers and are counted at
-- the same time, the first one can be lost: there is a schedule by which both goroutines come to
-- their end, and after which the whole table is as if the second transfer alone had been made.
pub first_transfer_lost :
    (e f : Event) (k : ℕ)
    → int8 e.byzantine ≡ int8 f.byzantine
    → let (m, ps) = run (overlap e f) no_rows (all_ready (e ∷ f ∷ [])) in
      (ps ≡ finished ∷ finished ∷ []) × (view m k ≡ count_event f empty_table k)
unfolding run turn next both_rows
first_transfer_lost e f k same =
    let n = int8 f.byzantine in
    let m₀ = both_rows e f in
    let p = holding n 1 (counters f) in
    let (first, places) =
      turns_end (int8 e.byzantine) 0 (counters e) (new_row (int8 e.byzantine) e.now) m₀ (p ∷ [])
        refl in
    let (m₁, ps₁) =
      run (turns (counters e)) m₀ (holding (int8 e.byzantine) 0 (counters e) ∷ p ∷ []) in
    let (last, ended) =
      turns_end n 1 (counters f) (new_row n f.now) m₁ [] (first.others 1 (λ l. omega (arith, l))) in
    rw
      (
        run-append (turns (counters e)) (second (turns (counters f))) m₀
            (holding (int8 e.byzantine) 0 (counters e) ∷ p ∷ []),
        places,
        run-second (turns (counters f)) m₁ finished (p ∷ []),
      )
      (
        ap (λ (ps : List Place). finished ∷ ps) ended,
        shows_last f (int8 e.byzantine) 0 1 k
            (bumped (counters e) (new_row (int8 e.byzantine) e.now)) m₀ m₁
            (run (turns (counters f)) m₁ (p ∷ [])).0 refl same first last,
      )
