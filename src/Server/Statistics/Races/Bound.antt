-- ===== src/Server/Statistics/Races/Bound.antt =====
-- Goroutines that count at the same time (server/fabsdk.go) and what a row shows.
use fabric_byzantine.Base.{
  ℕ, zero, suc, ◌+◌, ◌≤◌, ◌≡◌, refl, Option-cases, inl, inr, ◌&&◌, List, [], ◌∷◌, some, arith,
  get_elem?,
}
use fabric_byzantine.Server.Statistics.{Statistics}
use fabric_byzantine.Server.Statistics.Tally.{Event, count, of_row}
use fabric_byzantine.Server.Statistics.Races.Cells.{nums, cell_of_num, IsLinked}
use fabric_byzantine.Server.Statistics.Races.{
  Counter, get, Memory, Place, ready, holding, loaded, finished, next, turn, run, no_rows,
  all_ready, view,
}
use fabric_byzantine.Server.Statistics.Races.Steps.{
  counts, occurrences-counters, AllBounded, AllBounded-get, AllBounded-le, Fits, left, next-Keeps,
  next_links,
}

module _ (c : Counter) (n limit : ℕ) where
  abbrev all_left : List Place → ℕ
  all_left [] = 0
  all_left (p ∷ ps) = left c n limit p + all_left ps

  abbrev AllFit : ℕ → List Statistics → List Place → Type 0
  AllFit r cells [] = Unit
  AllFit r cells (p ∷ ps) = Fits c n limit r cells p × AllFit r cells ps

  abbrev Grown : Memory → Memory → Type 0
  Grown m m' =
      (a k : ℕ) → get_elem? (nums m.cells) a ≡ some k → get_elem? (nums m'.cells) a ≡ some k

  Fits-Grown :
      (r r' : ℕ) (m m' : Memory) (p : Place)
      → r' ≤ r
      → Grown m m'
      → Fits c n limit r m.cells p
      → Fits c n limit r' m'.cells p
  Fits-Grown r r' m m' (ready e) le grown h = tt
  Fits-Grown r r' m m' (holding k a ds) le grown h = grown a k h
  Fits-Grown r r' m m' (loaded k a d v ds) le grown h = (grown a k h.0, omega (arith, h.1))
  Fits-Grown r r' m m' finished le grown h = tt

  AllFit-Grown :
      (r r' : ℕ) (m m' : Memory) (ps : List Place)
      → r' ≤ r
      → Grown m m'
      → AllFit r m.cells ps
      → AllFit r' m'.cells ps
  AllFit-Grown r r' m m' [] le grown h = tt
  AllFit-Grown r r' m m' (p ∷ ps) le grown h =
      (Fits-Grown r r' m m' p le grown h.0, AllFit-Grown r r' m m' ps le grown h.1)

  -- What holds of all goroutines and of the memory, `r` increments being left c n limit to other
  -- ones.
  record Sound (r : ℕ) (m : Memory) (ps : List Place) : Type 0 where
    within : r + all_left ps ≤ limit
    bounded : AllBounded c n limit (r + all_left ps) m.cells
    fits : AllFit (r + all_left ps) m.cells ps
    linked : IsLinked m

  turn_keeps :
      (i r : ℕ) (m : Memory) (ps : List Place)
      → Sound r m ps
      → let (m', ps') = turn i m ps in Sound r m' ps' × (all_left ps' ≤ all_left ps) × Grown m m'
  unfolding turn
  turn_keeps i r m [] s = (s, omega arith, λ a k h. h)
  turn_keeps zero r m (p ∷ ps) s =
      let all = r + all_left (p ∷ ps) in
      let rest = r + all_left ps in
      let fits =
        Fits-Grown all (rest + left c n limit p) m m p (omega arith) (λ a k h. h) s.fits.0 in
      let keeps =
        next-Keeps c n limit rest m p s.linked
          (AllBounded-le c n limit all (rest + left c n limit p) m.cells (omega arith) s.bounded)
          fits (omega (arith, s.within)) in
      let (m', p') = next m p in
      let now = r + all_left (p' ∷ ps) in
      (
        record {
          within = omega (arith, s.within, keeps.less);
          bounded =
              AllBounded-le c n limit (rest + left c n limit p') now m'.cells (omega arith)
                keeps.bounded;
          fits = (
            Fits-Grown (rest + left c n limit p') now m' m' p' (omega arith) (λ a k h. h)
                keeps.fits,
            AllFit-Grown all now m m' ps (omega (arith, keeps.less)) keeps.grown s.fits.1,
          );
          linked = next_links c n limit rest m p s.linked fits keeps;
        },
        omega (arith, keeps.less),
        keeps.grown,
      )
  turn_keeps (suc i) r m (p ∷ ps) s =
      let all = r + all_left (p ∷ ps) in
      let before = r + left c n limit p + all_left ps in
      let (after, less, grown) = turn_keeps i (r + left c n limit p) m ps (record {
        within = omega (arith, s.within);
        bounded = AllBounded-le c n limit all before m.cells (omega arith) s.bounded;
        fits = AllFit-Grown all before m m ps (omega arith) (λ a k h. h) s.fits.1;
        linked = s.linked;
      }) in
      let (m', ps') = turn i m ps in
      let now = r + left c n limit p + all_left ps' in
      (
        record {
          within = omega (arith, after.within);
          bounded =
              AllBounded-le c n limit now (r + all_left (p ∷ ps')) m'.cells (omega arith)
                after.bounded;
          fits = (
            Fits-Grown all (r + all_left (p ∷ ps')) m m' p (omega (arith, less)) grown s.fits.0,
            AllFit-Grown now (r + all_left (p ∷ ps')) m' m' ps' (omega arith) (λ a k h. h)
                after.fits,
          );
          linked = after.linked;
        },
        omega (arith, less),
        grown,
      )

  run_keeps :
      (schedule : List ℕ) (m : Memory) (ps : List Place)
      → Sound 0 m ps
      → let (m', ps') = run schedule m ps in Sound 0 m' ps'
  unfolding run
  run_keeps [] m ps s = s
  run_keeps (i ∷ schedule) m ps s =
      run_keeps schedule (turn i m ps).0 (turn i m ps).1 (turn_keeps i 0 m ps s).0

  view_bounded :
      (m : Memory) (ps : List Place) (t : Statistics)
      → Sound 0 m ps
      → view m n ≡ some t
      → get c t ≤ limit
  view_bounded m ps t s e = elim (Option-cases (m.table n)) [
    | inl absent ↦ absurd (ground arith)
    | inr (a, found) ↦
        let at_a = rw (found, view) at e in
        ground (
          arith,
          AllBounded-get c n limit (0 + all_left ps) a t m.cells s.bounded at_a,
          cell_of_num a t m.cells at_a,
          s.linked n a found,
        )
  ]

  start-AllFit : (r : ℕ) (es : List Event) → AllFit r [] (all_ready es)
  start-AllFit r [] = tt
  start-AllFit r (e ∷ es) = (tt, start-AllFit r es)

  left-start :
      (es : List Event) → all_left (all_ready es) ≡ count (λ e. of_row n e && counts c e) es
  left-start [] = refl
  left-start (e ∷ es) = ground (arith, left-start es, occurrences-counters c e)

-- From the server's start, whatever transfers are made, by however many goroutines at the same
-- time, and in whichever order their steps are taken: no counter of any row is above the number of
-- transfers that it is to count.
pub never_above :
    (c : Counter) (n : ℕ) (es : List Event) (schedule : List ℕ) (t : Statistics)
    → view (run schedule no_rows (all_ready es)).0 n ≡ some t
    → get c t ≤ count (λ e. of_row n e && counts c e) es
never_above c n es schedule t e =
    let limit = count (λ e. of_row n e && counts c e) es in
    let sound = run_keeps c n limit schedule no_rows (all_ready es) (record {
      within = omega (arith, left-start c n limit es);
      bounded = tt;
      fits = start-AllFit c n limit (0 + all_left c n limit (all_ready es)) es;
      linked = λ k a h. absurd (ground arith);
    }) in
    view_bounded c n limit (run schedule no_rows (all_ready es)).0
      (run schedule no_rows (all_ready es)).1 t sound e
