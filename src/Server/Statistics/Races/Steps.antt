-- ===== src/Server/Statistics/Races/Steps.antt =====
-- A step of one goroutine that counts (server/fabsdk.go), and what the cells show after it.
use fabric_byzantine.Base.{
  ℕ, zero, suc, ◌+◌, ◌≤◌, ◌≡◌, Option-cases, inl, inr, Bool, true, false, ◌&&◌, List, [], ◌∷◌, ◌++◌,
  some, arith, leb, ◌==◌, get_elem?, if◌then◌else◌,
}
use fabric_byzantine.Server.Statistics.{Statistics, int8, increment, new_row}
use fabric_byzantine.Server.Statistics.Tally.{Event}
use fabric_byzantine.Server.Statistics.Races.Cells.{
  nums, put-byzantine_peers, nums-update, nums-append, nums-append_last, num_of_cell, IsLinked,
}
use fabric_byzantine.Server.Statistics.Races.{
  Counter, normal_tx, normal_commit, byzantine_tx, byzantine_commit, get, put, counters, Memory,
  Place, ready, holding, loaded, finished, update, next,
}

abbrev same : Counter → Counter → Bool
same normal_tx normal_tx = true
same normal_commit normal_commit = true
same byzantine_tx byzantine_tx = true
same byzantine_commit byzantine_commit = true
same _ _ = false

-- Whether a transfer is to be counted by a counter.
abbrev pub counts : Counter → Event → Bool
counts normal_tx e = e.normal
counts normal_commit e = e.normal && e.committed
counts byzantine_tx e = if e.normal then false else true
counts byzantine_commit e = if e.normal then false else e.committed && leb 7 e.byzantine

abbrev pub occurrences : Counter → List Counter → ℕ
occurrences c [] = 0
occurrences c (d ∷ ds) = (if same c d then 1 else 0) + occurrences c ds

get-put :
    (c d : Counter) (v : ℕ) (t : Statistics) → get c (put d v t) ≡ (if same c d then v else get c t)
get-put normal_tx d v t = ground arith
get-put normal_commit d v t = ground arith
get-put byzantine_tx d v t = ground arith
get-put byzantine_commit d v t = ground arith

pub occurrences-counters :
    (c : Counter) (e : Event) → occurrences c (counters e) ≡ (if counts c e then 1 else 0)
unfolding counters
occurrences-counters normal_tx e = ground arith
occurrences-counters normal_commit e = ground arith
occurrences-counters byzantine_tx e = ground arith
occurrences-counters byzantine_commit e = ground arith

-- A counter `c` of the row number `n`, and how often it is to be incremented, at most.
module _ (c : Counter) (n limit : ℕ) where
  abbrev shown : Statistics → ℕ
  shown t = if t.byzantine_peers == n then get c t else 0

  abbrev held : ℕ → Counter → ℕ → ℕ
  held k d v = if k == n then if same c d then v else 0 else 0

  -- The increments that a goroutine has still to make.
  abbrev pub left : Place → ℕ
  left (ready e) = if int8 e.byzantine == n then occurrences c (counters e) else 0
  left (holding k a ds) = if k == n then occurrences c ds else 0
  left (loaded k a d v ds) = held k d 1 + (if k == n then occurrences c ds else 0)
  left finished = 0

  -- With `r` increments still to be made, no cell shows too much,
  abbrev pub AllBounded : ℕ → List Statistics → Type 0
  AllBounded r [] = Unit
  AllBounded r (t ∷ cells) = (shown t + r ≤ limit) × AllBounded r cells

  -- and no goroutine holds a value that is too large, or a pointer to another row.
  abbrev pub Fits : ℕ → List Statistics → Place → Type 0
  Fits r cells (ready e) = Unit
  Fits r cells (holding k a ds) = get_elem? (nums cells) a ≡ some k
  Fits r cells (loaded k a d v ds) = (get_elem? (nums cells) a ≡ some k) × (held k d v + r ≤ limit)
  Fits r cells finished = Unit

  pub AllBounded-le :
      (r r' : ℕ) (cells : List Statistics) → r' ≤ r → AllBounded r cells → AllBounded r' cells
  AllBounded-le r r' [] le h = tt
  AllBounded-le r r' (t ∷ cells) le h = (omega (arith, h.0), AllBounded-le r r' cells le h.1)

  AllBounded-append :
      (r : ℕ) (t : Statistics) (cells : List Statistics)
      → AllBounded r cells
      → shown t + r ≤ limit
      → AllBounded r (cells ++ t ∷ [])
  AllBounded-append r t [] h le = (le, tt)
  AllBounded-append r t (s ∷ cells) h le = (h.0, AllBounded-append r t cells h.1 le)

  pub AllBounded-get :
      (r a : ℕ) (t : Statistics) (cells : List Statistics)
      → AllBounded r cells
      → get_elem? cells a ≡ some t
      → shown t + r ≤ limit
  AllBounded-get r a t [] h e = absurd (ground arith)
  AllBounded-get r zero t (s ∷ cells) h e = ground (arith, h.0)
  AllBounded-get r (suc a) t (s ∷ cells) h e = AllBounded-get r a t cells h.1 e

  shown-put :
      (r k : ℕ) (d : Counter) (v : ℕ) (t : Statistics)
      → t.byzantine_peers ≡ k
      → shown t + r ≤ limit
      → held k d v + r ≤ limit
      → shown (put d v t) + r ≤ limit
  shown-put r k d v t e h le = ground (arith, get-put c d v t, put-byzantine_peers d v t)

  AllBounded-update :
      (r a k : ℕ) (d : Counter) (v : ℕ) (cells : List Statistics)
      → AllBounded r cells
      → get_elem? (nums cells) a ≡ some k
      → held k d v + r ≤ limit
      → AllBounded r (update a (put d v) cells)
  AllBounded-update r a k d v [] h e le = tt
  AllBounded-update r zero k d v (t ∷ cells) h e le =
      (shown-put r k d v t (ground arith) h.0 le, h.1)
  AllBounded-update r (suc a) k d v (t ∷ cells) h e le =
      (h.0, AllBounded-update r a k d v cells h.1 e le)

  get-new_row : (k now : ℕ) → get c (new_row k now) ≡ 0
  get-new_row k now = ground arith

  left-holding :
      (k a : ℕ) (d : Counter) (ds : List Counter)
      → left (holding k a (d ∷ ds)) ≡ held k d 1 + left (holding k a ds)
  left-holding k a d ds = ground arith

  held-get :
      (k : ℕ) (d : Counter) (t : Statistics) → t.byzantine_peers ≡ k → held k d (get d t) ≤ shown t
  held-get k normal_tx t e = ground arith
  held-get k normal_commit t e = ground arith
  held-get k byzantine_tx t e = ground arith
  held-get k byzantine_commit t e = ground arith

  held-increment : (k : ℕ) (d : Counter) (v : ℕ) → held k d (increment v) ≤ held k d v + held k d 1
  held-increment k d v = ground arith

  -- What a step of a goroutine keeps, `r` increments being left to the others.
  pub record Keeps (r : ℕ) (m m' : Memory) (p p' : Place) : Type 0 where
    pub less : left p' ≤ left p
    pub bounded : AllBounded (r + left p') m'.cells
    pub fits : Fits (r + left p') m'.cells p'
    pub grown :
        (a k : ℕ) → get_elem? (nums m.cells) a ≡ some k → get_elem? (nums m'.cells) a ≡ some k

  pub next-Keeps :
      (r : ℕ) (m : Memory) (p : Place)
      → IsLinked m
      → AllBounded (r + left p) m.cells
      → Fits (r + left p) m.cells p
      → r + left p ≤ limit
      → Keeps r m (next m p).0 p (next m p).1
  unfolding next
  next-Keeps r m (ready e) linked bounded fits le =
      elim (Option-cases (m.table (int8 e.byzantine))) [
        | inl absent ↦
            rw (absent, next)
              (record {
                less = omega arith;
                bounded =
                    AllBounded-append (r + left (ready e)) (new_row (int8 e.byzantine) e.now)
                      m.cells bounded (ground (arith, get-new_row (int8 e.byzantine) e.now));
                fits = nums-append_last (new_row (int8 e.byzantine) e.now) m.cells;
                grown = λ a k h. nums-append a k (new_row (int8 e.byzantine) e.now) m.cells h;
              })
        | inr (a, found) ↦
            rw (found, next)
              (record {
                less = omega arith;
                bounded = bounded;
                fits = linked (int8 e.byzantine) a found;
                grown = λ a k h. h;
              })
      ]
  next-Keeps r m (holding k a []) linked bounded fits le = record {
    less = omega arith;
    bounded = AllBounded-le (r + left (holding k a [])) (r + 0) m.cells (ground arith) bounded;
    fits = tt;
    grown = λ a k h. h;
  }
  next-Keeps r m (holding k a (d ∷ ds)) linked bounded fits le =
      let (t, found, num) = num_of_cell a k m.cells fits in
      rw (found, next)
        (record {
          less = omega (arith, left-holding k a d ds);
          bounded =
              AllBounded-le (r + left (holding k a (d ∷ ds))) (r + left (loaded k a d (get d t) ds))
                m.cells (omega (arith, left-holding k a d ds)) bounded;
          fits = (
            fits,
            omega (
              arith,
              left-holding k a d ds,
              held-get k d t num,
              AllBounded-get (r + left (holding k a (d ∷ ds))) a t m.cells bounded found,
            ),
          );
          grown = λ a k h. h;
        })
  next-Keeps r m (loaded k a d v ds) linked bounded fits le = record {
    less = omega arith;
    bounded =
        AllBounded-update (r + left (holding k a ds)) a k d (increment v) m.cells
          (AllBounded-le (r + left (loaded k a d v ds)) (r + left (holding k a ds)) m.cells
            (omega arith) bounded)
          fits.0 (omega (arith, fits.1, held-increment k d v));
    fits = rw (nums-update a d (increment v) m.cells) fits.0;
    grown = λ b j h. rw (nums-update a d (increment v) m.cells) h;
  }
  next-Keeps r m finished linked bounded fits le = record {
    less = omega arith;
    bounded = bounded;
    fits = tt;
    grown = λ a k h. h;
  }

  pub next_links :
      (r : ℕ) (m : Memory) (p : Place)
      → IsLinked m
      → Fits (r + left p) m.cells p
      → Keeps r m (next m p).0 p (next m p).1
      → IsLinked (next m p).0
  unfolding next
  next_links r m (ready e) linked fits keeps k a h =
      keeps.grown a k (linked k a (ground (arith, h)))
  next_links r m (holding j b []) linked fits keeps k a h = ground (arith, h, linked k a)
  next_links r m (holding j b (d ∷ ds)) linked fits keeps k a h =
      keeps.grown a k (linked k a (ground (arith, h)))
  next_links r m (loaded j b d v ds) linked fits keeps k a h = keeps.grown a k (linked k a h)
  next_links r m finished linked fits keeps k a h = linked k a h
